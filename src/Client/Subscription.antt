-- ===== src/Client/Subscription.antt =====
-- internal/herdrapi/client_unix.go's `Subscribe`: the acknowledgement and the stream of events that
-- follows it on the same connection. Whether the receiver takes an event before the context ends is an
-- input. The decoding of JSON is a parameter; dialling and deadlines are not modelled.
pub mod Delivery
pub mod Handshake
pub mod Opening
use herdr_tabline.Base.{
  ℕ, zero, suc, ◌+◌, String, Bool, Option, none, some, List, [], ◌∷◌, ◌==◌, string_eq,
  if◌then◌else◌,
}
use herdr_tabline.Base.Result.{Result, ok, err, ◌>>=◌, map_err}
use herdr_tabline.Client.{
  Bytes, Slice, ReadError, Decoder, ClientError, read_acknowledgement, acknowledgement_malformed,
  acknowledgement_of_type, read_newline_frame, decode_response, context_error, raw_result,
}

-- The raw `data` is not read by the program.
pub record Event : Type 0 where
  pub kind : String
  pub data_raw : String

-- `json.Unmarshal` of an acknowledgement's result, as its `type`, and of an event.
pub record EventDecoder : Type 0 where
  pub type_of : String → Result String String
  pub event : Bytes → Result String Event

pub data StreamEnd : Type 0 where
  read_ended : ReadError → StreamEnd
  event_malformed : String → StreamEnd
  kindless cancelled : StreamEnd
  -- the fuel's end
  unfinished : StreamEnd

-- What was sent on the channel before it was closed, and why it was.
pub record Stream : Type 0 where
  pub delivered : List Event
  pub ended : StreamEnd

abbrev pub closes_by : StreamEnd → Stream
closes_by e = record { delivered = []; ended = e }

abbrev pub after_event : Event → Stream → Stream
after_event e s = record s { delivered = e ∷ s.delivered }

-- What becomes of a decoded frame; `n` events have been sent before.
abbrev pub after_decoding : (ℕ → Bool) → ℕ → Result String Event → Stream → Stream
after_decoding accepts n (err e) more = closes_by (event_malformed e)
after_decoding accepts n (ok event) more =
    if event.kind == ""
    then closes_by kindless
    else if accepts n
    then after_event event more
    else closes_by cancelled

module _ (D : Decoder) (E : EventDecoder) (max : ℕ) where
  abbrev pub typed : Option String → Result ClientError String
  typed none = err (acknowledgement_malformed "unexpected end of JSON input")
  typed (some raw) = map_err acknowledgement_malformed (E.type_of raw)

  abbrev pub check_type : String → Result ClientError (Unit {0})
  check_type kind =
      if kind == "subscription_started" then ok tt else err (acknowledgement_of_type kind)

  -- From the acknowledgement on: what is left for the stream.
  unfoldable pub acknowledged :
      Option String → String → List Slice → Result ClientError (List Slice)
  acknowledged ctx id slices = do
    (line, rest) ←
        map_err (λ (e : ReadError). read_acknowledgement (context_error ctx e))
          (read_newline_frame max slices)
    response ← decode_response D line id
    raw ← raw_result response
    kind ← typed raw
    started ← check_type kind
    ok rest

  -- The goroutine's loop, on fuel for its rounds.
  unfoldable pub stream : (ℕ → Bool) → ℕ → ℕ → List Slice → Stream
  stream accepts zero n slices = closes_by unfinished
  stream accepts (suc fuel) n slices = elim (read_newline_frame max slices) [
    | err e ↦ closes_by (read_ended e)
    | ok (line, rest) ↦ after_decoding accepts n (E.event line) (stream accepts fuel (n + 1) rest)
  ]
