-- ===== src/Client/Subscription/Delivery.antt =====
-- Which events a subscription of internal/herdrapi/client_unix.go delivers, and that its loop ends.
use herdr_tabline.Base.{
  ℕ, zero, suc, ◌+◌, ◌≤◌, ◌<◌, ◌≡◌, ◌≢◌, refl, ap, inl, inr, ◌∙◌, arith, String, Bool, true, false,
  none, List, [], ◌∷◌, ◌++◌, length, ltb, leb, ◌==◌, string_eq, Bool-cases,
}
use herdr_tabline.Base.Result.{Result, ok, err}
use herdr_tabline.Client.{
  Bytes, Slice, SliceEnd, terminated, buffer_full, end_of_stream, broken, Frame, ReadError, Decoder,
  after_slice, read_loop, read_frame_bytes, read_newline_frame,
}
use herdr_tabline.Client.Answers.{newline_frame-ok}
use herdr_tabline.Client.Subscription.{
  Event, EventDecoder, StreamEnd, read_ended, event_malformed, kindless, cancelled, unfinished,
  Stream, after_event, after_decoding, stream,
}

-- A frame on the wire: the chunks that fill the reader's buffer, and the one with the newline.
pub record Message : Type 0 where
  pub full : List Bytes
  pub final : Bytes

abbrev pub joined : List Bytes → Bytes → Bytes
joined [] final = final
joined (b ∷ bs) final = b ++ joined bs final

abbrev pub sliced : List Bytes → Bytes → List Slice → List Slice
sliced [] final rest = record { chunk = final; ends = terminated } ∷ rest
sliced (b ∷ bs) final rest = record { chunk = b; ends = buffer_full } ∷ sliced bs final rest

length-++ : (a b : Bytes) → length (a ++ b) ≡ length a + length b
length-++ [] b = omega arith
length-++ (x ∷ a) b = omega (arith, length-++ a b)

++-assoc : (a b c : Bytes) → (a ++ b) ++ c ≡ a ++ (b ++ c)
++-assoc [] b c = refl
++-assoc (x ∷ a) b c = ap (λ xs. x ∷ xs) (++-assoc a b c)

joined-length : (full : List Bytes) (final : Bytes) → length final ≤ length (joined full final)
joined-length [] final = omega arith
joined-length (b ∷ bs) final = omega (arith, joined-length bs final, length-++ b (joined bs final))

read_loop-sliced :
    (max : ℕ) (frame : Bytes) (full : List Bytes) (final : Bytes) (rest : List Slice)
    → 0 < length final
    → length (frame ++ joined full final) ≤ max
    → read_loop max frame (sliced full final rest)
      ≡ record { bytes = frame ++ joined full final; failure = none; rest = rest }
unfolding read_loop
read_loop-sliced max frame [] final rest low high = ground (arith, length-++ frame final)
read_loop-sliced max frame (b ∷ bs) final rest low high =
    let assoc = ++-assoc frame b (joined bs final) in
    let high' : length ((frame ++ b) ++ joined bs final) ≤ max = rw assoc high in
    let ih = read_loop-sliced max (frame ++ b) bs final rest low high' in
    ground (
      arith,
      ih,
      assoc,
      length-++ frame b,
      length-++ (frame ++ b) (joined bs final),
      joined-length bs final,
    )

-- Within the bound, and with its newline.
pub record IsSendable (E : EventDecoder) (max : ℕ) (m : Message) (e : Event) : Type 0 where
  pub ended : 0 < length m.final
  pub bounded : length (joined m.full m.final) ≤ max
  pub decoded : E.event (joined m.full m.final) ≡ ok e
  pub kind : e.kind ≢ ""

read_newline_frame-sliced :
    (max : ℕ) (m : Message) (rest : List Slice)
    → 0 < length m.final
    → length (joined m.full m.final) ≤ max
    → read_newline_frame max (sliced m.full m.final rest) ≡ ok (joined m.full m.final, rest)
unfolding read_newline_frame read_frame_bytes
read_newline_frame-sliced max m rest low high =
    rw (read_loop-sliced max [] m.full m.final rest low high) refl

-- Messages, each the encoding of the event in its place.
pub data Encodes (E : EventDecoder) (max : ℕ) : List Message → List Event → Type 0 where
  none_left : Encodes E max [] []
  one_more :
      {m : Message} {e : Event} {ms : List Message} {es : List Event}
      → IsSendable E max m e
      → Encodes E max ms es
      → Encodes E max (m ∷ ms) (e ∷ es)

-- What the reader returns for the messages in a row.
abbrev pub on_wire : List Message → List Slice → List Slice
on_wire [] rest = rest
on_wire (m ∷ ms) rest = sliced m.full m.final (on_wire ms rest)

abbrev pub after_events : List Event → Stream → Stream
after_events [] s = s
after_events (e ∷ es) s = after_event e (after_events es s)

module _ (D : Decoder) (E : EventDecoder) (max : ℕ) where
  stream-one :
      (accepts : ℕ → Bool) (fuel n : ℕ) (m : Message) (e : Event) (rest : List Slice)
      → accepts n ≡ true
      → IsSendable E max m e
      → stream D E max accepts (suc fuel) n (sliced m.full m.final rest)
        ≡ after_event e (stream D E max accepts fuel (n + 1) rest)
  unfolding stream
  stream-one accepts fuel n m e rest taken s =
      ground (arith, read_newline_frame-sliced max m rest s.ended s.bounded, s.decoded, s.kind)

  -- For every decoder, bound and receiver that takes every event: messages that each fit the bound,
  -- end in a newline's chunk and decode to an event with a kind are delivered as their events,
  -- each once and in order, however the reader cuts them, and the loop goes on with the rest.
  pub stream-on_wire :
      (accepts : ℕ → Bool) (fuel n : ℕ) (ms : List Message) (es : List Event) (rest : List Slice)
      → ((k : ℕ) → accepts k ≡ true)
      → Encodes E max ms es
      → stream D E max accepts (length ms + fuel) n (on_wire ms rest)
        ≡ after_events es (stream D E max accepts fuel (n + length ms) rest)
  stream-on_wire accepts fuel n [] [] rest taken none_left =
      let a : 0 + fuel ≡ fuel = omega arith in let b : n + 0 ≡ n = omega arith in rw (a, b) refl
  stream-on_wire accepts fuel n [] (e ∷ es) rest taken h = elim h [ ]
  stream-on_wire accepts fuel n (m ∷ ms) [] rest taken h = elim h [ ]
  stream-on_wire accepts fuel n (m ∷ ms) (e ∷ es) rest taken (one_more s more) =
      let a : suc (length ms) + fuel ≡ suc (length ms + fuel) = omega arith in
      let b : n + suc (length ms) ≡ n + 1 + length ms = omega arith in
      rw (a, b)
        (stream-one accepts (length ms + fuel) n m e (on_wire ms rest) (taken n) s
          ∙ ap (after_event e) (stream-on_wire accepts fuel (n + 1) ms es rest taken more))

after_slice-rest :
    (max : ℕ) (longer : Bytes) (slices : List Slice) (more : Frame) (end : SliceEnd)
    → (more.failure ≡ none → length more.rest < length slices)
    → (after_slice max longer slices more end).failure ≡ none
    → length (after_slice max longer slices more end).rest < suc (length slices)
after_slice-rest max longer slices more terminated k h = omega arith
after_slice-rest max longer slices more end_of_stream k h = omega arith
after_slice-rest max longer slices more (broken x) k h = omega arith
after_slice-rest max longer slices more buffer_full k h =
    elim (Bool-cases (leb max (length longer))) [
      | inl over ↦ absurd (ground arith)
      | inr below ↦ ground (arith, k)
    ]

read_loop-rest :
    (max : ℕ) (frame : Bytes) (slices : List Slice)
    → (read_loop max frame slices).failure ≡ none
    → length (read_loop max frame slices).rest < length slices
unfolding read_loop
read_loop-rest max frame [] h = ground arith
read_loop-rest max frame (slice ∷ slices) h =
    elim (Bool-cases (ltb max (length frame + length slice.chunk))) [
      | inl over ↦ absurd (ground arith)
      | inr below ↦
          let longer = frame ++ slice.chunk in
          let k =
            after_slice-rest max longer slices (read_loop max longer slices) slice.ends
              (read_loop-rest max longer slices) in
          rw below (k (rw below at h))
    ]

read_newline_frame-rest :
    (max : ℕ) (slices : List Slice) {line : Bytes} {left : List Slice}
    → read_newline_frame max slices ≡ ok (line, left)
    → length left < length slices
unfolding read_newline_frame read_frame_bytes
read_newline_frame-rest max slices {line} {left} h =
    let frame = read_loop max [] slices in
    let (whole, bytes, same) = newline_frame-ok frame.bytes frame.failure frame.rest line left h in
    ground (arith, read_loop-rest max [] slices whole, same)

abbrev is_finished : StreamEnd → Bool
is_finished unfinished = false
is_finished (read_ended e) = true
is_finished (event_malformed e) = true
is_finished kindless = true
is_finished cancelled = true

is_finished-ne : (e : StreamEnd) → is_finished e ≡ true → e ≢ unfinished
is_finished-ne e h k = ground arith

module _ (D : Decoder) (E : EventDecoder) (max : ℕ) (accepts : ℕ → Bool) where
  decoded_finishes :
      (n : ℕ) (r : Result String Event) (more : Stream)
      → is_finished more.ended ≡ true
      → is_finished (after_decoding accepts n r more).ended ≡ true
  decoded_finishes n (err e) more h = refl
  decoded_finishes n (ok event) more h =
      ground (arith, Bool-cases (event.kind == ""), Bool-cases (accepts n))

  stream_finishes_from :
      (fuel n : ℕ) (slices : List Slice) (r : Result ReadError (Bytes × List Slice))
      → read_newline_frame max slices ≡ r
      → ((left : List Slice)
          → length left < fuel
          → is_finished (stream D E max accepts fuel (n + 1) left).ended ≡ true)
      → length slices < suc fuel
      → is_finished (stream D E max accepts (suc fuel) n slices).ended ≡ true
  unfolding stream
  stream_finishes_from fuel n slices (err e) read more h = ground (arith, read)
  stream_finishes_from fuel n slices (ok (line, left)) read more h =
      let shorter = read_newline_frame-rest max slices read in
      ground (
        arith,
        read,
        decoded_finishes n (E.event line) (stream D E max accepts fuel (n + 1) left)
            (more left (omega arith)),
      )

  stream_finishes :
      (fuel n : ℕ) (slices : List Slice)
      → length slices < fuel
      → is_finished (stream D E max accepts fuel n slices).ended ≡ true
  stream_finishes zero n slices h = absurd (omega arith)
  stream_finishes (suc fuel) n slices h =
      stream_finishes_from fuel n slices _ refl (λ left k. stream_finishes fuel (n + 1) left k) h

  -- For every decoder, bound, receiver and connection: fuel for one round more than there are slices
  -- is enough, the loop ends by one of the code's returns.
  pub stream-ne-unfinished :
      (fuel n : ℕ) (slices : List Slice)
      → length slices < fuel
      → (stream D E max accepts fuel n slices).ended ≢ unfinished
  stream-ne-unfinished fuel n slices h = is_finished-ne _ (stream_finishes fuel n slices h)
