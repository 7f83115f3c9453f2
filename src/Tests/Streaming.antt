-- ===== src/Tests/Streaming.antt =====
-- Subscriptions and the closing of a client, of internal/herdrapi/client_unix.go, on short runs.
use herdr_tabline.Base.{
  ℕ, ◌≡◌, ◌≢◌, refl, arith, String, Bool, true, none, List, [], ◌∷◌, string_eq, nat_eq, text_apart,
}
use herdr_tabline.Base.Dict.{lookup}
use herdr_tabline.Base.Text.{trim_space}
use herdr_tabline.Base.Result.{ok}
use herdr_tabline.Client.{
  Slice, read_loop, read_frame_bytes, read_newline_frame, is_json_null, unmarshal_members,
  unmarshal_response, decode_response,
}
use herdr_tabline.Client.Subscription.{Event, EventDecoder, unfinished, stream, acknowledged}
use herdr_tabline.Client.Subscription.Delivery.{
  Message, IsSendable, none_left, one_more, on_wire, after_events, stream-on_wire,
  stream-ne-unfinished,
}
use herdr_tabline.Base.{◌⊎◌, false}
use herdr_tabline.Base.Result.{err}
use herdr_tabline.Client.Calls.{Meets, CallError, new_id}
use herdr_tabline.Client.Subscription.Opening.{nothing_held, subscribe, Started, subscribe-Started}
use herdr_tabline.Client.Lifecycle.{
  Client, new_client, call_begins, takes_slot, call_ends, closes, all_done, Reach, opened, later,
}
use herdr_tabline.Client.Lifecycle.Closing.{Reach-closed}
use herdr_tabline.Tests.Answering.{plain_decoder}

abbrev created : Event
created = record { kind = "tab.created"; data_raw = "{}" }

abbrev events_of : EventDecoder
events_of = record { type_of = λ raw. ok "subscription_started"; event = λ line. ok created }

-- One message that the reader cuts, and one that it does not.
abbrev long : Message
long = record { full = (1 ∷ 2 ∷ []) ∷ []; final = 10 ∷ [] }

abbrev short : Message
short = record { full = []; final = 3 ∷ 10 ∷ [] }

created_kind : created.kind ≢ ""
created_kind = text_apart "tab.created" "" refl

long-IsSendable : IsSendable events_of 8 long created
long-IsSendable = record {
  ended = omega arith;
  bounded = omega arith;
  decoded = refl;
  kind = created_kind;
}

short-IsSendable : IsSendable events_of 8 short created
short-IsSendable = record {
  ended = omega arith;
  bounded = omega arith;
  decoded = refl;
  kind = created_kind;
}

abbrev eager : ℕ → Bool
eager n = true

stream-on_wire_example :
    stream plain_decoder events_of 8 eager 3 0 (on_wire (long ∷ short ∷ []) [])
    ≡ after_events (created ∷ created ∷ []) (stream plain_decoder events_of 8 eager 1 2 [])
stream-on_wire_example =
    stream-on_wire plain_decoder events_of 8 eager 1 0 (long ∷ short ∷ []) (created ∷ created ∷ [])
      [] (λ k. refl) (one_more long-IsSendable (one_more short-IsSendable none_left))

abbrev three_slices : List Slice
three_slices = on_wire (long ∷ short ∷ []) []

stream-ne-unfinished_example :
    (stream plain_decoder events_of 8 eager 4 0 three_slices).ended ≢ unfinished
stream-ne-unfinished_example =
    stream-ne-unfinished plain_decoder events_of 8 eager 4 0 three_slices (omega arith)

started :
    acknowledged plain_decoder events_of 8 none "herdr-tabline-1" (on_wire (long ∷ short ∷ []) [])
    ≡ ok (on_wire (short ∷ []) [])
unfolding acknowledged read_newline_frame read_frame_bytes read_loop decode_response
    unmarshal_response unmarshal_members is_json_null trim_space lookup string_eq nat_eq
started = refl

abbrev answered_at_once : Meets
answered_at_once = record {
  closed = false;
  slot = none;
  dial = none;
  deadline = none;
  write = none;
  ctx = none;
  answer = λ request. three_slices;
}

abbrev two_types : List String
two_types = "tab_created" ∷ "tab_closed" ∷ []

subscribe-Started_example :
    ((e : CallError) × ((subscribe plain_decoder events_of 8 answered_at_once two_types 0).0
        ≡ (err e, nothing_held)))
    ⊎ Started plain_decoder events_of 8 answered_at_once two_types 0
        (subscribe plain_decoder events_of 8 answered_at_once two_types 0).0
subscribe-Started_example = subscribe-Started plain_decoder events_of 8 answered_at_once two_types 0

subscribed_at_once :
    (subscribe plain_decoder events_of 8 answered_at_once two_types 0).0.0
    ≡ ok (on_wire (short ∷ []) [])
unfolding subscribe new_id herdr_tabline.Base.Decimal.itoa acknowledged read_newline_frame
    read_frame_bytes read_loop decode_response unmarshal_response unmarshal_members is_json_null
    trim_space lookup string_eq nat_eq
subscribed_at_once = refl

-- A call runs when the client is closed, and ends before the `Close` returns.
abbrev shut : Client
shut = record new_client { closed = true; cancelled = true; close_done = true; returned = 1 }

shut-Reach : Reach shut
shut-Reach =
    later
      (later
        (later (later (later opened (call_begins refl)) (takes_slot refl (omega arith)))
          (closes refl))
        (call_ends refl))
      (all_done refl refl)

Reach-closed_example :
    (shut.closed ≡ true)
    × (shut.cancelled ≡ true)
    × (shut.waiting ≡ 0)
    × (shut.holding ≡ 0)
    × (shut.streaming ≡ 0)
    × (shut.slots ≡ 0)
Reach-closed_example = Reach-closed shut-Reach (omega arith)

-- A call that has its slot, and one that waits.
abbrev busy : Client
busy = record new_client { wg = 2; slots = 1; waiting = 1; holding = 1 }
