-- ===== src/Client/Lifecycle/Closing.antt =====
-- What a `Close` of internal/herdrapi/client_unix.go leaves behind.
use herdr_tabline.Base.{
  ℕ, zero, suc, ◌+◌, ◌≤◌, ◌<◌, ◌≡◌, refl, arith, Bool, true, false, not, ◌||◌, ◌==◌, nat_eq,
}
use herdr_tabline.Client.Lifecycle.{
  Client, max_ordinary_connections, Step, call_begins, subscribe_begins, gives_up, takes_slot,
  call_ends, subscription_ends, closes, joins, all_done, close_seen, Reach, opened, later,
}

abbrev implies : Bool → Bool → Bool
implies a b = not a || b

abbrev is_positive : ℕ → Bool
is_positive zero = false
is_positive (suc n) = true

record Inv (c : Client) : Type 0 where
  counted : c.wg ≡ c.waiting + c.holding + c.streaming
  slotted : c.slots ≡ c.holding
  bounded : c.holding ≤ max_ordinary_connections
  stopped : c.cancelled ≡ c.closed
  begun : implies c.closing c.closed ≡ true
  finished : implies c.close_done c.closed ≡ true
  drained : implies c.close_done (c.wg == 0) ≡ true
  seen : implies (is_positive c.returned) c.close_done ≡ true

Step-Inv : {c d : Client} → Step c d → Inv c → Inv d
Step-Inv (call_begins a) inv = ground (
  arith, inv.counted, inv.slotted, inv.bounded, inv.stopped, inv.begun, inv.finished, inv.drained,
  inv.seen,
)
Step-Inv (subscribe_begins a) inv = ground (
  arith, inv.counted, inv.slotted, inv.bounded, inv.stopped, inv.begun, inv.finished, inv.drained,
  inv.seen,
)
Step-Inv (gives_up a) inv = ground (
  arith, inv.counted, inv.slotted, inv.bounded, inv.stopped, inv.begun, inv.finished, inv.drained,
  inv.seen,
)
Step-Inv (takes_slot a b) inv = ground (
  arith, inv.counted, inv.slotted, inv.bounded, inv.stopped, inv.begun, inv.finished, inv.drained,
  inv.seen,
)
Step-Inv (call_ends a) inv = ground (
  arith, inv.counted, inv.slotted, inv.bounded, inv.stopped, inv.begun, inv.finished, inv.drained,
  inv.seen,
)
Step-Inv (subscription_ends a) inv = ground (
  arith, inv.counted, inv.slotted, inv.bounded, inv.stopped, inv.begun, inv.finished, inv.drained,
  inv.seen,
)
Step-Inv (closes a) inv = ground (
  arith, inv.counted, inv.slotted, inv.bounded, inv.stopped, inv.begun, inv.finished, inv.drained,
  inv.seen,
)
Step-Inv (joins a) inv = ground (
  arith, inv.counted, inv.slotted, inv.bounded, inv.stopped, inv.begun, inv.finished, inv.drained,
  inv.seen,
)
Step-Inv (all_done a b) inv = ground (
  arith, inv.counted, inv.slotted, inv.bounded, inv.stopped, inv.begun, inv.finished, inv.drained,
  inv.seen,
)
Step-Inv (close_seen a b) inv = ground (
  arith, inv.counted, inv.slotted, inv.bounded, inv.stopped, inv.begun, inv.finished, inv.drained,
  inv.seen,
)

Reach-Inv : {c : Client} → Reach c → Inv c
Reach-Inv opened = record {
  counted = refl;
  slotted = refl;
  bounded = omega arith;
  stopped = refl;
  begun = refl;
  finished = refl;
  drained = refl;
  seen = refl;
}
Reach-Inv (later r step) = Step-Inv step (Reach-Inv r)

-- In every state that the client reaches after a `Close` has returned: no call and no subscription is
-- in progress, the slots are free, and the client is closed, so that none can begin again.
pub Reach-closed :
    {c : Client}
    → Reach c
    → 0 < c.returned
    → (c.closed ≡ true)
      × (c.cancelled ≡ true)
      × (c.waiting ≡ 0)
      × (c.holding ≡ 0)
      × (c.streaming ≡ 0)
      × (c.slots ≡ 0)
Reach-closed {c} r h =
    let inv = Reach-Inv r in
    let positive : is_positive c.returned ≡ true = ground arith in
    let done : c.close_done ≡ true = ground (arith, inv.seen) in
    let drained : c.wg ≡ 0 = ground (arith, inv.drained) in
    let closed : c.closed ≡ true = ground (arith, inv.finished) in
    (
      closed,
      ground (arith, inv.stopped),
      omega (arith, inv.counted),
      omega (arith, inv.counted),
      omega (arith, inv.counted),
      omega (arith, inv.counted, inv.slotted),
    )
