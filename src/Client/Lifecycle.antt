-- ===== src/Client/Lifecycle.antt =====
-- internal/herdrapi/client_unix.go's client as its goroutines share it: `begin`, the slots of ordinary
-- calls, the streams of subscriptions, and `Close`. A step is what one goroutine does under the mutex or
-- on a channel. What a call does on its connection is one phase.
pub mod Closing
use herdr_tabline.Base.{ℕ, suc, ◌+◌, ◌-◌, ◌<◌, ◌≡◌, Bool, true, false}

abbrev pub max_ordinary_connections : ℕ
max_ordinary_connections = 8

-- The fields of `unixClient`, with `wg` as its counter and `slots` as the number in the channel; then how
-- many goroutines are where: calls that wait for a slot, calls that have one, subscriptions, first
-- and later `Close`s that wait, and `Close`s that have returned.
pub record Client : Type 0 where
  pub closed : Bool
  pub cancelled : Bool
  pub close_done : Bool
  pub wg : ℕ
  pub slots : ℕ
  pub waiting : ℕ
  pub holding : ℕ
  pub streaming : ℕ
  pub closing : Bool
  pub joining : ℕ
  pub returned : ℕ

-- `NewUnixClient`
abbrev pub new_client : Client
new_client = record {
  closed = false;
  cancelled = false;
  close_done = false;
  wg = 0;
  slots = 0;
  waiting = 0;
  holding = 0;
  streaming = 0;
  closing = false;
  joining = 0;
  returned = 0;
}

pub data Step (c : Client) : Client → Type 0 where
  -- `begin` of a call and of a subscription, where it succeeds; a refused one changes nothing
  call_begins : c.closed ≡ false → Step c (record c { wg = c.wg + 1; waiting = c.waiting + 1 })
  subscribe_begins :
      c.closed ≡ false → Step c (record c { wg = c.wg + 1; streaming = c.streaming + 1 })
  -- a call whose context ends before it has a slot
  gives_up : {n : ℕ} → c.waiting ≡ suc n → Step c (record c { wg = c.wg - 1; waiting = n })
  takes_slot :
      {n : ℕ}
      → c.waiting ≡ suc n
      → c.slots < max_ordinary_connections
      → Step c (record c { slots = c.slots + 1; waiting = n; holding = c.holding + 1 })
  -- the deferred calls of `call`, the slot's first, and those of a failed or ended subscription
  call_ends :
      {n : ℕ}
      → c.holding ≡ suc n
      → Step c (record c { slots = c.slots - 1; wg = c.wg - 1; holding = n })
  subscription_ends :
      {n : ℕ} → c.streaming ≡ suc n → Step c (record c { wg = c.wg - 1; streaming = n })
  -- `Close`
  closes : c.closed ≡ false → Step c (record c { closed = true; cancelled = true; closing = true })
  joins : c.closed ≡ true → Step c (record c { joining = c.joining + 1 })
  all_done :
      c.closing ≡ true
      → c.wg ≡ 0
      → Step c (record c { closing = false; close_done = true; returned = c.returned + 1 })
  close_seen :
      {n : ℕ}
      → c.joining ≡ suc n
      → c.close_done ≡ true
      → Step c (record c { joining = n; returned = c.returned + 1 })

pub data Reach : Client → Type 0 where
  opened : Reach new_client
  later : {c d : Client} → Reach c → Step c d → Reach d
