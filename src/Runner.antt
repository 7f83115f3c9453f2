-- ===== src/Runner.antt =====
-- internal/controller/runner.go: the daemon's event loop, with its timers and the reconnection.
-- A pass is the controller's, over the same world. What a channel delivers next, and when a timer
-- expires, is an input. As the module asks for go 1.22, a timer's channel keeps a value that was
-- sent before a `Reset` or a `Stop`: `pending`. Logging is left out, and so is a runner without
-- a configuration, which the program does not make.
pub mod Reconnection
pub mod Refreshes
pub mod Schedule
pub mod Progress
use herdr_tabline.Base.{
  ℕ, zero, suc, ◌+◌, ◌-◌, ◌≡◌, String, Bool, true, false, not, ◌&&◌, ◌||◌, Option, none, some, List,
  [], ◌∷◌, ◌==◌, if◌then◌else◌, leb, length, get_elem?,
}
use herdr_tabline.Base.Int.{ℤ, pos, int_eq}
use herdr_tabline.Render.Width.{Graphemes}
use herdr_tabline.Render.Engine.{Templates}
use herdr_tabline.Config.Types.{Host, Compiled}
use herdr_tabline.Controller.{Trigger, auto, Services, reconcile}

abbrev pub subscriptions : List String
subscriptions =
    "tab.created" ∷ "tab.closed" ∷ "tab.renamed" ∷ "tab.moved" ∷ "tab.focused"
    ∷ "workspace.reordered" ∷ "workspace.renamed" ∷ "workspace.closed" ∷ "workspace.focused"
    ∷ "pane.created" ∷ "pane.closed" ∷ "pane.focused" ∷ "pane.moved" ∷ "layout.updated" ∷ []

-- nanoseconds
abbrev pub backoff_schedule : List ℤ
backoff_schedule =
    pos 250_000_000
    ∷ pos 500_000_000
    ∷ pos 1_000_000_000
    ∷ pos 2_000_000_000
    ∷ pos 4_000_000_000
    ∷ pos 5_000_000_000
    ∷ []

abbrev pub fallback_poll_interval : ℤ
fallback_poll_interval = pos 2_000_000_000

abbrev pub fallback_refresh_debounce : ℤ
fallback_refresh_debounce = pos 80_000_000

abbrev pub min : ℕ → ℕ → ℕ
min a b = if leb a b then a else b

-- `backoffSchedule[min(attempt, len(backoffSchedule)-1)]`; `none` is an index out of range.
unfoldable pub delay_at : ℕ → Option ℤ
delay_at attempt = get_elem? backoff_schedule (min attempt (length backoff_schedule - 1))

-- A `Timer`: the duration that it was last set to, where it has not expired or been stopped, and
-- whether its channel holds a value.
pub record Timer : Type 0 where
  pub armed : Option ℤ
  pub pending : Bool

abbrev pub reset : ℤ → Timer → Timer
reset d t = record t { armed = some d }

abbrev pub stopped : Timer → Timer
stopped t = record t { armed = none }

-- The value in the channel is received.
abbrev pub received : Timer → Timer
received t = record t { pending = false }

abbrev pub expired : Timer → Timer
expired t = record { armed = none; pending = true }

-- The variables of `Run`. `stream` says whether there is a channel of events.
pub record Loop : Type 0 where
  pub poll : ℤ
  pub debounce : ℤ
  pub settle : Timer
  pub debounce_timer : Timer
  pub ticker : ℤ
  pub stream : Bool
  pub warming_up : Bool
  pub dirty : Bool

-- How a reconnection ends; `retrying` is the end of the fuel.
pub data Reconnected : Type 0 where
  connected ended out_of_range retrying : Reconnected

-- An event, outside of the replay and within it.
unfoldable pub on_event : Loop → Loop
on_event l =
    if l.warming_up
    then record l { settle = reset l.poll l.settle }
    else record l { dirty = true; debounce_timer = reset l.debounce l.debounce_timer }

unfoldable pub on_settle : Loop → Loop
on_settle l = record l { settle = received l.settle; warming_up = false }

module _ (G : Graphemes) (H : Host) (T : Templates) (S : Services H T) where
  -- `Subscribe`, as far as whether it succeeds, and the sleeper.
  pub record Source : Type 0 where
    pub subscribe : List String → S.World → Bool × S.World
    pub sleep : ℤ → S.World → Bool × S.World

  -- An error of the pass is only logged.
  unfoldable pub refresh : S.World → S.World
  refresh w = (reconcile G H T S auto "" w).1

  unfoldable pub intervals : S.World → ℤ × ℤ
  intervals w = elim (S.current w) [
    | none ↦ (fallback_poll_interval, fallback_refresh_debounce)
    | some compiled ↦ (compiled.poll_interval, compiled.refresh_debounce)
  ]

  unfoldable pub apply_intervals : Loop → S.World → Loop
  apply_intervals l w =
      let (next_poll, next_debounce) = intervals w in
      record l {
        poll = next_poll;
        debounce = next_debounce;
        ticker = if next_poll == l.poll then l.ticker else next_poll;
        settle = if next_poll == l.poll then l.settle else reset next_poll l.settle;
      }

  unfoldable pub on_debounce : Loop → S.World → Loop × S.World
  on_debounce l w =
      let clear = record l { debounce_timer = received l.debounce_timer; dirty = false } in
      if l.dirty
      then (apply_intervals clear (refresh w), refresh w)
      else (record l { debounce_timer = received l.debounce_timer }, w)

  unfoldable pub on_tick : Loop → S.World → Loop × S.World
  on_tick l w = (apply_intervals l (refresh w), refresh w)

  module _ (C : Source) where
    abbrev retry : (S.World → Reconnected × S.World) → Bool × S.World → Reconnected × S.World
    retry more (true, w) = (connected, w)
    retry more (false, w) = more w

    abbrev after_sleep : (S.World → Reconnected × S.World) → Bool × S.World → Reconnected × S.World
    after_sleep more (false, w) = (ended, w)
    after_sleep more (true, w) = elim (S.ctx_err w) [
      | some e ↦ (ended, w)
      | none ↦ retry more (C.subscribe subscriptions w)
    ]

    -- `reconnect`, on fuel for the rounds.
    unfoldable pub reconnect : ℕ → ℕ → S.World → Reconnected × S.World
    reconnect zero attempt w = (retrying, w)
    reconnect (suc fuel) attempt w = elim (delay_at attempt) [
      | none ↦ (out_of_range, w)
      | some delay ↦ after_sleep (λ v. reconnect fuel (attempt + 1) v) (C.sleep delay w)
    ]

    -- The rest of the closed stream's case, `none` where the loop returns, and
    -- where the reconnection panics or the fuel does not suffice.
    unfoldable pub on_reconnected : Loop → Reconnected × S.World → Option (Loop × S.World)
    on_reconnected l (r, w) =
        let fresh = record l {
          stream = true;
          warming_up = true;
          dirty = false;
          debounce_timer = stopped l.debounce_timer;
        } in
        let retimed = apply_intervals fresh (refresh w) in
        elim (S.ctx_err w) [
          | some e ↦ none
          | none ↦ elim r [
            | connected ↦
                some (record retimed { settle = reset retimed.poll retimed.settle }, refresh w)
            | ended ↦ some (record l { stream = false }, w)
            | out_of_range ↦ none
            | retrying ↦ none
          ]
        ]

    unfoldable pub on_closed : ℕ → Loop → S.World → Option (Loop × S.World)
    on_closed fuel l w = on_reconnected l (reconnect fuel 0 w)

    abbrev subscribed : Loop → Bool × S.World → Loop × S.World
    subscribed l (false, w) = (record l { stream = false; warming_up = false }, w)
    subscribed l (true, w) =
        (record l { stream = true; warming_up = true; settle = reset l.poll l.settle }, refresh w)

    -- `Run`, up to the loop. A timer may have expired before it is stopped or set again.
    unfoldable pub start : Bool → Bool → S.World → Loop × S.World
    start debounce_early settle_early w =
        let (poll, debounce) = intervals w in
        subscribed
          (record {
            poll = poll;
            debounce = debounce;
            settle =
                if settle_early
                then expired (record { armed = none; pending = false })
                else record { armed = some poll; pending = false };
            debounce_timer = record { armed = none; pending = debounce_early };
            ticker = poll;
            stream = false;
            warming_up = false;
            dirty = false;
          })
          (C.subscribe subscriptions w)

    pub record State : Type 0 where
      pub loop : Loop
      pub world : S.World

    abbrev pub at : Loop × S.World → State
    at (l, w) = record { loop = l; world = w }

    -- One round of the loop, the expiry of a timer, or a change of the world by others.
    pub data Step (s : State) : State → Type 0 where
      event : s.loop.stream ≡ true → Step s (record s { loop = on_event s.loop })
      closes :
          (fuel : ℕ) {next : Loop × S.World}
          → s.loop.stream ≡ true
          → on_closed fuel s.loop s.world ≡ some next
          → Step s (at next)
      settles : s.loop.settle.pending ≡ true → Step s (record s { loop = on_settle s.loop })
      debounces : s.loop.debounce_timer.pending ≡ true → Step s (at (on_debounce s.loop s.world))
      ticks : Step s (at (on_tick s.loop s.world))
      settle_expires :
          {d : ℤ}
          → s.loop.settle.armed ≡ some d
          → Step s (record s { loop = record (s.loop) { settle = expired s.loop.settle } })
      debounce_expires :
          {d : ℤ}
          → s.loop.debounce_timer.armed ≡ some d
          → Step s (record s {
            loop = record (s.loop) { debounce_timer = expired s.loop.debounce_timer };
          })
      elsewhere : (w : S.World) → Step s (record s { world = w })

    pub data Reach : State → Type 0 where
      begins :
          (debounce_early settle_early : Bool) (w : S.World)
          → Reach (at (start debounce_early settle_early w))
      later : {s t : State} → Reach s → Step s t → Reach t
