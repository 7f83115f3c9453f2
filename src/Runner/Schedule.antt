-- ===== src/Runner/Schedule.antt =====
-- internal/controller/runner.go's event loop keeps a timer set for each thing that it still owes.
use herdr_tabline.Base.{
  ◌≡◌, Bool, true, false, not, ◌&&◌, ◌||◌, Option, none, some, arith, Bool-cases,
}
use herdr_tabline.Base.Int.{ℤ, int_eq}
use herdr_tabline.Render.Width.{Graphemes}
use herdr_tabline.Render.Engine.{Templates}
use herdr_tabline.Config.Types.{Host}
use herdr_tabline.Controller.{Services}
use herdr_tabline.Runner.{
  subscriptions, Timer, received, Loop, Source, Reconnected, connected, ended, out_of_range,
  retrying, on_event, on_settle, refresh, apply_intervals, on_debounce, on_tick, reconnect,
  on_reconnected, on_closed, start, State, Step, event, closes, settles, debounces, ticks,
  settle_expires, debounce_expires, elsewhere, Reach, begins, later,
}

abbrev pub is_some : Option ℤ → Bool
is_some none = false
is_some (some d) = true

-- The timer will expire, or it has expired and the loop has not received its value.
abbrev pub waits : Timer → Bool
waits t = is_some t.armed || t.pending

abbrev pub implies : Bool → Bool → Bool
implies a b = not a || b

pub record IsScheduled (l : Loop) : Type 0 where
  pub refreshes : implies l.dirty (waits l.debounce_timer) ≡ true
  pub settles : implies l.warming_up (waits l.settle) ≡ true
  pub apart : (l.dirty && l.warming_up) ≡ false
  pub paced : l.ticker ≡ l.poll

module _ (G : Graphemes) (H : Host) (T : Templates) (S : Services H T) where
  on_event-IsScheduled : (l : Loop) → IsScheduled l → IsScheduled (on_event l)
  unfolding on_event
  on_event-IsScheduled l h =
      ground (arith, h.refreshes, h.settles, h.apart, h.paced, Bool-cases l.warming_up)

  on_settle-IsScheduled : (l : Loop) → IsScheduled l → IsScheduled (on_settle l)
  unfolding on_settle
  on_settle-IsScheduled l h =
      ground (arith, h.refreshes, h.settles, h.apart, h.paced, Bool-cases l.warming_up)

  apply_intervals-IsScheduled :
      (l : Loop) (w : S.World) → IsScheduled l → IsScheduled (apply_intervals G H T S l w)
  unfolding apply_intervals
  apply_intervals-IsScheduled l w h = ground (arith, h.refreshes, h.settles, h.apart, h.paced)

  on_debounce-IsScheduled :
      (l : Loop) (w : S.World) → IsScheduled l → IsScheduled (on_debounce G H T S l w).0
  unfolding on_debounce
  on_debounce-IsScheduled l w h = ground (
    arith,
    h.refreshes,
    h.settles,
    h.apart,
    h.paced,
    Bool-cases l.dirty,
    apply_intervals-IsScheduled
        (record l { debounce_timer = received l.debounce_timer; dirty = false })
        (refresh G H T S w),
  )

  module _ (C : Source G H T S) where
    on_reconnected-IsScheduled :
        (l : Loop) (r : Reconnected) (w : S.World) (next : Loop × S.World)
        → IsScheduled l
        → on_reconnected G H T S C l (r, w) ≡ some next
        → IsScheduled next.0
    unfolding on_reconnected apply_intervals
    on_reconnected-IsScheduled l connected w next h e =
        ground (arith, h.refreshes, h.settles, h.apart, h.paced)
    on_reconnected-IsScheduled l ended w next h e =
        ground (arith, h.refreshes, h.settles, h.apart, h.paced)
    on_reconnected-IsScheduled l out_of_range w next h e = ground arith
    on_reconnected-IsScheduled l retrying w next h e = ground arith

    start-IsScheduled :
        (debounce_early settle_early : Bool) (w : S.World)
        → IsScheduled (start G H T S C debounce_early settle_early w).0
    unfolding start
    start-IsScheduled debounce_early settle_early w =
        ground (arith, Bool-cases settle_early, Bool-cases (C.subscribe subscriptions w).0)

    Step-IsScheduled :
        {s t : State G H T S C} → Step G H T S C s t → IsScheduled s.loop → IsScheduled t.loop
    unfolding on_closed on_tick
    Step-IsScheduled {s} (event a) h = on_event-IsScheduled s.loop h
    Step-IsScheduled {s} (closes fuel {next} a b) h =
        on_reconnected-IsScheduled s.loop (reconnect G H T S C fuel 0 s.world).0
          (reconnect G H T S C fuel 0 s.world).1 next h b
    Step-IsScheduled {s} (settles a) h = on_settle-IsScheduled s.loop h
    Step-IsScheduled {s} (debounces a) h = on_debounce-IsScheduled s.loop s.world h
    Step-IsScheduled {s} ticks h = apply_intervals-IsScheduled s.loop (refresh G H T S s.world) h
    Step-IsScheduled {s} (settle_expires a) h =
        ground (arith, h.refreshes, h.settles, h.apart, h.paced)
    Step-IsScheduled {s} (debounce_expires a) h =
        ground (arith, h.refreshes, h.settles, h.apart, h.paced)
    Step-IsScheduled {s} (elsewhere w) h = h

    -- In every state that the runner reaches, whatever the events, the closed streams, the expiries
    -- and the changes of the world: an event that is not yet refreshed for has the debounce timer
    -- running or its value waiting, a warm-up has the settle timer so, no event is outstanding
    -- during a warm-up, and the ticker runs at the poll interval.
    pub Reach-IsScheduled : {s : State G H T S C} → Reach G H T S C s → IsScheduled s.loop
    Reach-IsScheduled (begins a b w) = start-IsScheduled a b w
    Reach-IsScheduled (later r step) = Step-IsScheduled step (Reach-IsScheduled r)
