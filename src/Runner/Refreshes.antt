-- ===== src/Runner/Refreshes.antt =====
-- Which events internal/controller/runner.go makes a pass for, and how many passes.
use herdr_tabline.Base.{
  ℕ, zero, suc, ◌+◌, ◌-◌, ◌≤◌, ◌≡◌, refl, Bool, true, false, not, some, arith, Bool-cases, inl, inr,
}
use herdr_tabline.Render.Width.{Graphemes}
use herdr_tabline.Render.Engine.{Templates}
use herdr_tabline.Config.Types.{Host}
use herdr_tabline.Controller.{Services}
use herdr_tabline.Runner.{
  reset, expired, received, Loop, Source, Reconnected, connected, ended, out_of_range, retrying,
  on_event, on_settle, refresh, apply_intervals, on_debounce, on_tick, reconnect, on_reconnected,
  on_closed, State, Step, event, closes, settles, debounces, ticks, settle_expires,
  debounce_expires, elsewhere,
}

-- The loop after a number of events in a row.
abbrev pub events : ℕ → Loop → Loop
events zero l = l
events (suc n) l = on_event (events n l)

events_live :
    (n : ℕ) (l : Loop)
    → l.warming_up ≡ false
    → events (suc n) l
      ≡ record l { dirty = true; debounce_timer = reset l.debounce l.debounce_timer }
unfolding on_event
events_live zero l h = ground arith
events_live (suc n) l h = rw (events_live n l h) (ground arith)

events_replayed :
    (n : ℕ) (l : Loop)
    → l.warming_up ≡ true
    → events (suc n) l ≡ record l { settle = reset l.poll l.settle }
unfolding on_event
events_replayed zero l h = ground arith
events_replayed (suc n) l h = rw (events_replayed n l h) (ground arith)

abbrev pub bit : Bool → ℕ
bit true = 1
bit false = 0

module _ (G : Graphemes) (H : Host) (T : Templates) (S : Services H T) where
  -- The timer's expiry, and the round of the loop that receives it.
  abbrev pub debounced : Loop → S.World → Loop × S.World
  debounced l w = on_debounce G H T S (record l { debounce_timer = expired l.debounce_timer }) w

  -- For every loop outside of a warm-up and world: after one event or more the debounce timer runs
  -- for the debounce; its expiry makes one pass, with which nothing is outstanding, and a
  -- further expiry makes none.
  pub events-debounced :
      (n : ℕ) (l : Loop) (w : S.World)
      → l.warming_up ≡ false
      → ((events (suc n) l).debounce_timer.armed ≡ some l.debounce)
        × ((debounced (events (suc n) l) w).1 ≡ refresh G H T S w)
        × ((debounced (events (suc n) l) w).0.dirty ≡ false)
        × ((debounced (debounced (events (suc n) l) w).0 (refresh G H T S w)).1 ≡ refresh G H T S w)
  unfolding on_debounce apply_intervals
  events-debounced n l w h = rw (events_live n l h) (ground arith)

  module _ (C : Source G H T S) where
    abbrev pub live : {s t : State G H T S C} → Step G H T S C s t → ℕ
    live {s} (event a) = bit (not s.loop.warming_up)
    live (closes fuel a b) = 0
    live (settles a) = 0
    live (debounces a) = 0
    live ticks = 0
    live (settle_expires a) = 0
    live (debounce_expires a) = 0
    live (elsewhere w) = 0

    module _ (count : S.World → ℕ) where
      -- The passes of a round that receives the debounce timer, by a count in the world.
      abbrev pub made : {s t : State G H T S C} → Step G H T S C s t → ℕ
      made (event a) = 0
      made (closes fuel a b) = 0
      made (settles a) = 0
      made {s} (debounces a) = count (on_debounce G H T S s.loop s.world).1 - count s.world
      made ticks = 0
      made (settle_expires a) = 0
      made (debounce_expires a) = 0
      made (elsewhere w) = 0

      -- A run of the runner, with the number of events received outside of a warm-up, and that of
      -- the passes made for events.
      pub data Counted (s : State G H T S C) : ℕ → ℕ → State G H T S C → Type 0 where
        nothing : Counted s 0 0 s
        counts :
            {e p : ℕ} {t u : State G H T S C}
            → Counted s e p t
            → (step : Step G H T S C t u) → Counted s (live step + e) (made step + p) u

    apply_intervals-dirty : (l : Loop) (w : S.World) → (apply_intervals G H T S l w).dirty ≡ l.dirty
    unfolding apply_intervals
    apply_intervals-dirty l w = refl

    on_debounce-dirty : (l : Loop) (w : S.World) → (on_debounce G H T S l w).0.dirty ≡ false
    unfolding on_debounce
    on_debounce-dirty l w = ground (
      arith,
      Bool-cases l.dirty,
      apply_intervals-dirty (record l { debounce_timer = received l.debounce_timer; dirty = false })
          (refresh G H T S w),
    )

    on_reconnected-dirty :
        (l : Loop) (r : Reconnected) (w : S.World) (next : Loop × S.World)
        → on_reconnected G H T S C l (r, w) ≡ some next
        → bit next.0.dirty ≤ bit l.dirty
    unfolding on_reconnected apply_intervals
    on_reconnected-dirty l connected w next e = ground arith
    on_reconnected-dirty l ended w next e = ground arith
    on_reconnected-dirty l out_of_range w next e = ground arith
    on_reconnected-dirty l retrying w next e = ground arith

    module _ (count : S.World → ℕ) where
      on_debounce-count :
          (l : Loop) (w : S.World)
          → ((w : S.World) → count (refresh G H T S w) ≡ suc (count w))
          → (count (on_debounce G H T S l w).1 - count w) + bit (on_debounce G H T S l w).0.dirty
            ≤ bit l.dirty
      unfolding on_debounce
      on_debounce-count l w h = elim (Bool-cases l.dirty) [
        | inl dirty ↦ ground (arith, h w, on_debounce-dirty l w)
        | inr clean ↦ ground (arith, on_debounce-dirty l w)
      ]

      Step-bit :
          {s t : State G H T S C}
          → ((w : S.World) → count (refresh G H T S w) ≡ suc (count w))
          → (step : Step G H T S C s t)
          → made count step + bit t.loop.dirty ≤ live step + bit s.loop.dirty
      unfolding on_event on_settle on_tick on_closed
      Step-bit {s} h (event a) =
          ground (arith, Bool-cases s.loop.warming_up, Bool-cases s.loop.dirty)
      Step-bit {s} h (closes fuel {next} a b) = omega (
        arith,
        on_reconnected-dirty s.loop (reconnect G H T S C fuel 0 s.world).0
            (reconnect G H T S C fuel 0 s.world).1 next b,
      )
      Step-bit {s} h (settles a) = omega arith
      Step-bit {s} h (debounces a) = omega (arith, on_debounce-count s.loop s.world h)
      Step-bit {s} h ticks = ground (arith, apply_intervals-dirty s.loop (refresh G H T S s.world))
      Step-bit h (settle_expires a) = omega arith
      Step-bit h (debounce_expires a) = omega arith
      Step-bit h (elsewhere w) = omega arith

      -- For every run of the runner between two states, where a count in the world goes up by one
      -- with each pass: by what that count shows of the rounds that receive the debounce timer, the
      -- passes made in them, and one more where an event is outstanding at the end of the run, are
      -- no more than the events received outside of a warm-up, and one more where an event was
      -- outstanding at its start.
      pub Counted-bound :
          {s t : State G H T S C} {e p : ℕ}
          → ((w : S.World) → count (refresh G H T S w) ≡ suc (count w))
          → Counted count s e p t
          → p + bit t.loop.dirty ≤ e + bit s.loop.dirty
      Counted-bound h nothing = omega arith
      Counted-bound h (counts r step) = omega (arith, Counted-bound h r, Step-bit h step)
