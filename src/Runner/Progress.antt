-- ===== src/Runner/Progress.antt =====
-- internal/controller/runner.go's event loop can always do what it still owes.
use herdr_tabline.Base.{
  ℕ, suc, ◌≤◌, ◌≡◌, ◌⊎◌, inl, inr, refl, true, false, some, arith, Option-cases,
}
use herdr_tabline.Base.Int.{ℤ}
use herdr_tabline.Render.Width.{Graphemes}
use herdr_tabline.Render.Engine.{Templates}
use herdr_tabline.Config.Types.{Host}
use herdr_tabline.Controller.{Services}
use herdr_tabline.Runner.{
  Timer, expired, Loop, Source, on_settle, refresh, apply_intervals, on_debounce, State, at, Step,
  settles, debounces, settle_expires, debounce_expires, Reach,
}
use herdr_tabline.Runner.Schedule.{waits, Reach-IsScheduled}

waits-cases : (t : Timer) → waits t ≡ true → (t.pending ≡ true) ⊎ ((d : ℤ) × (t.armed ≡ some d))
waits-cases t h = elim (Option-cases t.armed) [
  | inl e ↦ inl (ground (arith, h))
  | inr (d, e) ↦ inr (d, e)
]

module _ (G : Graphemes) (H : Host) (T : Templates) (S : Services H T) (C : Source G H T S) where
  -- One state after another by a number of steps.
  pub data Within (s : State G H T S C) : ℕ → State G H T S C → Type 0 where
    stays : Within s 0 s
    moves : {n : ℕ} {t u : State G H T S C} → Within s n t → Step G H T S C t u → Within s (suc n) u

  on_debounce_refreshes :
      (l : Loop) (w : S.World)
      → l.dirty ≡ true
      → ((on_debounce G H T S l w).1 ≡ refresh G H T S w)
        × ((on_debounce G H T S l w).0.dirty ≡ false)
  unfolding on_debounce apply_intervals
  on_debounce_refreshes l w h = ground arith

  -- In every state that the runner reaches with an event that it has not refreshed for: at most two
  -- steps, the debounce timer's expiry and one round of the loop, lead from there to a state where the
  -- runner has made its pass over the same world, and no event is outstanding.
  pub Reach-refreshes :
      {s : State G H T S C}
      → Reach G H T S C s
      → s.loop.dirty ≡ true
      → (n : ℕ) × (t : State G H T S C) × (n ≤ 2)
        × Within s n t
        × (t.world ≡ refresh G H T S s.world)
        × (t.loop.dirty ≡ false)
  Reach-refreshes {s} r h =
      let due : waits s.loop.debounce_timer ≡ true =
        ground (arith, (Reach-IsScheduled G H T S C r).refreshes) in
      let late = record (s.loop) { debounce_timer = expired s.loop.debounce_timer } in
      elim (waits-cases s.loop.debounce_timer due) [
        | inl p ↦ (
          1,
          at G H T S C (on_debounce G H T S s.loop s.world),
          omega arith,
          moves stays (debounces p),
          (on_debounce_refreshes s.loop s.world h).0,
          (on_debounce_refreshes s.loop s.world h).1,
        )
        | inr (d, e) ↦ (
          2,
          at G H T S C (on_debounce G H T S late s.world),
          omega arith,
          moves (moves stays (debounce_expires e)) (debounces refl),
          (on_debounce_refreshes late s.world h).0,
          (on_debounce_refreshes late s.world h).1,
        )
      ]

  -- In every state that the runner reaches within a warm-up: at most two steps, the settle timer's
  -- expiry and one round of the loop, lead from there to a state with the same world where the
  -- warm-up is over.
  pub Reach-settles :
      {s : State G H T S C}
      → Reach G H T S C s
      → s.loop.warming_up ≡ true
      → (n : ℕ) × (t : State G H T S C) × (n ≤ 2)
        × Within s n t
        × (t.world ≡ s.world)
        × (t.loop.warming_up ≡ false)
  unfolding on_settle
  Reach-settles {s} r h =
      let due : waits s.loop.settle ≡ true =
        ground (arith, (Reach-IsScheduled G H T S C r).settles) in
      let late = record (s.loop) { settle = expired s.loop.settle } in
      elim (waits-cases s.loop.settle due) [
        | inl p ↦ (
          1,
          record s { loop = on_settle s.loop },
          omega arith,
          moves stays (settles p),
          refl,
          refl,
        )
        | inr (d, e) ↦ (
          2,
          record s { loop = on_settle late },
          omega arith,
          moves (moves stays (settle_expires e)) (settles refl),
          refl,
          refl,
        )
      ]
