-- ===== src/Tests/Running.antt =====
-- internal/controller/runner.go with a source that always subscribes, and one that fails twice.
use herdr_tabline.Base.{
  ℕ, suc, ◌+◌, ◌≤◌, ◌≡◌, refl, Bool, true, false, none, some, [], ◌∷◌, arith, nat_eq,
}
use herdr_tabline.Base.Int.{pos, int_eq}
use herdr_tabline.Base.Result.{ok, err}
use herdr_tabline.Controller.{Services, reconcile, current_config, reconcile_history}
use herdr_tabline.Runner.{
  Loop, Source, apply_intervals, connected, on_event, on_settle, refresh, intervals, on_debounce,
  reconnect, on_reconnected, start, State, at, event, settles, debounces, settle_expires,
  debounce_expires, Reach, begins, later,
}
use herdr_tabline.Runner.Reconnection.{subscribes, Rounds, last, failing, Rounds-reconnect}
use herdr_tabline.Runner.Schedule.{IsScheduled, Reach-IsScheduled}
use herdr_tabline.Runner.Progress.{Within, Reach-refreshes, Reach-settles}
use herdr_tabline.Runner.Refreshes.{
  events, debounced, bit, Counted, nothing, counts, events-debounced, Counted-bound,
}
use herdr_tabline.Tests.Fixtures.{cells, constant_templates, plain_host}
use herdr_tabline.Tests.Reconciling.{services, stale, numbered}

abbrev willing : Source cells plain_host constant_templates services
willing = record { subscribe = λ kinds w. (true, w); sleep = λ d w. (true, w) }

abbrev Running : Type 0
Running = State cells plain_host constant_templates services willing

abbrev begun : Running
begun =
    at cells plain_host constant_templates services willing
      (start cells plain_host constant_templates services willing false false ([], stale))

begun-Reach : Reach cells plain_host constant_templates services willing begun
begun-Reach = begins false false ([], stale)

abbrev settled : Running
settled = record begun {
  loop = on_settle (record (begun.loop) { settle = record { armed = none; pending = true } });
}

abbrev disturbed : Running
disturbed = record settled { loop = on_event settled.loop }

begun_streams : begun.loop.stream ≡ true
unfolding start
begun_streams = refl

disturbed-Reach : Reach cells plain_host constant_templates services willing disturbed
unfolding start on_event on_settle
disturbed-Reach =
    later (later (later begun-Reach (settle_expires refl)) (settles refl)) (event refl)

Reach-settles_example :
    (n : ℕ) × (t : Running) × (n ≤ 2)
    × Within cells plain_host constant_templates services willing begun n t
    × (t.world ≡ begun.world)
    × (t.loop.warming_up ≡ false)
unfolding start
Reach-settles_example =
    Reach-settles cells plain_host constant_templates services willing begun-Reach refl

Reach-refreshes_example :
    (n : ℕ) × (t : Running) × (n ≤ 2)
    × Within cells plain_host constant_templates services willing disturbed n t
    × (t.world ≡ refresh cells plain_host constant_templates services disturbed.world)
    × (t.loop.dirty ≡ false)
unfolding start on_event on_settle
Reach-refreshes_example =
    Reach-refreshes cells plain_host constant_templates services willing disturbed-Reach refl

Reach-IsScheduled_example : IsScheduled disturbed.loop
Reach-IsScheduled_example =
    Reach-IsScheduled cells plain_host constant_templates services willing disturbed-Reach

abbrev calm : Loop
calm = record {
  poll = pos 1_000_000_000;
  debounce = pos 80_000_000;
  settle = record { armed = none; pending = false };
  debounce_timer = record { armed = none; pending = false };
  ticker = pos 1_000_000_000;
  stream = true;
  warming_up = false;
  dirty = false;
}

events-debounced_example :
    ((events 3 calm).debounce_timer.armed ≡ some (pos 80_000_000))
    × ((debounced cells plain_host constant_templates services (events 3 calm) ([], stale)).1
        ≡ refresh cells plain_host constant_templates services ([], stale))
    × ((debounced cells plain_host constant_templates services (events 3 calm) ([], stale)).0.dirty
        ≡ false)
    × ((debounced cells plain_host constant_templates services
          (debounced cells plain_host constant_templates services (events 3 calm) ([], stale)).0
          (refresh cells plain_host constant_templates services ([], stale))).1
        ≡ refresh cells plain_host constant_templates services ([], stale))
events-debounced_example =
    events-debounced cells plain_host constant_templates services 2 calm ([], stale) refl

-- Calls on a world that counts the passes; each pass ends as the history cannot be loaded.
abbrev counting : Services plain_host constant_templates
counting = record {
  World = ℕ;
  snapshot = λ w. (err "not reachable", w);
  process_info = λ pane w. (err "no process", w);
  rename_tab = λ tab label w. (ok tt, w);
  ctx_err = λ w. none;
  reload_if_changed = λ w. (ok false, suc w);
  current = λ w. some numbered;
  load = λ w. (err "no history", w);
  update = λ f w. (ok true, w);
  now = λ w. (0, w);
}

each_counted : (w : ℕ) → refresh cells plain_host constant_templates counting w ≡ suc w
unfolding refresh reconcile current_config reconcile_history
each_counted w = refl

abbrev ready : Source cells plain_host constant_templates counting
ready = record { subscribe = λ kinds w. (true, w); sleep = λ d w. (true, w) }

abbrev Counting : Type 0
Counting = State cells plain_host constant_templates counting ready

abbrev calm_state : Counting
calm_state = record { loop = calm; world = 0 }

abbrev late : Counting
late = record calm_state {
  loop = record (on_event (on_event calm)) {
    debounce_timer = record { armed = none; pending = true };
  };
}

abbrev refreshed : Counting
refreshed =
    at cells plain_host constant_templates counting ready
      (on_debounce cells plain_host constant_templates counting late.loop late.world)

-- Two events, and one pass.
burst : Counted cells plain_host constant_templates counting ready (λ w. w) calm_state 2 1 refreshed
unfolding on_event on_debounce refresh reconcile current_config reconcile_history
burst =
    counts (counts (counts (counts nothing (event refl)) (event refl)) (debounce_expires refl))
      (debounces refl)

Counted-bound_example : 1 + bit refreshed.loop.dirty ≤ 2 + bit false
Counted-bound_example =
    Counted-bound cells plain_host constant_templates counting ready (λ w. w) each_counted burst

-- Each attempt to subscribe is refused while there is a rename in the list, and removes it.
abbrev refusing : Services.World services → Bool × Services.World services
refusing ([], history) = (true, ([], history))
refusing (x ∷ rest, history) = (false, (rest, history))

abbrev reluctant : Source cells plain_host constant_templates services
reluctant = record { subscribe = λ kinds w. refusing w; sleep = λ d w. (true, w) }

third_succeeds :
    Rounds cells plain_host constant_templates services reluctant 0 2
      (("a", "") ∷ ("b", "") ∷ [], stale)
      (connected, ([], stale))
third_succeeds = failing refl refl refl (failing refl refl refl (last (subscribes refl refl refl)))

Rounds-reconnect_example :
    reconnect cells plain_host constant_templates services reluctant 3 0
      (("a", "") ∷ ("b", "") ∷ [], stale)
    ≡ (connected, ([], stale))
Rounds-reconnect_example =
    Rounds-reconnect cells plain_host constant_templates services reluctant 3 (omega arith)
      third_succeeds

-- A value in the settle timer's channel outlasts the reconnection: the warm-up then ends at once,
-- and a replayed event is taken for a live one.
abbrev stale_timer : Loop
stale_timer = record calm { settle = record { armed = none; pending = true } }

abbrev retimed : Loop
retimed = record calm {
  debounce = pos 0;
  settle = record { armed = some (pos 1_000_000_000); pending = true };
  warming_up = true;
}

stale_settle :
    on_reconnected cells plain_host constant_templates services willing stale_timer
      (connected, ([], stale))
    ≡ some (retimed, refresh cells plain_host constant_templates services ([], stale))
unfolding on_reconnected apply_intervals intervals int_eq nat_eq
stale_settle = refl

replay_refreshed : (on_event (on_settle retimed)).dirty ≡ true
unfolding on_event on_settle
replay_refreshed = refl
