-- ===== src/Tests/Locking.antt =====
-- Schedules of processes on one session's PID file: internal/state/lock_unix.go.
use native.Mathlib.Decide.{ℕ_discrete}
use herdr_tabline.Base.{
  ℕ, ◌≡◌, ◌⊎◌, refl, true, false, none, some, [], ◌∷◌, arith, string_eq, nat_eq,
}
use herdr_tabline.Base.Decimal.{itoa, atoi}
use herdr_tabline.Base.Text.{trim_space}
use herdr_tabline.Base.Result.{ok, err}
use herdr_tabline.State.Daemon.{
  Pc, unrelated, idle, pid_text, recorded_pid, Acquire, Stop, System, Step, acquire, stop, starts,
  is_reused, dies, Reach, start, later,
}
use herdr_tabline.State.Daemon.Effects.{holds}
use herdr_tabline.State.Daemon.Exclusion.{
  Reach-single_daemon, Reach-no_leak, recorded_pid-pid_text, Reach-asks,
}

abbrev Run : Type 0
Run = (s : System) × Reach s

infixl 5 ◌▸◌
abbrev ◌▸◌ : (r : Run) {t : System} → Step r.0 t → Run
◌▸◌ r {t} st = (t, later r.1 st)

pid_text_one : pid_text 1 ≡ "1\n"
unfolding itoa nat_eq
pid_text_one = refl

read_one : recorded_pid (some "1\n") ≡ ok 1
unfolding recorded_pid trim_space atoi string_eq nat_eq
read_one = refl

read_malformed : recorded_pid (some "-4") ≡ err "-4"
unfolding recorded_pid trim_space atoi string_eq nat_eq
read_malformed = refl

-- Process 1 is a daemon.
abbrev one_daemon : Run
unfolding ℕ_discrete
one_daemon =
    (_, start)
    ▸ starts 1 refl
    ▸ acquire 1 Acquire.opens
    ▸ acquire 1 (Acquire.locks refl)
    ▸ acquire 1 Acquire.truncates
    ▸ acquire 1 Acquire.writes
    ▸ acquire 1 Acquire.syncs

one_runs : (one_daemon.0.pc 1 ≡ idle true) × (one_daemon.0.disk.file ≡ some (pid_text 1))
unfolding ℕ_discrete
one_runs = (refl, refl)

Reach-single_daemon_example :
    ◌≡◌ {A = ℕ} 1 1
    × (one_daemon.0.disk.holder ≡ some 1)
    × (one_daemon.0.disk.file ≡ some (pid_text 1))
unfolding ℕ_discrete
Reach-single_daemon_example = Reach-single_daemon one_daemon.1 1 1 refl refl

Reach-no_leak_example :
    (one_daemon.0.disk.holder ≡ none)
    ⊎ ((k : ℕ) × (one_daemon.0.disk.holder ≡ some k) × (holds (one_daemon.0.pc k) ≡ true))
Reach-no_leak_example = Reach-no_leak one_daemon.1

recorded_pid-pid_text_example : recorded_pid (some (pid_text 4321)) ≡ ok 4321
recorded_pid-pid_text_example = recorded_pid-pid_text 4321 (omega arith) (omega arith)

one_read : recorded_pid one_daemon.0.disk.file ≡ ok 1
unfolding ℕ_discrete recorded_pid trim_space itoa atoi string_eq nat_eq
one_read = refl

Reach-asks_example : recorded_pid one_daemon.0.disk.file ≡ ok 1
unfolding ℕ_discrete
Reach-asks_example = Reach-asks one_daemon.1 1 refl (omega arith) (omega arith)

-- Process 2 asks for the pid; then daemon 1 dies, its pid goes to another program, and process 3
-- becomes the daemon.
abbrev replaced : Run
unfolding ℕ_discrete
replaced =
    one_daemon
    ▸ starts 2 refl
    ▸ stop 2 (Stop.asks 1 one_read)
    ▸ dies 1
    ▸ is_reused 1 refl
    ▸ starts 3 refl
    ▸ acquire 3 Acquire.opens
    ▸ acquire 3 (Acquire.locks refl)

-- Process 2 then finds the lock held, by 3, and signals the pid that it has read.
abbrev astray : Run
unfolding ℕ_discrete
astray = replaced ▸ stop 2 (Stop.probe_busy refl) ▸ stop 2 (Stop.kills (λ e. cc) (λ e. cc) refl)

stray_signal :
    (astray.0.disk.signalled ≡ 1 ∷ [])
    × (astray.0.pc 1 ≡ unrelated)
    × (astray.0.disk.holder ≡ some 3)
unfolding ℕ_discrete
stray_signal = (refl, refl, refl)

nothing_recorded : recorded_pid (some "") ≡ ok 0
unfolding recorded_pid trim_space string_eq
nothing_recorded = refl

-- While process 2 probes a free lock, process 1 cannot become the daemon, though there is none.
abbrev probed : Run
unfolding ℕ_discrete
probed =
    (_, start)
    ▸ starts 1 refl
    ▸ starts 2 refl
    ▸ acquire 1 Acquire.opens
    ▸ stop 2 (Stop.asks 0 nothing_recorded)
    ▸ stop 2 (Stop.probe_locks refl)
    ▸ acquire 1 (Acquire.lock_busy refl)

refused_without_daemon : (probed.0.pc 1 ≡ idle false) × (probed.0.pc 2 ≡ Pc.probing 0)
unfolding ℕ_discrete
refused_without_daemon = (refl, refl)
