-- ===== src/State/Daemon.antt =====
-- internal/state/lock_unix.go: the daemon's lock on the PID file of one session, and the stopping
-- of the daemon, by any number of processes whose system calls interleave.
-- A process is named by its pid. Each step is one system call; every call may fail. A process may
-- die at any point, and the system drops its lock with it; a free pid may be given to a new process
-- of the program or to an unrelated one. An interrupted `flock` is tried again and is no step.
pub mod Effects
pub mod Exclusion
use native.Mathlib.Decide.{ℕ_discrete}
use mathlib.Core.Logic.{ite}
use herdr_tabline.Base.{
  ℕ, zero, suc, ◌≤◌, ◌<◌, ◌≡◌, ◌≢◌, ◌⊎◌, String, ◌<>◌, Bool, true, false, Option, none, some, List,
  [], ◌∷◌, ◌==◌, string_eq, nat_eq, if◌then◌else◌,
}
use herdr_tabline.Base.Int.{ℤ, pos, negsuc}
use herdr_tabline.Base.Decimal.{itoa, atoi, max_int}
use herdr_tabline.Base.Text.{trim_space}
use herdr_tabline.Base.Result.{Result, ok, err}

-- What `writePID` writes.
abbrev pub pid_text : ℕ → String
pid_text pid = itoa pid <> "\n"

abbrev pub parsed_pid : String → Option ℤ → Result String ℕ
parsed_pid text none = err text
parsed_pid text (some (negsuc n)) = err text
parsed_pid text (some (pos zero)) = err text
parsed_pid text (some (pos (suc n))) = ok (suc n)

abbrev pub trimmed_pid : String → Result String ℕ
trimmed_pid text = if text == "" then ok 0 else parsed_pid text (atoi text)

-- `PID`, once the file has been read: `none` is a missing file.
unfoldable pub recorded_pid : Option String → Result String ℕ
recorded_pid none = ok 0
recorded_pid (some raw) = trimmed_pid (trim_space raw)

-- Where a process stands. A Boolean says whether its `DaemonLock` has a handle.
pub data Pc : Type 0 where
  -- no process has the pid, or one of another program
  absent unrelated : Pc
  -- between two operations
  idle : Bool → Pc
  -- in `Acquire`, behind opening, `flock`, truncating and writing, and before the unlocking of a failure
  opened locked truncated written failing : Pc
  -- in `Release`, before truncating and before unlocking
  releasing dropping : Pc
  -- in `SignalStop`, behind `PID`, within and behind a probe that found the lock free, and behind
  -- one that found it held
  asked : Bool → ℕ → Pc
  probing unheld : ℕ → Pc
  confirmed : Bool → ℕ → Pc
  -- in `clearStalePID`, before locking, behind it, and before unlocking
  clearing clear_locked clear_done : Bool → Pc

-- The PID file, who has the lock on it, and the pids that were sent a signal, the last one first.
pub record Disk : Type 0 where
  pub file : Option String
  pub holder : Option ℕ
  pub signalled : List ℕ

-- `os.O_CREATE`
abbrev pub created : Option String → Option String
created none = some ""
created (some text) = some text

-- `Acquire`, with `writePID`.
pub data Acquire (i : ℕ) (d : Disk) : Pc → Disk → Pc → Type 0 where
  has_handle : Acquire i d (idle true) d (idle true)
  open_fails : Acquire i d (idle false) d (idle false)
  opens : Acquire i d (idle false) (record d { file = created d.file }) opened
  lock_busy : {j : ℕ} → d.holder ≡ some j → Acquire i d opened d (idle false)
  lock_fails : Acquire i d opened d (idle false)
  locks : d.holder ≡ none → Acquire i d opened (record d { holder = some i }) locked
  truncate_fails : Acquire i d locked d failing
  truncates : Acquire i d locked (record d { file = some "" }) truncated
  write_fails :
      (partial : String) → Acquire i d truncated (record d { file = some partial }) failing
  writes : Acquire i d truncated (record d { file = some (pid_text i) }) written
  sync_fails : Acquire i d written d failing
  syncs : Acquire i d written d (idle true)
  gives_up : Acquire i d failing (record d { holder = none }) (idle false)

-- `Release`.
pub data Release (i : ℕ) (d : Disk) : Pc → Disk → Pc → Type 0 where
  has_none : Release i d (idle false) d (idle false)
  forgets : Release i d (idle true) d releasing
  truncate_fails : Release i d releasing d dropping
  truncates : Release i d releasing (record d { file = some "" }) dropping
  unlocks : Release i d dropping (record d { holder = none }) (idle false)

-- `SignalStop`, with `lockHeld`; `alive` says which pids a signal finds.
pub data Stop (alive : ℕ → Bool) (i : ℕ) (d : Disk) : Pc → Disk → Pc → Type 0 where
  ask_fails : {own : Bool} → Stop alive i d (idle own) d (idle own)
  asks :
      {own : Bool} (pid : ℕ)
      → recorded_pid d.file ≡ ok pid
      → Stop alive i d (idle own) d (asked own pid)
  owned_here : {pid : ℕ} → Stop alive i d (asked true pid) d (confirmed true pid)
  probe_fails : {pid : ℕ} → Stop alive i d (asked false pid) d (idle false)
  probe_missing : {pid : ℕ} → d.file ≡ none → Stop alive i d (asked false pid) d (unheld pid)
  probe_busy :
      {pid j : ℕ} → d.holder ≡ some j → Stop alive i d (asked false pid) d (confirmed false pid)
  probe_locks :
      {pid : ℕ}
      → d.holder ≡ none
      → Stop alive i d (asked false pid) (record d { holder = some i }) (probing pid)
  probe_unlocks : {pid : ℕ} → Stop alive i d (probing pid) (record d { holder = none }) (unheld pid)
  nothing_stale : {pid : ℕ} → pid ≡ 0 → Stop alive i d (unheld pid) d (idle false)
  stale : {pid : ℕ} → pid ≢ 0 → Stop alive i d (unheld pid) d (clearing false)
  no_pid : {own : Bool} {pid : ℕ} → pid ≡ 0 → Stop alive i d (confirmed own pid) d (idle own)
  own_pid : {own : Bool} {pid : ℕ} → pid ≡ i → Stop alive i d (confirmed own pid) d (idle own)
  kill_fails : {own : Bool} {pid : ℕ} → Stop alive i d (confirmed own pid) d (idle own)
  kill_misses :
      {own : Bool} {pid : ℕ}
      → pid ≢ 0
      → pid ≢ i
      → alive pid ≡ false
      → Stop alive i d (confirmed own pid) d (clearing own)
  kills :
      {own : Bool} {pid : ℕ}
      → pid ≢ 0
      → pid ≢ i
      → alive pid ≡ true
      → Stop alive i d (confirmed own pid) (record d { signalled = pid ∷ d.signalled }) (idle own)

-- `clearStalePID`.
pub data Clear (i : ℕ) (d : Disk) : Pc → Disk → Pc → Type 0 where
  open_fails : {own : Bool} → Clear i d (clearing own) d (idle own)
  lock_busy : {own : Bool} {j : ℕ} → d.holder ≡ some j → Clear i d (clearing own) d (idle own)
  locks :
      {own : Bool}
      → d.holder ≡ none
      → Clear i d (clearing own) (record d { holder = some i }) (clear_locked own)
  truncate_fails : {own : Bool} → Clear i d (clear_locked own) d (clear_done own)
  truncates :
      {own : Bool} → Clear i d (clear_locked own) (record d { file = some "" }) (clear_done own)
  unlocks : {own : Bool} → Clear i d (clear_done own) (record d { holder = none }) (idle own)

abbrev pub is_alive : Pc → Bool
is_alive absent = false
is_alive p = true

abbrev pub update : (ℕ → Pc) → ℕ → Pc → ℕ → Pc
update pc i p j = ite (ℕ_discrete i j) p (pc j)

-- The system closes the files of a process that dies.
abbrev pub freed : ℕ → Option ℕ → Option ℕ
freed i none = none
freed i (some j) = ite (ℕ_discrete i j) none (some j)

pub record System : Type 0 where
  pub disk : Disk
  pub pc : ℕ → Pc

pub data Step (s : System) : System → Type 0 where
  acquire :
      (i : ℕ) {d : Disk} {p : Pc}
      → Acquire i s.disk (s.pc i) d p
      → Step s (record { disk = d; pc = update s.pc i p })
  release :
      (i : ℕ) {d : Disk} {p : Pc}
      → Release i s.disk (s.pc i) d p
      → Step s (record { disk = d; pc = update s.pc i p })
  stop :
      (i : ℕ) {d : Disk} {p : Pc}
      → Stop (λ j. is_alive (s.pc j)) i s.disk (s.pc i) d p
      → Step s (record { disk = d; pc = update s.pc i p })
  clear :
      (i : ℕ) {d : Disk} {p : Pc}
      → Clear i s.disk (s.pc i) d p
      → Step s (record { disk = d; pc = update s.pc i p })
  starts : (i : ℕ) → s.pc i ≡ absent → Step s (record s { pc = update s.pc i (idle false) })
  is_reused : (i : ℕ) → s.pc i ≡ absent → Step s (record s { pc = update s.pc i unrelated })
  dies :
      (i : ℕ)
      → Step s (record {
        disk = record (s.disk) { holder = freed i s.disk.holder };
        pc = update s.pc i absent;
      })

abbrev pub no_processes : System
no_processes = record {
  disk = record { file = none; holder = none; signalled = [] };
  pc = λ i. absent;
}

pub data Reach : System → Type 0 where
  start : Reach no_processes
  later : {s t : System} → Reach s → Step s t → Reach t
