-- ===== src/State/Daemon/Effects.antt =====
-- What the system calls of internal/state/lock_unix.go do to the lock and the PID file: six kinds.
use herdr_tabline.Base.{ℕ, ◌≡◌, ◌⊎◌, inl, inr, refl, Bool, true, false, none, some, arith}
use herdr_tabline.State.Daemon.{
  Pc, absent, unrelated, idle, opened, locked, truncated, written, failing, releasing, dropping,
  asked, probing, unheld, confirmed, clearing, clear_locked, clear_done, Disk, created, pid_text,
  Acquire, Release, Stop, Clear,
}

-- The lock is the process's.
abbrev pub holds : Pc → Bool
holds absent = false
holds unrelated = false
holds (idle own) = own
holds opened = false
holds locked = true
holds truncated = true
holds written = true
holds failing = true
holds releasing = true
holds dropping = true
holds (asked own pid) = own
holds (probing pid) = true
holds (unheld pid) = false
holds (confirmed own pid) = own
holds (clearing own) = own
holds (clear_locked own) = true
holds (clear_done own) = true

-- `Acquire` has recorded the pid, and `Release` has not begun.
abbrev pub records : Pc → Bool
records (idle own) = own
records written = true
records (asked own pid) = own
records (confirmed own pid) = own
records (clearing own) = own
records (absent) = false
records unrelated = false
records opened = false
records locked = false
records truncated = false
records failing = false
records releasing = false
records dropping = false
records (probing pid) = false
records (unheld pid) = false
records (clear_locked own) = false
records (clear_done own) = false

-- A process with a handle that has locked the file again, which cannot be.
abbrev pub twice : Pc → Bool
twice (clear_locked own) = own
twice (clear_done own) = own
twice p = false

pub records-holds : (p : Pc) → records p ≡ true → holds p ≡ true
records-holds p h = ground arith

pub data Effect (i : ℕ) (d : Disk) (p : Pc) (d' : Disk) (p' : Pc) : Type 0 where
  quiet :
      d'.file ≡ d.file
      → d'.holder ≡ d.holder
      → holds p' ≡ holds p
      → (records p' ≡ false) ⊎ (records p ≡ true)
      → (twice p' ≡ false) ⊎ (twice p ≡ true)
      → Effect i d p d' p'
  creates :
      d'.file ≡ created d.file
      → d'.holder ≡ d.holder
      → holds p ≡ false
      → holds p' ≡ false
      → twice p' ≡ false
      → Effect i d p d' p'
  takes :
      d.holder ≡ none
      → d'.holder ≡ some i
      → d'.file ≡ d.file
      → holds p' ≡ true
      → records p' ≡ false
      → (twice p' ≡ false) ⊎ (holds p ≡ true)
      → Effect i d p d' p'
  edits :
      d'.holder ≡ d.holder
      → holds p ≡ true
      → holds p' ≡ true
      → (records p' ≡ false) ⊎ (d'.file ≡ some (pid_text i))
      → (twice p' ≡ false) ⊎ (twice p ≡ true)
      → Effect i d p d' p'
  drops :
      d'.file ≡ d.file
      → d'.holder ≡ none
      → holds p ≡ true
      → (holds p' ≡ false) ⊎ (twice p ≡ true)
      → twice p' ≡ false
      → Effect i d p d' p'

either_own : (own : Bool) → (own ≡ false) ⊎ (own ≡ true)
either_own true = inr refl
either_own false = inl refl

module _ {i : ℕ} {d : Disk} where
  pub Acquire-Effect : {p p' : Pc} {d' : Disk} → Acquire i d p d' p' → Effect i d p d' p'
  Acquire-Effect Acquire.opens = creates refl refl refl refl refl
  Acquire-Effect (Acquire.locks free) = takes free refl refl refl refl (inl refl)
  Acquire-Effect Acquire.truncates = edits refl refl refl (inl refl) (inl refl)
  Acquire-Effect (Acquire.write_fails partial) = edits refl refl refl (inl refl) (inl refl)
  Acquire-Effect Acquire.writes = edits refl refl refl (inr refl) (inl refl)
  Acquire-Effect Acquire.gives_up = drops refl refl refl (inl refl) refl
  Acquire-Effect Acquire.has_handle = quiet refl refl refl (inr refl) (inl refl)
  Acquire-Effect Acquire.open_fails = quiet refl refl refl (inl refl) (inl refl)
  Acquire-Effect (Acquire.lock_busy held) = quiet refl refl refl (inl refl) (inl refl)
  Acquire-Effect Acquire.lock_fails = quiet refl refl refl (inl refl) (inl refl)
  Acquire-Effect Acquire.truncate_fails = quiet refl refl refl (inl refl) (inl refl)
  Acquire-Effect Acquire.sync_fails = quiet refl refl refl (inl refl) (inl refl)
  Acquire-Effect Acquire.syncs = quiet refl refl refl (inr refl) (inl refl)

  pub Release-Effect : {p p' : Pc} {d' : Disk} → Release i d p d' p' → Effect i d p d' p'
  Release-Effect Release.has_none = quiet refl refl refl (inl refl) (inl refl)
  Release-Effect Release.forgets = quiet refl refl refl (inl refl) (inl refl)
  Release-Effect Release.truncate_fails = quiet refl refl refl (inl refl) (inl refl)
  Release-Effect Release.truncates = edits refl refl refl (inl refl) (inl refl)
  Release-Effect Release.unlocks = drops refl refl refl (inl refl) refl

  pub Stop-Effect :
      {alive : ℕ → Bool} {p p' : Pc} {d' : Disk} → Stop alive i d p d' p' → Effect i d p d' p'
  Stop-Effect (Stop.ask_fails {own}) = quiet refl refl refl (either_own own) (inl refl)
  Stop-Effect (Stop.asks {own} pid e) = quiet refl refl refl (either_own own) (inl refl)
  Stop-Effect Stop.owned_here = quiet refl refl refl (inr refl) (inl refl)
  Stop-Effect Stop.probe_fails = quiet refl refl refl (inl refl) (inl refl)
  Stop-Effect (Stop.probe_missing e) = quiet refl refl refl (inl refl) (inl refl)
  Stop-Effect (Stop.probe_busy e) = quiet refl refl refl (inl refl) (inl refl)
  Stop-Effect (Stop.probe_locks free) = takes free refl refl refl refl (inl refl)
  Stop-Effect Stop.probe_unlocks = drops refl refl refl (inl refl) refl
  Stop-Effect (Stop.nothing_stale e) = quiet refl refl refl (inl refl) (inl refl)
  Stop-Effect (Stop.stale e) = quiet refl refl refl (inl refl) (inl refl)
  Stop-Effect (Stop.no_pid {own} e) = quiet refl refl refl (either_own own) (inl refl)
  Stop-Effect (Stop.own_pid {own} e) = quiet refl refl refl (either_own own) (inl refl)
  Stop-Effect (Stop.kill_fails {own}) = quiet refl refl refl (either_own own) (inl refl)
  Stop-Effect (Stop.kill_misses {own} e f g) = quiet refl refl refl (either_own own) (inl refl)
  Stop-Effect (Stop.kills {own} e f g) = quiet refl refl refl (either_own own) (inl refl)

  pub Clear-Effect : {p p' : Pc} {d' : Disk} → Clear i d p d' p' → Effect i d p d' p'
  Clear-Effect (Clear.open_fails {own}) = quiet refl refl refl (either_own own) (inl refl)
  Clear-Effect (Clear.lock_busy {own} e) = quiet refl refl refl (either_own own) (inl refl)
  Clear-Effect (Clear.locks {own} free) = takes free refl refl refl refl (either_own own)
  Clear-Effect (Clear.truncate_fails {own}) = quiet refl refl refl (inl refl) (either_own own)
  Clear-Effect (Clear.truncates {own}) = edits refl refl refl (inl refl) (either_own own)
  Clear-Effect (Clear.unlocks {own}) = drops refl refl refl (either_own own) refl
