-- ===== src/State/Daemon/Exclusion.antt =====
-- One daemon for a session, whose record stays intact: internal/state/lock_unix.go.
use herdr_tabline.Base.{
  ℕ, zero, suc, String, string_eq, ◌==◌, ◌≤◌, ◌<◌, ◌≡◌, ◌⊎◌, inl, inr, refl, sym, ap, ◌∙◌, true,
  false, Option, none, some, arith, Bool-cases,
}
use herdr_tabline.Base.Decimal.{itoa, atoi, max_int, trim_space-itoa, atoi-itoa}
use herdr_tabline.Base.Int.{pos}
use herdr_tabline.Base.Result.{ok}
use herdr_tabline.State.Daemon.{
  Pc, absent, unrelated, idle, Disk, pid_text, trimmed_pid, recorded_pid, System, update, freed,
  Step, acquire, release, stop, clear, starts, is_reused, dies, Reach, start, later,
}
use herdr_tabline.State.Daemon.Effects.{
  holds, records, twice, records-holds, Effect, quiet, creates, takes, edits, drops, Acquire-Effect,
  Release-Effect, Stop-Effect, Clear-Effect,
}

pub record Inv (d : Disk) (pc : ℕ → Pc) : Type 0 where
  pub owner : (i : ℕ) → holds (pc i) ≡ true → d.holder ≡ some i
  pub owned : (i : ℕ) → d.holder ≡ some i → holds (pc i) ≡ true
  pub recorded : (i : ℕ) → records (pc i) ≡ true → d.file ≡ some (pid_text i)
  pub once : (i : ℕ) → twice (pc i) ≡ false

module _ {d : Disk} {pc : ℕ → Pc} (inv : Inv d pc) (i : ℕ) {d' : Disk} {p' : Pc} where
  Effect-owner :
      Effect i d (pc i) d' p' → (j : ℕ) → holds (update pc i p' j) ≡ true → d'.holder ≡ some j
  Effect-owner (quiet a b c e f) j h = ground (arith, inv.owner j, inv.owner i, inv.once i)
  Effect-owner (creates a b c e f) j h = ground (arith, inv.owner j, inv.owner i, inv.once i)
  Effect-owner (takes a b c e f g) j h = ground (arith, inv.owner j, inv.owner i, inv.once i)
  Effect-owner (edits a b c e f) j h = ground (arith, inv.owner j, inv.owner i, inv.once i)
  Effect-owner (drops a b c e f) j h = ground (arith, inv.owner j, inv.owner i, inv.once i)

  Effect-owned :
      Effect i d (pc i) d' p' → (j : ℕ) → d'.holder ≡ some j → holds (update pc i p' j) ≡ true
  Effect-owned (quiet a b c e f) j h = ground (arith, inv.owned j, inv.owned i)
  Effect-owned (creates a b c e f) j h = ground (arith, inv.owned j, inv.owned i)
  Effect-owned (takes a b c e f g) j h = ground (arith, inv.owned j, inv.owned i)
  Effect-owned (edits a b c e f) j h = ground (arith, inv.owned j, inv.owner i)
  Effect-owned (drops a b c e f) j h = ground (arith, inv.owned j, inv.owned i)

  Effect-recorded :
      Effect i d (pc i) d' p'
      → (j : ℕ) → records (update pc i p' j) ≡ true
      → d'.file ≡ some (pid_text j)
  Effect-recorded (quiet a b c e f) j h = ground (arith, inv.recorded j, inv.recorded i)
  Effect-recorded (creates a b c e f) j h = ground (arith, inv.recorded j, records-holds p')
  Effect-recorded (takes a b c e f g) j h = ground (arith, inv.recorded j)
  Effect-recorded (edits a b c e f) j h =
      ground (arith, inv.recorded j, inv.owner i, inv.owner j, records-holds (pc j))
  Effect-recorded (drops a b c e f) j h =
      ground (arith, inv.recorded j, inv.once i, records-holds p')

  Effect-once : Effect i d (pc i) d' p' → (j : ℕ) → twice (update pc i p' j) ≡ false
  Effect-once (quiet a b c e f) j = ground (arith, inv.once j, inv.once i)
  Effect-once (creates a b c e f) j = ground (arith, inv.once j)
  Effect-once (takes a b c e f g) j = ground (arith, inv.once j, inv.owner i)
  Effect-once (edits a b c e f) j = ground (arith, inv.once j, inv.once i)
  Effect-once (drops a b c e f) j = ground (arith, inv.once j)

  Effect-Inv : Effect i d (pc i) d' p' → Inv d' (update pc i p')
  Effect-Inv e = record {
    owner = Effect-owner e;
    owned = Effect-owned e;
    recorded = Effect-recorded e;
    once = Effect-once e;
  }

-- The pid starts or ends, and the process has no lock.
module _ {d : Disk} {pc : ℕ → Pc} (inv : Inv d pc) (i : ℕ) (p : Pc) where
  quiet-Inv :
      holds (pc i) ≡ false
      → holds p ≡ false
      → records p ≡ false
      → twice p ≡ false
      → Inv d (update pc i p)
  quiet-Inv a b c e = Effect-Inv inv i (quiet refl refl (b ∙ sym a) (inl c) (inl e))

absent-holds : (p : Pc) → p ≡ absent → holds p ≡ false
absent-holds p e = ap holds e

module _ {d : Disk} {pc : ℕ → Pc} (inv : Inv d pc) (i : ℕ) where
  dies-Inv : Inv (record d { holder = freed i d.holder }) (update pc i absent)
  dies-Inv = record {
    owner = λ j h. ground (arith, inv.owner j);
    owned = λ j h. ground (arith, inv.owned j);
    recorded = λ j h. ground (arith, inv.recorded j);
    once = λ j. ground (arith, inv.once j);
  }

Step-Inv : {s t : System} → Step s t → Inv s.disk s.pc → Inv t.disk t.pc
Step-Inv (acquire i mv) inv = Effect-Inv inv i (Acquire-Effect mv)
Step-Inv (release i mv) inv = Effect-Inv inv i (Release-Effect mv)
Step-Inv (stop i mv) inv = Effect-Inv inv i (Stop-Effect mv)
Step-Inv (clear i mv) inv = Effect-Inv inv i (Clear-Effect mv)
Step-Inv (starts i e) inv = quiet-Inv inv i (idle false) (ap holds e) refl refl refl
Step-Inv (is_reused i e) inv = quiet-Inv inv i unrelated (ap holds e) refl refl refl
Step-Inv (dies i) inv = dies-Inv inv i

pub Reach-Inv : {s : System} → Reach s → Inv s.disk s.pc
Reach-Inv start = record {
  owner = λ i h. cc;
  owned = λ i h. cc;
  recorded = λ i h. cc;
  once = λ i. refl;
}
Reach-Inv (later r st) = Step-Inv st (Reach-Inv r)

holder_cases :
    {d : Disk} {pc : ℕ → Pc}
    → Inv d pc
    → (holder : Option ℕ) → d.holder ≡ holder
    → (d.holder ≡ none) ⊎ ((k : ℕ) × (d.holder ≡ some k) × (holds (pc k) ≡ true))
holder_cases inv none e = inl e
holder_cases inv (some k) e = inr (k, e, inv.owned k e)

-- In every reachable state, with two processes that have both completed `Acquire`, and not begun
-- `Release`: they are the same process, it has the lock, and the PID file holds its pid and
-- nothing else, whatever contenders and stopping processes have done meanwhile.
pub Reach-single_daemon :
    {s : System}
    → Reach s
    → (i j : ℕ) → records (s.pc i) ≡ true
    → records (s.pc j) ≡ true
    → (i ≡ j) × (s.disk.holder ≡ some i) × (s.disk.file ≡ some (pid_text i))
Reach-single_daemon {s} r i j hi hj =
    let inv = Reach-Inv r in
    let held_i = inv.owner i (records-holds (s.pc i) hi) in
    let held_j = inv.owner j (records-holds (s.pc j) hj) in (cc, held_i, inv.recorded i hi)

-- In every reachable state the lock is free, or it belongs to a process that stands where its code
-- goes on to release it or to keep it as its daemon's: no death and no failing call leaks it.
pub Reach-no_leak :
    {s : System}
    → Reach s
    → (s.disk.holder ≡ none) ⊎ ((k : ℕ) × (s.disk.holder ≡ some k) × (holds (s.pc k) ≡ true))
Reach-no_leak {s} r = holder_cases (Reach-Inv r) s.disk.holder refl

atoi_nil : atoi "" ≡ none
unfolding atoi
atoi_nil = refl

trimmed_pid-atoi :
    (n : ℕ) (text : String) → atoi text ≡ some (pos (suc n)) → trimmed_pid text ≡ ok (suc n)
trimmed_pid-atoi n text e = elim (Bool-cases (text == "")) [
  | inr some_text ↦ rw (some_text, e) refl
  | inl nothing ↦
      let p : text ≡ "" = ground arith in
      let q : none ≡ some (pos (suc n)) = sym atoi_nil ∙ ap atoi (sym p) ∙ e in cc
]

-- For every pid from 1 to the greatest `int`: `PID` reads back what `writePID` wrote.
pub recorded_pid-pid_text :
    (pid : ℕ) → 0 < pid → pid ≤ max_int → recorded_pid (some (pid_text pid)) ≡ ok pid
unfolding recorded_pid
recorded_pid-pid_text zero h k = absurd (omega arith)
recorded_pid-pid_text (suc n) h k =
    ap trimmed_pid (trim_space-itoa (suc n))
    ∙ trimmed_pid-atoi n (itoa (suc n)) (atoi-itoa (suc n) k)

-- In every reachable state with a process that has written its pid in `Acquire` and not begun a `Release`, and
-- whose pid is a positive `int`: `PID` reads that pid from the PID file.
pub Reach-asks :
    {s : System}
    → Reach s
    → (i : ℕ) → records (s.pc i) ≡ true
    → 0 < i
    → i ≤ max_int
    → recorded_pid s.disk.file ≡ ok i
Reach-asks r i h low high =
    ap recorded_pid ((Reach-Inv r).recorded i h) ∙ recorded_pid-pid_text i low high
