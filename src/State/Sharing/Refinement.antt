-- ===== src/State/Sharing/Refinement.antt =====
-- Each caller of internal/state/store.go works as if it were alone.
use native.Mathlib.Decide.{ℕ_discrete}
use mathlib.Core.Path.{subst}
use mathlib.Core.Logic.{ite}
use herdr_tabline.Base.{
  ℕ, ◌≡◌, ◌≢◌, ◌⊎◌, inl, inr, refl, sym, ◌∙◌, String, true, false, some, List, [], ◌∷◌, arith,
  string_eq, nat_eq,
}
use herdr_tabline.Base.Dict.{lookup, insert, erase, lookup-insert}
use herdr_tabline.Base.Result.{Result, ok, err, ◌>>=◌}
use herdr_tabline.Model.{History}
use herdr_tabline.State.Store.{Codec, Paths, Files, StoreError, read, update, load}
use herdr_tabline.State.Store.Undisturbed.{undisturbed, content, Due, update-Due}
use herdr_tabline.State.Sharing.{
  Mutate, Pc, absent, idle, loaded, closed, ending, Disk, set, tabs_read, System, Lock, Load,
  Update, Write, Step, Reach, start, later,
}
use herdr_tabline.State.Sharing.Phases.{excludes, shares}
use herdr_tabline.State.Sharing.Effects.{
  Effect, quiet, takes_shared, takes_exclusive, drops_shared, drops_exclusive, Lock-Effect,
  Load-Effect, Update-Effect, Write-Effect,
}
use herdr_tabline.State.Sharing.Isolation.{Locks, Reach-Locks}
use herdr_tabline.State.Sharing.Holds.{
  Holds, Holds-outside, Lock-Holds, Load-Holds, Update-Holds, Write-Holds, content-insert,
  content-erase,
}

-- Files change only under the exclusive lock.
files-Effect :
    {i : ℕ} {d : Disk} {p : Pc} {d' : Disk} {p' : Pc}
    → Effect i d p d' p'
    → (d'.files ≡ d.files) ⊎ (excludes p ≡ true)
files-Effect (quiet a b c e f) = f
files-Effect (takes_shared a b c e f) = inl f
files-Effect (takes_exclusive a b c e f g) = inl g
files-Effect (drops_shared a b c e f) = inl f
files-Effect (drops_exclusive a b c e f g) = inl g

-- Where one has the exclusive lock, no other has a lock.
alone :
    {d : Disk} {pc : ℕ → Pc}
    → Locks d pc
    → (i j : ℕ) → i ≢ j
    → excludes (pc i) ≡ true
    → (excludes (pc j) ≡ false) × (shares (pc j) ≡ false)
alone {pc = pc} inv i j apart h =
    ground (arith, inv.owner i, inv.owner j, inv.sharer j, inv.apart j)

module _ (C : Codec) (paths : Paths) where
  abbrev AllHold : Files → (ℕ → Pc) → Type 0
  AllHold files pc = (j : ℕ) → Holds C paths (pc j) files

  others-Holds :
      (d d' : Disk) (pc : ℕ → Pc)
      → Locks d pc
      → AllHold d.files pc
      → (i j : ℕ) → i ≢ j
      → (d'.files ≡ d.files) ⊎ (excludes (pc i) ≡ true)
      → Holds C paths (pc j) d'.files
  others-Holds d d' pc inv h i j apart (inl same) =
      subst (λ files. Holds C paths (pc j) files) (sym same) (h j)
  others-Holds d d' pc inv h i j apart (inr e) =
      let (unowned, unshared) = alone inv i j apart e in
      Holds-outside C paths (pc j) d'.files unowned unshared

  set-AllHold :
      (i : ℕ) (p' : Pc) (files : Files) (pc : ℕ → Pc)
      → Holds C paths p' files
      → ((j : ℕ) → i ≢ j → Holds C paths (pc j) files)
      → AllHold files (set pc i p')
  set-AllHold i p' files pc own other j =
      elim (ℕ_discrete i j) as (λ c. Holds C paths (ite c p' (pc j)) files) [
        | yes e ↦ own
        | no e ↦ other j e
      ]

  Effect-AllHold :
      (d d' : Disk) (pc : ℕ → Pc) (i : ℕ) (p' : Pc)
      → Locks d pc
      → AllHold d.files pc
      → Effect i d (pc i) d' p'
      → Holds C paths p' d'.files
      → AllHold d'.files (set pc i p')
  Effect-AllHold d d' pc i p' inv h e own =
      set-AllHold i p' d'.files pc own
        (λ j apart. others-Holds d d' pc inv h i j apart (files-Effect e))

  Step-AllHold :
      {s t : System}
      → Locks s.disk s.pc
      → AllHold s.disk.files s.pc
      → Step C paths s t
      → AllHold t.disk.files t.pc
  Step-AllHold {s = s} inv h (Step.lock i {d = d} {p = p} a) =
      Effect-AllHold s.disk d s.pc i p inv h (Lock-Effect a) (Lock-Holds C paths (h i) a)
  Step-AllHold {s = s} inv h (Step.load i {d = d} {p = p} a) =
      Effect-AllHold s.disk d s.pc i p inv h (Load-Effect a) (Load-Holds C paths (h i) a)
  Step-AllHold {s = s} inv h (Step.update i {d = d} {p = p} a) =
      Effect-AllHold s.disk d s.pc i p inv h (Update-Effect a) (Update-Holds C paths (h i) a)
  Step-AllHold {s = s} inv h (Step.write i {d = d} {p = p} a) =
      Effect-AllHold s.disk d s.pc i p inv h (Write-Effect a) (Write-Holds C paths (h i) a)
  Step-AllHold {s = s} inv h (Step.starts i a) =
      set-AllHold i idle s.disk.files s.pc tt (λ j apart. h j)
  Step-AllHold {s = s} inv h (Step.dies i) =
      set-AllHold i absent s.disk.files s.pc tt (λ j apart. h j)

  Reach-AllHold : {files : Files} {s : System} → Reach C paths files s → AllHold s.disk.files s.pc
  Reach-AllHold start = λ j. tt
  Reach-AllHold (later r a) = Step-AllHold (Reach-Locks C paths r) (Reach-AllHold r) a

  load-tabs_read :
      (tabs : History) (r : Result StoreError (History × String))
      → tabs_read C paths r ≡ ok tabs
      → (r >>= λ x. ok x.0) ≡ ok tabs
  load-tabs_read tabs (err e) h = cc
  load-tabs_read tabs (ok (read_tabs, current)) h = h

  -- In every state that any number of callers reach, with any failures and deaths: a caller that has
  -- read the history and has not yet released the shared lock has what an undisturbed `Load` returns there.
  pub load-Reach :
      {files : Files} {s : System} (i : ℕ) (tabs : History)
      → Reach C paths files s
      → s.pc i ≡ loaded (ok tabs)
      → load C paths undisturbed s.disk.files ≡ ok tabs
  unfolding load
  load-Reach {s = s} i tabs r h =
      load-tabs_read tabs (read C paths undisturbed s.disk.files)
        (subst (λ p. Holds C paths p s.disk.files) h (Reach-AllHold r i))

  abbrev pub renamed :
      {i : ℕ} {d : Disk} {p : Pc} {d' : Disk} {p' : Pc} → Write C paths i d p d' p' → List Mutate
  renamed (Write.renames {m = m} a) = m ∷ []
  renamed _ = []

  -- The callback of the update that a step ends with its rename.
  abbrev pub committed_by : {s t : System} → Step C paths s t → List Mutate
  committed_by (Step.write i a) = renamed a
  committed_by _ = []

  -- What a caller's step does to the state file's content: nothing, or what an undisturbed `Update`
  -- does with its callback, which ends its own with this step.
  pub data Atomic (d : Disk) (p : Pc) (d' : Disk) (p' : Pc) : List Mutate → Type 0 where
    keeps : content C paths d'.files ≡ content C paths d.files → Atomic d p d' p' []
    commits :
        (m : Mutate) (encoded name : String)
        → p ≡ closed m encoded name
        → p' ≡ ending (ok true)
        → Due C paths m encoded d.files
        → content C paths d'.files ≡ some encoded
        → (update C paths undisturbed m d.files).0 ≡ ok true
        → content C paths d'.files ≡ content C paths (update C paths undisturbed m d.files).1
        → Atomic d p d' p' (m ∷ [])

  renamed-content :
      (encoded name text : String) (files : Files)
      → lookup name files ≡ some text
      → lookup name files ≡ some encoded
      → content C paths (insert paths.state text (erase name files)) ≡ some encoded
  renamed-content encoded name text files a b =
      ground (arith, lookup-insert paths.state paths.state text (erase name files))

  module _ {i : ℕ} {d : Disk} where
    Lock-content :
        {p p' : Pc} {d' : Disk}
        → Lock i d p d' p'
        → content C paths d'.files ≡ content C paths d.files
    Lock-content Lock.open_fails = refl
    Lock-content (Lock.opens k) = refl
    Lock-content Lock.flock_fails = refl
    Lock-content (Lock.shares a) = refl
    Lock-content (Lock.excludes a b) = refl

    Load-content :
        {p p' : Pc} {d' : Disk}
        → Load C paths i d p d' p'
        → content C paths d'.files ≡ content C paths d.files
    Load-content (Load.reads f) = refl
    Load-content Load.returns = refl

    Update-content :
        {p p' : Pc} {d' : Disk}
        → Update C paths i d p d' p'
        → content C paths d'.files ≡ content C paths d.files
    Update-content (Update.read_fails f e a) = refl
    Update-content (Update.declines f tabs current a b) = refl
    Update-content (Update.encode_fails f tabs current e a b c) = refl
    Update-content (Update.is_same f tabs current a b c) = refl
    Update-content (Update.differs f tabs current encoded a b c e) = refl
    Update-content Update.returns = refl

    Write-Atomic :
        {p p' : Pc} {d' : Disk}
        → Holds C paths p d.files
        → (a : Write C paths i d p d' p') → Atomic d p d' p' (renamed a)
    Write-Atomic h (Write.directory_fails e) = keeps refl
    Write-Atomic h (Write.create_fails e) = keeps refl
    Write-Atomic h (Write.creates name a b) = keeps (sym (content-insert C paths name "" d.files b))
    Write-Atomic h (Write.mode_fails e) = keeps refl
    Write-Atomic h Write.sets_mode = keeps refl
    Write-Atomic h (Write.writes_part {name = name} part) =
        keeps (sym (content-insert C paths name part d.files h.1))
    Write-Atomic h (Write.write_fails e) = keeps refl
    Write-Atomic h (Write.writes {encoded = encoded} {name = name}) =
        keeps (sym (content-insert C paths name encoded d.files h.1))
    Write-Atomic h (Write.sync_fails e) = keeps refl
    Write-Atomic h Write.syncs = keeps refl
    Write-Atomic h (Write.close_fails e) = keeps refl
    Write-Atomic h Write.closes = keeps refl
    Write-Atomic h (Write.rename_fails e) = keeps refl
    Write-Atomic h (Write.renames {m = m} {encoded = encoded} {name = name} {content = text} a) =
        let (changed, after) = update-Due C paths m encoded d.files h.0 in
        let whole = renamed-content encoded name text d.files a h.2 in
        commits m encoded name refl refl h.0 whole changed (whole ∙ sym after)
    Write-Atomic h Write.remove_fails = keeps refl
    Write-Atomic h (Write.removes {name = name}) =
        keeps (sym (content-erase C paths name d.files h))

  set-same : (f : ℕ → Pc) (i : ℕ) (p : Pc) → set f i p i ≡ p
  set-same f i p = ground arith

  -- For any number of callers, whatever fails and whoever dies where: every step of a state that they reach leaves
  -- the state file's content as it was, or is the rename of an update that then returns true, and
  -- changes the content as an undisturbed update of what is there would, with the same callback.
  pub Step-Atomic :
      {files : Files} {s t : System}
      → Reach C paths files s
      → (a : Step C paths s t) → (i : ℕ) × Atomic s.disk (s.pc i) t.disk (t.pc i) (committed_by a)
  Step-Atomic r (Step.lock i a) = (i, keeps (Lock-content a))
  Step-Atomic r (Step.load i a) = (i, keeps (Load-content a))
  Step-Atomic r (Step.update i a) = (i, keeps (Update-content a))
  Step-Atomic {s = s} r (Step.write i {d = d} {p = p} a) = (
    i,
    subst (λ q. Atomic s.disk (s.pc i) d q (renamed a)) (sym (set-same s.pc i p))
        (Write-Atomic (Reach-AllHold r i) a),
  )
  Step-Atomic r (Step.starts i a) = (i, keeps refl)
  Step-Atomic r (Step.dies i) = (i, keeps refl)
