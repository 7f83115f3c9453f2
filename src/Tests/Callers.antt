-- ===== src/Tests/Callers.antt =====
-- Three callers of internal/state/store.go: one dies while it writes, one updates, one loads.
use herdr_tabline.Base.{
  arith, ◌≡◌, ◌≢◌, refl, ℕ, true, false, none, some, [], ◌∷◌, text_apart, string_eq,
}
use herdr_tabline.Base.Int.{int_eq}
use herdr_tabline.Base.Dict.{lookup, insert, erase}
use herdr_tabline.Base.Result.{ok}
use herdr_tabline.Model.{History}
use herdr_tabline.State.Store.{read, encode, load}
use herdr_tabline.State.Store.Undisturbed.{undisturbed, content}
use herdr_tabline.State.Sharing.{
  Mutate, loaded, loads, updates, System, Lock, Load, Update, Write, Step, Reach, start, later,
}
use herdr_tabline.State.Sharing.Refinement.{load-Reach}
use herdr_tabline.State.Sharing.Abstraction.{Changes, load-Changes}
use herdr_tabline.State.Sharing.Serial.{committed}
use herdr_tabline.Tests.Storing.{
  paths, two_files, empty_files, one_entry, two_files-IsLawful, temporary_apart,
}

abbrev sets_entry : Mutate
sets_entry tabs = (one_entry, true)

reads_none : read two_files paths undisturbed empty_files ≡ ok ([], "{}\n")
unfolding read lookup string_eq int_eq
reads_none = refl

encodes_one : encode two_files paths one_entry ≡ ok "{t1}\n"
unfolding encode string_eq int_eq
encodes_one = refl

unused : lookup "/s/.labels-1.tmp" empty_files ≡ none
unfolding lookup string_eq
unused = refl

other_apart : "/s/.labels-2.tmp" ≢ paths.state
other_apart = text_apart "/s/.labels-2.tmp" "/s/labels-k.json" refl

-- Caller 1 has the lock, makes its file, writes some of it, and dies.
dead : (s : System) × Reach two_files paths empty_files s
unfolding native.Mathlib.Decide.ℕ_discrete
dead =
    let r = later start (Step.starts 1 refl) in
    let r = later r (Step.lock 1 (Lock.opens (updates sets_entry))) in
    let r = later r (Step.lock 1 (Lock.excludes refl (λ j. refl))) in
    let r = later r (
      Step.update 1 (
        Update.differs undisturbed [] "{}\n" "{t1}\n" reads_none refl encodes_one
          (text_apart "{t1}\n" "{}\n" refl))) in
    let r = later r (Step.write 1 (Write.creates "/s/.labels-1.tmp" unused temporary_apart)) in
    let r = later r (Step.write 1 Write.sets_mode) in
    let r = later r (Step.write 1 (Write.writes_part "{t")) in (_, later r (Step.dies 1))

unused_yet : lookup "/s/.labels-2.tmp" dead.0.disk.files ≡ none
unfolding dead lookup insert string_eq
unused_yet = refl

reads_still : read two_files paths undisturbed dead.0.disk.files ≡ ok ([], "{}\n")
unfolding dead read lookup insert string_eq int_eq
reads_still = refl

none_shares : (j : ℕ) → dead.0.disk.shared j ≡ false
unfolding dead
none_shares j = ground arith

-- Caller 2 then updates, up to its rename.
filled : (s : System) × Reach two_files paths empty_files s
unfolding dead native.Mathlib.Decide.ℕ_discrete
filled =
    let r = later dead.1 (Step.starts 2 refl) in
    let r = later r (Step.lock 2 (Lock.opens (updates sets_entry))) in
    let r = later r (Step.lock 2 (Lock.excludes refl none_shares)) in
    let r = later r (
      Step.update 2 (
        Update.differs undisturbed [] "{}\n" "{t1}\n" reads_still refl encodes_one
          (text_apart "{t1}\n" "{}\n" refl))) in
    let r = later r (Step.write 2 (Write.creates "/s/.labels-2.tmp" unused_yet other_apart)) in
    let r = later r (Step.write 2 Write.sets_mode) in
    let r = later r (Step.write 2 Write.writes) in
    let r = later r (Step.write 2 Write.syncs) in
    let r = later r (Step.write 2 Write.closes) in (_, r)

has_all : lookup "/s/.labels-2.tmp" filled.0.disk.files ≡ some "{t1}\n"
unfolding filled dead lookup insert string_eq
has_all = refl

updated : (s : System) × Reach two_files paths empty_files s
unfolding filled dead native.Mathlib.Decide.ℕ_discrete
updated =
    let r = later filled.1 (Step.write 2 (Write.renames has_all)) in
    (_, later r (Step.update 2 Update.returns))

loads_nothing : load two_files paths undisturbed empty_files ≡ ok []
unfolding load read lookup string_eq int_eq
loads_nothing = refl

load-Changes_example :
    (tabs : History) × (load two_files paths undisturbed updated.0.disk.files ≡ ok tabs)
    × Changes [] (committed two_files paths updated.1) tabs
load-Changes_example = load-Changes two_files paths two_files-IsLawful [] updated.1 loads_nothing

one_committed : committed two_files paths updated.1 ≡ sets_entry ∷ []
unfolding updated filled dead
one_committed = refl

content_then : content two_files paths updated.0.disk.files ≡ some "{t1}\n"
unfolding updated filled dead lookup insert erase string_eq
content_then = refl

-- Caller 3 has read the new history, and not yet returned.
read_then : read two_files paths undisturbed updated.0.disk.files ≡ ok (one_entry, "{t1}\n")
unfolding read updated filled dead lookup insert erase string_eq int_eq
read_then = refl

loading : (s : System) × Reach two_files paths empty_files s
unfolding updated filled dead native.Mathlib.Decide.ℕ_discrete
loading =
    let r = later updated.1 (Step.starts 3 refl) in
    let r = later r (Step.lock 3 (Lock.opens loads)) in
    let r = later r (Step.lock 3 (Lock.shares refl)) in
    (_, later r (Step.load 3 (Load.reads undisturbed)))

has_loaded : loading.0.pc 3 ≡ loaded (ok one_entry)
unfolding loading read updated filled dead native.Mathlib.Decide.ℕ_discrete lookup insert erase
    string_eq int_eq
has_loaded = refl

load-Reach_example : load two_files paths undisturbed loading.0.disk.files ≡ ok one_entry
load-Reach_example = load-Reach two_files paths 3 one_entry loading.1 has_loaded
