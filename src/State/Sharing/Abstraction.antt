-- ===== src/State/Sharing/Abstraction.antt =====
-- The state file of internal/state/store.go's callers as one map that each update changes at once.
use mathlib.Core.Path.{subst}
use herdr_tabline.Base.{◌≡◌, refl, sym, ◌∙◌, true, List, [], ◌∷◌, ◌++◌}
use herdr_tabline.Base.Result.{ok}
use herdr_tabline.Model.{History}
use herdr_tabline.State.Store.{Codec, Paths, Files, load}
use herdr_tabline.State.Store.Updates.{IsLawful, SameTabs, load-encoded}
use herdr_tabline.State.Store.Undisturbed.{undisturbed, content, read_same, Due}
use herdr_tabline.State.Sharing.{Mutate, Pc, Disk, System, Reach, start, later}
use herdr_tabline.State.Sharing.Refinement.{Atomic, keeps, commits, committed_by, Step-Atomic}
use herdr_tabline.State.Sharing.Serial.{committed}

-- The abstract store: a map, which each callback that reports a change replaces. The last callback comes
-- first; the order of the map's entries does not count.
pub data Changes (before : History) : List Mutate → History → Type 0 where
  unchanged : Changes before [] before
  changed :
      {ms : List Mutate} {tabs after : History} (m : Mutate)
      → Changes before ms tabs
      → (m tabs).1 ≡ true
      → SameTabs after (m tabs).0
      → Changes before (m ∷ ms) after

module _ (C : Codec) (paths : Paths) (L : IsLawful C) where
  -- What a load returns there, where the map has been changed in this way.
  abbrev Shows : History → List Mutate → Files → Type 0
  Shows before ms files =
      (tabs : History) × (load C paths undisturbed files ≡ ok tabs) × Changes before ms tabs

  load-same :
      (files others : Files)
      → content C paths files ≡ content C paths others
      → load C paths undisturbed files ≡ load C paths undisturbed others
  unfolding load
  load-same files others h = rw (read_same C paths files others h)

  load-Due :
      (m : Mutate) (encoded : _) (files : Files) (due : Due C paths m encoded files)
      → load C paths undisturbed files ≡ ok due.tabs
  unfolding load
  load-Due m encoded files due = rw (due.is_read)

  Atomic-Shows :
      {d d' : Disk} {p p' : Pc} (before : History) (earlier ms : List Mutate)
      → Shows before earlier d.files
      → Atomic C paths d p d' p' ms
      → Shows before (ms ++ earlier) d'.files
  Atomic-Shows {d = d} {d' = d'} before earlier [] (tabs, loaded, changes) (keeps same) =
      (tabs, load-same d'.files d.files same ∙ loaded, changes)
  Atomic-Shows {d = d} {d' = d'} before earlier _ (tabs, loaded, changes)
        (commits m encoded name a b due whole c e) =
      let (after, again, same) =
        load-encoded C paths L undisturbed d'.files (m due.tabs).0 encoded refl refl due.is_encoded
          whole in
      let q = sym (load-Due m encoded d.files due) ∙ loaded in
      let p : due.tabs ≡ tabs = cc in
      (after, again, changed m (subst (Changes before earlier) (sym p) changes) due.changes same)

  -- For a lawful codec and files that can be loaded, in every state that any number of callers reach from them, with any
  -- failures and deaths: the files can be loaded, and the map that a load returns is the first one, changed by the
  -- callbacks of the updates that renamed their file, one after another in the order of the
  -- renames, each applied to the map as its predecessor left it.
  pub load-Changes :
      {files : Files} {s : System} (before : History) (r : Reach C paths files s)
      → load C paths undisturbed files ≡ ok before
      → (tabs : History) × (load C paths undisturbed s.disk.files ≡ ok tabs)
        × Changes before (committed C paths r) tabs
  load-Changes before start h = (before, h, unchanged)
  load-Changes before (later r a) h =
      let (i, atomic) = Step-Atomic C paths r a in
      Atomic-Shows before (committed C paths r) (committed_by C paths a) (load-Changes before r h)
        atomic
