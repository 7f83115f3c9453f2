-- ===== src/State/Sharing/Serial.antt =====
-- The updates of internal/state/store.go's callers come one after another: none is lost.
use herdr_tabline.Base.{◌≡◌, refl, ◌∙◌, List, [], ◌∷◌, ◌++◌}
use herdr_tabline.State.Store.{Codec, Paths, Files, update}
use herdr_tabline.State.Store.Undisturbed.{undisturbed, content, content-update}
use herdr_tabline.State.Sharing.{Mutate, Pc, Disk, System, Reach, start, later}
use herdr_tabline.State.Sharing.Refinement.{Atomic, keeps, commits, committed_by, Step-Atomic}

module _ (C : Codec) (paths : Paths) where
  -- The callbacks of the updates that renamed their file, the last first.
  abbrev pub committed : {files : Files} {s : System} → Reach C paths files s → List Mutate
  committed start = []
  committed (later r a) = committed_by C paths a ++ committed r

  -- These updates, each after those behind it and with nobody else there.
  abbrev pub one_by_one : List Mutate → Files → Files
  one_by_one [] files = files
  one_by_one (m ∷ ms) files = (update C paths undisturbed m (one_by_one ms files)).1

  Atomic-content :
      {d d' : Disk} {p p' : Pc} (files : Files) (before ms : List Mutate)
      → content C paths d.files ≡ content C paths (one_by_one before files)
      → Atomic C paths d p d' p' ms
      → content C paths d'.files ≡ content C paths (one_by_one (ms ++ before) files)
  Atomic-content files before [] h (keeps same) = same ∙ h
  Atomic-content {d = d} files before _ h (commits m encoded name a b due whole c e) =
      e ∙ content-update C paths m d.files (one_by_one before files) h

  -- In every state that any number of callers reach from some files, with any failures and deaths: the state file
  -- has what the updates that renamed their file leave when each runs alone, in the order of the renames.
  pub content-Reach :
      {files : Files} {s : System} (r : Reach C paths files s)
      → content C paths s.disk.files ≡ content C paths (one_by_one (committed r) files)
  content-Reach start = refl
  content-Reach {files = files} (later r a) =
      let (i, atomic) = Step-Atomic C paths r a in
      Atomic-content files (committed r) (committed_by C paths a) (content-Reach r) atomic
