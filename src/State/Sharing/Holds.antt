-- ===== src/State/Sharing/Holds.antt =====
-- What the callers of internal/state/store.go rely on while they have a lock.
use herdr_tabline.Base.{ℕ, ◌≡◌, ◌≢◌, refl, String, false, some, arith, string_eq}
use herdr_tabline.Base.Dict.{lookup, insert, erase, lookup-insert, lookup-erase}
use herdr_tabline.Base.Result.{Result, ok, err}
use herdr_tabline.Model.{History}
use herdr_tabline.State.Store.{Codec, Paths, Files, Faults, StoreError, read}
use herdr_tabline.State.Store.Undisturbed.{undisturbed, content, read_undisturbed, Due, content-Due}
use herdr_tabline.State.Sharing.{
  Pc, absent, idle, opened, loading, loaded, updating, encoded_for, created, moded, written, synced,
  closed, cleaning, ending, Disk, tabs_read, Lock, Load, Update, Write,
}
use herdr_tabline.State.Sharing.Phases.{excludes, shares}

module _ (C : Codec) (paths : Paths) where
  -- For a caller that stands there: what it read is still on disk, its temporary file is not the
  -- state file, and, from the write's end on, has all of the bytes.
  abbrev pub Holds : Pc → Files → Type 0
  Holds absent files = Unit
  Holds idle files = Unit
  Holds (opened k) files = Unit
  Holds loading files = Unit
  Holds (loaded (err e)) files = Unit
  Holds (loaded (ok tabs)) files = tabs_read C paths (read C paths undisturbed files) ≡ ok tabs
  Holds (updating m) files = Unit
  Holds (encoded_for m encoded) files = Due C paths m encoded files
  Holds (created m encoded name) files = Due C paths m encoded files × name ≢ paths.state
  Holds (moded m encoded name) files = Due C paths m encoded files × name ≢ paths.state
  Holds (written m encoded name) files =
      Due C paths m encoded files × name ≢ paths.state × lookup name files ≡ some encoded
  Holds (synced m encoded name) files =
      Due C paths m encoded files × name ≢ paths.state × lookup name files ≡ some encoded
  Holds (closed m encoded name) files =
      Due C paths m encoded files × name ≢ paths.state × lookup name files ≡ some encoded
  Holds (cleaning name e) files = name ≢ paths.state
  Holds (ending r) files = Unit

  pub Holds-outside :
      (p : Pc) (files : Files) → excludes p ≡ false → shares p ≡ false → Holds p files
  Holds-outside absent files a b = tt
  Holds-outside idle files a b = tt
  Holds-outside (opened k) files a b = tt
  Holds-outside loading files a b = tt
  Holds-outside (loaded r) files a b = cc
  Holds-outside (updating m) files a b = tt
  Holds-outside (encoded_for m encoded) files a b = cc
  Holds-outside (created m encoded name) files a b = cc
  Holds-outside (moded m encoded name) files a b = cc
  Holds-outside (written m encoded name) files a b = cc
  Holds-outside (synced m encoded name) files a b = cc
  Holds-outside (closed m encoded name) files a b = cc
  Holds-outside (cleaning name e) files a b = cc
  Holds-outside (ending r) files a b = tt

  pub content-insert :
      (name text : String) (files : Files)
      → name ≢ paths.state
      → content C paths files ≡ content C paths (insert name text files)
  content-insert name text files h = ground (arith, lookup-insert paths.state name text files)

  pub content-erase :
      (name : String) (files : Files)
      → name ≢ paths.state
      → content C paths files ≡ content C paths (erase name files)
  content-erase name files h = ground (arith, lookup-erase paths.state name files)

  reads-Holds :
      (f : Faults) (files : Files) (r : Result StoreError (History × String))
      → read C paths f files ≡ r
      → Holds (loaded (tabs_read C paths r)) files
  reads-Holds f files (err e) h = tt
  reads-Holds f files (ok (tabs, current)) h = rw (read_undisturbed C paths f files h)

  module _ {i : ℕ} {d : Disk} where
    pub Lock-Holds :
        {p p' : Pc} {d' : Disk} → Holds p d.files → Lock i d p d' p' → Holds p' d'.files
    Lock-Holds h Lock.open_fails = tt
    Lock-Holds h (Lock.opens k) = tt
    Lock-Holds h Lock.flock_fails = tt
    Lock-Holds h (Lock.shares a) = tt
    Lock-Holds h (Lock.excludes a b) = tt

    pub Load-Holds :
        {p p' : Pc} {d' : Disk} → Holds p d.files → Load C paths i d p d' p' → Holds p' d'.files
    Load-Holds h (Load.reads f) = reads-Holds f d.files (read C paths f d.files) refl
    Load-Holds h Load.returns = tt

    pub Update-Holds :
        {p p' : Pc} {d' : Disk} → Holds p d.files → Update C paths i d p d' p' → Holds p' d'.files
    Update-Holds h (Update.read_fails f e a) = tt
    Update-Holds h (Update.declines f tabs current a b) = tt
    Update-Holds h (Update.encode_fails f tabs current e a b c) = tt
    Update-Holds h (Update.is_same f tabs current a b c) = tt
    Update-Holds h (Update.differs f tabs current encoded a b c e) = record {
      tabs = tabs;
      current = current;
      is_read = read_undisturbed C paths f d.files a;
      changes = b;
      is_encoded = c;
      differs = e;
    }
    Update-Holds h Update.returns = tt

    pub Write-Holds :
        {p p' : Pc} {d' : Disk} → Holds p d.files → Write C paths i d p d' p' → Holds p' d'.files
    Write-Holds h (Write.directory_fails e) = tt
    Write-Holds h (Write.create_fails e) = tt
    Write-Holds h (Write.creates {m = m} {encoded = encoded} name a b) = (
      content-Due C paths m encoded d.files (insert name "" d.files)
          (content-insert name "" d.files b) h,
      b,
    )
    Write-Holds h (Write.mode_fails e) = h.1
    Write-Holds h Write.sets_mode = h
    Write-Holds h (Write.writes_part {m = m} {encoded = encoded} {name = name} part) = (
      content-Due C paths m encoded d.files (insert name part d.files)
          (content-insert name part d.files h.1) h.0,
      h.1,
    )
    Write-Holds h (Write.write_fails e) = h.1
    Write-Holds h (Write.writes {m = m} {encoded = encoded} {name = name}) = (
      content-Due C paths m encoded d.files (insert name encoded d.files)
          (content-insert name encoded d.files h.1) h.0,
      h.1,
      ground (arith, lookup-insert name name encoded d.files),
    )
    Write-Holds h (Write.sync_fails e) = h.1
    Write-Holds h Write.syncs = h
    Write-Holds h (Write.close_fails e) = h.1
    Write-Holds h Write.closes = h
    Write-Holds h (Write.rename_fails e) = h.1
    Write-Holds h (Write.renames a) = tt
    Write-Holds h Write.remove_fails = tt
    Write-Holds h Write.removes = tt
