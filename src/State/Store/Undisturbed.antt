-- ===== src/State/Store/Undisturbed.antt =====
-- internal/state/store.go's `Load` and `Update` where no call fails and no other caller is there.
use herdr_tabline.Base.{
  ◌≡◌, ◌≢◌, sym, ◌∙◌, String, Bool, true, false, Option, none, some, arith, string_eq, Option-cases,
  inl, inr,
}
use herdr_tabline.Base.Dict.{lookup, insert, erase, lookup-insert}
use herdr_tabline.Base.Result.{Result, ok, err}
use herdr_tabline.Model.{History}
use herdr_tabline.State.Store.{
  Codec, Paths, Files, StoreError, Faults, read, encode, update, update_read, write_changed,
  write_encoded, write_atomically, fill_and_rename, temporary_content, move,
}

-- No call fails.
abbrev pub undisturbed : Faults
undisturbed = record {
  lock = none;
  read = none;
  create_directory = none;
  create_temporary = none;
  set_mode = none;
  write = none;
  sync = none;
  close = none;
  rename = none;
  remove = none;
  temporary = "";
  partial = "";
}

module _ (C : Codec) (paths : Paths) where
  -- The content of the state file.
  abbrev pub content : Files → Option String
  content files = lookup paths.state files

  pub read_undisturbed :
      (f : Faults) (files : Files) {r : History × String}
      → read C paths f files ≡ ok r
      → read C paths undisturbed files ≡ ok r
  unfolding read
  read_undisturbed f files h = elim (Option-cases f.read) [
    | inl e ↦ ground arith
    | inr (a, e) ↦ ground arith
  ]

  pub read_same :
      (files others : Files)
      → content files ≡ content others
      → read C paths undisturbed files ≡ read C paths undisturbed others
  unfolding read
  read_same files others h = rw h

  -- An undisturbed update that has something to write.
  pub record Due (mutate : History → History × Bool) (encoded : String) (files : Files)
      : Type 0 where
    pub tabs : History
    pub current : String
    pub is_read : read C paths undisturbed files ≡ ok (tabs, current)
    pub changes : (mutate tabs).1 ≡ true
    pub is_encoded : encode C paths (mutate tabs).0 ≡ ok encoded
    pub differs : encoded ≢ current

  pub content-Due :
      (mutate : History → History × Bool) (encoded : String) (files others : Files)
      → content files ≡ content others
      → Due mutate encoded files
      → Due mutate encoded others
  content-Due mutate encoded files others same due = record {
    tabs = due.tabs;
    current = due.current;
    is_read = sym (read_same files others same) ∙ due.is_read;
    changes = due.changes;
    is_encoded = due.is_encoded;
    differs = due.differs;
  }

  write_encoded-undisturbed :
      (encoded current : String) (files : Files)
      → encoded ≢ current
      → ((write_encoded C paths undisturbed files current (ok encoded)).0 ≡ ok true)
        × (content (write_encoded C paths undisturbed files current (ok encoded)).1 ≡ some encoded)
  unfolding write_encoded write_atomically fill_and_rename move temporary_content
  write_encoded-undisturbed encoded current files differs = ground (
    arith,
    lookup-insert paths.state paths.state encoded
        (erase "" (insert "" (temporary_content undisturbed encoded) files)),
    lookup-insert "" "" encoded files,
  )

  write_changed-undisturbed :
      (encoded current : String) (files : Files) (answer : History × Bool)
      → answer.1 ≡ true
      → encode C paths answer.0 ≡ ok encoded
      → encoded ≢ current
      → ((write_changed C paths undisturbed files current answer).0 ≡ ok true)
        × (content (write_changed C paths undisturbed files current answer).1 ≡ some encoded)
  unfolding write_changed
  write_changed-undisturbed encoded current files (tabs, false) a b c = cc
  write_changed-undisturbed encoded current files (tabs, true) a b c =
      rw (b) (write_encoded-undisturbed encoded current files c)

  -- What such an update does.
  pub update-Due :
      (mutate : History → History × Bool) (encoded : String) (files : Files)
      → Due mutate encoded files
      → ((update C paths undisturbed mutate files).0 ≡ ok true)
        × (content (update C paths undisturbed mutate files).1 ≡ some encoded)
  unfolding update update_read
  update-Due mutate encoded files due = rw (due.is_read) (
      write_changed-undisturbed encoded due.current files (mutate due.tabs) due.changes
        due.is_encoded due.differs)

  write_encoded-same :
      (encoded : Result StoreError String) (current : String) (files others : Files)
      → content files ≡ content others
      → content (write_encoded C paths undisturbed files current encoded).1
        ≡ content (write_encoded C paths undisturbed others current encoded).1
  unfolding write_encoded write_atomically fill_and_rename move temporary_content
  write_encoded-same (err e) current files others h = h
  write_encoded-same (ok encoded) current files others h = ground (
    arith,
    lookup-insert paths.state paths.state encoded
        (erase "" (insert "" (temporary_content undisturbed encoded) files)),
    lookup-insert paths.state paths.state encoded
        (erase "" (insert "" (temporary_content undisturbed encoded) others)),
    lookup-insert "" "" encoded files,
    lookup-insert "" "" encoded others,
  )

  write_changed-same :
      (current : String) (answer : History × Bool) (files others : Files)
      → content files ≡ content others
      → content (write_changed C paths undisturbed files current answer).1
        ≡ content (write_changed C paths undisturbed others current answer).1
  unfolding write_changed
  write_changed-same current (tabs, false) files others h = h
  write_changed-same current (tabs, true) files others h =
      write_encoded-same (encode C paths tabs) current files others h

  update_read-same :
      (mutate : History → History × Bool) (r : Result StoreError (History × String))
      (files others : Files)
      → content files ≡ content others
      → content (update_read C paths undisturbed mutate files r).1
        ≡ content (update_read C paths undisturbed mutate others r).1
  unfolding update_read
  update_read-same mutate (err e) files others h = h
  update_read-same mutate (ok (tabs, current)) files others h =
      write_changed-same current (mutate tabs) files others h

  -- An update goes by the state file alone.
  pub content-update :
      (mutate : History → History × Bool) (files others : Files)
      → content files ≡ content others
      → content (update C paths undisturbed mutate files).1
        ≡ content (update C paths undisturbed mutate others).1
  unfolding update
  content-update mutate files others h =
      rw (read_same files others h)
        (update_read-same mutate (read C paths undisturbed others) files others h)
