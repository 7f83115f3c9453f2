-- ===== src/State/Store/Updates.antt =====
-- What a read-modify-write of internal/state/store.go leaves for the next reader.
use mathlib.Core.Path.{subst}
use herdr_tabline.Base.{
  ◌≡◌, ◌≢◌, refl, String, ◌<>◌, Bool, true, false, none, some, arith, string_eq,
}
use herdr_tabline.Base.Dict.{lookup}
use herdr_tabline.Base.Result.{Result, ok, err, >>=-eq-ok, map_err}
use herdr_tabline.Base.Int.{ℤ, int_eq}
use herdr_tabline.Model.{History}
use herdr_tabline.State.Store.{
  StateFile, Codec, Paths, Files, StoreError, Faults, schema_version, attempt, ◌>>◌, decode, read,
  encode, load, encode_failed, lock_failed, write_encoded, write_changed, update_read, update,
}
use herdr_tabline.State.Store.Atomicity.{lookup-write_atomically}

-- The same map: one that has each entry of the other. The order of the entries does not count.
abbrev pub SameTabs : History → History → Type 0
SameTabs tabs others = (id : String) → lookup id tabs ≡ lookup id others

-- What the program relies on of `encoding/json`: a file that was marshalled, with its newline, is
-- unmarshalled to the same version and the same map.
pub record IsLawful (C : Codec) : Type 0 where
  pub unmarshal-marshal :
      (version : ℤ) (tabs : History) (text : String)
      → C.marshal (record { version = version; tabs = some tabs }) ≡ ok text
      → (again : History) × (C.unmarshal (text <> "\n")
          ≡ ok (record { version = version; tabs = some again }))
        × SameTabs again tabs

module _ (C : Codec) (paths : Paths) where
  lookup-write_encoded :
      (f : Faults) (files : Files) (current path : String) (e : Result StoreError String)
      → path ≢ f.temporary
      → (write_encoded C paths f files current e).0 ≢ ok true
      → lookup path (write_encoded C paths f files current e).1 ≡ lookup path files
  unfolding write_encoded
  lookup-write_encoded f files current path (err e) other h = refl
  lookup-write_encoded f files current path (ok encoded) other h =
      ground (arith, lookup-write_atomically paths f encoded files path)

  lookup-write_changed :
      (f : Faults) (files : Files) (current path : String) (answer : History × Bool)
      → path ≢ f.temporary
      → (write_changed C paths f files current answer).0 ≢ ok true
      → lookup path (write_changed C paths f files current answer).1 ≡ lookup path files
  unfolding write_changed
  lookup-write_changed f files current path (tabs, false) other h = refl
  lookup-write_changed f files current path (tabs, true) other h =
      lookup-write_encoded f files current path (encode C paths tabs) other h

  lookup-update_read :
      (f : Faults) (mutate : History → History × Bool) (files : Files) (path : String)
      (r : Result StoreError (History × String))
      → path ≢ f.temporary
      → (update_read C paths f mutate files r).0 ≢ ok true
      → lookup path (update_read C paths f mutate files r).1 ≡ lookup path files
  unfolding update_read
  lookup-update_read f mutate files path (err e) other h = refl
  lookup-update_read f mutate files path (ok (tabs, current)) other h =
      lookup-write_changed f files current path (mutate tabs) other h

  -- For every codec, callback and disk, and whatever calls fail: an update that reports an error, or
  -- that nothing was written, leaves every path as it was, but for the temporary file's.
  pub lookup-update_unchanged :
      (f : Faults) (mutate : History → History × Bool) (files : Files) (path : String)
      → path ≢ f.temporary
      → (update C paths f mutate files).0 ≢ ok true
      → lookup path (update C paths f mutate files).1 ≡ lookup path files
  unfolding update
  lookup-update_unchanged f mutate files path other h =
      lookup-update_read f mutate files path _ other h

  pub decode-encode :
      IsLawful C
      → (tabs : History) (encoded : String) → encode C paths tabs ≡ ok encoded
      → (again : History) × (decode C paths encoded ≡ ok again) × SameTabs again tabs
  unfolding encode decode int_eq
  decode-encode L tabs encoded h =
      let file : StateFile = record { version = schema_version; tabs = some tabs } in
      let (text, marshalled, rest) =
        >>=-eq-ok (map_err encode_failed (C.marshal file)) (λ (t : String). ok (t <> "\n")) h in
      let raw : C.marshal file ≡ ok text = ground arith in
      let same : text <> "\n" ≡ encoded = cc in
      let (again, parsed, equal) = L.unmarshal-marshal schema_version tabs text raw in
      (again, subst (λ (t : String). decode C paths t ≡ ok again) same (rw parsed refl), equal)

  -- What `load` returns for the bytes that an update wrote.
  pub load-encoded :
      IsLawful C
      → (g : Faults) (files : Files) (tabs : History) (encoded : String) → g.lock ≡ none
      → g.read ≡ none
      → encode C paths tabs ≡ ok encoded
      → lookup paths.state files ≡ some encoded
      → (again : History) × (load C paths g files ≡ ok again) × SameTabs again tabs
  unfolding load read
  load-encoded L g files tabs encoded locked readable h found =
      let (again, decoded, equal) = decode-encode L tabs encoded h in
      (again, rw (locked, readable, found, decoded) refl, equal)

  write_encoded-ok :
      (f : Faults) (files : Files) (current : String) (e : Result StoreError String)
      → f.temporary ≢ paths.state
      → (write_encoded C paths f files current e).0 ≡ ok true
      → (encoded : String) × (e ≡ ok encoded)
        × (lookup paths.state (write_encoded C paths f files current e).1 ≡ some encoded)
  unfolding write_encoded
  write_encoded-ok f files current (err e) other h = cc
  write_encoded-ok f files current (ok encoded) other h =
      (encoded, refl, ground (arith, lookup-write_atomically paths f encoded files paths.state))

  load-write_changed :
      IsLawful C
      → (f g : Faults) (files : Files) (current : String) (answer : History × Bool)
      → f.temporary ≢ paths.state
      → g.lock ≡ none
      → g.read ≡ none
      → (write_changed C paths f files current answer).0 ≡ ok true
      → (again : History) × (load C paths g (write_changed C paths f files current answer).1
          ≡ ok again)
        × SameTabs again answer.0
  unfolding write_changed
  load-write_changed L f g files current (tabs, false) other locked readable h =
      absurd (ground arith)
  load-write_changed L f g files current (tabs, true) other locked readable h =
      let (encoded, e, found) = write_encoded-ok f files current (encode C paths tabs) other h in
      load-encoded L g _ tabs encoded locked readable e found

  load-update_read :
      IsLawful C
      → (f g : Faults) (mutate : History → History × Bool) (files : Files)
        (r : Result StoreError (History × String))
      → f.temporary ≢ paths.state
      → g.lock ≡ none
      → g.read ≡ none
      → (update_read C paths f mutate files r).0 ≡ ok true
      → (tabs : History) × ((current : String) × (r ≡ ok (tabs, current)))
        × (again : History) × (load C paths g (update_read C paths f mutate files r).1 ≡ ok again)
        × SameTabs again (mutate tabs).0
  unfolding update_read
  load-update_read L f g mutate files (err e) other locked readable h = cc
  load-update_read L f g mutate files (ok (tabs, current)) other locked readable h =
      let (again, loaded, equal) =
        load-write_changed L f g files current (mutate tabs) other locked readable h in
      (tabs, (current, refl), again, loaded, equal)

  -- What one reader read another reads too.
  pub load-read :
      (f g : Faults) (files : Files) (tabs : History) (current : String)
      → g.lock ≡ none
      → g.read ≡ none
      → (attempt f.lock lock_failed >> read C paths f files) ≡ ok (tabs, current)
      → load C paths g files ≡ ok tabs
  unfolding load read
  load-read f g files tabs current locked readable r = ground arith

  -- For a lawful codec, all callbacks and disks, and whatever calls fail during the update, where the
  -- temporary name is not the state path: if the update reports that it wrote, then it had read
  -- tabs that a fault-free load of the disk before it returns too, and a fault-free load of the
  -- disk after it returns the map that the callback made of them.
  pub load-update :
      IsLawful C
      → (f g : Faults) (mutate : History → History × Bool) (files : Files)
      → f.temporary ≢ paths.state
      → g.lock ≡ none
      → g.read ≡ none
      → (update C paths f mutate files).0 ≡ ok true
      → (tabs : History) × (load C paths g files ≡ ok tabs)
        × (again : History) × (load C paths g (update C paths f mutate files).1 ≡ ok again)
        × SameTabs again (mutate tabs).0
  unfolding update
  load-update L f g mutate files other locked readable h =
      let (tabs, (current, r), again, after, equal) =
        load-update_read L f g mutate files _ other locked readable h in
      (tabs, load-read f g files tabs current locked readable r, again, after, equal)
