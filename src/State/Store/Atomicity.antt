-- ===== src/State/Store/Atomicity.antt =====
-- A write takes place whole or not at all: internal/state/store.go's `writeAtomically`.
use herdr_tabline.Base.{◌≡◌, ◌≢◌, String, none, some, arith, ◌==◌, string_eq, if◌then◌else◌}
use herdr_tabline.Base.Dict.{lookup, insert, erase, lookup-insert, lookup-erase}
use herdr_tabline.Base.Result.{ok, err}
use herdr_tabline.State.Store.{
  Paths, Files, Faults, temporary_content, write_atomically, move, fill_and_rename,
}

module _ (paths : Paths) (f : Faults) (encoded : String) (files : Files) where
  -- For all paths, contents and files on disk, whatever calls fail, and every path but the temporary
  -- file's: after a write that succeeds the state path holds exactly the encoded bytes; after
  -- one that fails it is as it was; and any further path is as it was after either.
  pub lookup-write_atomically :
      (path : String)
      → path ≢ f.temporary
      → lookup path (write_atomically paths f encoded files).1
        ≡ elim (write_atomically paths f encoded files).0 [
          | ok _ ↦ (if path == paths.state then some encoded else lookup path files)
          | err _ ↦ lookup path files
        ]
  unfolding write_atomically move fill_and_rename temporary_content
  lookup-write_atomically path other = ground (
    arith,
    lookup-insert path paths.state encoded
        (erase f.temporary (insert f.temporary (temporary_content f encoded) files)),
    lookup-erase path f.temporary (insert f.temporary (temporary_content f encoded) files),
    lookup-insert path f.temporary (temporary_content f encoded) files,
    lookup-insert f.temporary f.temporary (temporary_content f encoded) files,
  )

  -- For all paths, contents and files on disk, and whatever calls fail but the removal: where the temporary
  -- name was not in use and is not the state path, no temporary file is left.
  pub lookup-write_atomically_temporary :
      f.remove ≡ none
      → f.temporary ≢ paths.state
      → lookup f.temporary files ≡ none
      → lookup f.temporary (write_atomically paths f encoded files).1 ≡ none
  unfolding write_atomically move fill_and_rename temporary_content
  lookup-write_atomically_temporary removed other unused = ground (
    arith,
    lookup-insert f.temporary paths.state encoded
        (erase f.temporary (insert f.temporary (temporary_content f encoded) files)),
    lookup-erase f.temporary f.temporary (insert f.temporary (temporary_content f encoded) files),
    lookup-insert f.temporary f.temporary (temporary_content f encoded) files,
  )
