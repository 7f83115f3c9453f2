-- ===== src/State/Store.antt =====
-- internal/state/store.go: reading, and the locked and atomic read-modify-write, of one session's
-- label history.
-- The disk is a map from paths to contents. Whether a system call fails is an input, for each call
-- that can; `Faults` holds the message of a failure. `encoding/json` is a parameter.
pub mod Atomicity
pub mod Updates
pub mod Rewrites
pub mod Undisturbed
use herdr_tabline.Base.{
  ℕ, String, ◌<>◌, Bool, true, false, not, Option, none, some, List, [], ◌∷◌, ◌==◌, string_eq,
  if◌then◌else◌,
}
use herdr_tabline.Base.Int.{ℤ, pos, int_eq}
use herdr_tabline.Base.Dict.{Dict, lookup, insert, erase}
use herdr_tabline.Base.FilePath.{abs, clean, is_abs, join_path}
use herdr_tabline.Base.Result.{Result, ok, err, ◌>>=◌, map_err}
use herdr_tabline.Model.{History}

abbrev pub schema_version : ℤ
schema_version = pos 1

-- `File`; a `null` map is `none`.
pub record StateFile : Type 0 where
  pub version : ℤ
  pub tabs : Option History

-- `json.Unmarshal` and `json.Marshal` of a `StateFile`.
pub record Codec : Type 0 where
  pub unmarshal : String → Result String StateFile
  pub marshal : StateFile → Result String String

pub record Paths : Type 0 where
  pub root : String
  pub key : String
  pub state : String
  pub lock : String
  pub pid : String
  pub log : String

-- With the working directory, where it can be found.
unfoldable pub normalize_socket : Option String → String → String
normalize_socket cwd socket =
    let cleaned = clean socket in
    if socket == ""
    then ""
    else if is_abs socket
    then cleaned
    else elim (abs cwd socket) [ none ↦ cleaned | some path ↦ path ]

-- With the first 16 hex digits of the SHA-256 of a text.
unfoldable pub session_key : (String → String) → Option String → String → String
unfolding normalize_socket
session_key digest cwd socket = digest (normalize_socket cwd socket)

unfoldable pub new_paths : (String → String) → Option String → String → String → Paths
new_paths digest cwd root socket =
    let key = session_key digest cwd socket in
    record {
      root = root;
      key = key;
      state = join_path root ("labels-" <> (key <> ".json"));
      lock = join_path root ("labels-" <> (key <> ".lock"));
      pid = join_path root ("daemon-" <> (key <> ".pid"));
      log = join_path root ("daemon-" <> (key <> ".log"));
    }

abbrev pub Files : Type 0
Files = Dict String

pub data StoreError : Type 0 where
  lock_failed read_failed decode_failed encode_failed : String → StoreError
  wrong_schema_version : ℤ → StoreError
  create_directory_failed create_temporary_failed set_mode_failed write_failed sync_failed :
      String → StoreError
  close_failed rename_failed : String → StoreError

-- What the system calls of one operation report: `none` is success.
pub record Faults : Type 0 where
  pub lock : Option String
  pub read : Option String
  pub create_directory : Option String
  pub create_temporary : Option String
  pub set_mode : Option String
  pub write : Option String
  pub sync : Option String
  pub close : Option String
  pub rename : Option String
  pub remove : Option String
  -- the name that `os.CreateTemp` chooses, and what a failing write leaves in the file
  pub temporary : String
  pub partial : String

abbrev pub attempt : Option String → (String → StoreError) → Result StoreError (Unit {0})
attempt none e = ok tt
attempt (some message) e = err (e message)

infixl 5 ◌>>◌
abbrev pub ◌>>◌ {ℓ} :
    {B : Type ℓ} → Result StoreError (Unit {0}) → Result StoreError B → Result StoreError B
first >> second = first >>= λ _. second

-- The calls on the temporary file, up to the one that commits it.
fill_and_rename : Faults → Result StoreError (Unit {0})
fill_and_rename f =
    attempt f.set_mode set_mode_failed
    >> attempt f.write write_failed
    >> attempt f.sync sync_failed
    >> attempt f.close close_failed
    >> attempt f.rename rename_failed

-- What the temporary file holds when the calls on it end.
temporary_content : Faults → String → String
temporary_content f encoded = elim f.set_mode [
  | some _ ↦ ""
  | none ↦ elim f.write [ some _ ↦ f.partial | none ↦ encoded ]
]

-- `os.Rename` of the temporary file, where it can be renamed: its content goes along.
move : Faults → String → Files → Files
move f into files = elim f.rename [
  | some _ ↦ files
  | none ↦ elim (lookup f.temporary files) [
    | none ↦ files
    | some content ↦ insert into content (erase f.temporary files)
  ]
]

-- The deferred cleanup: the temporary file goes, if it can be removed.
clean_up : Faults → Files → Files
clean_up f files = elim f.remove [ some _ ↦ files | none ↦ erase f.temporary files ]

unfoldable pub write_atomically :
    Paths → Faults → String → Files → Result StoreError (Unit {0}) × Files
unfolding fill_and_rename temporary_content move clean_up
write_atomically paths f encoded files =
    let created = insert f.temporary (temporary_content f encoded) files in
    elim (attempt f.create_directory create_directory_failed
      >> attempt f.create_temporary create_temporary_failed) [
        | err e ↦ (err e, files)
        | ok _ ↦ elim (fill_and_rename f) [
          | err e ↦ (err e, clean_up f created)
          | ok _ ↦ (ok tt, move f paths.state created)
        ]
      ]

abbrev tabs_or_empty : Option History → History
tabs_or_empty none = []
tabs_or_empty (some tabs) = tabs

-- A file of another schema version is refused.
abbrev pub tabs_of : StateFile → Result StoreError History
tabs_of file =
    if file.version == schema_version
    then ok (tabs_or_empty file.tabs)
    else err (wrong_schema_version file.version)

module _ (C : Codec) (paths : Paths) where
  -- The tabs of a state file's text.
  unfoldable pub decode : String → Result StoreError History
  decode raw = map_err decode_failed (C.unmarshal raw) >>= tabs_of

  -- `read`: the tabs and the bytes on disk, which are empty for a missing file.
  unfoldable pub read : Faults → Files → Result StoreError (History × String)
  unfolding decode
  read f files = do
    attempt f.read read_failed
    elim (lookup paths.state files) [
      | none ↦ ok ([], "")
      | some raw ↦ decode raw >>= λ tabs. ok (tabs, raw)
    ]

  unfoldable pub encode : History → Result StoreError String
  encode tabs = do
    encoded ←
        map_err encode_failed (C.marshal (record { version = schema_version; tabs = some tabs }))
    ok (encoded <> "\n")

  -- `Load`, under the shared lock.
  unfoldable pub load : Faults → Files → Result StoreError History
  load f files = do attempt f.lock lock_failed; (tabs, current) ← read f files; ok tabs

  -- The encoded map, where the callback changed it.
  write_encoded :
      Faults → Files → String → Result StoreError String → Result StoreError Bool × Files
  write_encoded f files current (err e) = (err e, files)
  write_encoded f files current (ok encoded) =
      let (outcome, files') = write_atomically paths f encoded files in
      if encoded == current then (ok false, files) else ((outcome >>= λ _. ok true), files')

  -- The end of `Update`, from the callback's answer.
  write_changed : Faults → Files → String → History × Bool → Result StoreError Bool × Files
  unfolding write_encoded
  write_changed f files current (tabs, false) = (ok false, files)
  write_changed f files current (tabs, true) = write_encoded f files current (encode tabs)

  update_read :
      Faults
      → (History → History × Bool)
      → Files
      → Result StoreError (History × String)
      → Result StoreError Bool × Files
  update_read f mutate files (err e) = (err e, files)
  update_read f mutate files (ok (tabs, current)) = write_changed f files current (mutate tabs)

  -- `Update`, under the exclusive lock. The callback returns the map that it changed.
  unfoldable pub update :
      Faults → (History → History × Bool) → Files → Result StoreError Bool × Files
  unfolding update_read write_changed write_encoded
  update f mutate files = update_read f mutate files (attempt f.lock lock_failed >> read f files)
