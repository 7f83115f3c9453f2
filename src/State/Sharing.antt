-- ===== src/State/Sharing.antt =====
-- internal/state/lock_unix.go's `Store.lock` with `Load` and `Update` of store.go, as any number of callers
-- share one session's directory: each step is one system call, every call may fail, and a caller
-- may die at any point, also within a write. The locks are those of `flock`: the system drops a dead caller's,
-- and it grants one where no other caller has a conflicting one. The lock file has no content, and
-- an interrupted `flock` is tried again: neither is in the model. `read`, which is under a lock, is one
-- step with what follows it in memory. The directory's sync is left out.
pub mod Phases
pub mod Effects
pub mod Isolation
pub mod Holds
pub mod Refinement
pub mod Serial
pub mod Abstraction
use native.Mathlib.Decide.{ℕ_discrete}
use mathlib.Core.Logic.{ite}
use herdr_tabline.Base.{ℕ, ◌≡◌, ◌≢◌, String, Bool, true, false, Option, none, some}
use herdr_tabline.Base.Dict.{lookup, insert, erase}
use herdr_tabline.Base.Result.{Result, ok, err}
use herdr_tabline.Model.{History}
use herdr_tabline.State.Store.{
  Codec, Paths, Files, StoreError, Faults, read, encode, lock_failed, create_directory_failed,
  create_temporary_failed, set_mode_failed, write_failed, sync_failed, close_failed, rename_failed,
}

-- The callback of an update.
abbrev pub Mutate : Type 0
Mutate = History → History × Bool

-- What a caller is up to: `lockShared` for a load, `lockExclusive` for an update.
pub data Kind : Type 0 where
  loads : Kind
  updates : Mutate → Kind

-- Where a caller stands.
pub data Pc : Type 0 where
  absent idle : Pc
  -- in `lock`, with the lock file open
  opened : Kind → Pc
  -- in `Load`, with the shared lock, before and behind `read`
  loading : Pc
  loaded : Result StoreError History → Pc
  -- in `Update`, with the exclusive lock, before `read`, and with bytes to write that differ
  updating : Mutate → Pc
  encoded_for : Mutate → String → Pc
  -- in `writeAtomically`, with the temporary file's name, behind each of its calls
  created moded written synced closed : Mutate → String → String → Pc
  -- before the deferred removal, and before the deferred release
  cleaning : String → StoreError → Pc
  ending : Result StoreError Bool → Pc

pub record Disk : Type 0 where
  pub files : Files
  pub exclusive : Option ℕ
  pub shared : ℕ → Bool

abbrev pub set {ℓ} : {A : Type ℓ} → (ℕ → A) → ℕ → A → ℕ → A
set f i a j = ite (ℕ_discrete i j) a (f j)

-- `Store.lock`, for either kind.
pub data Lock (i : ℕ) (d : Disk) : Pc → Disk → Pc → Type 0 where
  open_fails : Lock i d idle d idle
  opens : (k : Kind) → Lock i d idle d (opened k)
  flock_fails : {k : Kind} → Lock i d (opened k) d idle
  shares :
      d.exclusive ≡ none
      → Lock i d (opened loads) (record d { shared = set d.shared i true }) loading
  excludes :
      {m : Mutate}
      → d.exclusive ≡ none
      → ((j : ℕ) → d.shared j ≡ false)
      → Lock i d (opened (updates m)) (record d { exclusive = some i }) (updating m)

-- The lock file's exclusive lock behind a caller's death.
abbrev pub freed : ℕ → Option ℕ → Option ℕ
freed i none = none
freed i (some j) = ite (ℕ_discrete i j) none (some j)

-- `Disk` and where each caller stands.
pub record System : Type 0 where
  pub disk : Disk
  pub pc : ℕ → Pc

-- No caller yet, over any files.
abbrev pub no_callers : Files → System
no_callers files = record {
  disk = record { files = files; exclusive = none; shared = λ i. false };
  pc = λ i. absent;
}

module _ (C : Codec) (paths : Paths) where
  -- What `Load` returns of what `read` does.
  abbrev pub tabs_read : Result StoreError (History × String) → Result StoreError History
  tabs_read (err e) = err e
  tabs_read (ok (tabs, current)) = ok tabs

  -- `Load`, behind its lock.
  pub data Load (i : ℕ) (d : Disk) : Pc → Disk → Pc → Type 0 where
    reads : (f : Faults) → Load i d loading d (loaded (tabs_read (read C paths f d.files)))
    returns :
        {r : Result StoreError History}
        → Load i d (loaded r) (record d { shared = set d.shared i false }) idle

  -- `Update`, behind its lock, up to the write.
  pub data Update (i : ℕ) (d : Disk) : Pc → Disk → Pc → Type 0 where
    read_fails :
        {m : Mutate} (f : Faults) (e : StoreError)
        → read C paths f d.files ≡ err e
        → Update i d (updating m) d (ending (err e))
    declines :
        {m : Mutate} (f : Faults) (tabs : History) (current : String)
        → read C paths f d.files ≡ ok (tabs, current)
        → (m tabs).1 ≡ false
        → Update i d (updating m) d (ending (ok false))
    encode_fails :
        {m : Mutate} (f : Faults) (tabs : History) (current : String) (e : StoreError)
        → read C paths f d.files ≡ ok (tabs, current)
        → (m tabs).1 ≡ true
        → encode C paths (m tabs).0 ≡ err e
        → Update i d (updating m) d (ending (err e))
    is_same :
        {m : Mutate} (f : Faults) (tabs : History) (current : String)
        → read C paths f d.files ≡ ok (tabs, current)
        → (m tabs).1 ≡ true
        → encode C paths (m tabs).0 ≡ ok current
        → Update i d (updating m) d (ending (ok false))
    differs :
        {m : Mutate} (f : Faults) (tabs : History) (current encoded : String)
        → read C paths f d.files ≡ ok (tabs, current)
        → (m tabs).1 ≡ true
        → encode C paths (m tabs).0 ≡ ok encoded
        → encoded ≢ current
        → Update i d (updating m) d (encoded_for m encoded)
    returns :
        {r : Result StoreError Bool} → Update i d (ending r) (record d { exclusive = none }) idle

  -- `writeAtomically`. `os.CreateTemp` chooses a name that is not in use, and that is longer than the
  -- state file's.
  pub data Write (i : ℕ) (d : Disk) : Pc → Disk → Pc → Type 0 where
    directory_fails :
        {m : Mutate} {encoded : String} (e : String)
        → Write i d (encoded_for m encoded) d (ending (err (create_directory_failed e)))
    create_fails :
        {m : Mutate} {encoded : String} (e : String)
        → Write i d (encoded_for m encoded) d (ending (err (create_temporary_failed e)))
    creates :
        {m : Mutate} {encoded : String} (name : String)
        → lookup name d.files ≡ none
        → name ≢ paths.state
        → Write i d
            (encoded_for m encoded)
            (record d { files = insert name "" d.files })
            (created m encoded name)
    mode_fails :
        {m : Mutate} {encoded name : String} (e : String)
        → Write i d (created m encoded name) d (cleaning name (set_mode_failed e))
    sets_mode :
        {m : Mutate} {encoded name : String}
        → Write i d (created m encoded name) d (moded m encoded name)
    writes_part :
        {m : Mutate} {encoded name : String} (part : String)
        → Write i d
            (moded m encoded name)
            (record d { files = insert name part d.files })
            (moded m encoded name)
    write_fails :
        {m : Mutate} {encoded name : String} (e : String)
        → Write i d (moded m encoded name) d (cleaning name (write_failed e))
    writes :
        {m : Mutate} {encoded name : String}
        → Write i d
            (moded m encoded name)
            (record d { files = insert name encoded d.files })
            (written m encoded name)
    sync_fails :
        {m : Mutate} {encoded name : String} (e : String)
        → Write i d (written m encoded name) d (cleaning name (sync_failed e))
    syncs :
        {m : Mutate} {encoded name : String}
        → Write i d (written m encoded name) d (synced m encoded name)
    close_fails :
        {m : Mutate} {encoded name : String} (e : String)
        → Write i d (synced m encoded name) d (cleaning name (close_failed e))
    closes :
        {m : Mutate} {encoded name : String}
        → Write i d (synced m encoded name) d (closed m encoded name)
    rename_fails :
        {m : Mutate} {encoded name : String} (e : String)
        → Write i d (closed m encoded name) d (cleaning name (rename_failed e))
    -- whatever the temporary file holds
    renames :
        {m : Mutate} {encoded name content : String}
        → lookup name d.files ≡ some content
        → Write i d
            (closed m encoded name)
            (record d { files = insert paths.state content (erase name d.files) })
            (ending (ok true))
    remove_fails : {name : String} {e : StoreError} → Write i d (cleaning name e) d (ending (err e))
    removes :
        {name : String} {e : StoreError}
        → Write i d (cleaning name e) (record d { files = erase name d.files }) (ending (err e))

  pub data Step (s : System) : System → Type 0 where
    lock :
        (i : ℕ) {d : Disk} {p : Pc}
        → Lock i s.disk (s.pc i) d p
        → Step s (record { disk = d; pc = set s.pc i p })
    load :
        (i : ℕ) {d : Disk} {p : Pc}
        → Load i s.disk (s.pc i) d p
        → Step s (record { disk = d; pc = set s.pc i p })
    update :
        (i : ℕ) {d : Disk} {p : Pc}
        → Update i s.disk (s.pc i) d p
        → Step s (record { disk = d; pc = set s.pc i p })
    write :
        (i : ℕ) {d : Disk} {p : Pc}
        → Write i s.disk (s.pc i) d p
        → Step s (record { disk = d; pc = set s.pc i p })
    starts : (i : ℕ) → s.pc i ≡ absent → Step s (record s { pc = set s.pc i idle })
    dies :
        (i : ℕ)
        → Step s (record {
          disk = record (s.disk) {
            exclusive = freed i s.disk.exclusive;
            shared = set s.disk.shared i false;
          };
          pc = set s.pc i absent;
        })

  pub data Reach (files : Files) : System → Type 0 where
    start : Reach files (no_callers files)
    later : {s t : System} → Reach files s → Step s t → Reach files t
