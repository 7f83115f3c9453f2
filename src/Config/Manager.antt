-- ===== src/Config/Manager.antt =====
-- internal/config/load.go: `Load` and the hot-reloading `Manager`.
-- The file system is a state and its operations; `sha256` and the decoding of TOML are functions.
-- A call of `ReloadIfChanged` is one step: the source's locks let no two of them overlap.
pub mod Retention
use herdr_tabline.Base.{
  Eq, ℕ, String, Bool, true, false, ◌&&◌, Option, none, some, List, [], ◌∷◌, ◌==◌, string_eq,
  nat_eq, if◌then◌else◌,
}
use herdr_tabline.Base.Int.{ℤ, pos, int_eq}
use herdr_tabline.Base.Result.{Result, ok, err, ◌>>=◌, map_err}
use herdr_tabline.Render.Engine.{Templates}
use herdr_tabline.Config.Types.{Source, Host, Compiled}
use herdr_tabline.Config.Compile.{
  ConfigError, read_failed, decode_failed, unknown_key, stat_failed, compile,
}

-- What `os.Stat` and `os.ReadFile` report.
pub data Found {ℓ} (A : Type ℓ) : Type ℓ where
  missing : Found A
  failed : String → Found A
  found : A → Found A

pub record FileSystem : Type 1 where
  pub World : Type 0
  -- the modification time and the size
  pub stat : String → World → Found (ℕ × ℤ) × World
  pub read_file : String → World → Found String × World
  pub sha256 : String → String
  -- `toml.Decode`, with the keys that it did not use
  pub decode : String → Result String (Source × List String)

pub record Signature : Type 0 where
  pub present : Bool
  pub mod_time : ℕ
  pub size : ℤ
  pub hash : String

-- `signature{}`
abbrev pub no_signature : Signature
no_signature = record { present = false; mod_time = 0; size = pos 0; hash = "" }

Signature-discrete : Discrete Signature
Signature-discrete = hlevel (int_eq.dec, string_eq.dec, nat_eq.dec)

instance unfoldable pub signature_eq : Eq Signature
unfolding Signature-discrete
signature_eq = record { dec = Signature-discrete }

-- The `Compiled` of the undecoded input is made of an empty source.
abbrev pub empty_source : Source
empty_source = record {
  schema_version = none;
  mode = none;
  template = "";
  poll_interval = "";
  refresh_debounce = "";
  max_width = pos 0;
  aliases = [];
  icons_agent_status = [];
  profiles = [];
  status_template = "";
}

module _ (F : FileSystem) (H : Host) (T : Templates) where
  compile_known : Source × List String → Result ConfigError (Compiled H T)
  compile_known (input, []) = compile H T input
  compile_known (input, key ∷ keys) = err (unknown_key key)

  decode_and_compile : String → Result ConfigError (Compiled H T)
  unfolding compile_known
  decode_and_compile text = map_err decode_failed (F.decode text) >>= compile_known

  load_content : Found String → Result ConfigError (Compiled H T) × Bool
  unfolding decode_and_compile
  load_content missing = (compile H T empty_source, false)
  load_content (failed message) = (err (read_failed message), false)
  load_content (found text) = (decode_and_compile text, true)

  -- `Load`: the result, and whether there was a file.
  unfoldable pub load : String → F.World → (Result ConfigError (Compiled H T) × Bool) × F.World
  unfolding load_content
  load path w = let (content, w') = F.read_file path w in (load_content content, w')

  hash_of : ℕ × ℤ → Found String × F.World → Result ConfigError Signature × F.World
  hash_of (mod_time, size) (content, w) = (
    elim content [
      | missing ↦ err (read_failed "no such file")
      | failed message ↦ err (read_failed message)
      | found text ↦
          ok (record { present = true; mod_time = mod_time; size = size; hash = F.sha256 text })
    ],
    w,
  )

  unfoldable pub file_signature : String → F.World → Result ConfigError Signature × F.World
  unfolding hash_of
  file_signature path w =
      let (info, w') = F.stat path w in
      elim info [
        | missing ↦ (ok no_signature, w')
        | failed message ↦ (err (stat_failed message), w')
        | found entry ↦ hash_of entry (F.read_file path w')
      ]

  pub record Manager : Type 0 where
    pub path : String
    pub seen : Bool
    pub signature : Signature
    pub current : Option (Compiled H T)

  -- `NewManager`
  unfoldable pub new_manager : String → Manager
  new_manager path = record { path = path; seen = false; signature = no_signature; current = none }

  -- The test under the lock, before and after loading.
  abbrev unchanged : Manager → Signature → Bool
  unchanged m sig = m.seen && m.signature == sig

  -- The end of `ReloadIfChanged`, once the new file has been loaded.
  unfoldable pub install :
      Manager → Signature → Result ConfigError (Compiled H T) → Manager × Result ConfigError Bool
  install m sig loaded =
      let marked = record m { seen = true; signature = sig } in
      if unchanged m sig then (m, ok false) else elim loaded [
        | err e ↦ (marked, err e)
        | ok compiled ↦ (record marked { current = some compiled }, ok true)
      ]

  reload_with :
      Manager
      → Result ConfigError Signature × F.World
      → (Manager × Result ConfigError Bool) × F.World
  unfolding load
  reload_with m (err e, w) = ((m, err e), w)
  reload_with m (ok sig, w) =
      let ((loaded, exists), w') = load m.path w in
      if unchanged m sig then ((m, ok false), w) else (install m sig loaded, w')

  unfoldable pub reload_if_changed :
      Manager → F.World → (Manager × Result ConfigError Bool) × F.World
  unfolding reload_with
  reload_if_changed m w = reload_with m (file_signature m.path w)
