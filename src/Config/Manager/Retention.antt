-- ===== src/Config/Manager/Retention.antt =====
-- The last valid configuration survives: internal/config/load.go's `ReloadIfChanged`.
use herdr_tabline.Base.{
  ◌≡◌, ◌≢◌, refl, String, Bool, true, false, none, List, [], ◌∷◌, Bool-cases, inl, inr, arith,
}
use herdr_tabline.Base.Result.{Result, ok, err, >>=-eq-ok, map_err}
use herdr_tabline.Render.Engine.{Templates}
use herdr_tabline.Config.Types.{Source, Host, Compiled}
use herdr_tabline.Config.Compile.{ConfigError, decode_failed}
use herdr_tabline.Config.Compile.Validity.{WhereSet, IsValid, compile-IsValid}
use herdr_tabline.Config.Manager.{
  FileSystem, Signature, signature_eq, Manager, file_signature, install, reload_with,
  reload_if_changed, compile_known, decode_and_compile, load_content, load, unchanged, Found,
  missing, failed, found, empty_source,
}

module _ (F : FileSystem) (H : Host) (T : Templates) where
  -- For every manager and state of the file system: if the reload reports an error, or that nothing was
  -- installed, the current configuration is the one of before.
  pub reload_if_changed-current :
      (m : Manager F H T) (w : F.World)
      → (reload_if_changed F H T m w).0.1 ≢ ok true
      → (reload_if_changed F H T m w).0.0.current ≡ m.current
  unfolding reload_if_changed install
  reload_if_changed-current m w h = ground arith

  -- For every manager that has a configuration: it has one after every reload, failed or not.
  pub reload_if_changed-current-ne-none :
      (m : Manager F H T) (w : F.World)
      → m.current ≢ none
      → (reload_if_changed F H T m w).0.0.current ≢ none
  unfolding reload_if_changed install
  reload_if_changed-current-ne-none m w h = ground arith

  reload_if_changed_same :
      (m : Manager F H T) (w w' later later' : F.World) (sig : Signature)
      → file_signature F H T m.path w ≡ (ok sig, w')
      → file_signature F H T m.path later ≡ (ok sig, later')
      → let after = (reload_if_changed F H T m w).0.0 in
        reload_if_changed F H T after later ≡ ((after, ok false), later')
  unfolding reload_if_changed install
  reload_if_changed_same m w w' later later' sig e f = ground arith

  -- Reloads in a row, each in a state of the file system, with what each reports.
  abbrev pub reload_all :
      Manager F H T → List F.World → Manager F H T × List (Result ConfigError Bool)
  reload_all m [] = (m, [])
  reload_all m (w ∷ ws) =
      let ((next, report), _) = reload_if_changed F H T m w in
      let (end, reports) = reload_all next ws in (end, report ∷ reports)

  -- In each of these states the file has the signature.
  pub data Keeps (path : String) (sig : Signature) : List F.World → Type 0 where
    none_left : Keeps path sig []
    keeps :
        {w w' : F.World} {ws : List F.World}
        → file_signature F H T path w ≡ (ok sig, w')
        → Keeps path sig ws
        → Keeps path sig (w ∷ ws)

  -- Nothing installed and no error.
  abbrev pub quiet : List F.World → List (Result ConfigError Bool)
  quiet [] = []
  quiet (w ∷ ws) = ok false ∷ quiet ws

  -- For every manager, file system and list of its states: once a reload has read a signature of the
  -- file, and as long as each reload after it reads the same signature, none of these installs
  -- anything or reports an error, and the manager stays as the first reload left it. So an invalid
  -- version of the file is reported no more than once while it stays.
  pub reload_if_changed_quiet :
      (m : Manager F H T) (w w' : F.World) (sig : Signature) (later : List F.World)
      → file_signature F H T m.path w ≡ (ok sig, w')
      → Keeps m.path sig later
      → let after = (reload_if_changed F H T m w).0.0 in
        reload_all after later ≡ (after, quiet later)
  reload_if_changed_quiet m w w' sig [] e none_left = refl
  reload_if_changed_quiet m w w' sig (v ∷ later) e (keeps {w' = v'} f all) =
      rw
        (reload_if_changed_same m w w' v v' sig e f, reload_if_changed_quiet m w w' sig later e all)
        refl

  compile_known-IsValid :
      (decoded : Source × List String) (c : Compiled H T)
      → compile_known F H T decoded ≡ ok c
      → IsValid c
  unfolding compile_known
  compile_known-IsValid (input, []) c h = (compile-IsValid H T input c h).0
  compile_known-IsValid (input, key ∷ keys) c h = cc

  decode_and_compile-IsValid :
      (text : String) (c : Compiled H T) → decode_and_compile F H T text ≡ ok c → IsValid c
  unfolding decode_and_compile
  decode_and_compile-IsValid text c h =
      let (decoded, _, rest) =
        >>=-eq-ok (map_err decode_failed (F.decode text)) (compile_known F H T) h in
      compile_known-IsValid decoded c rest

  load_content-IsValid :
      (content : Found String) (w : F.World) (c : Compiled H T)
      → (load_content F H T content).0 ≡ ok c
      → IsValid c
  unfolding load_content
  load_content-IsValid missing w c h = (compile-IsValid H T empty_source c h).0
  load_content-IsValid (failed message) w c h = cc
  load_content-IsValid (found text) w c h = decode_and_compile-IsValid text c h

  install-IsValid :
      (m : Manager F H T) (sig : Signature) (loaded : Result ConfigError (Compiled H T))
      → ((c : Compiled H T) → loaded ≡ ok c → IsValid c)
      → WhereSet IsValid m.current
      → WhereSet IsValid (install F H T m sig loaded).0.current
  unfolding install
  install-IsValid m sig (ok c) h v = elim (Bool-cases (unchanged F H T m sig)) [
    | inl e ↦ rw e v
    | inr e ↦ rw e (h c refl)
  ]
  install-IsValid m sig (err e) h v = elim (Bool-cases (unchanged F H T m sig)) [
    | inl same ↦ rw same v
    | inr new ↦ rw new v
  ]

  -- For every manager, state of the file system and file: a manager whose configuration, if it has
  -- one, satisfies the validity of compiled configurations has none but such a configuration after
  -- a reload too.
  pub reload_if_changed-IsValid :
      (m : Manager F H T) (w : F.World)
      → WhereSet IsValid m.current
      → WhereSet IsValid (reload_if_changed F H T m w).0.0.current
  unfolding reload_if_changed
  reload_if_changed-IsValid m w v = go (file_signature F H T m.path w)
    where
      go :
          (read : Result ConfigError Signature × F.World)
          → WhereSet IsValid (reload_with F H T m read).0.0.current
      go (err e, w') = v
      go (ok sig, w') = elim (Bool-cases (unchanged F H T m sig)) [
        | inl same ↦ rw same v
        | inr new ↦ rw new (
            install-IsValid m sig (load F H T m.path w').0.0
              (λ c. load_content-IsValid (F.read_file m.path w').0 w' c) v)
      ]
