-- ===== src/Cli.antt =====
-- internal/cli/app.go: the environment that a command needs, the choice of the tab, and
-- `rename-current`. The calls are the services of a pass; a manager is new, so its first reload
-- and its configuration are those of the services. The decoding of JSON is a parameter.
pub mod Targets
pub mod Preview
pub mod Commands
use herdr_tabline.Base.{
  String, Bool, true, false, Option, none, some, List, [], ◌∷◌, ◌==◌, string_eq, if◌then◌else◌,
}
use herdr_tabline.Base.Result.{Result, ok, err, ◌>>=◌}
use herdr_tabline.Api.{Snapshot}
use herdr_tabline.Render.Width.{Graphemes}
use herdr_tabline.Render.Engine.{Templates, RenderError}
use herdr_tabline.Config.Types.{Host, Compiled}
use herdr_tabline.Controller.{Trigger, action, Services, ReconcileError, reconcile}

pub record Env : Type 0 where
  pub socket_path : String
  pub plugin_config_dir : String
  pub plugin_state_dir : String
  pub tab_id : String
  pub context_json : String
  pub executable : String

pub data CliError : Type 0 where
  not_set : String → CliError
  no_tab : CliError
  invalid_configuration : String → CliError
  configuration_not_loaded : CliError
  snapshot_failed : String → CliError
  reconcile_failed : ReconcileError → CliError
  -- of the commands that `rename-current` is not
  no_executable no_socket positional_arguments : CliError
  tab_absent bad_flags : String → CliError
  history_failed directory_failed spawn_failed stop_failed lock_failed : String → CliError
  process_info_failed : String → String → CliError
  render_failed : RenderError → CliError

-- `errors.As(err, &usage)`: the errors that `errUsage` makes.
abbrev pub is_usage : CliError → Bool
is_usage (not_set name) = true
is_usage no_tab = true
is_usage (invalid_configuration e) = true
is_usage configuration_not_loaded = true
is_usage no_executable = true
is_usage no_socket = true
is_usage positional_arguments = true
is_usage (tab_absent id) = true
is_usage (bad_flags e) = true
is_usage e = false

-- What follows a call that may fail, and the error that a command makes of another.
abbrev pub and_then {ℓ} :
    {W A B : Type ℓ}
    → Result CliError A × W
    → (A → W → Result CliError B × W)
    → Result CliError B × W
and_then (err e, w) k = (err e, w)
and_then (ok a, w) k = k a w

abbrev pub wrapped {ℓ} : {W A E : Type ℓ} → (E → CliError) → Result E A × W → Result CliError A × W
wrapped f (err e, w) = (err (f e), w)
wrapped f (ok a, w) = (ok a, w)

abbrev pub env_value : Env → String → String
env_value env name =
    if name == "HERDR_SOCKET_PATH"
    then env.socket_path
    else if name == "HERDR_PLUGIN_CONFIG_DIR"
    then env.plugin_config_dir
    else if name == "HERDR_PLUGIN_STATE_DIR"
    then env.plugin_state_dir
    else ""

unfoldable pub require : Env → List String → Result CliError (Unit {0})
require env [] = ok tt
require env (name ∷ names) =
    let rest = require env names in if env_value env name == "" then err (not_set name) else rest

abbrev pub three_names : List String
three_names = "HERDR_SOCKET_PATH" ∷ "HERDR_PLUGIN_CONFIG_DIR" ∷ "HERDR_PLUGIN_STATE_DIR" ∷ []

abbrev decoded_id : Result String (Option String) → String
decoded_id (err e) = ""
decoded_id (ok none) = ""
decoded_id (ok (some id)) = id

-- With the decoding of the payload's `tab_id`.
unfoldable pub tab_id_from_context_json : (String → Result String (Option String)) → String → String
tab_id_from_context_json decode raw = if raw == "" then "" else decoded_id (decode raw)

module _ (decode : String → Result String (Option String)) where
  module _ (G : Graphemes) (H : Host) (T : Templates) (S : Services H T) where
    focused_tab : Result String Snapshot × S.World → Result CliError String × S.World
    focused_tab (err e, w) = (err (snapshot_failed e), w)
    focused_tab (ok snapshot, w) =
        (if snapshot.focused_tab_id == "" then err no_tab else ok snapshot.focused_tab_id, w)

    unfoldable pub resolve_tab_id : Env → S.World → Result CliError String × S.World
    unfolding focused_tab
    resolve_tab_id env w =
        let id = tab_id_from_context_json decode env.context_json in
        if env.tab_id == ""
        then (if id == "" then focused_tab (S.snapshot w) else (ok id, w))
        else (ok env.tab_id, w)

    -- `manager`: the check that there is a valid configuration.
    manager_of : Result String Bool × S.World → Result CliError (Unit {0}) × S.World
    manager_of (err e, w) = (err (invalid_configuration e), w)
    manager_of (ok changed, w) =
        (elim (S.current w) [ none ↦ err configuration_not_loaded | some compiled ↦ ok tt ], w)

    reconciled : Result ReconcileError (Unit {0}) × S.World → Result CliError (Unit {0}) × S.World
    reconciled (err e, w) = (err (reconcile_failed e), w)
    reconciled (ok u, w) = (ok tt, w)

    rename_managed :
        String → Result CliError (Unit {0}) × S.World → Result CliError (Unit {0}) × S.World
    rename_managed id (err e, w) = (err e, w)
    rename_managed id (ok u, w) = reconciled (reconcile G H T S action id w)

    rename_resolved : Result CliError String × S.World → Result CliError (Unit {0}) × S.World
    rename_resolved (err e, w) = (err e, w)
    rename_resolved (ok id, w) = rename_managed id (manager_of (S.reload_if_changed w))

    -- What follows the check of the environment.
    started : Env → S.World → Result CliError (Unit {0}) → Result CliError (Unit {0}) × S.World
    started env w (err e) = (err e, w)
    started env w (ok u) = rename_resolved (resolve_tab_id env w)

    -- `renameCurrent`
    unfoldable pub rename_current : Env → S.World → Result CliError (Unit {0}) × S.World
    unfolding started rename_resolved rename_managed manager_of reconciled
    rename_current env w = started env w (require env three_names)
