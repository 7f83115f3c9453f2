-- ===== src/Cli/Commands/Exits.antt =====
-- The contract of internal/cli/app.go's exit codes.
use herdr_tabline.Base.{
  ◌≡◌, ◌≢◌, refl, arith, String, Bool, true, false, not, ◌&&◌, none, some, List, [], ◌∷◌, ◌==◌,
  string_eq, if◌then◌else◌, Bool-cases,
}
use herdr_tabline.Base.Result.{Result, ok, err}
use herdr_tabline.Render.Width.{Graphemes}
use herdr_tabline.Render.Engine.{Templates}
use herdr_tabline.Config.Types.{Host}
use herdr_tabline.Controller.{Services}
use herdr_tabline.Cli.{
  Env, CliError, not_set, no_tab, invalid_configuration, configuration_not_loaded, no_executable,
  no_socket, positional_arguments, tab_absent, bad_flags, snapshot_failed, reconcile_failed,
  history_failed, directory_failed, spawn_failed, stop_failed, lock_failed, process_info_failed,
  render_failed, is_usage, env_value, require, three_names, started, rename_current,
}
use herdr_tabline.Cli.Preview.{preview}
use herdr_tabline.Cli.Commands.{
  Platform, Failure, no_command, takes_no_arguments, unknown_command, failed, Exit, two_names,
  concluded, no_text, validate_config, print_preview, start, stop, daemon, status, dispatch,
  is_empty, run,
}

-- The README tells a fault of the configuration, which exits with 2, from a runtime failure, which
-- exits with 1. Here each error is named as the one, with the faults of the command line and the
-- environment, or as the other, whatever the code takes for a usage error.
abbrev pub is_fault : CliError → Bool
is_fault (not_set name) = true
is_fault no_tab = true
is_fault (invalid_configuration e) = true
is_fault configuration_not_loaded = true
is_fault no_executable = true
is_fault no_socket = true
is_fault positional_arguments = true
is_fault (tab_absent id) = true
is_fault (bad_flags e) = true
is_fault (snapshot_failed e) = false
is_fault (reconcile_failed e) = false
is_fault (history_failed e) = false
is_fault (directory_failed e) = false
is_fault (spawn_failed e) = false
is_fault (stop_failed e) = false
is_fault (lock_failed e) = false
is_fault (process_info_failed pane e) = false
is_fault (render_failed e) = false

abbrev pub is_fixable : Failure → Bool
is_fixable no_command = true
is_fixable (takes_no_arguments command) = true
is_fixable (unknown_command command) = true
is_fixable (failed e) = is_fault e

-- An exit that keeps the contract.
pub data IsContract : Exit → Type 0 where
  success : {text : String} → IsContract (record { code = 0; stdout = text; failure = none })
  fixable :
      {f : Failure}
      → is_fixable f ≡ true
      → IsContract (record { code = 2; stdout = ""; failure = some f })
  runtime :
      {f : Failure}
      → is_fixable f ≡ false
      → IsContract (record { code = 1; stdout = ""; failure = some f })

-- The variables that a command requires, by name.
abbrev pub needs : String → List String
needs command =
    if command == "version"
    then []
    else if command == "validate-config"
    then "HERDR_PLUGIN_CONFIG_DIR" ∷ []
    else if command == "preview"
    then three_names
    else if command == "rename-current"
    then three_names
    else if command == "start"
    then "HERDR_SOCKET_PATH" ∷ "HERDR_PLUGIN_STATE_DIR" ∷ []
    else if command == "stop"
    then "HERDR_SOCKET_PATH" ∷ "HERDR_PLUGIN_STATE_DIR" ∷ []
    else if command == "daemon"
    then three_names
    else []

-- The first name in a list without a value.
pub data IsFirstUnset (env : Env) (name : String) : List String → Type 0 where
  here : {names : List String} → env_value env name ≡ "" → IsFirstUnset env name (name ∷ names)
  there :
      {other : String} {names : List String}
      → env_value env other ≢ ""
      → IsFirstUnset env name names
      → IsFirstUnset env name (other ∷ names)

require-IsFirstUnset :
    (env : Env) (name : String) (names : List String)
    → IsFirstUnset env name names
    → require env names ≡ err (not_set name)
unfolding require
require-IsFirstUnset env name [] x = elim x [ ]
require-IsFirstUnset env name (_ ∷ names) (here unset) = ground arith
require-IsFirstUnset env name (other ∷ names) (there set first) =
    ground (arith, require-IsFirstUnset env name names first)

module _ (G : Graphemes) (H : Host) (T : Templates) (S : Services H T)
    (P : Platform H T S.World) where
  if-IsContract :
      (b : Bool) (x y : Exit × S.World)
      → IsContract x.0
      → IsContract y.0
      → IsContract (if b then x else y).0
  if-IsContract true x y h k = h
  if-IsContract false x y h k = k

  coded :
      (e : CliError)
      → IsContract
          (record { code = if is_usage e then 2 else 1; stdout = ""; failure = some (failed e) })
  coded (not_set name) = fixable refl
  coded no_tab = fixable refl
  coded (invalid_configuration e) = fixable refl
  coded configuration_not_loaded = fixable refl
  coded no_executable = fixable refl
  coded no_socket = fixable refl
  coded positional_arguments = fixable refl
  coded (tab_absent id) = fixable refl
  coded (bad_flags e) = fixable refl
  coded (snapshot_failed e) = runtime refl
  coded (reconcile_failed e) = runtime refl
  coded (history_failed e) = runtime refl
  coded (directory_failed e) = runtime refl
  coded (spawn_failed e) = runtime refl
  coded (stop_failed e) = runtime refl
  coded (lock_failed e) = runtime refl
  coded (process_info_failed pane e) = runtime refl
  coded (render_failed e) = runtime refl

  concluded-IsContract :
      (r : Result CliError String × S.World) → IsContract (concluded G H T S P r).0
  concluded-IsContract (ok text, w) = success
  concluded-IsContract (err e, w) = coded e

  dispatch-IsContract :
      (command : String) (rest : List String) (env : Env) (w : S.World)
      → IsContract (dispatch G H T S P command rest env w).0
  unfolding dispatch
  dispatch-IsContract command rest env w = if-IsContract (command == "version") _ _ success (
      if-IsContract (command == "validate-config") _ _
        (concluded-IsContract (validate_config G H T S P env w))
        (if-IsContract (command == "preview") _ _
          (concluded-IsContract (print_preview G H T S P env w))
          (if-IsContract (command == "rename-current") _ _
            (concluded-IsContract (no_text G H T S P (rename_current P.decode G H T S env w)))
            (if-IsContract (command == "start") _ _ (concluded-IsContract (start G H T S P env w)) (
              if-IsContract (command == "stop") _ _ (concluded-IsContract (stop G H T S P env w)) (
                if-IsContract (command == "daemon") _ _
                  (concluded-IsContract (daemon G H T S P env w))
                  (if-IsContract (command == "status") _ _
                    (concluded-IsContract (status G H T S P rest env w)) (fixable refl))))))))

  -- For every list of arguments, environment, calls and world: `Run` exits with 0 and no error, or
  -- with 2 and a fault of what the caller gave (the command line, a variable without a value, no tab,
  -- an absent tab, no socket, no executable, an invalid or missing configuration), or with 1 and
  -- the failure of a snapshot, of a pass, of the history, of a directory, of starting or stopping
  -- the daemon, of its lock, of asking for a process, or of rendering.
  pub run-IsContract :
      (args : List String) (env : Env) (w : S.World) → IsContract (run G H T S P args env w).0
  unfolding run
  run-IsContract [] env w = fixable refl
  run-IsContract (command ∷ rest) env w =
      if-IsContract (not (is_empty rest) && not (command == "status")) _ _ (fixable refl)
        (dispatch-IsContract command rest env w)

  validate_config-err :
      (env : Env) (w : S.World) (e : CliError)
      → require env ("HERDR_PLUGIN_CONFIG_DIR" ∷ []) ≡ err e
      → validate_config G H T S P env w ≡ (err e, w)
  unfolding validate_config
  validate_config-err env w e h = rw (h) refl

  print_preview-err :
      (env : Env) (w : S.World) (e : CliError)
      → require env three_names ≡ err e
      → print_preview G H T S P env w ≡ (err e, w)
  unfolding print_preview preview
  print_preview-err env w e h = rw (h) refl

  rename_current-err :
      (env : Env) (w : S.World) (e : CliError)
      → require env three_names ≡ err e
      → rename_current P.decode G H T S env w ≡ (err e, w)
  unfolding rename_current started
  rename_current-err env w e h = rw (h) refl

  start-err :
      (env : Env) (w : S.World) (e : CliError)
      → require env two_names ≡ err e
      → start G H T S P env w ≡ (err e, w)
  unfolding start
  start-err env w e h = rw (h) refl

  stop-err :
      (env : Env) (w : S.World) (e : CliError)
      → require env two_names ≡ err e
      → stop G H T S P env w ≡ (err e, w)
  unfolding stop
  stop-err env w e h = rw (h) refl

  daemon-err :
      (env : Env) (w : S.World) (e : CliError)
      → require env three_names ≡ err e
      → daemon G H T S P env w ≡ (err e, w)
  unfolding daemon
  daemon-err env w e h = rw (h) refl

  require_nil : (env : Env) → require env [] ≡ ok tt
  unfolding require
  require_nil env = refl

  -- For every command, environment, calls and world: where a variable that the command requires has
  -- no value, and those before it have one, `Run` exits with 2, its error names that variable,
  -- nothing is on the standard output, and the world is as it was. Of the socket path, the
  -- configuration directory and the state directory, in this order, `validate-config` requires the
  -- second, `start` and `stop` the first and the last, and `preview`, `rename-current` and `daemon`
  -- all three.
  pub run-require :
      (command : String) (env : Env) (w : S.World) (name : String)
      → IsFirstUnset env name (needs command)
      → run G H T S P (command ∷ []) env w
        ≡ (record { code = 2; stdout = ""; failure = some (failed (not_set name)) }, w)
  unfolding run dispatch
  run-require command env w name first =
      let h : require env (needs command) ≡ err (not_set name) =
        require-IsFirstUnset env name (needs command) first in
      ground (
        arith,
        require_nil env,
        validate_config-err env w (not_set name),
        print_preview-err env w (not_set name),
        rename_current-err env w (not_set name),
        start-err env w (not_set name),
        stop-err env w (not_set name),
        daemon-err env w (not_set name),
        Bool-cases (command == "version"),
        Bool-cases (command == "validate-config"),
        Bool-cases (command == "preview"),
        Bool-cases (command == "rename-current"),
        Bool-cases (command == "start"),
        Bool-cases (command == "stop"),
        Bool-cases (command == "daemon"),
        Bool-cases (command == "status"),
      )
