-- ===== src/Cli/Commands.antt =====
-- internal/cli: the commands `validate-config`, `start`, `stop`, `daemon` and `status`, and `Run`.
-- What a command prints, it prints at its end, so that it returns its text. The configuration's
-- `Load`, the lock, the files and processes are calls; the report of `preview` is its record.
pub mod Exits
use herdr_tabline.Base.{
  ℕ, zero, suc, String, ◌<>◌, Bool, true, false, not, ◌&&◌, Option, none, some, List, [], ◌∷◌, ◌==◌,
  string_eq, nat_eq, if◌then◌else◌,
}
use herdr_tabline.Base.Int.{ℤ}
use herdr_tabline.Base.Decimal.{itoa}
use herdr_tabline.Base.FilePath.{join_path}
use herdr_tabline.Base.Result.{Result, ok, err, ◌>>=◌}
use herdr_tabline.Api.{Snapshot}
use herdr_tabline.Collector.Sessions.{build_session}
use herdr_tabline.Render.Width.{Graphemes}
use herdr_tabline.Render.Engine.{Templates, execute_session}
use herdr_tabline.Config.Types.{Host, Compiled}
use herdr_tabline.Controller.{Services}
use herdr_tabline.State.Store.{new_paths}
use herdr_tabline.Cli.{
  Env, CliError, no_executable, no_socket, positional_arguments, bad_flags, invalid_configuration,
  snapshot_failed, directory_failed, spawn_failed, stop_failed, lock_failed, render_failed,
  is_usage, and_then, wrapped, require, three_names, manager_of, rename_current,
}
use herdr_tabline.Cli.Preview.{Shown, preview}

-- The calls, over a world. `snapshot_at` asks the server of a socket; `recorded_pid`, `signal_stop`, `acquire` and
-- `release` are the daemon lock's; `run` is the runner, which returns no error.
pub record Platform (H : Host) (T : Templates) (W : Type 0) : Type 0 where
  pub load_config : String → W → Result String (Compiled H T × Bool) × W
  pub snapshot_at : String → W → Result String Snapshot × W
  pub mkdir_all : String → W → Result String (Unit {0}) × W
  pub spawn : String → String → W → Result String (Unit {0}) × W
  pub recorded_pid : W → Result String ℕ × W
  pub is_alive : ℕ → W → Bool
  pub signal_stop : W → Result String Bool × W
  pub acquire : W → Result String (Unit {0}) × W
  pub release : W → W
  pub run : W → W
  -- the flags `socket` and `config`, and the other arguments
  pub parse_flags : List String → Result String (String × String × List String)
  pub xdg_config_home : String
  pub user_home : Option String
  pub decode : String → Result String (Option String)
  pub digest : String → String
  pub cwd : Option String
  -- `%q`, and `%s` of a duration in nanoseconds
  pub quote : String → String
  pub duration : ℤ → String

abbrev pub config_file_name : String
config_file_name = "config.toml"

abbrev pub config_path : Env → String
config_path env = join_path env.plugin_config_dir config_file_name

unfoldable pub first_non_empty : List String → String
first_non_empty [] = ""
first_non_empty (value ∷ values) =
    let rest = first_non_empty values in if value == "" then rest else value

-- How `Run` ends.
pub data Failure : Type 0 where
  no_command : Failure
  takes_no_arguments unknown_command : String → Failure
  failed : CliError → Failure

pub record Exit : Type 0 where
  pub code : ℕ
  pub stdout : String
  pub failure : Option Failure

abbrev pub version_line : String
version_line = "herdr-tabline 0.1.0 schema 1\n"

abbrev pub two_names : List String
two_names = "HERDR_SOCKET_PATH" ∷ "HERDR_PLUGIN_STATE_DIR" ∷ []

abbrev pub is_empty : List String → Bool
is_empty [] = true
is_empty (x ∷ xs) = false

module _ (G : Graphemes) (H : Host) (T : Templates) (S : Services H T)
    (P : Platform H T S.World) where
  unfoldable pub load : Env → S.World → Result CliError (Compiled H T) × S.World
  load env w =
      and_then (wrapped invalid_configuration (P.load_config (config_path env) w))
        (λ loaded w1. (ok loaded.0, w1))

  abbrev validated : Env → Compiled H T × Bool → S.World → Result CliError String × S.World
  validated env (compiled, found) w =
      let source =
        if found
        then config_path env
        else "built-in defaults (no file at " <> (config_path env <> ")") in
      (
        ok (
            "ok: "
            <> (source
                <> ("\nmode: "
                    <> (compiled.mode
                        <> ("\npoll_interval: "
                            <> (P.duration compiled.poll_interval
                                <> ("\nrefresh_debounce: "
                                    <> (P.duration compiled.refresh_debounce <> "\n")))))))),
        w,
      )

  unfoldable pub validate_config : Env → S.World → Result CliError String × S.World
  validate_config env w =
      and_then (require env ("HERDR_PLUGIN_CONFIG_DIR" ∷ []), w)
        (λ _ w0.
          and_then (wrapped invalid_configuration (P.load_config (config_path env) w0))
            (validated env))

  abbrev report : Shown → String
  report shown =
      "profile: "
      <> (shown.profile
          <> ("\nmode: "
              <> (shown.mode
                  <> ("\ntab: "
                      <> (shown.tab
                          <> ("\nworkspace: "
                              <> (shown.workspace
                                  <> ("\npane: "
                                      <> (shown.pane
                                          <> ("\nlabel: " <> (P.quote shown.label <> "\n")))))))))))

  unfoldable pub print_preview : Env → S.World → Result CliError String × S.World
  print_preview env w =
      and_then (preview G H T S (load env) P.decode env w) (λ shown w1. (ok (report shown), w1))

  -- `daemonIsRunning`
  abbrev probe : Result String ℕ × S.World → Bool × S.World
  probe (err e, w) = (false, w)
  probe (ok zero, w) = (false, w)
  probe (ok (suc n), w) = (P.is_alive (suc n) w, w)

  unfoldable pub daemon_is_running : S.World → Bool × S.World
  daemon_is_running w = probe (P.recorded_pid w)

  abbrev spawned : Env → S.World → Result CliError String × S.World
  spawned env w =
      let log = (new_paths P.digest P.cwd env.plugin_state_dir env.socket_path).log in
      and_then (wrapped spawn_failed (P.spawn env.executable log w))
        (λ _ w1. (ok ("started; logging to " <> (log <> "\n")), w1))

  abbrev unless_running : Env → ℕ → Bool × S.World → Result CliError String × S.World
  unless_running env pid (true, w) = (ok ("already running (pid " <> (itoa pid <> ")\n")), w)
  unless_running env pid (false, w) = spawned env w

  abbrev start_recorded : Env → Result String ℕ × S.World → Result CliError String × S.World
  start_recorded env (err e, w) = spawned env w
  start_recorded env (ok zero, w) = spawned env w
  start_recorded env (ok (suc n), w) = unless_running env (suc n) (daemon_is_running w)

  unfoldable pub start : Env → S.World → Result CliError String × S.World
  start env w =
      and_then (require env two_names, w)
        (λ _ w0.
          if env.executable == ""
          then (err no_executable, w0)
          else and_then
              (wrapped directory_failed (
                P.mkdir_all (new_paths P.digest P.cwd env.plugin_state_dir env.socket_path).root
                  w0))
              (λ _ w1. start_recorded env (P.recorded_pid w1)))

  unfoldable pub stop : Env → S.World → Result CliError String × S.World
  stop env w =
      and_then (require env two_names, w)
        (λ _ w0. and_then (wrapped stop_failed (P.signal_stop w0)) (λ signaled w1. (
          ok (if signaled then "stop signal sent\n" else "no running daemon for this session\n"),
          w1,
        )))

  -- The deferred release.
  abbrev releasing : Result CliError String × S.World → Result CliError String × S.World
  releasing (r, w) = (r, P.release w)

  unfoldable pub daemon : Env → S.World → Result CliError String × S.World
  unfolding manager_of
  daemon env w =
      and_then (require env three_names, w)
        (λ _ w0. and_then (wrapped lock_failed (P.acquire w0)) (λ _ w1. releasing (
          and_then (manager_of P.decode G H T S (S.reload_if_changed w1))
            (λ _ w2. (ok "", P.run w2)))))

  unfoldable pub default_socket_path : String
  default_socket_path =
      if P.xdg_config_home == ""
      then elim P.user_home [ none ↦ "" | some home ↦ join_path home ".config/herdr/herdr.sock" ]
      else join_path P.xdg_config_home "herdr/herdr.sock"

  -- From the socket on.
  abbrev status_line : Env → String → S.World → Result CliError String × S.World
  status_line env socket w = and_then (load env w) (λ compiled w1.
      and_then (wrapped snapshot_failed (P.snapshot_at socket w1)) (λ snapshot w2.
        let (now, w3) = S.now w2 in
        and_then
          (wrapped render_failed (
            execute_session G T (some compiled.status) (build_session snapshot now)
                compiled.max_width,
            w3,
          ))
          (λ line w4. (ok (line <> "\n"), w4))))

  abbrev status_parsed :
      Env
      → Result String (String × String × List String)
      → S.World
      → Result CliError String × S.World
  status_parsed env (err e) w = (err (bad_flags e), w)
  status_parsed env (ok (socket, config_dir, x ∷ rest)) w = (err positional_arguments, w)
  status_parsed env (ok (socket, config_dir, [])) w =
      let resolved = first_non_empty (env.socket_path ∷ socket ∷ default_socket_path ∷ []) in
      let configured =
        if config_dir == "" then env else record env { plugin_config_dir = config_dir } in
      if resolved == "" then (err no_socket, w) else status_line configured resolved w

  unfoldable pub status : List String → Env → S.World → Result CliError String × S.World
  status args env w = status_parsed env (P.parse_flags args) w

  abbrev concluded : Result CliError String × S.World → Exit × S.World
  concluded (err e, w) =
      (record { code = if is_usage e then 2 else 1; stdout = ""; failure = some (failed e) }, w)
  concluded (ok text, w) = (record { code = 0; stdout = text; failure = none }, w)

  abbrev no_text : Result CliError (Unit {0}) × S.World → Result CliError String × S.World
  no_text r = and_then r (λ _ w. (ok "", w))

  unfoldable pub dispatch : String → List String → Env → S.World → Exit × S.World
  dispatch command rest env w =
      if command == "version"
      then (record { code = 0; stdout = version_line; failure = none }, w)
      else if command == "validate-config"
      then concluded (validate_config env w)
      else if command == "preview"
      then concluded (print_preview env w)
      else if command == "rename-current"
      then concluded (no_text (rename_current P.decode G H T S env w))
      else if command == "start"
      then concluded (start env w)
      else if command == "stop"
      then concluded (stop env w)
      else if command == "daemon"
      then concluded (daemon env w)
      else if command == "status"
      then concluded (status rest env w)
      else (record { code = 2; stdout = ""; failure = some (unknown_command command) }, w)

  -- `Run`: the exit code, and what is printed.
  unfoldable pub run : List String → Env → S.World → Exit × S.World
  run [] env w = (record { code = 2; stdout = ""; failure = some no_command }, w)
  run (command ∷ rest) env w =
      if not (is_empty rest) && not (command == "status")
      then (record { code = 2; stdout = ""; failure = some (takes_no_arguments command) }, w)
      else dispatch command rest env w
