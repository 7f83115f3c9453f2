-- ===== src/Tests/Exiting.antt =====
-- The commands of internal/cli on the server of the reconciliation tests.
use herdr_tabline.Base.{◌≡◌, refl, Bool, true, false, none, some, [], ◌∷◌, string_eq, nat_eq}
use herdr_tabline.Base.Int.{int_eq}
use herdr_tabline.Base.Decimal.{itoa}
use herdr_tabline.Base.Dict.{lookup}
use herdr_tabline.Base.Result.{ok}
use herdr_tabline.Render.Width.{display_width, truncate}
use herdr_tabline.Render.Engine.{
  execute, finish, apply_max_width, sanitize_controls, strip_missing_values, is_control_only,
}
use herdr_tabline.Config.Resolve.{resolve}
use herdr_tabline.Controller.{auto, eligible, apply_label, reconcile_tab}
use herdr_tabline.Cli.{Env, not_set, require}
use herdr_tabline.Cli.Preview.{Shown, preview_tab}
use herdr_tabline.Cli.Preview.Labels.{preview_tab-reconcile_tab}
use herdr_tabline.Cli.Commands.{
  Platform, failed, start, stop, status, dispatch, daemon_is_running, run,
}
use herdr_tabline.Cli.Commands.Exits.{
  IsContract, needs, IsFirstUnset, here, there, run-IsContract, run-require,
}
use herdr_tabline.Tests.Fixtures.{cells, constant_templates, plain_host, two_tabs, sample_context}
use herdr_tabline.Tests.Reconciling.{services, numbered, stale, Sight}
use herdr_tabline.Tests.Commanding.{no_context, full_env}

-- A daemon's pid 7 is recorded; whether it runs is a parameter.
abbrev platform : Bool → Platform plain_host constant_templates Sight
platform alive = record {
  load_config = λ path w. (ok (numbered, true), w);
  snapshot_at = λ socket w. (ok two_tabs, w);
  mkdir_all = λ path w. (ok tt, w);
  spawn = λ executable log w. (ok tt, w);
  recorded_pid = λ w. (ok 7, w);
  is_alive = λ pid w. alive;
  signal_stop = λ w. (ok alive, w);
  acquire = λ w. (ok tt, w);
  release = λ w. w;
  run = λ w. w;
  parse_flags = λ args. ok ("", "", args);
  xdg_config_home = "";
  user_home = some "/home/u";
  decode = no_context;
  digest = λ text. "d";
  cwd = some "/";
  quote = λ text. text;
  duration = λ d. "1s";
}

abbrev shown_label : Shown
shown_label = record {
  profile = "default";
  mode = "auto";
  tab = "t1";
  workspace = sample_context.workspace.label;
  pane = sample_context.pane.id;
  label = "new";
}

sample_shown :
    preview_tab cells plain_host constant_templates services numbered sample_context ([], [])
    ≡ (ok shown_label, ([], []))
unfolding preview_tab resolve execute finish apply_max_width truncate display_width
    sanitize_controls strip_missing_values is_control_only lookup string_eq nat_eq int_eq
sample_shown = refl

sample_eligible :
    eligible (resolve plain_host constant_templates numbered sample_context).mode auto ≡ true
unfolding eligible resolve lookup string_eq
sample_eligible = refl

shown_eligible : eligible shown_label.mode auto ≡ true
unfolding eligible string_eq
shown_eligible = refl

preview_tab-reconcile_tab_example :
    reconcile_tab cells plain_host constant_templates services numbered auto sample_context []
      ([], [])
    ≡ apply_label cells plain_host constant_templates services [] sample_context (ok "new") ([], [])
preview_tab-reconcile_tab_example =
    preview_tab-reconcile_tab cells plain_host constant_templates services numbered auto
      sample_context [] ([], []) ([], []) shown_label sample_shown sample_eligible shown_eligible

run-IsContract_example :
    IsContract
      (run cells plain_host constant_templates services
        (platform true)
        ("status" ∷ "x" ∷ [])
        full_env
        ([], stale)).0
run-IsContract_example =
    run-IsContract cells plain_host constant_templates services (platform true)
      ("status" ∷ "x" ∷ []) full_env ([], stale)

-- The second variable of `start` has no value.
abbrev stateless : Env
stateless = record full_env { plugin_state_dir = "" }

stateless_unset : IsFirstUnset stateless "HERDR_PLUGIN_STATE_DIR" (needs "start")
unfolding string_eq
stateless_unset = there (λ e. cc) (here refl)

run-require_example :
    run cells plain_host constant_templates services
      (platform true)
      ("start" ∷ [])
      stateless
      ([], stale)
    ≡ (
      record { code = 2; stdout = ""; failure = some (failed (not_set "HERDR_PLUGIN_STATE_DIR")) },
      ([], stale),
    )
run-require_example =
    run-require cells plain_host constant_templates services (platform true) "start" stateless
      ([], stale) "HERDR_PLUGIN_STATE_DIR" stateless_unset

-- `start` finds the pid of a process that lives, and prints it.
already_running :
    run cells plain_host constant_templates services
      (platform true)
      ("start" ∷ [])
      full_env
      ([], stale)
    ≡ (record { code = 0; stdout = "already running (pid 7)\n"; failure = none }, ([], stale))
unfolding run dispatch start daemon_is_running require string_eq itoa nat_eq
already_running = refl

stop_idle :
    run cells plain_host constant_templates services
      (platform false)
      ("stop" ∷ [])
      full_env
      ([], stale)
    ≡ (
      record { code = 0; stdout = "no running daemon for this session\n"; failure = none },
      ([], stale),
    )
unfolding run dispatch stop require string_eq
stop_idle = refl

surplus :
    (run cells plain_host constant_templates services
      (platform true)
      ("status" ∷ "x" ∷ [])
      full_env
      ([], stale)).0.code
    ≡ 2
unfolding run dispatch status string_eq
surplus = refl
