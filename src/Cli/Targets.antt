-- ===== src/Cli/Targets.antt =====
-- Which tab the commands of internal/cli/app.go act on.
use herdr_tabline.Base.{
  ◌≡◌, ◌≢◌, inl, inr, refl, ◌∙◌, String, Bool, Option, List, ◌∷◌, arith, ◌==◌, string_eq,
  Bool-cases, Option-cases,
}
use herdr_tabline.Base.Result.{Result, ok, err}
use herdr_tabline.Api.{Snapshot}
use herdr_tabline.Render.Width.{Graphemes}
use herdr_tabline.Render.Engine.{Templates}
use herdr_tabline.Config.Types.{Host, Compiled}
use herdr_tabline.Controller.{action, Services, ReconcileError, current_config, reconcile}
use herdr_tabline.Controller.Passes.{Committed, before_snapshot, reconcile-Committed}
use herdr_tabline.Model.{History}
use herdr_tabline.Cli.{
  Env, CliError, env_value, require, three_names, tab_id_from_context_json, focused_tab,
  resolve_tab_id, manager_of, reconciled, rename_managed, rename_resolved, started, rename_current,
}

module _ (decode : String → Result String (Option String)) (G : Graphemes) (H : Host)
    (T : Templates) (S : Services H T) where
  -- The tab of the environment, or else of the context, or else the focused tab of the server; with the
  -- world after the choice.
  pub data Chosen (env : Env) (w : S.World) (id : String) (there : S.World) : Type 0 where
    of_environment : env.tab_id ≢ "" → id ≡ env.tab_id → there ≡ w → Chosen env w id there
    of_context :
        env.tab_id ≡ ""
        → tab_id_from_context_json decode env.context_json ≢ ""
        → id ≡ tab_id_from_context_json decode env.context_json
        → there ≡ w
        → Chosen env w id there
    of_focus :
        {snapshot : Snapshot}
        → env.tab_id ≡ ""
        → tab_id_from_context_json decode env.context_json ≡ ""
        → S.snapshot w ≡ (ok snapshot, there)
        → snapshot.focused_tab_id ≢ ""
        → id ≡ snapshot.focused_tab_id
        → Chosen env w id there

  focused_tab-ok :
      (r : Result String Snapshot × S.World) (id : String) (there : S.World)
      → focused_tab decode G H T S r ≡ (ok id, there)
      → (snapshot : Snapshot) × (r ≡ (ok snapshot, there))
        × (snapshot.focused_tab_id ≢ "")
        × (id ≡ snapshot.focused_tab_id)
  unfolding focused_tab
  focused_tab-ok (err e, w) id there h = cc
  focused_tab-ok (ok snapshot, w) id there h = (snapshot, ground arith, ground arith, ground arith)

  resolve_tab_id-Chosen :
      (env : Env) (w : S.World) (id : String) (there : S.World)
      → resolve_tab_id decode G H T S env w ≡ (ok id, there)
      → Chosen env w id there
  unfolding resolve_tab_id
  resolve_tab_id-Chosen env w id there h = elim (Bool-cases (env.tab_id == "")) [
    | inr set ↦ of_environment (ground arith) (ground arith) (ground arith)
    | inl unset ↦ elim (Bool-cases (tab_id_from_context_json decode env.context_json == "")) [
      | inr given ↦ of_context (ground arith) (ground arith) (ground arith) (ground arith)
      | inl absent ↦
          let (snapshot, taken, focused, same) =
            focused_tab-ok (S.snapshot w) id there (rw (unset, absent) at h) in
          of_focus (ground arith) (ground arith) taken focused same
    ]
  ]

  require-ok :
      (env : Env) (name : String) (names : List String)
      → require env (name ∷ names) ≡ ok tt
      → (env_value env name ≢ "") × (require env names ≡ ok tt)
  unfolding require
  require-ok env name names h = (ground arith, ground arith)

  env_values :
      (env : Env)
      → (env_value env "HERDR_SOCKET_PATH" ≡ env.socket_path)
        × (env_value env "HERDR_PLUGIN_CONFIG_DIR" ≡ env.plugin_config_dir)
        × (env_value env "HERDR_PLUGIN_STATE_DIR" ≡ env.plugin_state_dir)
  unfolding string_eq
  env_values env = (refl, refl, refl)

  require-three_names :
      (env : Env)
      → require env three_names ≡ ok tt
      → (env.socket_path ≢ "") × (env.plugin_config_dir ≢ "") × (env.plugin_state_dir ≢ "")
  require-three_names env h =
      let (socket, more) = require-ok env _ _ h in
      let (config, rest) = require-ok env _ _ more in
      let (state, _) = require-ok env _ _ rest in
      let (a, b, c) = env_values env in
      (λ e. socket (a ∙ e), λ e. config (b ∙ e), λ e. state (c ∙ e))

  reconciled-ok :
      (r : Result ReconcileError (Unit {0}) × S.World) (v : S.World)
      → reconciled decode G H T S r ≡ (ok tt, v)
      → r ≡ (ok tt, v)
  unfolding reconciled
  reconciled-ok (err e, w) v h = cc
  reconciled-ok (ok u, w) v h = ground arith

  -- A `rename-current` that succeeds, from one world to another.
  pub record Renamed (env : Env) (w v : S.World) : Type 0 where
    pub socket_set : env.socket_path ≢ ""
    pub config_dir_set : env.plugin_config_dir ≢ ""
    pub state_dir_set : env.plugin_state_dir ≢ ""
    pub id : String
    pub chosen_in : S.World
    pub chosen : Chosen env w id chosen_in
    pub changed : Bool
    pub pass_in : S.World
    pub loads : S.reload_if_changed chosen_in ≡ (ok changed, pass_in)
    pub passes : reconcile G H T S action id pass_in ≡ (ok tt, v)
    pub compiled : Compiled H T
    pub history : History
    pub snapshot : Snapshot
    pub configured : (current_config G H T S pass_in).0 ≡ ok compiled
    pub loaded : (S.load (current_config G H T S pass_in).1).0 ≡ ok history
    pub taken : (S.snapshot (before_snapshot G H T S pass_in)).0 ≡ ok snapshot
    pub commits :
        Committed G H T S compiled action id history snapshot
          (S.snapshot (before_snapshot G H T S pass_in)).1
          v

  rename_managed-ok :
      (id : String) (r : Result String Bool × S.World) (v : S.World)
      → rename_managed decode G H T S id (manager_of decode G H T S r) ≡ (ok tt, v)
      → (changed : Bool) × (r.0 ≡ ok changed) × (reconcile G H T S action id r.1 ≡ (ok tt, v))
  unfolding rename_managed manager_of
  rename_managed-ok id (err e, w) v h = cc
  rename_managed-ok id (ok b, w) v h = elim (Option-cases (S.current w)) [
    | inl e ↦ absurd (ground arith)
    | inr (c, e) ↦ (b, refl, reconciled-ok (reconcile G H T S action id w) v (rw e at h))
  ]

  rename_resolved-ok :
      (env : Env) (w v : S.World) (r : Result CliError String × S.World)
      → require env three_names ≡ ok tt
      → resolve_tab_id decode G H T S env w ≡ r
      → rename_resolved decode G H T S r ≡ (ok tt, v)
      → Renamed env w v
  unfolding rename_resolved
  rename_resolved-ok env w v (err e, there) set resolved h = cc
  rename_resolved-ok env w v (ok id, there) set resolved h =
      let (socket, config, state) = require-three_names env set in
      let (changed, reloaded, pass) = rename_managed-ok id (S.reload_if_changed there) v h in
      let (compiled, history, snapshot, configured, loaded, taken, committed) =
        reconcile-Committed G H T S action id (S.reload_if_changed there).1 v pass in
      record {
        socket_set = socket;
        config_dir_set = config;
        state_dir_set = state;
        id = id;
        chosen_in = there;
        chosen = resolve_tab_id-Chosen env w id there resolved;
        changed = changed;
        pass_in = (S.reload_if_changed there).1;
        loads = ground arith;
        passes = pass;
        compiled = compiled;
        history = history;
        snapshot = snapshot;
        configured = configured;
        loaded = loaded;
        taken = taken;
        commits = committed;
      }

  -- For every decoding, environment, services and world: where `rename-current` succeeds, the socket
  -- path, the configuration directory and the state directory have a value. The command chose the
  -- tab of the environment, or else of the context, or else the focused tab of a snapshot, and but
  -- for that snapshot the world is as it was when the configuration is loaded, which reports no
  -- error. The one pass starts in the world that this leaves, with the chosen tab as an action's target, succeeds,
  -- and ends in the command's last world. So the tab is in the snapshot of that pass, and its last
  -- call stored what the pass recorded, with no entry for a tab that is gone.
  pub rename_current-Committed :
      (env : Env) (w v : S.World)
      → rename_current decode G H T S env w ≡ (ok tt, v)
      → Renamed env w v
  unfolding rename_current started
  rename_current-Committed env w v h = go (require env three_names) refl h
    where
      go :
          (r : Result CliError (Unit {0}))
          → require env three_names ≡ r
          → started decode G H T S env w r ≡ (ok tt, v)
          → Renamed env w v
      go (err e) set k = cc
      go (ok u) set k = rename_resolved-ok env w v (resolve_tab_id decode G H T S env w) set refl k
