-- ===== src/Session.antt =====
-- The calls of internal/controller, by the code behind them: internal/config's `Manager` and
-- internal/state's `Store`, side by side with the server of a session.
-- No other process changes the files within a pass. The texts of errors are parameters.
pub mod Persistence
use herdr_tabline.Base.{ℕ, String, Bool, Option}
use herdr_tabline.Base.Result.{Result, map_err}
use herdr_tabline.Api.{Snapshot, ProcessInfo}
use herdr_tabline.Model.{History}
use herdr_tabline.Render.Engine.{Templates}
use herdr_tabline.Config.Types.{Host, Compiled}
use herdr_tabline.Config.Compile.{ConfigError}
use herdr_tabline.Config.Manager.{FileSystem, Manager, reload_if_changed}
use herdr_tabline.Controller.{Services}
use herdr_tabline.State.Store.{Codec, Paths, Files, StoreError, Faults}
use herdr_tabline.State.Store

-- The calls of the client, the cancellation and the clock.
pub record Server : Type 1 where
  pub World : Type 0
  pub snapshot : World → Result String Snapshot × World
  pub process_info : String → World → Result String ProcessInfo × World
  pub rename_tab : String → String → World → Result String (Unit {0}) × World
  pub ctx_err : World → Option String
  pub now : World → ℕ × World

module _ (V : Server) (F : FileSystem) (C : Codec) (paths : Paths) (H : Host) (T : Templates) where
  -- What the system calls of the next load and the next update report stands beside the files.
  pub record World : Type 0 where
    pub server : V.World
    pub config : F.World
    pub manager : Manager F H T
    pub files : Files
    pub load_faults : Faults
    pub update_faults : Faults

  module _ (config_text : ConfigError → String) (store_text : StoreError → String) where
    abbrev on_server {ℓ} : {A : Type ℓ} → (V.World → A × V.World) → World → A × World
    on_server call w = ((call w.server).0, record w { server = (call w.server).1 })

    abbrev reload : World → Result String Bool × World
    reload w =
        let ((manager, result), config) = reload_if_changed F H T w.manager w.config in
        (map_err config_text result, record w { manager = manager; config = config })

    abbrev update : (History → History × Bool) → World → Result String Bool × World
    update mutate w =
        let (result, files) = Store.update C paths w.update_faults mutate w.files in
        (map_err store_text result, record w { files = files })

    abbrev pub session : Services H T
    session = record {
      World = World;
      snapshot = on_server V.snapshot;
      process_info = λ pane. on_server (V.process_info pane);
      rename_tab = λ tab label. on_server (V.rename_tab tab label);
      ctx_err = λ w. V.ctx_err w.server;
      reload_if_changed = reload;
      current = λ w. w.manager.current;
      load = λ w. (map_err store_text (Store.load C paths w.load_faults w.files), w);
      update = update;
      now = on_server V.now;
    }
