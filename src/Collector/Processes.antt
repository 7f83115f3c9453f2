-- ===== src/Collector/Processes.antt =====
-- internal/collector/collector.go: `AttachProcess`. The context that the source sets through a
-- pointer is the context returned.
pub mod Replacement
use herdr_tabline.Base.{Bool, false, Option, none, some, List, [], ◌∷◌, map, ◌==◌, if◌then◌else◌}
use herdr_tabline.Base.Int.{ℤ, pos, int_eq}
use herdr_tabline.Api
use herdr_tabline.Api.{ProcessInfo}
use herdr_tabline.Model
use herdr_tabline.Model.{Context, zero_process}
use herdr_tabline.Collector.Normalize.{normalize_process}

-- `info.ForegroundProcessGroupID != nil && raw.PID == *info.ForegroundProcessGroupID`
abbrev leads : Option ℤ → ℤ → Bool
leads none pid = false
leads (some pgid) pid = pid == pgid

-- The loop's assignments to `ctx.ProcessByPGID`: the last leader stays.
leader : Option ℤ → Model.Process → List Api.Process → Model.Process
unfolding normalize_process
leader pgid found [] = found
leader pgid found (raw ∷ raws) =
    leader pgid (if leads pgid raw.pid then normalize_process raw else found) raws

abbrev pub first_process : List Model.Process → Model.Process
first_process [] = zero_process
first_process (process ∷ processes) = process

abbrev pub shell_pid_or_zero : Option ℤ → ℤ
shell_pid_or_zero none = pos 0
shell_pid_or_zero (some pid) = pid

unfoldable pub attach_process : Context → ProcessInfo → Context
unfolding leader normalize_process
attach_process ctx info =
    let processes = map normalize_process info.foreground_processes in
    record ctx {
      process = first_process processes;
      processes = processes;
      process_by_pgid =
          leader info.foreground_process_group_id zero_process info.foreground_processes;
      shell = record { pid = shell_pid_or_zero info.shell_pid; tty = info.tty };
    }
