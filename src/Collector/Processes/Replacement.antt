-- ===== src/Collector/Processes/Replacement.antt =====
-- What internal/collector/collector.go's `AttachProcess` leaves in a context.
use herdr_tabline.Base.{
  map, if◌then◌else◌, ◌≡◌, refl, true, false, Option, none, some, List, [], ◌∷◌, arith,
}
use herdr_tabline.Base.Int.{ℤ}
use herdr_tabline.Api
use herdr_tabline.Api.{ProcessInfo}
use herdr_tabline.Model
use herdr_tabline.Model.{Context, zero_process}
use herdr_tabline.Collector.Normalize.{normalize_process}
use herdr_tabline.Collector.Processes.{
  leads, leader, first_process, shell_pid_or_zero, attach_process,
}

-- The last process of a list that leads the group.
abbrev pub last_leader : Option ℤ → List Api.Process → Option Api.Process
last_leader pgid [] = none
last_leader pgid (raw ∷ raws) = elim (last_leader pgid raws) [
  | some later ↦ some later
  | none ↦ elim (leads pgid raw.pid) [ true ↦ some raw | false ↦ none ]
]

abbrev pub normalize_or : Model.Process → Option Api.Process → Model.Process
normalize_or d none = d
normalize_or d (some raw) = normalize_process raw

leader_lem :
    (pgid : Option ℤ) (d : Model.Process) (raws : List Api.Process)
    → leader pgid d raws ≡ normalize_or d (last_leader pgid raws)
unfolding leader
leader_lem pgid d [] = refl
leader_lem pgid d (raw ∷ raws) =
    ground (arith, leader_lem pgid (if leads pgid raw.pid then normalize_process raw else d) raws)

-- For every context and process information: the processes are the normalized ones in the
-- server's order, `process` is the first of them, `process_by_pgid` is the last one whose pid is the
-- foreground group's (each the zero process if there is none), the shell is the server's, and
-- nothing of an earlier attachment is left: attaching twice is attaching the second time.
pub attach_process_lem :
    (ctx : Context) (earlier info : ProcessInfo)
    → let out = attach_process ctx info in
      (out.processes ≡ map normalize_process info.foreground_processes)
      × (out.process ≡ first_process (map normalize_process info.foreground_processes))
      × (out.process_by_pgid
          ≡ normalize_or zero_process
              (last_leader info.foreground_process_group_id info.foreground_processes))
      × (out.shell ≡ record { pid = shell_pid_or_zero info.shell_pid; tty = info.tty })
      × (attach_process (attach_process ctx earlier) info ≡ out)
unfolding attach_process
attach_process_lem ctx earlier info = (
  refl,
  refl,
  leader_lem info.foreground_process_group_id zero_process info.foreground_processes,
  refl,
  refl,
)
