-- ===== src/Witnesses/Runner.antt =====
-- The runner of commands on concrete inputs.
use wifigateway_server.Base.{◌⊎◌, ◌≡◌, refl, none, some, List, [], ◌∷◌}
use wifigateway_server.Base.Int.{ℤ, pos, negsuc}
use wifigateway_server.Qt.Text.{QString, codes}
use wifigateway_server.RunCommand.{
  RunCommand, idle, run_command, begin_exec, end_exec, run_command_wait, Event, process_started,
  process_wrote, process_complained, process_finished, timer_expired, handle_all,
}
use wifigateway_server.RunCommand.States.{IsIdle, IsAsync, run_command_starts}
use wifigateway_server.RunCommand.Waiting.{outcome_of, exec_as_wait}
use wifigateway_server.Controller.State.{Controller, new_controller}
use wifigateway_server.Controller.Machine.{Answer}
use wifigateway_server.Controller.Refinement.Host.{quiet}
use wifigateway_server.RunCommand.Hosting.{exec_each, host_each, exec_each_lem}
use wifigateway_server.Witnesses.{dir}
use wifigateway_server.RunCommand.Results.{AsyncResult, ExecResult, async_once, exec_once}

abbrev command : QString
command = codes "date"

-- The command prints and complains, the timer expires, and only then the process reports its end.
abbrev events : List Event
events =
    process_started
    ∷ process_wrote (codes "Mon")
    ∷ process_complained (codes "!")
    ∷ timer_expired
    ∷ process_finished (pos 0)
    ∷ []

idle-IsIdle : IsIdle idle
idle-IsIdle = record { stopped = refl; untimed = refl; unfinished = refl; unexpired = refl }

abbrev asynchronous : RunCommand
asynchronous = (run_command command 5000 idle).1

async : IsAsync asynchronous
async = (run_command_starts command 5000 idle idle-IsIdle).1

async_once_example :
    let (code, s) = run_command command 5000 idle in
    (code ≡ pos 0) × AsyncResult events [] [] (handle_all events s)
async_once_example = async_once command 5000 idle events idle-IsIdle

exec_once_example :
    let (code, s) = begin_exec command 5000 idle in
    (code ≡ none) × ExecResult events [] [] (handle_all events s)
exec_once_example = exec_once command 5000 idle events idle-IsIdle

exec_as_wait_example :
    (output : QString) × (s : RunCommand) × (end_exec
        (handle_all events (begin_exec command 5000 idle).1)
      ≡ some (negsuc 0, output, s))
    × ((run_command_wait (λ _ _. outcome_of events) command 5000 [] ≡ (negsuc 0, output))
        ⊎ ((negsuc 0 ≡ negsuc 0)
            × (run_command_wait (λ _ _. outcome_of events) command 5000 [] ≡ (negsuc 0, []))))
exec_as_wait_example = exec_as_wait command 5000 idle events [] (negsuc 0) idle-IsIdle refl

-- Every command behaves in the same way, and is stopped by its timer.
abbrev behaves : QString → List QString → List Event
behaves _ _ = events

abbrev stopped : Answer
stopped _ _ = negsuc 0

exec_each_example :
    let commands = command ∷ codes "true" ∷ [] in
    (results : List ℤ) × (s : RunCommand) × (d : Controller) × (exec_each behaves commands [] idle
      ≡ some (results, s))
    × (host_each (quiet dir stopped) commands new_controller ≡ some (results, d))
    × IsIdle s
    × (s.emitted ≡ [])
exec_each_example =
    exec_each_lem dir stopped behaves (command ∷ codes "true" ∷ []) idle new_controller
      (λ c log. refl) idle-IsIdle
