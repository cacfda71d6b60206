-- ===== src/RunCommand.antt =====
-- runcommand/runcommand.h/.cpp: one QProcess with a timer and an event loop, which runs one shell
-- command at a time, either blocking in the loop (`runCommandExec`) or not (`runCommand`).
pub mod Events
pub mod States
pub mod Results
pub mod Waiting
pub mod Hosting
use wifigateway_server.Base.{
  ℕ, Bool, true, false, Option, none, some, List, [], ◌∷◌, ◌++◌, ◌==◌, ◌||◌, if◌then◌else◌,
}
use wifigateway_server.Base.Int.{ℤ, pos, negsuc}
use wifigateway_server.Qt.Text.{QString, codes, of_bytes}

-- `QProcess::state()`.
pub data ProcessState : Type 0 where
  not_running starting running : ProcessState

-- The slots that the two signals get connected to.
pub data Slot : Type 0 where
  finished_internal finished_internal_timeout : Slot
  finished_internal_exec finished_internal_exec_timeout : Slot

abbrev pub slot_number : Slot → ℕ
slot_number finished_internal = 0
slot_number finished_internal_timeout = 1
slot_number finished_internal_exec = 2
slot_number finished_internal_exec_timeout = 3

-- `on_finished` and `on_timeout` are the connections of the process and of the timer, `timer` is
-- the interval of a timer that runs, `exit_code` is what the event loop was told to exit with.
pub record RunCommand : Type 0 where
  pub process : ProcessState
  pub arguments : List QString
  pub timer : Option ℕ
  pub on_finished : List Slot
  pub on_timeout : List Slot
  pub exit_code : Option ℤ
  pub output : QString
  pub emitted : List (ℤ × QString)

-- A runner as its constructor makes it. Its timer is single-shot: what expires does not run on.
abbrev pub idle : RunCommand
idle = record {
  process = not_running;
  arguments = [];
  timer = none;
  on_finished = [];
  on_timeout = [];
  exit_code = none;
  output = [];
  emitted = [];
}

abbrev pub is_busy : RunCommand → Bool
is_busy r = elim r.process [ not_running ↦ false | starting ↦ true | running ↦ true ]

-- `connect` adds a connection, `disconnect` takes all those to the slot away.
abbrev pub connect : Slot → List Slot → List Slot
connect s slots = slots ++ s ∷ []

abbrev pub disconnect : Slot → List Slot → List Slot
disconnect s [] = []
disconnect s (t ∷ slots) =
    let rest = disconnect s slots in if slot_number s == slot_number t then rest else t ∷ rest

abbrev pub start_process : QString → ℕ → RunCommand → RunCommand
start_process command timeout r = record r {
  process = starting;
  arguments = codes "-c" ∷ command ∷ [];
  timer = some timeout;
  output = [];
}

-- `timer.stop(); kill(); waitForFinished();`
abbrev pub stop : RunCommand → RunCommand
stop r = record r { timer = none; process = not_running }

-- `runCommand`.
pub run_command : QString → ℕ → RunCommand → ℤ × RunCommand
run_command command timeout r = if is_busy r then (negsuc 0, r) else (
  pos 0,
  record (start_process command timeout r) {
    on_timeout = connect finished_internal_timeout r.on_timeout;
    on_finished = connect finished_internal r.on_finished;
  },
)

-- `runCommandExec` up to `el.exec()`. `none` is the path on which it waits in the event loop.
pub begin_exec : QString → ℕ → RunCommand → Option ℤ × RunCommand
begin_exec command timeout r = if is_busy r then (some (negsuc 0), r) else (
  none,
  record (start_process command timeout r) {
    on_timeout = connect finished_internal_exec_timeout r.on_timeout;
    on_finished = connect finished_internal_exec r.on_finished;
    exit_code = none;
  },
)

-- The rest of it, once the loop has been told to exit: the result, and the output that is read, as
-- a QString.
pub end_exec : RunCommand → Option (ℤ × QString × RunCommand)
end_exec r = elim r.exit_code [
  | none ↦ none
  | some code ↦ some (code, of_bytes r.output, record r { exit_code = none; output = [] })
]

pub finish_async : ℤ → RunCommand → RunCommand
finish_async result r = record (stop r) {
  on_finished = disconnect finished_internal r.on_finished;
  on_timeout = disconnect finished_internal_timeout r.on_timeout;
  output = [];
  emitted = (result, of_bytes r.output) ∷ r.emitted;
}

pub finish_exec : ℤ → RunCommand → RunCommand
finish_exec result r = record (stop r) {
  on_finished = disconnect finished_internal_exec r.on_finished;
  on_timeout = disconnect finished_internal_exec_timeout r.on_timeout;
  exit_code = some result;
}

-- The slots: `code` is the argument of the signal, which the two for the timer do without.
pub invoke : Slot → ℤ → RunCommand → RunCommand
unfolding finish_async finish_exec
invoke finished_internal code r = finish_async code r
invoke finished_internal_timeout code r = finish_async (negsuc 0) r
invoke finished_internal_exec code r = finish_exec code r
invoke finished_internal_exec_timeout code r = finish_exec (negsuc 0) r

invoke_all : List Slot → ℤ → RunCommand → RunCommand
unfolding invoke
invoke_all [] code r = r
invoke_all (s ∷ slots) code r = invoke_all slots code (invoke s code r)

-- What happens to the process and the timer from outside. It writes to its standard output, and
-- complains on its standard error, which `readAll` does not read.
pub data Event : Type 0 where
  process_started start_failed : Event
  process_wrote process_complained : QString → Event
  process_finished : ℤ → Event
  timer_expired : Event

-- A process that is not running emits nothing, and a timer that is stopped does not expire. A start
-- that fails is signalled by `error`, which nothing is connected to, and not by `finished`.
pub handle : Event → RunCommand → RunCommand
unfolding invoke_all
handle process_started r = elim r.process [
  | starting ↦ record r { process = running }
  | not_running ↦ r
  | running ↦ r
]
handle start_failed r = elim r.process [
  | starting ↦ record r { process = not_running }
  | not_running ↦ r
  | running ↦ r
]
handle (process_wrote text) r = if is_busy r then record r { output = r.output ++ text } else r
handle (process_complained text) r = r
handle (process_finished code) r =
    if is_busy r then invoke_all r.on_finished code (record r { process = not_running }) else r
handle timer_expired r = elim r.timer [
  | none ↦ r
  | some _ ↦ invoke_all r.on_timeout (pos 0) (record r { timer = none })
]

pub handle_all : List Event → RunCommand → RunCommand
handle_all [] r = r
handle_all (e ∷ es) r = handle_all es (handle e r)

-- `runCommandWait`, on a process of its own. `outcome` is what that process comes to within the
-- timeout, its exit status and its standard output, and `none` if `waitForFinished` gives up. The
-- result, and the buffer after the call.
pub run_command_wait :
    (List QString → ℕ → Option (ℤ × QString)) → QString → ℕ → QString → ℤ × QString
run_command_wait outcome command timeout str_buf =
    elim (outcome (codes "-c" ∷ command ∷ []) timeout) [
      | none ↦ (negsuc 0, str_buf)
      | some (exit_code, output) ↦ (exit_code, of_bytes output)
    ]
