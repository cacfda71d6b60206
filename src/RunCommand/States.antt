-- ===== src/RunCommand/States.antt =====
-- The runner between its commands and during one: how each call and each event moves it.
use wifigateway_server.Base.{ℕ, ◌≡◌, refl, true, false, none, some, List, [], ◌∷◌, ◌++◌, arith}
use wifigateway_server.Base.Int.{ℤ, pos, negsuc}
use wifigateway_server.Qt.Text.{QString, codes, of_bytes}
use mathlib.Core.List.{append-nil}
use wifigateway_server.RunCommand.Events.{after_start, after_failure, heard}
use wifigateway_server.RunCommand.{
  finished_internal, finished_internal_timeout, finished_internal_exec,
  finished_internal_exec_timeout, RunCommand, is_busy, run_command, begin_exec, Event,
  process_started, start_failed, starting, running, not_running, process_wrote, process_complained,
  process_finished, timer_expired, handle, handle_all,
}

-- Nothing runs, and no slot is connected.
pub record IsIdle (r : RunCommand) : Type 0 where
  pub stopped : is_busy r ≡ false
  pub untimed : r.timer ≡ none
  pub unfinished : r.on_finished ≡ []
  pub unexpired : r.on_timeout ≡ []

-- A command runs that `runCommand` has started.
pub record IsAsync (r : RunCommand) : Type 0 where
  pub timed : (t : ℕ) × (r.timer ≡ some t)
  pub finished : r.on_finished ≡ finished_internal ∷ []
  pub expired : r.on_timeout ≡ finished_internal_timeout ∷ []

-- A command runs for which `runCommandExec` waits.
pub record IsBlocked (r : RunCommand) : Type 0 where
  pub timed : (t : ℕ) × (r.timer ≡ some t)
  pub finished : r.on_finished ≡ finished_internal_exec ∷ []
  pub expired : r.on_timeout ≡ finished_internal_exec_timeout ∷ []
  pub waiting : r.exit_code ≡ none

-- While a command runs, both ways to run another return -1 and change nothing.
pub busy_refuses :
    (command : QString) (timeout : ℕ) (r : RunCommand)
    → is_busy r ≡ true
    → (run_command command timeout r ≡ (negsuc 0, r))
      × (begin_exec command timeout r ≡ (some (negsuc 0), r))
unfolding run_command begin_exec
busy_refuses command timeout r b = ground arith

module _ (command : QString) (timeout : ℕ) (r : RunCommand) (i : IsIdle r) where
  pub run_command_starts :
      let (code, s) = run_command command timeout r in
      (code ≡ pos 0)
      × IsAsync s
      × (s.emitted ≡ r.emitted)
      × (s.output ≡ [])
      × (s.process ≡ starting)
      × (s.arguments ≡ codes "-c" ∷ command ∷ [])
  unfolding run_command
  run_command_starts = (
    ground arith,
    record {
      timed = (timeout, ground arith);
      finished = ground (arith, i.unfinished);
      expired = ground (arith, i.unexpired);
    },
    ground arith,
    ground arith,
    ground arith,
    ground arith,
  )

  pub begin_exec_waits :
      let (code, s) = begin_exec command timeout r in
      (code ≡ none)
      × IsBlocked s
      × (s.emitted ≡ r.emitted)
      × (s.output ≡ [])
      × (s.process ≡ starting)
      × (s.arguments ≡ codes "-c" ∷ command ∷ [])
  unfolding begin_exec
  begin_exec_waits = (
    ground arith,
    record {
      timed = (timeout, ground arith);
      finished = ground (arith, i.unfinished);
      expired = ground (arith, i.unexpired);
      waiting = ground arith;
    },
    ground arith,
    ground arith,
    ground arith,
    ground arith,
  )

-- Later events do not reach an idle runner.
handle-IsIdle : (e : Event) (r : RunCommand) → IsIdle r → handle e r ≡ r
unfolding handle
handle-IsIdle e r i = ground arith

pub handle_all-IsIdle : (es : List Event) (r : RunCommand) → IsIdle r → handle_all es r ≡ r
unfolding handle_all
handle_all-IsIdle [] r i = refl
handle_all-IsIdle (e ∷ es) r i = rw (handle-IsIdle e r i) (handle_all-IsIdle es r i)

-- The events that do not end a command.
module _ (text : QString) (r : RunCommand) where
  pub started-IsAsync :
      IsAsync r
      → IsAsync (handle process_started r)
        × ((handle process_started r).emitted ≡ r.emitted)
        × ((handle process_started r).output ≡ r.output)
        × ((handle process_started r).process ≡ after_start r.process)
  unfolding handle
  started-IsAsync a = ground arith

  pub wrote-IsAsync :
      IsAsync r
      → let s = handle (process_wrote text) r in
        IsAsync s
        × (s.emitted ≡ r.emitted)
        × (s.output ≡ r.output ++ heard r.process text)
        × (s.process ≡ r.process)
  unfolding handle
  wrote-IsAsync a = ground (arith, append-nil r.output)

  pub failed-IsAsync :
      IsAsync r
      → let s = handle start_failed r in
        IsAsync s
        × (s.emitted ≡ r.emitted)
        × (s.output ≡ r.output)
        × (s.process ≡ after_failure r.process)
  unfolding handle
  failed-IsAsync a = ground arith

  pub failed-IsBlocked :
      IsBlocked r
      → let s = handle start_failed r in
        IsBlocked s
        × (s.emitted ≡ r.emitted)
        × (s.output ≡ r.output)
        × (s.process ≡ after_failure r.process)
  unfolding handle
  failed-IsBlocked a = ground arith

  pub started-IsBlocked :
      IsBlocked r
      → let s = handle process_started r in
        IsBlocked s
        × (s.emitted ≡ r.emitted)
        × (s.output ≡ r.output)
        × (s.process ≡ after_start r.process)
  unfolding handle
  started-IsBlocked a = ground arith

  pub wrote-IsBlocked :
      IsBlocked r
      → let s = handle (process_wrote text) r in
        IsBlocked s
        × (s.emitted ≡ r.emitted)
        × (s.output ≡ r.output ++ heard r.process text)
        × (s.process ≡ r.process)
  unfolding handle
  wrote-IsBlocked a = ground (arith, append-nil r.output)

-- Complaints are not read.
pub complained : (text : QString) (r : RunCommand) → handle (process_complained text) r ≡ r
unfolding handle
complained text r = refl

-- A process that does not run does not finish.
pub finished_idle :
    (code : ℤ) (r : RunCommand) → r.process ≡ not_running → handle (process_finished code) r ≡ r
unfolding handle
finished_idle code r p = ground arith

pub busy-starting : (r : RunCommand) → r.process ≡ starting → is_busy r ≡ true
busy-starting r p = ground arith

pub busy-running : (r : RunCommand) → r.process ≡ running → is_busy r ≡ true
busy-running r p = ground arith

-- Those that do.
module _ (code : ℤ) (r : RunCommand) where
  pub finished-IsAsync :
      is_busy r ≡ true
      → IsAsync r
      → let s = handle (process_finished code) r in
        IsIdle s × (s.emitted ≡ (code, of_bytes r.output) ∷ r.emitted)
  unfolding handle
  finished-IsAsync busy a = ground (arith, a.finished, a.expired)

  pub expired-IsAsync :
      IsAsync r
      → let s = handle timer_expired r in
        IsIdle s × (s.emitted ≡ (negsuc 0, of_bytes r.output) ∷ r.emitted)
  unfolding handle
  expired-IsAsync a = ground (arith, a.finished, a.expired)

  pub finished-IsBlocked :
      is_busy r ≡ true
      → IsBlocked r
      → let s = handle (process_finished code) r in
        IsIdle s × (s.exit_code ≡ some code) × (s.output ≡ r.output) × (s.emitted ≡ r.emitted)
  unfolding handle
  finished-IsBlocked busy a = ground (arith, a.finished, a.expired)

  pub expired-IsBlocked :
      IsBlocked r
      → let s = handle timer_expired r in
        IsIdle s × (s.exit_code ≡ some (negsuc 0)) × (s.output ≡ r.output) × (s.emitted ≡ r.emitted)
  unfolding handle
  expired-IsBlocked a = ground (arith, a.finished, a.expired)
