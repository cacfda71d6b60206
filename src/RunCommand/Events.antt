-- ===== src/RunCommand/Events.antt =====
-- What a list of events says of the process of a command: its state, its result and its output.
use wifigateway_server.Base.{Option, none, some, List, [], ◌∷◌, ◌++◌}
use wifigateway_server.Base.Int.{ℤ, negsuc}
use wifigateway_server.Qt.Text.{QString}
use wifigateway_server.RunCommand.{
  ProcessState, not_running, starting, running, Event, process_started, start_failed, process_wrote,
  process_complained, process_finished, timer_expired,
}

-- A process after it has started, and after its start has failed.
abbrev pub after_start : ProcessState → ProcessState
after_start starting = running
after_start not_running = not_running
after_start running = running

abbrev pub after_failure : ProcessState → ProcessState
after_failure starting = not_running
after_failure not_running = not_running
after_failure running = running

-- What comes of what a process writes.
abbrev pub heard : ProcessState → QString → QString
heard not_running text = []
heard starting text = text
heard running text = text

-- The first for a process that runs or is about to, the second for one that does not.
abbrev pub if_live : {A : Type 0} → ProcessState → A → A → A
if_live not_running x y = y
if_live starting x y = x
if_live running x y = x

-- What the events decide for a process in a state: the exit status, or -1 if the timer is first,
-- or if the process has not started.
abbrev pub verdict_from : ProcessState → List Event → Option ℤ
verdict_from p [] = none
verdict_from p (process_started ∷ es) = verdict_from (after_start p) es
verdict_from p (start_failed ∷ es) = verdict_from (after_failure p) es
verdict_from p (process_wrote _ ∷ es) = verdict_from p es
verdict_from p (process_complained _ ∷ es) = verdict_from p es
verdict_from p (process_finished code ∷ es) = if_live p (some code) (verdict_from p es)
verdict_from p (timer_expired ∷ es) = some (negsuc 0)

abbrev pub verdict : List Event → Option ℤ
verdict es = verdict_from starting es

-- What the command wrote to its standard output until then.
abbrev pub written_from : ProcessState → List Event → QString
written_from p [] = []
written_from p (process_started ∷ es) = written_from (after_start p) es
written_from p (start_failed ∷ es) = written_from (after_failure p) es
written_from p (process_wrote text ∷ es) = heard p text ++ written_from p es
written_from p (process_complained _ ∷ es) = written_from p es
written_from p (process_finished _ ∷ es) = if_live p [] (written_from p es)
written_from p (timer_expired ∷ es) = []

abbrev pub written : List Event → QString
written es = written_from starting es
