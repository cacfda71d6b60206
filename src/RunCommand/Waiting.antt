-- ===== src/RunCommand/Waiting.antt =====
-- `runCommandExec` next to `runCommandWait`.
use wifigateway_server.Base.{
  ℕ, ◌≡◌, refl, ◌⊎◌, inl, inr, Option, none, some, List, [], ◌∷◌, ◌++◌, arith,
}
use wifigateway_server.Base.Int.{ℤ, negsuc}
use wifigateway_server.Qt.Text.{QString, of_bytes}
use wifigateway_server.RunCommand.{
  RunCommand, begin_exec, end_exec, run_command_wait, Event, process_started, process_wrote,
  process_complained, process_finished, timer_expired, handle_all, ProcessState, not_running,
  starting, running, start_failed,
}
use wifigateway_server.RunCommand.States.{IsIdle}
use wifigateway_server.RunCommand.Results.{exec_once}
use wifigateway_server.RunCommand.Events.{
  after_start, after_failure, heard, verdict, verdict_from, written, written_from, if_live,
}

-- What the events are for a process that somebody waits for: the end of the process within the
-- time, or none.
abbrev pub outcome_from : ProcessState → List Event → Option (ℤ × QString)
outcome_from p [] = none
outcome_from p (process_started ∷ es) = outcome_from (after_start p) es
outcome_from p (start_failed ∷ es) = outcome_from (after_failure p) es
outcome_from p (process_wrote text ∷ es) = elim (outcome_from p es) [
  | none ↦ none
  | some (code, output) ↦ some (code, heard p text ++ output)
]
outcome_from p (process_complained text ∷ es) = outcome_from p es
outcome_from p (process_finished code ∷ es) = if_live p (some (code, [])) (outcome_from p es)
outcome_from p (timer_expired ∷ es) = none

abbrev pub outcome_of : List Event → Option (ℤ × QString)
outcome_of es = outcome_from starting es

outcome-verdict :
    (p : ProcessState) (es : List Event) (code : ℤ)
    → verdict_from p es ≡ some code
    → (outcome_from p es ≡ some (code, written_from p es))
      ⊎ ((outcome_from p es ≡ none) × (code ≡ negsuc 0))
outcome-verdict p [] code e = absurd cc
outcome-verdict p (process_started ∷ es) code e = outcome-verdict (after_start p) es code e
outcome-verdict p (start_failed ∷ es) code e = outcome-verdict (after_failure p) es code e
outcome-verdict p (process_wrote text ∷ es) code e = elim (outcome-verdict p es code e) [
  | inl done ↦ inl (rw done refl)
  | inr (late, c) ↦ inr (rw late refl, c)
]
outcome-verdict p (process_complained text ∷ es) code e = outcome-verdict p es code e
outcome-verdict not_running (process_finished status ∷ es) code e =
    outcome-verdict not_running es code e
outcome-verdict starting (process_finished status ∷ es) code e = inl (ground arith)
outcome-verdict running (process_finished status ∷ es) code e = inl (ground arith)
outcome-verdict p (timer_expired ∷ es) code e = inr (refl, ground arith)

-- When a process ends or its time is over, `runCommandExec` on an idle runner returns what
-- `runCommandWait` returns for the same process. The buffer is the same as well if the process
-- ended in time; if not, the result of both is -1, and only `runCommandWait` leaves the buffer as
-- it was.
pub exec_as_wait :
    (command : QString) (timeout : ℕ) (r : RunCommand) (es : List Event) (buf : QString) (code : ℤ)
    → IsIdle r
    → verdict es ≡ some code
    → (output : QString) × (s : RunCommand) × (end_exec
          (handle_all es (begin_exec command timeout r).1)
        ≡ some (code, output, s))
      × ((run_command_wait (λ _ _. outcome_of es) command timeout buf ≡ (code, output))
          ⊎ ((code ≡ negsuc 0)
              × (run_command_wait (λ _ _. outcome_of es) command timeout buf ≡ (code, buf))))
unfolding run_command_wait
exec_as_wait command timeout r es buf code i e = elim ((exec_once command timeout r es i).1) [
  | inl (waits, _, _) ↦ absurd cc
  | inr (status, s, told, ended, _, _) ↦
      let same : status ≡ code = cc in
      (
        of_bytes (written es),
        s,
        rw (← same) ended,
        elim (outcome-verdict starting es code e) [
          | inl done ↦ inl (rw done refl)
          | inr (late, failed) ↦ inr (failed, rw (late, failed) refl)
        ],
      )
]
