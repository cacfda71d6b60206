-- ===== src/RunCommand/Results.antt =====
-- The results of `runCommand` and `runCommandExec` over all events that follow.
use mathlib.Core.Path.{subst}
use mathlib.Core.List.{append-nil, append_assoc}
use wifigateway_server.Base.{
  ℕ, ◌≡◌, ◌⊎◌, inl, inr, refl, sym, ap, ◌∙◌, none, some, List, [], ◌∷◌, ◌++◌,
}
use wifigateway_server.Base.Int.{ℤ, pos, negsuc}
use wifigateway_server.Qt.Text.{QString, of_bytes}
use wifigateway_server.RunCommand.{
  RunCommand, run_command, begin_exec, end_exec, Event, process_started, process_wrote,
  process_complained, process_finished, timer_expired, handle_all, ProcessState, not_running,
  starting, running, start_failed,
}
use wifigateway_server.RunCommand.Events.{
  after_start, after_failure, heard, verdict_from, written_from,
}
use wifigateway_server.RunCommand.States.{
  failed-IsAsync, failed-IsBlocked, finished_idle, complained, busy-starting, busy-running, IsIdle,
  IsAsync, IsBlocked, run_command_starts, begin_exec_waits, handle_all-IsIdle, started-IsAsync,
  wrote-IsAsync, finished-IsAsync, expired-IsAsync, started-IsBlocked, wrote-IsBlocked,
  finished-IsBlocked, expired-IsBlocked,
}

more :
    {p q : ProcessState} {out before : QString} (text : QString)
    → out ≡ before
    → q ≡ p
    → out ++ heard q text ≡ before ++ heard p text
more text e f = cc

-- How an asynchronous command stands after some events: `old` had been emitted before it.
abbrev pub AsyncFrom :
    ProcessState → List Event → QString → List (ℤ × QString) → RunCommand → Type 0
AsyncFrom p es before old r =
    ((verdict_from p es ≡ none) × IsAsync r × (r.emitted ≡ old))
    ⊎ ((code : ℤ) × (verdict_from p es ≡ some code)
        × IsIdle r
        × (r.emitted ≡ (code, of_bytes (before ++ written_from p es)) ∷ old))

abbrev pub AsyncResult : List Event → QString → List (ℤ × QString) → RunCommand → Type 0
AsyncResult es before old r = AsyncFrom starting es before old r

async_end :
    (es : List Event) (s : RunCommand) (code : ℤ) (before out : QString)
    (old emitted : List (ℤ × QString))
    → IsIdle s × (s.emitted ≡ (code, of_bytes out) ∷ emitted)
    → out ≡ before
    → emitted ≡ old
    → IsIdle (handle_all es s) × ((handle_all es s).emitted ≡ (code, of_bytes (before ++ [])) ∷ old)
async_end es s code before out old emitted (i, e) o same =
    (rw (handle_all-IsIdle es s i) i, rw (handle_all-IsIdle es s i, append-nil, ← o, ← same) e)

async_steps :
    (p : ProcessState) (es : List Event) (r : RunCommand) (before : QString)
    (old : List (ℤ × QString))
    → IsAsync r
    → r.process ≡ p
    → r.output ≡ before
    → r.emitted ≡ old
    → AsyncFrom p es before old (handle_all es r)
unfolding handle_all
async_steps p [] r before old a at out same = inl (refl, a, same)
async_steps p (process_started ∷ es) r before old a at out same =
    let (b, same', out', at') = started-IsAsync [] r a in
    async_steps (after_start p) es _ before old b (at' ∙ ap after_start at) (out' ∙ out)
      (same' ∙ same)
async_steps p (start_failed ∷ es) r before old a at out same =
    let (b, same', out', at') = failed-IsAsync [] r a in
    async_steps (after_failure p) es _ before old b (at' ∙ ap after_failure at) (out' ∙ out)
      (same' ∙ same)
async_steps p (process_wrote text ∷ es) r before old a at out same =
    let (b, same', out', at') = wrote-IsAsync text r a in
    rw (← append_assoc before (heard p text) (written_from p es)) (
      async_steps p es _ (before ++ heard p text) old b (at' ∙ at) (out' ∙ more text out at)
        (same' ∙ same))
async_steps p (process_complained text ∷ es) r before old a at out same =
    subst (λ (s : RunCommand). AsyncFrom p es before old (handle_all es s))
      (sym (complained text r)) (async_steps p es r before old a at out same)
async_steps not_running (process_finished code ∷ es) r before old a at out same =
    subst (λ (s : RunCommand). AsyncFrom not_running es before old (handle_all es s))
      (sym (finished_idle code r at)) (async_steps not_running es r before old a at out same)
async_steps starting (process_finished code ∷ es) r before old a at out same =
    let (i, e) =
      async_end es _ code before r.output old r.emitted
        (finished-IsAsync code r (busy-starting r at) a) out same in
    inr (code, refl, i, e)
async_steps running (process_finished code ∷ es) r before old a at out same =
    let (i, e) =
      async_end es _ code before r.output old r.emitted
        (finished-IsAsync code r (busy-running r at) a) out same in
    inr (code, refl, i, e)
async_steps p (timer_expired ∷ es) r before old a at out same =
    let (i, e) =
      async_end es _ (negsuc 0) before r.output old r.emitted (expired-IsAsync (pos 0) r a) out
        same in
    inr (negsuc 0, refl, i, e)

-- On an idle runner `runCommand` returns 0 at once, and then emits `finished` exactly once: with
-- the exit status if the process ends before the timer expires, with -1 if the timer is first, as
-- it is for a process that does not start, and with what the process wrote to its standard output
-- until then, up to the first NUL. Before that nothing is emitted; after it nothing more, whatever
-- still happens, and the runner is idle.
pub async_once :
    (command : QString) (timeout : ℕ) (r : RunCommand) (es : List Event)
    → IsIdle r
    → let (code, s) = run_command command timeout r in
      (code ≡ pos 0) × AsyncResult es [] r.emitted (handle_all es s)
async_once command timeout r es i =
    let (code, a, same, out, at, _) = run_command_starts command timeout r i in
    (code, async_steps starting es _ [] r.emitted a at out same)

-- How a blocking command stands after some events.
abbrev pub ExecFrom : ProcessState → List Event → QString → List (ℤ × QString) → RunCommand → Type 0
ExecFrom p es before old r =
    ((verdict_from p es ≡ none) × IsBlocked r × (end_exec r ≡ none))
    ⊎ ((code : ℤ) × (s : RunCommand) × (verdict_from p es ≡ some code)
        × (end_exec r ≡ some (code, of_bytes (before ++ written_from p es), s))
        × IsIdle s
        × (s.emitted ≡ old))

abbrev pub ExecResult : List Event → QString → List (ℤ × QString) → RunCommand → Type 0
ExecResult es before old r = ExecFrom starting es before old r

blocked-end_exec : (r : RunCommand) → IsBlocked r → end_exec r ≡ none
unfolding end_exec
blocked-end_exec r b = rw b.waiting refl

ended-end_exec :
    (r : RunCommand) (code : ℤ) (out : QString) (old : List (ℤ × QString))
    → IsIdle r × (r.exit_code ≡ some code) × (r.output ≡ out) × (r.emitted ≡ old)
    → (s : RunCommand) × (end_exec r ≡ some (code, of_bytes out, s)) × IsIdle s × (s.emitted ≡ old)
unfolding end_exec
ended-end_exec r code out old (i, e, o, same) = (
  record r { exit_code = none; output = [] },
  rw (e, o) refl,
  record {
    stopped = i.stopped;
    untimed = i.untimed;
    unfinished = i.unfinished;
    unexpired = i.unexpired;
  },
  same,
)

exec_end :
    (es : List Event) (s : RunCommand) (code : ℤ) (before out : QString)
    (old emitted : List (ℤ × QString))
    → IsIdle s × (s.exit_code ≡ some code) × (s.output ≡ out) × (s.emitted ≡ emitted)
    → out ≡ before
    → emitted ≡ old
    → (t : RunCommand) × (end_exec (handle_all es s) ≡ some (code, of_bytes (before ++ []), t))
      × IsIdle t
      × (t.emitted ≡ old)
exec_end es s code before out old emitted (i, e, o, same) out' same' =
    let (t, ended, idle, kept) = ended-end_exec s code before old (i, e, o ∙ out', same ∙ same') in
    (t, rw (handle_all-IsIdle es s i, append-nil) ended, idle, kept)

exec_steps :
    (p : ProcessState) (es : List Event) (r : RunCommand) (before : QString)
    (old : List (ℤ × QString))
    → IsBlocked r
    → r.process ≡ p
    → r.output ≡ before
    → r.emitted ≡ old
    → ExecFrom p es before old (handle_all es r)
unfolding handle_all
exec_steps p [] r before old b at out same = inl (refl, b, blocked-end_exec r b)
exec_steps p (process_started ∷ es) r before old b at out same =
    let (b', same', out', at') = started-IsBlocked [] r b in
    exec_steps (after_start p) es _ before old b' (at' ∙ ap after_start at) (out' ∙ out)
      (same' ∙ same)
exec_steps p (start_failed ∷ es) r before old b at out same =
    let (b', same', out', at') = failed-IsBlocked [] r b in
    exec_steps (after_failure p) es _ before old b' (at' ∙ ap after_failure at) (out' ∙ out)
      (same' ∙ same)
exec_steps p (process_wrote text ∷ es) r before old b at out same =
    let (b', same', out', at') = wrote-IsBlocked text r b in
    rw (← append_assoc before (heard p text) (written_from p es)) (
      exec_steps p es _ (before ++ heard p text) old b' (at' ∙ at) (out' ∙ more text out at)
        (same' ∙ same))
exec_steps p (process_complained text ∷ es) r before old b at out same =
    subst (λ (s : RunCommand). ExecFrom p es before old (handle_all es s)) (sym (complained text r))
      (exec_steps p es r before old b at out same)
exec_steps not_running (process_finished code ∷ es) r before old b at out same =
    subst (λ (s : RunCommand). ExecFrom not_running es before old (handle_all es s))
      (sym (finished_idle code r at)) (exec_steps not_running es r before old b at out same)
exec_steps starting (process_finished code ∷ es) r before old b at out same =
    let (t, ended, idle, kept) =
      exec_end es _ code before r.output old r.emitted
        (finished-IsBlocked code r (busy-starting r at) b) out same in
    inr (code, t, refl, ended, idle, kept)
exec_steps running (process_finished code ∷ es) r before old b at out same =
    let (t, ended, idle, kept) =
      exec_end es _ code before r.output old r.emitted
        (finished-IsBlocked code r (busy-running r at) b) out same in
    inr (code, t, refl, ended, idle, kept)
exec_steps p (timer_expired ∷ es) r before old b at out same =
    let (t, ended, idle, kept) =
      exec_end es _ (negsuc 0) before r.output old r.emitted (expired-IsBlocked (pos 0) r b) out
        same in
    inr (negsuc 0, t, refl, ended, idle, kept)

-- On an idle runner `runCommandExec` waits until the process ends or the timer expires, whichever
-- is first, and then returns: the exit status in the first case and -1 in the second, which is that
-- of a process that does not start, with what the process wrote to its standard output until then,
-- up to the first NUL. The runner is idle again, whatever happened after that, and the signal
-- `finished` has not been emitted.
pub exec_once :
    (command : QString) (timeout : ℕ) (r : RunCommand) (es : List Event)
    → IsIdle r
    → let (code, s) = begin_exec command timeout r in
      (code ≡ none) × ExecResult es [] r.emitted (handle_all es s)
exec_once command timeout r es i =
    let (code, b, same, out, at, _) = begin_exec_waits command timeout r i in
    (code, exec_steps starting es _ [] r.emitted b at out same)
