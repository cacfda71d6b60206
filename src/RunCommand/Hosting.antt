-- ===== src/RunCommand/Hosting.antt =====
-- One runner as the host of a controller: command after command, each on the runner that the one
-- before has left.
use wifigateway_server.Base.{ℕ, ◌≡◌, refl, ◌∙◌, Option, none, some, List, [], ◌∷◌, inl, inr, arith}
use wifigateway_server.Base.Int.{ℤ}
use wifigateway_server.Qt.Text.{QString}
use wifigateway_server.Controller.State.{Controller}
use wifigateway_server.Controller.Action.{Action, Host, pure, ◌>>=◌, run-bind}
use wifigateway_server.Controller.Script.{script_timeout}
use wifigateway_server.Controller.Machine.{Answer}
use wifigateway_server.Controller.Refinement.Host.{quiet}
use wifigateway_server.RunCommand.{RunCommand, Event, begin_exec, end_exec, handle_all}
use wifigateway_server.RunCommand.States.{IsIdle}
use wifigateway_server.RunCommand.Results.{exec_once}
use wifigateway_server.RunCommand.Events.{verdict}

-- `runCommandExec` with the events that come until it returns: the result at once, or that of
-- the event loop. `none` is a loop that is not told to exit.
unfoldable pub exec : QString → ℕ → List Event → RunCommand → Option (ℤ × RunCommand)
exec command timeout es r =
    let (early, s) = begin_exec command timeout r in
    elim early [
      | some code ↦ some (code, s)
      | none ↦ elim (end_exec (handle_all es s)) [
        | none ↦ none
        | some (code, output, s') ↦ some (code, s')
      ]
    ]

-- `behaves command log` has the events of a command that is run after those of `log`.
unfoldable pub exec_each :
    (QString → List QString → List Event)
    → List QString
    → List QString
    → RunCommand
    → Option (List ℤ × RunCommand)
exec_each behaves [] log r = some ([], r)
exec_each behaves (command ∷ commands) log r =
    elim (exec command script_timeout (behaves command log) r) [
      | none ↦ none
      | some (code, s) ↦ elim (exec_each behaves commands (command ∷ log) s) [
        | none ↦ none
        | some (codes, s') ↦ some (code ∷ codes, s')
      ]
    ]

-- The same commands through a host of the controller.
unfoldable pub host_each : Host → List QString → Action (List ℤ)
host_each h [] = pure []
host_each h (command ∷ commands) = do
  code ← h.run_command_exec command script_timeout
  codes ← host_each h commands
  pure (code ∷ codes)

exec_lem :
    (command : QString) (timeout : ℕ) (es : List Event) (code : ℤ) (r : RunCommand)
    → verdict es ≡ some code
    → IsIdle r
    → (s : RunCommand) × (exec command timeout es r ≡ some (code, s))
      × IsIdle s
      × (s.emitted ≡ r.emitted)
unfolding exec
exec_lem command timeout es code r v i =
    let (waits, ends) = exec_once command timeout r es i in
    elim ends [
      | inl (never, _, _) ↦ absurd cc
      | inr (code', s, v', ended, idle, same) ↦ (s, ground arith, idle, same)
    ]

-- Let every command come to an end on its runner, by its process or by its timer, with the result
-- that the host of a controller has for it. Then a runner that is idle runs any list of commands,
-- one after the other, with the results that the controller gets from its host for them; it is idle
-- again at the end, and has emitted no signal.
pub exec_each_lem :
    (dir : QString) (answer : Answer) (behaves : QString → List QString → List Event)
    (commands : List QString) (r : RunCommand) (c : Controller)
    → ((command : QString) (log : List QString)
        → verdict (behaves command log) ≡ some (answer command log))
    → IsIdle r
    → (codes : List ℤ) × (s : RunCommand) × (d : Controller) × (exec_each behaves commands c.issued
          r
        ≡ some (codes, s))
      × (host_each (quiet dir answer) commands c ≡ some (codes, d))
      × IsIdle s
      × (s.emitted ≡ r.emitted)
unfolding exec_each host_each pure
exec_each_lem dir answer behaves [] r c v i = ([], r, c, refl, refl, i, refl)
exec_each_lem dir answer behaves (command ∷ commands) r c v i =
    let code = answer command c.issued in
    let b : Controller = record c { issued = command ∷ c.issued } in
    let (s, ran, idle, same) =
      exec_lem command script_timeout (behaves command c.issued) code r (v command c.issued) i in
    let (codes, s', d, rest, hosted, idle', same') =
      exec_each_lem dir answer behaves commands s b v idle in
    (
      code ∷ codes,
      s',
      d,
      ground (arith, ran, rest),
      run-bind _ _ c b d refl (run-bind _ _ b d d hosted refl),
      idle',
      same' ∙ same,
    )
