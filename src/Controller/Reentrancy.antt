-- ===== src/Controller/Reentrancy.antt =====
-- `runCommandExec` waits in an event loop, which goes on to run the slots of the controller. A host
-- that runs some of them before the script ends; the runner is busy meanwhile, so that a script
-- that such a slot wants to run is refused with -1.
use wifigateway_server.Base.{ℕ, ◌≡◌, refl, false, none, some, List, [], ◌∷◌, arith}
use wifigateway_server.Base.Int.{ℤ, pos}
use wifigateway_server.Qt.Text.{QString, is_empty}
use wifigateway_server.Qt.Map.{lookup}
use wifigateway_server.Session.{Session, ended, is_exhausted}
use wifigateway_server.Controller.State.{Controller}
use wifigateway_server.Controller.Action.{Action, Host, pure, modify, ◌>>=◌, ◌>>◌}
use wifigateway_server.Controller.Script.{add_host_command}
use wifigateway_server.Controller.Operations.{
  start_session, start_at, delete_session, end_session, failure,
}
use wifigateway_server.Controller.Calls.{Call, delete_call, perform, serve}
use wifigateway_server.Controller.Equations.{new_session_present, remove_session_at_named}
use wifigateway_server.Controller.Lifetime.Heap.{Inv}
use wifigateway_server.Controller.Lifetime.Rules.{Every, Safe, Calm, Safe-pure, Safe-bind}
use wifigateway_server.Controller.Lifetime.Removal.{key_of_owned}
use wifigateway_server.Controller.Lifetime.Serve.{Removes, perform-Safe, Safe-modify}
use wifigateway_server.Controller.Lifetime.Heap.{same_heap}

-- The host as the nested slots see it.
abbrev pub busy : QString → Host
busy dir = record { script_dir = dir; run_command_exec = λ command timeout. pure failure }

-- The command is issued, the slots run, the script returns.
unfoldable pub run_nested : QString → (QString → ℤ) → List Call → QString → Action ℤ
run_nested dir reply calls command = do
  modify (λ c. record c { issued = command ∷ c.issued })
  serve (busy dir) calls
  pure (reply command)

abbrev pub nested : QString → (QString → ℤ) → List Call → Host
nested dir reply calls = record {
  script_dir = dir;
  run_command_exec = λ command timeout. run_nested dir reply calls command;
}

-- None of the calls removes a session.
abbrev pub Harmless : List Call → Type 0
Harmless [] = Unit {0}
Harmless (call ∷ calls) = (¬ Removes call) × Harmless calls

pub busy-Calm : (dir : QString) → Calm (busy dir)
busy-Calm dir command timeout = Safe-pure Every [] failure

serve-Safe :
    (dir : QString) (calls : List Call) → Harmless calls → Safe Every [] (serve (busy dir) calls)
unfolding serve
serve-Safe dir [] k = Safe-pure Every [] tt
serve-Safe dir (call ∷ calls) k =
    Safe-bind Every [] _ _ (perform-Safe (busy dir) (busy-Calm dir) call k.0)
      λ _. serve-Safe dir calls k.1

pub nested-Calm :
    (dir : QString) (reply : QString → ℤ) (calls : List Call)
    → Harmless calls
    → Calm (nested dir reply calls)
unfolding run_nested
nested-Calm dir reply calls k command timeout =
    Safe-bind Every [] _ _ (Safe-modify [] _ (λ c. same_heap c _ refl refl refl) (λ c. refl))
      λ _. Safe-bind Every [] _ _ (serve-Safe dir calls k) λ _. Safe-pure Every [] (reply command)

-- Let a session of a controller in order have ended, not be exhausted, and have an IP that is not
-- empty. If it is started, and deleted by a call that the event loop takes while the script runs,
-- and the script succeeds, then `startSession` writes to a record that has been deleted.
pub start_deleted :
    (dir : QString) (reply : QString → ℤ) (p : ℕ) (s : Session) (c : Controller)
    → Inv c
    → lookup s.ip c.sessions ≡ some p
    → c.cell p ≡ some s
    → s.state ≡ ended
    → is_exhausted s ≡ false
    → is_empty s.ip ≡ false
    → reply (add_host_command dir s.ip s.bandwidth s.quota_remaining) ≡ pos 0
    → start_session (nested dir reply (delete_call s.ip ∷ [])) s.ip c ≡ none
unfolding start_session ◌>>=◌ run_nested serve perform delete_session end_session start_at
start_deleted dir reply p s c v found live e x named ok =
    let command = add_host_command dir s.ip s.bandwidth s.quota_remaining in
    let waiting : Controller = record c { issued = command ∷ c.issued } in
    ground (
      arith,
      new_session_present s.ip c found,
      key_of_owned v s.ip p found,
      remove_session_at_named p waiting {s = s},
    )
