-- ===== src/Witnesses.antt =====
-- Test data: one client, its session in each state, and a controller that holds it.
mod Sessions
mod Timeline
mod Bus
mod Runner
mod Log
mod System
mod Values
mod Nested
use wifigateway_server.Base.{
  ℕ, zero, suc, ◌+◌, ◌<◌, ◌≡◌, refl, Bool, true, false, none, some, List, [], ◌∷◌, ◌++◌, ◌==◌,
  arith, ◌↔◌, if◌then◌else◌,
}
use wifigateway_server.Base.Int.{ℤ, pos, negsuc, is_zero}
use wifigateway_server.Qt.Text.{QString, codes}
use wifigateway_server.Qt.Map.{lookup, insert, lookup-insert_self}
use wifigateway_server.Session.{Session, SessionState, started, paused, exhausted, ended}
use wifigateway_server.Controller.State.{Controller, new_controller, update}
use wifigateway_server.Controller.Action.{Host, ◌>>=◌}
use wifigateway_server.Controller.Operations.{
  fresh_session, start_session, pause_session, play_session, end_session, delete_session, success,
}
use wifigateway_server.Controller.Settings.{clear_sessions, set_quota, set_bandwidth}
use wifigateway_server.Controller.Timer.{tick, tick_session}
use wifigateway_server.Controller.Script.{add_host_command}
use wifigateway_server.Controller.Calls
use wifigateway_server.Controller.Calls.{Call, serve}
use wifigateway_server.Controller.Equations.{with_session, without_session}
use wifigateway_server.Controller.Machine.{
  Answer, start, pause, play, end, bounce, second, is_forgotten,
}
use wifigateway_server.Controller.Lifetime.Heap.{Inv, create-Inv, new_controller-Inv}
use wifigateway_server.Controller.Lifetime.Serve.{serve_safe}
use wifigateway_server.Controller.Lifetime.Cleanup.{clear_sessions_lem}
use wifigateway_server.Controller.Reentrancy.{nested, nested-Calm, start_deleted}
use wifigateway_server.Controller.Refinement.Host.{quiet, view, put}
use wifigateway_server.Controller.Refinement.Steady.{steady}
use wifigateway_server.Controller.Refinement.Sessions.{operations_lem}
use wifigateway_server.Controller.Refinement.Delete.{deleted, delete_session_lem}
use wifigateway_server.Controller.Refinement.Bounce.{setters_lem, start_session_new}
use wifigateway_server.Controller.Refinement.Tick.{tick_session_lem}
use wifigateway_server.Controller.Refinement.Round.{Holds, Ticked}
use wifigateway_server.Controller.Refinement.Whole.{tick_lem}
use wifigateway_server.Controller.Timeline.{CanRun, HasRun, all_succeed}
use wifigateway_server.Controller.Timeline.Ticks.{
  ticks, obliging, ticks_run, watchdog_ends, time_limit_exhausts,
}

abbrev dir : QString
dir = codes "/srv"

abbrev client : QString
client = codes "10.0.0.2"

abbrev granting : Answer
granting = steady all_succeed

abbrev no_sessions : Controller
no_sessions = new_controller

-- A session of `client` in state `st`, with 40 seconds left.
abbrev session_in : SessionState → Session
session_in st = record (fresh_session client no_sessions) { state = st; time_remaining = pos 40 }

-- The controller with that session alone.
abbrev holding : Session → Controller
holding s = record no_sessions {
  cell = update no_sessions.cell no_sessions.next (some s);
  next = suc no_sessions.next;
  sessions = insert client no_sessions.next no_sessions.sessions;
}

nobody : lookup client no_sessions.sessions ≡ none
unfolding lookup
nobody = refl

holding-Inv : (st : SessionState) → Inv (holding (session_in st))
holding-Inv st = create-Inv client (session_in st) new_controller-Inv nobody refl

found_client : (s : Session) → lookup client (holding s).sessions ≡ some 0
found_client s = lookup-insert_self client 0 no_sessions.sessions

abbrev calls : List Call
calls =
    Calls.start_call client ∷ Calls.tick_call ∷ Calls.delete_call client ∷ Calls.cleanup_call ∷ []

-- While a script runs, the client asks for a pause, and its session is updated.
abbrev meanwhile : List Call
meanwhile = Calls.pause_call client ∷ Calls.update_call client ∷ []
