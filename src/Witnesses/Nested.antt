-- ===== src/Witnesses/Nested.antt =====
-- Slots that run while a script runs, on concrete inputs.
use wifigateway_server.Base.{◌≢◌, refl, List, [], ◌∷◌}
use wifigateway_server.Session.{started, ended}
use wifigateway_server.Controller.Operations.{
  start_session, pause_session, play_session, end_session,
}
use wifigateway_server.Controller.Calls
use wifigateway_server.Controller.Calls.{Call}
use wifigateway_server.Controller.Reentrancy.{nested}
use wifigateway_server.Controller.Timeline.{all_succeed}
use wifigateway_server.Controller.Busy.Nested.{Survives, nested_survives}
use wifigateway_server.Witnesses.{dir, client, session_in, holding, holding-Inv, found_client}

-- The session is deleted, the timer ticks, and the session is started again.
abbrev intruding : List Call
intruding = Calls.delete_call client ∷ Calls.tick_call ∷ Calls.start_call client ∷ []

started_is_not_ended : started ≢ ended
started_is_not_ended e = cc

nested_survives_example :
    let h = nested dir all_succeed intruding in
    let c = holding (session_in started) in
    Survives client 0 (start_session h client c)
    × Survives client 0 (pause_session h client c)
    × Survives client 0 (play_session h client c)
    × Survives client 0 (end_session h client c)
nested_survives_example =
    nested_survives dir all_succeed intruding client 0 (session_in started)
      (holding (session_in started)) (tt, (tt, (tt, tt))) (holding-Inv started)
      (found_client (session_in started), refl) started_is_not_ended
