-- ===== src/Witnesses/Bus.antt =====
-- The bus interface on concrete inputs.
use wifigateway_server.Base.{
  ℕ, ◌<◌, ◌≡◌, refl, Bool, true, false, some, ◌==◌, arith, ◌↔◌, [], ◌∷◌, ◌++◌,
}
use wifigateway_server.Base.Int.{pos, negsuc}
use wifigateway_server.Session.{Session, blank_session, started}
use wifigateway_server.Controller.State.{Controller}
use wifigateway_server.Controller.Action.{◌>>=◌}
use wifigateway_server.Controller.Operations.{success}
use wifigateway_server.Controller.Refinement.Host.{quiet}
use wifigateway_server.Controller.Refinement.Round.{Holds}
use wifigateway_server.Adaptor.{
  SessionExport, export, new_session, get_session, set_time, set_default_session,
}
use wifigateway_server.Adaptor.Marshal.{end_structure, marshal, unmarshal, unmarshal-marshal}
use wifigateway_server.Adaptor.Register.{dbus_retries, retry_loop, register, register_sixth_lost}
use wifigateway_server.Adaptor.Connect.{Connection, connected, connect, Early, connect_lem}
use wifigateway_server.Adaptor.Forward.{set_time_sets_quota, set_default_session-get_session}
use wifigateway_server.Witnesses.{
  dir, client, granting, no_sessions, session_in, holding, nobody, found_client,
}

-- A bus that takes the name at the try of number `n`.
abbrev taken_at : ℕ → ℕ → Bool
taken_at n i = i == n

too_late : (i : ℕ) → i < dbus_retries → taken_at 5 i ≡ false
too_late i lt = ground arith

register_sixth_lost_example :
    (retry_loop 7 (taken_at 5) 0 ≡ some dbus_retries) × (register (taken_at 5) ≡ some false)
register_sixth_lost_example = register_sixth_lost (taken_at 5) too_late refl

connect_example :
    (c : Connection) × (connect true (taken_at 2) (taken_at 5) ≡ some c)
    × ((c ≡ connected) ↔ ((true ≡ true) × Early (taken_at 2) × Early (taken_at 5)))
connect_example = connect_lem true (taken_at 2) (taken_at 5)

abbrev exported : SessionExport
exported = export (session_in started)

unmarshal-marshal_example :
    unmarshal (marshal [] exported ++ end_structure ∷ []) ≡ some (exported, end_structure ∷ [])
unmarshal-marshal_example = unmarshal-marshal exported (end_structure ∷ [])

set_time_example :
    (d : Controller) × (t : Session) × (set_time
        (quiet dir granting)
        client
        (pos 7)
        (holding (session_in started))
      ≡ some (success, d))
    × Holds d client 0 t
    × (t.quota_remaining ≡ pos 7)
    × (t.time_remaining ≡ pos 40)
set_time_example =
    set_time_sets_quota dir granting 0 (session_in started) (holding (session_in started)) (pos 7)
      (found_client (session_in started), refl)

set_default_session_example :
    (d : Controller) × (y : SessionExport) × ((set_default_session blank_session exported >>= λ _.
    new_session client >>= λ _. get_session client)
        no_sessions
      ≡ some (y, d))
    × (y.ip ≡ client)
    × (y.bandwidth ≡ 1000)
    × (y.quota_remaining ≡ negsuc 0)
    × (y.time_remaining ≡ pos 40)
set_default_session_example =
    set_default_session-get_session blank_session exported client no_sessions nobody (omega arith)
      (omega arith)
