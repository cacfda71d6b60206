-- ===== src/Witnesses/Values.antt =====
-- The fields of the records on concrete inputs.
use wifigateway_server.Base.{ℕ, ◌≡◌, some, List, [], ◌∷◌, arith}
use wifigateway_server.Base.Int.{pos, negsuc}
use wifigateway_server.Session.{Session, activity_time}
use wifigateway_server.Controller.State.{Controller, new_controller}
use wifigateway_server.Controller.Calls
use wifigateway_server.Controller.Calls.{Call, serve}
use wifigateway_server.Controller.Reentrancy.{nested, nested-Calm}
use wifigateway_server.Controller.Timeline.{all_succeed}
use wifigateway_server.Controller.Values.Rules.{Valid}
use wifigateway_server.Controller.Values.Nested.{nested-HostSound}
use wifigateway_server.Controller.Values.Bounds.{bounds, serve-Valid}
use wifigateway_server.Controller.Values.Activity.{activity, IsSilent, serve-IsSilent}
use wifigateway_server.Witnesses.{dir, client, meanwhile}

abbrev settings : List Call
settings =
    Calls.start_call client
    ∷ Calls.quota_call client (negsuc 0)
    ∷ Calls.bandwidth_call client 20
    ∷ Calls.default_time_call (pos 600)
    ∷ Calls.tick_call
    ∷ []

serve-Valid_example :
    (d : Controller) × (serve (nested dir all_succeed meanwhile) settings new_controller
      ≡ some (tt, d))
    × Valid bounds d
serve-Valid_example =
    serve-Valid (nested dir all_succeed meanwhile)
      (nested-Calm dir all_succeed meanwhile (λ r. r, (λ r. r, tt)))
      (nested-HostSound bounds dir all_succeed meanwhile (tt, (tt, tt))) settings
      (tt, (omega arith, (omega arith, (omega arith, (tt, tt)))))

serve-IsSilent_example :
    (d : Controller) × (serve (nested dir all_succeed meanwhile) settings new_controller
      ≡ some (tt, d))
    × ((p : ℕ) (s : Session) → d.cell p ≡ some s → s.activity_time_remaining ≡ activity_time)
    × IsSilent d.emitted
serve-IsSilent_example =
    serve-IsSilent (nested dir all_succeed meanwhile)
      (nested-Calm dir all_succeed meanwhile (λ r. r, (λ r. r, tt)))
      (nested-HostSound activity dir all_succeed meanwhile (tt, (tt, tt))) settings
