-- ===== src/Controller/Values/Nested.antt =====
-- The predicates of an interface on a host that runs slots while a script runs.
use wifigateway_server.Base.{refl, List}
use wifigateway_server.Base.Int.{ℤ}
use wifigateway_server.Qt.Text.{QString}
use wifigateway_server.Controller.Calls.{Call}
use wifigateway_server.Controller.Operations.{failure}
use wifigateway_server.Controller.Reentrancy.{busy, run_nested, nested}
use wifigateway_server.Controller.Values.{Values}
use wifigateway_server.Controller.Values.Rules.{
  Sound-pure, Sound-bind, Sound-modify, same-Valid, HostSound,
}
use wifigateway_server.Controller.Values.Serve.{AllFit, serve-Sound}

-- The slots keep the predicates, and so does a runner that refuses.
pub nested-HostSound :
    (V : Values) (dir : QString) (reply : QString → ℤ) (calls : List Call)
    → AllFit V calls
    → HostSound V (nested dir reply calls)
unfolding run_nested
nested-HostSound V dir reply calls fit command timeout =
    Sound-bind V _ _ (Sound-modify V _ λ c v. same-Valid V c _ refl refl refl refl refl v) λ _.
      Sound-bind V _ _
        (serve-Sound V (busy dir) (λ command timeout. Sound-pure V failure) calls fit)
        λ _. Sound-pure V (reply command)
