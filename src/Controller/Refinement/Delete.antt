-- ===== src/Controller/Refinement/Delete.antt =====
-- `deleteSession` against the protocol.
use wifigateway_server.Base.{ℕ, ◌≡◌, some, arith, if◌then◌else◌}
use wifigateway_server.Base.Int.{ℤ, is_zero}
use wifigateway_server.Qt.Text.{QString, is_empty}
use wifigateway_server.Qt.Map.{lookup}
use wifigateway_server.Session.{Session}
use wifigateway_server.Controller.State.{Controller}
use wifigateway_server.Controller.Action.{◌>>=◌}
use wifigateway_server.Controller.Operations.{delete_session}
use wifigateway_server.Controller.Equations.{
  without_session, remove_session_at_named, remove_session_at_unnamed,
}
use wifigateway_server.Controller.Machine.{Answer, end}
use wifigateway_server.Controller.Lifetime.Heap.{Inv}
use wifigateway_server.Controller.Lifetime.Removal.{key_of_owned}
use wifigateway_server.Controller.Refinement.Host.{quiet, view, put}
use wifigateway_server.Controller.Refinement.Sessions.{end_session_lem}

-- What `deleteSession` leaves of the session at `p` after ending it.
abbrev pub deleted : QString → ℕ → ℤ → Controller → Controller
deleted ip p r c = if is_zero r then (if is_empty ip then c else without_session ip p c) else c

module _ (dir : QString) (answer : Answer) (p : ℕ) (s : Session) (c : Controller) (v : Inv c)
    (live : c.cell p ≡ some s) (found : lookup s.ip c.sessions ≡ some p) where
  -- With no slot run during the script, and a controller in order, deleting the session at `p` ends
  -- it. Its record goes if and only if ending it succeeds and the IP is not empty; what
  -- `deleteSession` returns is the result of ending it in either case.
  pub delete_session_lem :
      let (r, w) = end dir answer (view s c) in
      delete_session (quiet dir answer) s.ip c ≡ some (r, deleted s.ip p r (put p w c))
  unfolding delete_session ◌>>=◌
  delete_session_lem =
      let w = (end dir answer (view s c)).1 in
      ground (
        arith,
        end_session_lem dir answer p s c live found,
        key_of_owned v s.ip p found,
        remove_session_at_named p (put p w c) {s = w.session},
        remove_session_at_unnamed p (put p w c),
      )
