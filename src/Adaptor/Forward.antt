-- ===== src/Adaptor/Forward.antt =====
-- What a client of the bus gets from the setters and getters.
use wifigateway_server.Base.{ℕ, ◌≡◌, refl, none, some, arith}
use wifigateway_server.Base.Int.{ℤ, FitsInt32, to_uint32, to_int32-to_uint32}
use wifigateway_server.Qt.Text.{QString}
use wifigateway_server.Qt.Map.{lookup, lookup-insert_self}
use wifigateway_server.Session.{Session}
use wifigateway_server.Controller.State.{Controller}
use wifigateway_server.Controller.Action.{◌>>=◌}
use wifigateway_server.Controller.Operations.{success, fresh_session}
use wifigateway_server.Controller.Settings
use wifigateway_server.Controller.Equations.{with_session, new_session_absent}
use wifigateway_server.Controller.Machine.{View, Answer, bounce}
use wifigateway_server.Controller.Refinement.Host.{quiet, view, put}
use wifigateway_server.Controller.Refinement.Bounce.{set_quota_lem}
use wifigateway_server.Controller.Refinement.Round.{Holds}
use wifigateway_server.Controller.Action.{run-bind}
use wifigateway_server.Adaptor.{
  SessionExport, export, new_session, set_time, set_default_session, get_session,
}

module _ (dir : QString) (answer : Answer) where
  bounce_quota :
      (quota : ℤ) (v : View)
      → let w = (bounce dir answer (λ t. record t { quota_remaining = quota }) v).1 in
        (w.session.quota_remaining ≡ quota) × (w.session.time_remaining ≡ v.session.time_remaining)
  unfolding bounce
  bounce_quota quota v = ground arith

  -- With no slot run during a script, `setTime` of the bus interface on an IP with a session
  -- returns 0, sets the quota of the session to the time that it is given, and leaves its time as
  -- it was.
  pub set_time_sets_quota :
      (p : ℕ) (s : Session) (c : Controller) (time : ℤ)
      → Holds c s.ip p s
      → (d : Controller) × (t : Session) × (set_time (quiet dir answer) s.ip time c
          ≡ some (success, d))
        × Holds d s.ip p t
        × (t.quota_remaining ≡ time)
        × (t.time_remaining ≡ s.time_remaining)
  unfolding set_time bounce
  set_time_sets_quota p s c time held =
      let v = (bounce dir answer (λ t. record t { quota_remaining = time }) (view s c)).1 in
      let (quota, same) = bounce_quota time (view s c) in
      (
        put p v c,
        v.session,
        set_quota_lem dir answer p s c held.1 held.0 time,
        (held.0, ground arith),
        quota,
        same,
      )

module _ (uninitialised : Session) (x : SessionExport) (ip : QString) (c : Controller) where
  defaults_set : Controller
  defaults_set = record c {
    default_bandwidth = x.bandwidth;
    default_quota = to_uint32 x.quota_remaining;
    default_time = to_uint32 x.time_remaining;
  }

  set_default_session_lem : set_default_session uninitialised x c ≡ some (success, defaults_set)
  unfolding set_default_session Settings.set_default_session ◌>>=◌ defaults_set
  set_default_session_lem = refl

get_session_new :
    (ip : QString) (c : Controller)
    → get_session ip (with_session ip c) ≡ some (export (fresh_session ip c), with_session ip c)
unfolding get_session Settings.get_session ◌>>=◌
get_session_new ip c = ground (arith, lookup-insert_self ip c.next c.sessions)

-- The defaults that a client sets are those of the next session of an IP that is not known:
-- bandwidth, quota and time come back as they were given, if the last two are 32-bit integers.
pub set_default_session-get_session :
    (uninitialised : Session) (x : SessionExport) (ip : QString) (c : Controller)
    → lookup ip c.sessions ≡ none
    → FitsInt32 x.quota_remaining
    → FitsInt32 x.time_remaining
    → (d : Controller) × (y : SessionExport) × ((set_default_session uninitialised x >>= λ _.
            new_session ip >>= λ _. get_session ip)
          c
        ≡ some (y, d))
      × (y.ip ≡ ip)
      × (y.bandwidth ≡ x.bandwidth)
      × (y.quota_remaining ≡ x.quota_remaining)
      × (y.time_remaining ≡ x.time_remaining)
unfolding ◌>>=◌ new_session defaults_set
set_default_session-get_session uninitialised x ip c absent fq ft =
    let b = defaults_set uninitialised x ip c in
    (
      with_session ip b,
      export (fresh_session ip b),
      run-bind (set_default_session uninitialised x) (λ _. new_session ip >>= λ _. get_session ip) c
          b (with_session ip b) (set_default_session_lem uninitialised x ip c)
          (run-bind (new_session ip) (λ _. get_session ip) b (with_session ip b) (with_session ip b)
            (new_session_absent ip b absent) (get_session_new ip b)),
      refl,
      refl,
      to_int32-to_uint32 _ fq,
      to_int32-to_uint32 _ ft,
    )
