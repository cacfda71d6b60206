-- ===== src/Controller/Values/Serve.antt =====
-- A run of the controller, on the predicates of an interface.
use wifigateway_server.Base.{ℕ, refl, List, [], ◌∷◌}
use wifigateway_server.Base.Int.{to_uint32}
use wifigateway_server.Qt.Text.{QString}
use wifigateway_server.Session.{blank_session}
use wifigateway_server.Controller.State.{Controller}
use wifigateway_server.Controller.Action.{Host, pure, modify, ◌>>◌}
use wifigateway_server.Controller.Operations.{success}
use wifigateway_server.Controller.Settings.{
  get_session, set_default_bandwidth, set_default_quota, set_default_time, get_default_session,
  set_default_session, deref_each, get_all_sessions, get_ips, free_each, clear_sessions, cleanup,
}
use wifigateway_server.Controller.Calls.{
  Call, new_call, start_call, pause_call, play_call, update_call, end_call, delete_call,
  bandwidth_call, quota_call, time_call, default_bandwidth_call, default_quota_call,
  default_time_call, default_session_call, quota_used_call, session_call, default_session_query,
  all_sessions_call, ips_call, tick_call, cleanup_call, perform, serve,
}
use wifigateway_server.Controller.Values.{Values}
use wifigateway_server.Controller.Values.Rules.{
  Valid, Sound, Sound-pure, Sound-gets, Sound-bind, same-Valid, Sound-modify, Sound-deref,
  Sound-free, Sound-ignore, by_session, HostSound,
}
use wifigateway_server.Controller.Values.Operations.{
  new_session-Sound, update_session-Sound, update_quota_remaining-Sound, set_time-Sound,
  start_session-Sound, pause_session-Sound, play_session-Sound, end_session-Sound,
  delete_session-Sound, set_bandwidth-Sound, set_quota-Sound,
}
use wifigateway_server.Controller.Values.Timer.{tick-Sound}

module _ (V : Values) where
  -- The arguments of a call are what the interface asks of them.
  abbrev pub Fits : Call → Type 0
  Fits (bandwidth_call ip bw) = V.Bandwidth bw
  Fits (quota_call ip x) = V.Number x
  Fits (time_call ip x) = V.Number x
  Fits (default_bandwidth_call bw) = V.Bandwidth bw
  Fits (default_quota_call x) = V.Number x
  Fits (default_time_call x) = V.Number x
  Fits (default_session_call s) =
      V.Bandwidth s.bandwidth × V.Number s.quota_remaining × V.Number s.time_remaining
  Fits (new_call _) = Unit
  Fits (start_call _) = Unit
  Fits (pause_call _) = Unit
  Fits (play_call _) = Unit
  Fits (update_call _) = Unit
  Fits (end_call _) = Unit
  Fits (delete_call _) = Unit
  Fits (quota_used_call _) = Unit
  Fits (session_call _) = Unit
  Fits default_session_query = Unit
  Fits all_sessions_call = Unit
  Fits ips_call = Unit
  Fits tick_call = Unit
  Fits cleanup_call = Unit

  abbrev pub AllFit : List Call → Type 0
  AllFit [] = Unit
  AllFit (call ∷ calls) = Fits call × AllFit calls

  setting :
      (f : Controller → Controller)
      → ((c : Controller) → Valid V c → Valid V (f c))
      → Sound V (modify f >> pure success)
  setting f keeps = Sound-bind V _ _ (Sound-modify V f keeps) λ _. Sound-pure V success

  set_defaults :
      (c : Controller) (b q t : ℕ)
      → Valid V c
      → V.Default b q t
      → Valid V (record c { default_bandwidth = b; default_quota = q; default_time = t })
  set_defaults c b q t v ok = record { records = v.records; defaults = ok; warnings = v.warnings }

  get_session-Sound : (ip : QString) → Sound V (get_session ip)
  unfolding get_session
  get_session-Sound ip =
      by_session V ip _ _ (Sound-pure V blank_session) λ p. Sound-deref V p _ λ s ok. Sound-pure V _

  deref_each-Sound : (ps : List ℕ) → Sound V (deref_each ps)
  unfolding deref_each
  deref_each-Sound [] = Sound-pure V []
  deref_each-Sound (p ∷ ps) =
      Sound-deref V p _
        λ s ok. Sound-bind V _ _ (deref_each-Sound ps) λ rest. Sound-pure V (s ∷ rest)

  free_each-Sound : (ps : List ℕ) → Sound V (free_each ps)
  unfolding free_each
  free_each-Sound [] = Sound-pure V tt
  free_each-Sound (p ∷ ps) = Sound-bind V _ _ (Sound-free V p) λ _. free_each-Sound ps

  clear_sessions-Sound : Sound V clear_sessions
  unfolding clear_sessions
  clear_sessions-Sound = Sound-bind V _ _ (Sound-gets V _) λ ps.
      Sound-bind V _ _ (free_each-Sound ps)
        λ _. Sound-modify V _ λ c v. same-Valid V c _ refl refl refl refl refl v

  module _ (h : Host) (hs : HostSound V h) where
    perform-Sound : (call : Call) → Fits call → Sound V (perform h call)
    unfolding perform set_default_bandwidth set_default_quota set_default_time set_default_session
        get_default_session get_ips get_all_sessions cleanup
    perform-Sound (new_call ip) f = Sound-ignore V _ (new_session-Sound V ip)
    perform-Sound (start_call ip) f = Sound-ignore V _ (start_session-Sound V h hs ip)
    perform-Sound (pause_call ip) f = Sound-ignore V _ (pause_session-Sound V h hs ip)
    perform-Sound (play_call ip) f = Sound-ignore V _ (play_session-Sound V h hs ip)
    perform-Sound (update_call ip) f = Sound-ignore V _ (update_session-Sound V ip)
    perform-Sound (end_call ip) f = Sound-ignore V _ (end_session-Sound V h hs ip)
    perform-Sound (delete_call ip) f = Sound-ignore V _ (delete_session-Sound V h hs ip)
    perform-Sound (bandwidth_call ip bw) f = Sound-ignore V _ (set_bandwidth-Sound V h hs ip bw f)
    perform-Sound (quota_call ip x) f = Sound-ignore V _ (set_quota-Sound V h hs ip x f)
    perform-Sound (time_call ip x) f = Sound-ignore V _ (set_time-Sound V ip x f)
    perform-Sound (default_bandwidth_call bw) f =
        Sound-ignore V _
          (setting _ λ c v. set_defaults c bw _ _ v (V.default_bandwidth _ _ _ bw f v.defaults))
    perform-Sound (default_quota_call x) f =
        Sound-ignore V _ (
          setting _
            λ c v. set_defaults c _ (to_uint32 x) _ v (V.default_quota _ _ _ x f v.defaults))
    perform-Sound (default_time_call x) f =
        Sound-ignore V _ (
          setting _ λ c v. set_defaults c _ _ (to_uint32 x) v (V.default_time _ _ _ x f v.defaults))
    perform-Sound (default_session_call s) f = Sound-ignore V _ (
        setting _ λ c v.
          set_defaults c s.bandwidth (to_uint32 s.quota_remaining) (to_uint32 s.time_remaining) v (
            V.default_time _ _ _ s.time_remaining f.2 (
              V.default_quota _ _ _ s.quota_remaining f.1
                (V.default_bandwidth _ _ _ s.bandwidth f.0 v.defaults))))
    perform-Sound (quota_used_call ip) f = Sound-ignore V _ (update_quota_remaining-Sound V ip)
    perform-Sound (session_call ip) f = Sound-ignore V _ (get_session-Sound ip)
    perform-Sound default_session_query f = Sound-ignore V _ (Sound-gets V _)
    perform-Sound all_sessions_call f =
        Sound-ignore V _ (Sound-bind V _ _ (Sound-gets V _) λ ps. deref_each-Sound ps)
    perform-Sound ips_call f = Sound-ignore V _ (Sound-gets V _)
    perform-Sound tick_call f = tick-Sound V h hs
    perform-Sound cleanup_call f = Sound-bind V _ _ (hs _ _) λ _. clear_sessions-Sound

    pub serve-Sound : (calls : List Call) → AllFit calls → Sound V (serve h calls)
    unfolding serve
    serve-Sound [] f = Sound-pure V tt
    serve-Sound (call ∷ calls) (f, g) =
        Sound-bind V _ _ (perform-Sound call f) λ _. serve-Sound calls g
