-- ===== src/Controller/Calls.antt =====
-- The slots of the controller as calls, which the bus, the timer, the quota beacon and the
-- application make, and a run of the server as a sequence of calls.
use wifigateway_server.Base.{ℕ, List, [], ◌∷◌}
use wifigateway_server.Base.Int.{ℤ}
use wifigateway_server.Qt.Text.{QString}
use wifigateway_server.Session.{Session}
use wifigateway_server.Controller.Action.{Action, Host, pure, ◌>>=◌, ◌>>◌}
use wifigateway_server.Controller.Operations.{
  new_session, start_session, pause_session, play_session, end_session, delete_session,
  update_session, update_quota_remaining,
}
use wifigateway_server.Controller.Timer.{tick}
use wifigateway_server.Controller.Settings.{
  set_time, set_bandwidth, set_quota, get_session, set_default_bandwidth, set_default_quota,
  set_default_time, get_default_session, set_default_session, get_all_sessions, get_ips, cleanup,
}

pub data Call : Type 0 where
  new_call start_call pause_call play_call update_call end_call delete_call : QString → Call
  bandwidth_call : QString → ℕ → Call
  quota_call time_call : QString → ℤ → Call
  default_bandwidth_call : ℕ → Call
  default_quota_call default_time_call : ℤ → Call
  default_session_call : Session → Call
  quota_used_call session_call : QString → Call
  default_session_query all_sessions_call ips_call tick_call cleanup_call : Call

-- A call whose result is dropped.
abbrev pub ignore : {A : Type 0} → Action A → Action Unit
ignore m = m >>= λ _. pure tt

module _ (h : Host) where
  unfoldable pub perform : Call → Action Unit
  perform (new_call ip) = ignore (new_session ip)
  perform (start_call ip) = ignore (start_session h ip)
  perform (pause_call ip) = ignore (pause_session h ip)
  perform (play_call ip) = ignore (play_session h ip)
  perform (update_call ip) = ignore (update_session ip)
  perform (end_call ip) = ignore (end_session h ip)
  perform (delete_call ip) = ignore (delete_session h ip)
  perform (bandwidth_call ip bw) = ignore (set_bandwidth h ip bw)
  perform (quota_call ip quota) = ignore (set_quota h ip quota)
  perform (time_call ip time) = ignore (set_time ip time)
  perform (default_bandwidth_call bw) = ignore (set_default_bandwidth bw)
  perform (default_quota_call quota) = ignore (set_default_quota quota)
  perform (default_time_call time) = ignore (set_default_time time)
  perform (default_session_call s) = ignore (set_default_session s)
  perform (quota_used_call ip) = ignore (update_quota_remaining ip)
  perform (session_call ip) = ignore (get_session ip)
  perform default_session_query = ignore get_default_session
  perform all_sessions_call = ignore get_all_sessions
  perform ips_call = ignore get_ips
  perform tick_call = tick h
  perform cleanup_call = cleanup h

  unfoldable pub serve : List Call → Action Unit
  serve [] = pure tt
  serve (call ∷ calls) = do perform call; serve calls
