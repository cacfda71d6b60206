-- ===== src/Controller/Settings.antt =====
-- The setters, getters and the cleanup of controller.cpp.
use wifigateway_server.Base.{ℕ, none, some, List, [], ◌∷◌}
use wifigateway_server.Base.Int.{ℤ, to_uint32}
use wifigateway_server.Qt.Text.{QString}
use wifigateway_server.Qt.Map.{keys, values}
use wifigateway_server.Session.{Session, blank_session}
use wifigateway_server.Controller.Action.{
  Action, Host, pure, gets, modify, deref, assign, free, ◌>>=◌, ◌>>◌,
}
use wifigateway_server.Controller.Script.{clean_up_command, script_timeout}
use wifigateway_server.Controller.Operations.{
  success, failure, find_session, fresh_session, pause_session, play_session,
}

unfoldable pub set_time : QString → ℤ → Action ℤ
set_time ip time = do
  found ← gets (find_session ip)
  elim found [
    | none ↦ pure failure
    | some p ↦ do assign p (λ s. record s { time_remaining = time }); pure success
  ]

unfoldable pub get_session : QString → Action Session
get_session ip = do
  found ← gets (find_session ip)
  elim found [ none ↦ pure blank_session | some p ↦ do s ← deref p; pure (record s { ip = ip }) ]

-- The setters of the defaults, which always return 0. The members are quint32.
unfoldable pub set_default_bandwidth : ℕ → Action ℤ
set_default_bandwidth bw = do modify (λ c. record c { default_bandwidth = bw }); pure success

unfoldable pub set_default_quota : ℤ → Action ℤ
set_default_quota quota = do
  modify (λ c. record c { default_quota = to_uint32 quota })
  pure success

unfoldable pub set_default_time : ℤ → Action ℤ
set_default_time time = do modify (λ c. record c { default_time = to_uint32 time }); pure success

unfoldable pub get_default_session : Action Session
get_default_session = gets (fresh_session [])

unfoldable pub set_default_session : Session → Action ℤ
set_default_session s = do
  modify (λ c. record c {
    default_bandwidth = s.bandwidth;
    default_quota = to_uint32 s.quota_remaining;
    default_time = to_uint32 s.time_remaining;
  })
  pure success

unfoldable pub deref_each : List ℕ → Action (List Session)
deref_each [] = pure []
deref_each (p ∷ ps) = do s ← deref p; rest ← deref_each ps; pure (s ∷ rest)

unfoldable pub get_all_sessions : Action (List Session)
get_all_sessions = do ps ← gets (λ c. values c.sessions); deref_each ps

unfoldable pub get_ips : Action (List QString)
get_ips = gets (λ c. keys c.sessions)

unfoldable pub free_each : List ℕ → Action Unit
free_each [] = pure tt
free_each (p ∷ ps) = do free p; free_each ps

unfoldable pub clear_sessions : Action Unit
clear_sessions = do
  ps ← gets (λ c. values c.sessions)
  free_each ps
  modify (λ c. record c { sessions = [] })

module _ (h : Host) where
  unfoldable pub set_bandwidth : QString → ℕ → Action ℤ
  set_bandwidth ip bw = do
    found ← gets (find_session ip)
    elim found [
      | none ↦ pure failure
      | some p ↦ do
        assign p (λ s. record s { bandwidth = bw })
        pause_session h ip
        play_session h ip
        pure success
    ]

  unfoldable pub set_quota : QString → ℤ → Action ℤ
  set_quota ip quota = do
    found ← gets (find_session ip)
    elim found [
      | none ↦ pure failure
      | some p ↦ do
        assign p (λ s. record s { quota_remaining = quota })
        pause_session h ip
        play_session h ip
        pure success
    ]

  -- The result of the script is not looked at.
  unfoldable pub cleanup : Action Unit
  cleanup = do h.run_command_exec (clean_up_command h.script_dir) script_timeout; clear_sessions
