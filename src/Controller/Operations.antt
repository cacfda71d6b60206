-- ===== src/Controller/Operations.antt =====
-- The operations of controller.cpp on one session: create, start, pause, play, end, delete,
-- exhaust, and the two that feed its watchdog and its quota. `h` is the host of the commands.
use wifigateway_server.Base.{ℕ, Option, none, some, if◌then◌else◌}
use wifigateway_server.Base.Int.{ℤ, pos, negsuc, is_zero, count_down}
use wifigateway_server.Qt.Text.{QString, is_empty}
use wifigateway_server.Qt.Map.{lookup, contains, insert, remove, key_of}
use wifigateway_server.Session.{
  Session, SessionState, started, paused, exhausted, ended, is_state, is_exhausted, init_session,
  mark_started, set_state, update_time,
}
use wifigateway_server.Controller.State.{Controller}
use wifigateway_server.Controller.Action.{
  Action, Host, pure, gets, modify, alloc, deref, assign, free, ◌>>=◌, ◌>>◌,
}
use wifigateway_server.Controller.Script.{add_host_command, remove_host_command, script_timeout}

abbrev pub success : ℤ
success = pos 0

abbrev pub failure : ℤ
failure = negsuc 0

-- `initSession(session, IP)` with the controller's defaults.
abbrev pub fresh_session : QString → Controller → Session
fresh_session ip c = init_session c.default_bandwidth c.default_quota c.default_time ip

abbrev pub register : QString → ℕ → Controller → Controller
register ip p c = record c { sessions = insert ip p c.sessions }

abbrev pub unregister : QString → Controller → Controller
unregister ip c = record c { sessions = remove ip c.sessions }

-- `sessions.value(IP)`: a pointer, or null.
abbrev pub find_session : QString → Controller → Option ℕ
find_session ip c = lookup ip c.sessions

unfoldable pub create_session : QString → Action ℤ
create_session ip = do
  fresh ← gets (fresh_session ip)
  p ← alloc fresh
  modify (register ip p)
  pure success

unfoldable pub new_session : QString → Action ℤ
new_session ip = do
  known ← gets (λ c. contains ip c.sessions)
  if known then pure success else create_session ip

unfoldable pub update_session : QString → Action ℤ
update_session ip = do
  found ← gets (find_session ip)
  elim found [
    | none ↦ pure failure
    | some p ↦ do assign p (λ s. record s { update_time_remaining = update_time }); pure success
  ]

unfoldable pub update_quota_remaining : QString → Action ℤ
update_quota_remaining ip = do
  found ← gets (find_session ip)
  elim found [
    | none ↦ pure failure
    | some p ↦ do
      assign p (λ s. record s { quota_remaining = count_down s.quota_remaining })
      pure success
  ]

-- `removeSession(QString)`.
unfoldable pub remove_session : QString → Action Unit
remove_session ip = do
  found ← gets (find_session ip)
  elim found [ none ↦ pure tt | some p ↦ do modify (unregister ip); free p ]

-- `removeSession(Session *)`: by the key that the pointer stands under.
unfoldable pub remove_session_at : ℕ → Action Unit
remove_session_at p = do
  key ← gets (λ c. key_of p c.sessions)
  if is_empty key then pure tt else do modify (unregister key); free p

module _ (h : Host) where
  -- `gw_remove_host.sh`, and the new state if it succeeds; `ip` is the address given to the script.
  unfoldable pub close_session : SessionState → QString → ℕ → Action ℤ
  close_session st ip p = do
    r ← h.run_command_exec (remove_host_command h.script_dir ip) script_timeout
    if is_zero r then assign p (set_state st) >> pure r else pure r

  unfoldable pub start_at : QString → ℕ → Action ℤ
  start_at ip p = do
    s ← deref p
    if is_state s started then pure success else if is_exhausted s then pure failure else do
      r ←
          h.run_command_exec (add_host_command h.script_dir ip s.bandwidth s.quota_remaining)
            script_timeout
      if is_zero r then assign p mark_started >> pure r else pure r

  unfoldable pub start_session : QString → Action ℤ
  start_session ip = do
    new_session ip
    found ← gets (find_session ip)
    elim found [ none ↦ pure failure | some p ↦ start_at ip p ]

  unfoldable pub pause_session : QString → Action ℤ
  pause_session ip = do
    found ← gets (find_session ip)
    elim found [
      | none ↦ pure failure
      | some p ↦ do
        s ← deref p
        if is_state s paused
            then pure success
            else if is_state s started
            then close_session paused ip p
            else pure failure
    ]

  unfoldable pub play_session : QString → Action ℤ
  play_session ip = do
    found ← gets (find_session ip)
    elim found [
      | none ↦ pure failure
      | some p ↦ do
        s ← deref p
        if is_state s started
            then pure success
            else if is_state s paused
            then start_session ip
            else pure failure
    ]

  unfoldable pub end_session : QString → Action ℤ
  end_session ip = do
    found ← gets (find_session ip)
    elim found [
      | none ↦ pure failure
      | some p ↦ do s ← deref p; if is_state s ended then pure success else close_session ended ip p
    ]

  unfoldable pub delete_session : QString → Action ℤ
  delete_session ip = do
    found ← gets (find_session ip)
    elim found [
      | none ↦ pure failure
      | some p ↦ do r ← end_session ip; if is_zero r then remove_session_at p >> pure r else pure r
    ]

  unfoldable pub exhaust_session : Option ℕ → Action ℤ
  exhaust_session none = pure failure
  exhaust_session (some p) = do
    s ← deref p
    if is_state s exhausted then pure success else close_session exhausted s.ip p
