-- ===== src/Controller/Timer.antt =====
-- `Controller::tick`, which counts down all timers once a second.
use wifigateway_server.Base.{ℕ, ◌-◌, Bool, some, List, [], ◌∷◌, ◌==◌, if◌then◌else◌}
use wifigateway_server.Base.Int.{ℤ, count_down, to_uint32}
use wifigateway_server.Qt.Map.{values}
use wifigateway_server.Session.{
  Session, SessionState, uninitialized, started, paused, exhausted, ended, is_exhausted, inc_uint32,
  pause_time, time_warning_time, update_warning_time, activity_warning_time, pause_warning_time,
}
use wifigateway_server.Controller.State.{
  Warning, time_warning, update_time_warning, activity_time_warning, pause_time_warning,
}
use wifigateway_server.Controller.Action.{
  Action, Host, pure, gets, deref, assign, emit, ◌>>=◌, ◌>>◌,
}
use wifigateway_server.Controller.Operations.{
  play_session, end_session, exhaust_session, remove_session,
}

-- `if(test) { action; }` for an action whose result is dropped.
abbrev pub run_if : Bool → Action ℤ → Action Unit
run_if b m = if b then m >> pure tt else pure tt

abbrev pub emit_if : Bool → Warning → Action Unit
emit_if b w = if b then emit w else pure tt

-- The counters of a session in the STARTED state. `x > 0 ? x - 1 : 0` is truncated subtraction.
abbrev pub count_started : Session → Session
count_started s = record s {
  time_remaining = count_down s.time_remaining;
  update_time_remaining = s.update_time_remaining - 1;
  session_time = inc_uint32 s.session_time;
}

abbrev pub count_exhausted : Session → Session
count_exhausted s = record s {
  update_time_remaining = s.update_time_remaining - 1;
  session_time = inc_uint32 s.session_time;
}

abbrev pub count_paused : Session → Session
count_paused s = record s { pause_time_remaining = s.pause_time_remaining - 1 }

abbrev pub count_ended : Session → Session
count_ended s = record s { end_time_remaining = s.end_time_remaining - 1 }

-- The warnings at the end of the STARTED case.
unfoldable pub warn_started : ℕ → Action Unit
warn_started p = do
  s ← deref p
  emit_if (to_uint32 s.time_remaining == time_warning_time) time_warning
  emit_if (s.update_time_remaining == update_warning_time) update_time_warning
  emit_if (s.activity_time_remaining == activity_warning_time) activity_time_warning

unfoldable pub tick_ended : ℕ → Action Unit
tick_ended p = do
  assign p count_ended
  s ← deref p
  if s.end_time_remaining == 0 then remove_session s.ip else pure tt

module _ (h : Host) where
  -- The two watchdogs, which end the session when they run out.
  unfoldable pub end_if_idle : ℕ → Action Unit
  end_if_idle p = do
    s ← deref p
    run_if (s.update_time_remaining == 0) (end_session h s.ip)
    t ← deref p
    run_if (t.activity_time_remaining == 0) (end_session h t.ip)

  unfoldable pub tick_started : ℕ → Action Unit
  tick_started p = do
    assign p count_started
    s ← deref p
    run_if (is_exhausted s) (exhaust_session h (some p))
    end_if_idle p
    warn_started p

  unfoldable pub tick_exhausted : ℕ → Action Unit
  tick_exhausted p = do assign p count_exhausted; end_if_idle p

  -- The pause is over: the counter is set back, and the session is started again.
  unfoldable pub resume : ℕ → Action Unit
  resume p = do
    assign p (λ s. record s { pause_time_remaining = pause_time })
    s ← deref p
    play_session h s.ip
    pure tt

  unfoldable pub tick_paused : ℕ → Action Unit
  tick_paused p = do
    assign p count_paused
    s ← deref p
    if s.pause_time_remaining == 0 then resume p else pure tt
    t ← deref p
    emit_if (t.pause_time_remaining == pause_warning_time) pause_time_warning

  -- The `switch` of the loop's body.
  unfoldable pub tick_in : SessionState → ℕ → Action Unit
  tick_in started p = tick_started p
  tick_in exhausted p = tick_exhausted p
  tick_in paused p = tick_paused p
  tick_in ended p = tick_ended p
  tick_in uninitialized p = pure tt

  unfoldable pub tick_session : ℕ → Action Unit
  tick_session p = do s ← deref p; tick_in s.state p

  unfoldable pub tick_each : List ℕ → Action Unit
  tick_each [] = pure tt
  tick_each (p ∷ ps) = do tick_session p; tick_each ps

  -- `foreach` goes through a copy of the container, taken before the first round.
  unfoldable pub tick : Action Unit
  tick = do ps ← gets (λ c. values c.sessions); tick_each ps
