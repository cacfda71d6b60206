-- ===== src/Controller/Machine.antt =====
-- The protocol of one session, without heap and map: what each operation does to the record that
-- it is called on, to the commands issued and to the signals emitted, and what it returns.
use wifigateway_server.Base.{◌+◌, ◌%◌, ◌^◌, ◌-◌, Bool, ◌&&◌, List, ◌∷◌, ◌==◌, if◌then◌else◌}
use wifigateway_server.Base.Int.{ℤ, is_zero, count_down, to_uint32}
use wifigateway_server.Qt.Text.{QString}
use wifigateway_server.Session.{
  Session, SessionState, uninitialized, started, paused, exhausted, ended, is_state, is_exhausted,
  mark_started, set_state, pause_time, time_warning_time, update_warning_time,
  activity_warning_time, pause_warning_time,
}
use wifigateway_server.Controller.State.{
  Warning, time_warning, update_time_warning, activity_time_warning, pause_time_warning,
}
use wifigateway_server.Controller.Script.{add_host_command, remove_host_command}
use wifigateway_server.Controller.Operations.{success, failure}

-- What one operation can see and change.
pub record View : Type 0 where
  pub session : Session
  pub issued : List QString
  pub emitted : List Warning

abbrev pub with_record : Session → View → View
with_record s v = record v { session = s }

abbrev pub issue : QString → View → View
issue command v = record v { issued = command ∷ v.issued }

abbrev pub warn_if : Bool → Warning → View → View
warn_if b w v = if b then record v { emitted = w ∷ v.emitted } else v

-- The warnings of a running session, by its counters.
abbrev pub warn : View → View
warn v =
    let s = v.session in
    warn_if (s.activity_time_remaining == activity_warning_time) activity_time_warning (
      warn_if (s.update_time_remaining == update_warning_time) update_time_warning
        (warn_if (to_uint32 s.time_remaining == time_warning_time) time_warning v))

-- The exit status that the shell gives a command, which may depend on all commands before it.
abbrev pub Answer : Type 0
Answer = QString → List QString → ℤ

-- One second of a record, by its state: what is left of its limits and timers, where a negative
-- limit is none, and its age, which wraps around.
abbrev pub older_started : Session → Session
older_started s = record s {
  time_remaining = count_down s.time_remaining;
  update_time_remaining = s.update_time_remaining - 1;
  session_time = (s.session_time + 1) % 2 ^ 32;
}

abbrev pub older_exhausted : Session → Session
older_exhausted s = record s {
  update_time_remaining = s.update_time_remaining - 1;
  session_time = (s.session_time + 1) % 2 ^ 32;
}

abbrev pub older_paused : Session → Session
older_paused s = record s { pause_time_remaining = s.pause_time_remaining - 1 }

abbrev pub older_ended : Session → Session
older_ended s = record s { end_time_remaining = s.end_time_remaining - 1 }

module _ (dir : QString) (answer : Answer) where
  -- Runs `command`, and writes `s` if it succeeds.
  unfoldable pub ask : QString → Session → View → ℤ × View
  ask command s v =
      let r = answer command v.issued in
      (r, if is_zero r then with_record s (issue command v) else issue command v)

  unfoldable pub close : SessionState → View → ℤ × View
  unfolding ask
  close st v = ask (remove_host_command dir v.session.ip) (set_state st v.session) v

  unfoldable pub start : View → ℤ × View
  unfolding ask
  start v =
      let s = v.session in
      if is_state s started
      then (success, v)
      else if is_exhausted s
      then (failure, v)
      else ask (add_host_command dir s.ip s.bandwidth s.quota_remaining) (mark_started s) v

  unfoldable pub pause : View → ℤ × View
  unfolding close
  pause v =
      if is_state v.session paused
      then (success, v)
      else if is_state v.session started
      then close paused v
      else (failure, v)

  unfoldable pub play : View → ℤ × View
  unfolding start
  play v =
      if is_state v.session started
      then (success, v)
      else if is_state v.session paused
      then start v
      else (failure, v)

  unfoldable pub end : View → ℤ × View
  unfolding close
  end v = if is_state v.session ended then (success, v) else close ended v

  unfoldable pub exhaust : View → ℤ × View
  unfolding close
  exhaust v = if is_state v.session exhausted then (success, v) else close exhausted v

  -- `setBandwidth` and `setQuota`: a write, then a pause and a play whose results are dropped.
  unfoldable pub bounce : (Session → Session) → View → ℤ × View
  unfolding pause play
  bounce f v = (success, (play (pause (with_record (f v.session) v)).1).1)

  -- One second of a session that is started, exhausted or paused.
  abbrev pub end_when : Bool → View → View
  end_when b v = if b then (end v).1 else v

  unfoldable pub idle_check : View → View
  unfolding end
  idle_check v =
      let w = end_when (v.session.update_time_remaining == 0) v in
      end_when (w.session.activity_time_remaining == 0) w

  unfoldable pub exhaust_check : View → View
  exhaust_check v = if is_exhausted v.session then (exhaust v).1 else v

  unfoldable pub second_started : View → View
  second_started v = warn (idle_check (exhaust_check (with_record (older_started v.session) v)))

  unfoldable pub second_exhausted : View → View
  second_exhausted v = idle_check (with_record (older_exhausted v.session) v)

  unfoldable pub second_paused : View → View
  second_paused v =
      let w = with_record (older_paused v.session) v in
      let reset = with_record (record w.session { pause_time_remaining = pause_time }) w in
      let x = if w.session.pause_time_remaining == 0 then (play reset).1 else w in
      warn_if (x.session.pause_time_remaining == pause_warning_time) pause_time_warning x

  -- The second of a session that stays.
  unfoldable pub second : SessionState → View → View
  second started v = second_started v
  second exhausted v = second_exhausted v
  second paused v = second_paused v
  second ended v = with_record (older_ended v.session) v
  second uninitialized v = v

-- The second in which the record of an ended session goes.
abbrev pub is_forgotten : Session → Bool
is_forgotten s = is_state s ended && s.end_time_remaining - 1 == 0
