-- ===== src/Session.antt =====
-- The session record of controller.h, its states and constants, and the functions of
-- controller.cpp that read or build one record: isExhausted, initSession.
use wifigateway_server.Base.{ℕ, ◌+◌, ◌%◌, ◌^◌, Bool, ◌||◌, [], ◌==◌}
use wifigateway_server.Base.Int.{ℤ, pos, negsuc, is_zero, to_int32}
use wifigateway_server.Qt.Text.{QString}

pub data SessionState : Type 0 where
  uninitialized started paused exhausted ended : SessionState

-- The value of the enumerator.
abbrev pub ordinal : SessionState → ℕ
ordinal uninitialized = 0
ordinal started = 1
ordinal paused = 2
ordinal exhausted = 3
ordinal ended = 4

abbrev pub default_bandwidth_value : ℕ
default_bandwidth_value = 1000

abbrev pub default_quota_value : ℤ
default_quota_value = negsuc 0

abbrev pub default_time_value : ℤ
default_time_value = negsuc 0

abbrev pub activity_time : ℕ
activity_time = 60

abbrev pub update_time : ℕ
update_time = 60

abbrev pub pause_time : ℕ
pause_time = 60

abbrev pub end_time : ℕ
end_time = 3600

abbrev pub time_warning_time : ℕ
time_warning_time = 30

abbrev pub update_warning_time : ℕ
update_warning_time = 15

abbrev pub activity_warning_time : ℕ
activity_warning_time = 15

abbrev pub pause_warning_time : ℕ
pause_warning_time = 15

-- The fields of type quint32 are numbers, those of type qint32 are integers.
pub record Session : Type 0 where
  pub ip : QString
  pub mac : QString
  pub state : SessionState
  pub bandwidth : ℕ
  pub time_remaining : ℤ
  pub quota_remaining : ℤ
  pub activity_time_remaining : ℕ
  pub update_time_remaining : ℕ
  pub pause_time_remaining : ℕ
  pub end_time_remaining : ℕ
  pub session_time : ℕ

-- `session->state == state`.
abbrev pub is_state : Session → SessionState → Bool
is_state s st = ordinal s.state == ordinal st

abbrev pub is_exhausted : Session → Bool
is_exhausted s = is_zero s.time_remaining || is_zero s.quota_remaining

-- The zero record that getSession starts from.
abbrev pub blank_session : Session
blank_session = record {
  ip = [];
  mac = [];
  state = uninitialized;
  bandwidth = 0;
  time_remaining = pos 0;
  quota_remaining = pos 0;
  activity_time_remaining = 0;
  update_time_remaining = 0;
  pause_time_remaining = 0;
  end_time_remaining = 0;
  session_time = 0;
}

-- `initSession`, with the three defaults of the controller; they are quint32 there, so that the
-- quota and the time are converted.
abbrev pub init_session : ℕ → ℕ → ℕ → QString → Session
init_session bandwidth quota time ip = record {
  ip = ip;
  mac = [];
  state = uninitialized;
  bandwidth = bandwidth;
  time_remaining = to_int32 time;
  quota_remaining = to_int32 quota;
  activity_time_remaining = activity_time;
  update_time_remaining = update_time;
  pause_time_remaining = pause_time;
  end_time_remaining = end_time;
  session_time = 0;
}

-- What startSession writes on success.
abbrev pub mark_started : Session → Session
mark_started s = record s {
  state = started;
  activity_time_remaining = activity_time;
  update_time_remaining = update_time;
}

abbrev pub set_state : SessionState → Session → Session
set_state st s = record s { state = st }

-- `sessionTime++` on a quint32.
abbrev pub inc_uint32 : ℕ → ℕ
inc_uint32 n = (n + 1) % 2 ^ 32
