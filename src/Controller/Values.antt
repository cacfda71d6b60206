-- ===== src/Controller/Values.antt =====
-- What is true of every record, of the defaults and of the signals, whatever the controller does:
-- an interface of predicates with their laws.
pub mod Rules
pub mod Operations
pub mod Timer
pub mod Serve
pub mod Nested
pub mod Bounds
pub mod Activity
use wifigateway_server.Base.{
  ℕ, ◌≡◌, refl, sym, Bool, true, false, Option, none, some, List, [], ◌∷◌, ◌==◌, if◌then◌else◌,
  arith, Bool-cases, inl, inr,
}
use wifigateway_server.Base.Int.{ℤ, to_uint32, count_down}
use wifigateway_server.Qt.Text.{QString}
use wifigateway_server.Session.{
  Session, SessionState, init_session, mark_started, set_state, update_time, pause_time,
  activity_warning_time,
}
use wifigateway_server.Controller.State.{
  Controller, Warning, time_warning, update_time_warning, activity_time_warning, pause_time_warning,
  update,
}
use wifigateway_server.Controller.Action.{
  Action, Host, pure, gets, modify, alloc, deref, assign, free, emit, ◌>>=◌, ◌>>◌,
}
use wifigateway_server.Controller.Timer.{count_started, count_exhausted, count_paused, count_ended}

-- Of a record, of the three defaults, of a signal, and of the arguments of a call; then one law for
-- each write of the controller.
pub record Values : Type 1 where
  pub Ok : Session → Type 0
  pub Default : ℕ → ℕ → ℕ → Type 0
  pub Emits : Warning → Type 0
  pub Bandwidth : ℕ → Type 0
  pub Number : ℤ → Type 0
  pub fresh : (b q t : ℕ) (ip : QString) → Default b q t → Ok (init_session b q t ip)
  pub starts : (s : Session) → Ok s → Ok (mark_started s)
  pub moves : (st : SessionState) (s : Session) → Ok s → Ok (set_state st s)
  pub updates : (s : Session) → Ok s → Ok (record s { update_time_remaining = update_time })
  pub charges :
      (s : Session) → Ok s → Ok (record s { quota_remaining = count_down s.quota_remaining })
  pub runs : (s : Session) → Ok s → Ok (count_started s)
  pub rests : (s : Session) → Ok s → Ok (count_exhausted s)
  pub waits : (s : Session) → Ok s → Ok (count_paused s)
  pub ages : (s : Session) → Ok s → Ok (count_ended s)
  pub resets : (s : Session) → Ok s → Ok (record s { pause_time_remaining = pause_time })
  pub bandwidth : (bw : ℕ) (s : Session) → Bandwidth bw → Ok s → Ok (record s { bandwidth = bw })
  pub quota : (x : ℤ) (s : Session) → Number x → Ok s → Ok (record s { quota_remaining = x })
  pub time : (x : ℤ) (s : Session) → Number x → Ok s → Ok (record s { time_remaining = x })
  pub default_bandwidth : (b q t bw : ℕ) → Bandwidth bw → Default b q t → Default bw q t
  pub default_quota : (b q t : ℕ) (x : ℤ) → Number x → Default b q t → Default b (to_uint32 x) t
  pub default_time : (b q t : ℕ) (x : ℤ) → Number x → Default b q t → Default b q (to_uint32 x)
  pub warns : Emits time_warning × Emits update_time_warning × Emits pause_time_warning
  pub warns_idle :
      (s : Session)
      → Ok s
      → (s.activity_time_remaining == activity_warning_time) ≡ true
      → Emits activity_time_warning
