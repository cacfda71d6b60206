-- ===== src/Controller/Timeline.antt =====
-- The life of one session over many ticks, on a host whose scripts succeed.
pub mod Ticks
pub mod Ended
pub mod Paused
use wifigateway_server.Base.{
  ℕ, zero, suc, ◌+◌, ◌-◌, ◌≤◌, ◌<◌, ◌≡◌, refl, sym, ap, ◌∙◌, ◌≢◌, Bool, true, false, Option, none,
  some, arith, ◌==◌,
}
use wifigateway_server.Base.Int.{ℤ, pos, negsuc, is_zero, count_down}
use wifigateway_server.Qt.Text.{QString}
use wifigateway_server.Qt.Map.{lookup}
use wifigateway_server.Session.{
  Session, SessionState, uninitialized, started, paused, exhausted, ended, is_exhausted,
}
use wifigateway_server.Controller.State.{Controller}
use wifigateway_server.Controller.Action.{Action, pure, ◌>>=◌, ◌>>◌}
use wifigateway_server.Controller.Timer.{
  tick, count_started, count_exhausted, count_paused, count_ended,
}
use wifigateway_server.Controller.Machine.{
  is_forgotten, second, second_started, second_exhausted, second_paused, exhaust_check, idle_check,
  end, exhaust,
}
use wifigateway_server.Controller.Lifetime.Heap.{Inv}
use wifigateway_server.Controller.Refinement.Host.{quiet}
use wifigateway_server.Controller.Refinement.Steady.{steady, next_second}
use wifigateway_server.Controller.Refinement.Round.{Holds, Ticked}
use wifigateway_server.Controller.Refinement.Whole.{tick_lem}
use wifigateway_server.Controller.Action.{run-bind}

-- Every script returns 0.
abbrev pub all_succeed : QString → ℤ
all_succeed _ = pos 0

-- `n` seconds off a limit, where a negative one is no limit.
abbrev pub minus : ℕ → ℤ → ℤ
minus n (pos m) = pos (m - n)
minus n (negsuc m) = negsuc m

-- The limit is not reached within `n` seconds.
abbrev pub Outlasts : ℕ → ℤ → Type 0
Outlasts n (pos m) = n < m
Outlasts n (negsuc m) = Unit {0}

-- What a started session needs to stay started for `n` seconds.
pub record CanRun (n : ℕ) (s : Session) : Type 0 where
  pub is_started : s.state ≡ started
  pub in_time : Outlasts n s.time_remaining
  pub in_quota : Outlasts 0 s.quota_remaining
  pub watched : n < s.update_time_remaining
  pub active : 0 < s.activity_time_remaining

-- What `n` seconds make of a started session that stays started.
pub record HasRun (n : ℕ) (s t : Session) : Type 0 where
  pub still_started : t.state ≡ started
  pub time_left : t.time_remaining ≡ minus n s.time_remaining
  pub quota_left : t.quota_remaining ≡ s.quota_remaining
  pub update_left : t.update_time_remaining ≡ s.update_time_remaining - n
  pub activity_left : t.activity_time_remaining ≡ s.activity_time_remaining
  pub same_ip : t.ip ≡ s.ip

abbrev pub seconds : QString → ℕ → Session → Session
seconds dir zero s = s
seconds dir (suc n) s = seconds dir n (next_second dir all_succeed s)

-- No second of the first `n` is the one in which the record goes.
abbrev pub Stays : QString → ℕ → Session → Type 0
Stays dir zero s = Unit {0}
Stays dir (suc n) s = (is_forgotten s ≡ false) × Stays dir n (next_second dir all_succeed s)

module _ (dir : QString) where
  pub second_runs : (s : Session) → CanRun 1 s → next_second dir all_succeed s ≡ count_started s
  unfolding second second_started exhaust_check idle_check
  second_runs s r = ground arith

  pub count_started-CanRun : (n : ℕ) (s : Session) → CanRun (suc n) s → CanRun n (count_started s)
  count_started-CanRun n s r = ground arith

  pub CanRun-one : (n : ℕ) (s : Session) → CanRun (suc n) s → CanRun 1 s
  CanRun-one n s r = ground arith

  minus-count_down : (n : ℕ) (x : ℤ) → minus n (count_down x) ≡ minus (suc n) x
  minus-count_down n x = ground arith

  pub seconds-HasRun : (n : ℕ) (s : Session) → CanRun n s → HasRun n s (seconds dir n s)
  seconds-HasRun zero s r = ground arith
  seconds-HasRun (suc n) s r = rw (second_runs s (CanRun-one n s r)) (
      ground (
        arith,
        minus-count_down n s.time_remaining,
        seconds-HasRun n (count_started s) (count_started-CanRun n s r),
      ))
