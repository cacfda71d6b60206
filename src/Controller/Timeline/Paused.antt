-- ===== src/Controller/Timeline/Paused.antt =====
-- A paused session over many ticks.
use wifigateway_server.Base.{
  ℕ, zero, suc, ◌≡◌, refl, false, some, arith, if◌then◌else◌, Bool-cases, inl, inr,
}
use wifigateway_server.Qt.Text.{QString}
use wifigateway_server.Session.{
  Session, started, paused, pause_time, update_time, activity_time, is_exhausted,
}
use wifigateway_server.Controller.State.{Controller}
use wifigateway_server.Controller.Machine.{second, second_paused, play, start}
use wifigateway_server.Controller.Lifetime.Heap.{Inv}
use wifigateway_server.Controller.Refinement.Steady.{next_second}
use wifigateway_server.Controller.Refinement.Round.{Holds}
use wifigateway_server.Controller.Timeline.{all_succeed, seconds, Stays}
use wifigateway_server.Controller.Timeline.Ticks.{ticks, obliging, ticks_lem}

-- A session `t` that has waited for the pause of `s` for all but `n` seconds of it.
pub record IsResting (n : ℕ) (s t : Session) : Type 0 where
  pub is_paused : t.state ≡ paused
  pub pause_left : t.pause_time_remaining ≡ n
  pub same_time : t.time_remaining ≡ s.time_remaining
  pub same_quota : t.quota_remaining ≡ s.quota_remaining

-- A session `t` whose pause is over: it is started with its watchdogs wound up, unless it is
-- exhausted.
pub record HasRested (s t : Session) : Type 0 where
  pub state_after : t.state ≡ (if is_exhausted s then paused else started)
  pub wound_up :
      is_exhausted s ≡ false
      → (t.update_time_remaining ≡ update_time) × (t.activity_time_remaining ≡ activity_time)
  pub pause_again : t.pause_time_remaining ≡ pause_time
  pub time_kept : t.time_remaining ≡ s.time_remaining
  pub quota_kept : t.quota_remaining ≡ s.quota_remaining

module _ (dir : QString) where
  second_rests :
      (n : ℕ) (s t : Session)
      → IsResting (suc (suc n)) s t
      → IsResting (suc n) s (next_second dir all_succeed t)
  unfolding second second_paused
  second_rests n s t r = ground arith

  second_resumes : (s t : Session) → IsResting 1 s t → HasRested s (next_second dir all_succeed t)
  unfolding second second_paused play start
  second_resumes s t r = elim (Bool-cases (is_exhausted s)) [
    | inl over ↦ ground arith
    | inr more ↦ ground arith
  ]

  IsResting-Stays : (n : ℕ) (s t : Session) → IsResting (suc n) s t → Stays dir (suc n) t
  IsResting-Stays zero s t r = (ground (arith, r.is_paused), tt)
  IsResting-Stays (suc n) s t r = (
    ground (arith, r.is_paused),
    IsResting-Stays n s (next_second dir all_succeed t) (second_rests n s t r),
  )

  seconds_resumes :
      (n : ℕ) (s t : Session) → IsResting (suc n) s t → HasRested s (seconds dir (suc n) t)
  seconds_resumes zero s t r = second_resumes s t r
  seconds_resumes (suc n) s t r =
      seconds_resumes n s (next_second dir all_succeed t) (second_rests n s t r)

-- Let every script succeed, and the controller be in order. A session that is paused is started
-- again by the tick with which its pause timer runs out, if it has time and quota left, with both
-- watchdogs wound up; if it has not, it stays paused. In either case its pause timer is set back,
-- and its time limit and its quota are as they were.
pub ticks-HasRested :
    (dir : QString) (n : ℕ) (ip : QString) (p : ℕ) (s : Session) (c : Controller)
    → Inv c
    → Holds c ip p s
    → s.state ≡ paused
    → s.pause_time_remaining ≡ suc n
    → (d : Controller) × (t : Session) × (ticks (obliging dir) (suc n) c ≡ some (tt, d))
      × Inv d
      × Holds d ip p t
      × HasRested s t
ticks-HasRested dir n ip p s c v held e left =
    let r : IsResting (suc n) s s = record {
      is_paused = e;
      pause_left = left;
      same_time = refl;
      same_quota = refl;
    } in
    let (d, ran, w, h) = ticks_lem dir ip p (suc n) s c v held (IsResting-Stays dir n s s r) in
    (d, seconds dir (suc n) s, ran, w, h, seconds_resumes dir n s s r)
