-- ===== src/Controller/Timeline/Ticks.antt =====
-- Many ticks of the controller, and what they make of one session.
use wifigateway_server.Base.{ℕ, zero, suc, ◌<◌, ◌≡◌, refl, false, some, arith}
use wifigateway_server.Base.Int.{pos}
use wifigateway_server.Qt.Text.{QString}
use wifigateway_server.Session.{Session, SessionState, started, exhausted, ended}
use wifigateway_server.Controller.State.{Controller}
use wifigateway_server.Controller.Action.{Action, Host, pure, ◌>>◌}
use wifigateway_server.Controller.Timer.{tick, count_started}
use wifigateway_server.Controller.Machine.{
  is_forgotten, second, second_started, exhaust_check, idle_check, end, exhaust,
}
use wifigateway_server.Controller.Lifetime.Heap.{Inv}
use wifigateway_server.Controller.Refinement.Host.{quiet}
use wifigateway_server.Controller.Refinement.Steady.{steady, next_second}
use wifigateway_server.Controller.Refinement.Round.{Holds}
use wifigateway_server.Controller.Refinement.Whole.{tick_lem}
use wifigateway_server.Controller.Action.{run-bind}
use wifigateway_server.Controller.Timeline.{
  all_succeed, Outlasts, CanRun, HasRun, seconds, Stays, second_runs, count_started-CanRun,
  CanRun-one, seconds-HasRun,
}

unfoldable pub ticks : Host → ℕ → Action Unit
ticks h zero = pure tt
ticks h (suc n) = do tick h; ticks h n

abbrev pub obliging : QString → Host
obliging dir = quiet dir (steady all_succeed)

module _ (dir : QString) (ip : QString) (p : ℕ) where
  -- The sessions follow their seconds as long as none is forgotten.
  pub ticks_lem :
      (n : ℕ) (s : Session) (c : Controller)
      → Inv c
      → Holds c ip p s
      → Stays dir n s
      → (d : Controller) × (ticks (obliging dir) n c ≡ some (tt, d))
        × Inv d
        × Holds d ip p (seconds dir n s)
  unfolding ticks pure
  ticks_lem zero s c v g k = (c, refl, v, g)
  ticks_lem (suc n) s c v g k =
      let (b, ran, w, ticked, _) = tick_lem dir all_succeed c v in
      let (d, rest, x, h) = ticks_lem n _ b w ((ticked ip p s g).1 k.0) k.1 in
      (d, run-bind _ _ c b d ran rest, x, h)

CanRun-Stays : (dir : QString) (n : ℕ) (s : Session) → CanRun n s → Stays dir n s
CanRun-Stays dir zero s r = tt
CanRun-Stays dir (suc n) s r = (
  ground (arith, r.is_started),
  rw (second_runs dir s (CanRun-one dir n s r))
      (CanRun-Stays dir n (count_started s) (count_started-CanRun dir n s r)),
)

Stays-append :
    (dir : QString) (n : ℕ) (s : Session)
    → Stays dir n s
    → is_forgotten (seconds dir n s) ≡ false
    → Stays dir (suc n) s
Stays-append dir zero s k f = (f, tt)
Stays-append dir (suc n) s k f = (k.0, Stays-append dir n (next_second dir all_succeed s) k.1 f)

seconds-suc :
    (dir : QString) (n : ℕ) (s : Session)
    → seconds dir (suc n) s ≡ next_second dir all_succeed (seconds dir n s)
seconds-suc dir zero s = refl
seconds-suc dir (suc n) s = seconds-suc dir n (next_second dir all_succeed s)

module _ (dir : QString) (s : Session) where
  -- The last second before the watchdog, and the last before the time limit.
  second_unwatched :
      s.state ≡ started
      → Outlasts 1 s.time_remaining
      → Outlasts 0 s.quota_remaining
      → s.update_time_remaining ≡ 1
      → (next_second dir all_succeed s).state ≡ ended
  unfolding second second_started exhaust_check idle_check end
  second_unwatched st t q u = ground arith

  second_out_of_time :
      s.state ≡ started
      → s.time_remaining ≡ pos 1
      → 1 < s.update_time_remaining
      → 0 < s.activity_time_remaining
      → (next_second dir all_succeed s).state ≡ exhausted
  unfolding second second_started exhaust_check idle_check exhaust
  second_out_of_time st t u a = ground arith

module _ (dir : QString) (n : ℕ) (ip : QString) (p : ℕ) (s : Session) (c : Controller) (v : Inv c)
    (held : Holds c ip p s) (r : CanRun n s) where
  -- Let every script succeed, and the controller be in order. For a started session with some quota
  -- and activity left, `n` ticks that reach neither its time limit nor the end of its watchdog all
  -- complete: it is still started, its time limit and its watchdog have gone down by `n`, and its
  -- quota and activity timer are as they were.
  pub ticks_run :
      (d : Controller) × (t : Session) × (ticks (obliging dir) n c ≡ some (tt, d))
      × Inv d
      × Holds d ip p t
      × HasRun n s t
  ticks_run =
      let (d, ran, w, h) = ticks_lem dir ip p n s c v held (CanRun-Stays dir n s r) in
      (d, seconds dir n s, ran, w, h, seconds-HasRun dir n s r)

  last_second :
      (st : SessionState)
      → (next_second dir all_succeed (seconds dir n s)).state ≡ st
      → (d : Controller) × (t : Session) × (ticks (obliging dir) (suc n) c ≡ some (tt, d))
        × Inv d
        × Holds d ip p t
        × (t.state ≡ st)
  last_second st e =
      let run = seconds-HasRun dir n s r in
      let stays =
        Stays-append dir n s (CanRun-Stays dir n s r) (ground (arith, run.still_started)) in
      let (d, ran, w, h) = ticks_lem dir ip p (suc n) s c v held stays in
      (d, seconds dir (suc n) s, ran, w, h, rw (seconds-suc dir n s) e)

  -- Let every script succeed, and the controller be in order. A started session with quota,
  -- activity and more time left than its watchdog has is ended by the tick with which the watchdog
  -- runs out.
  pub watchdog_ends :
      Outlasts (suc n) s.time_remaining
      → s.update_time_remaining ≡ suc n
      → (d : Controller) × (t : Session) × (ticks (obliging dir) (suc n) c ≡ some (tt, d))
        × Inv d
        × Holds d ip p t
        × (t.state ≡ ended)
  watchdog_ends limit u =
      let run = seconds-HasRun dir n s r in
      last_second ended (
        second_unwatched dir (seconds dir n s) run.still_started (ground (arith, run.time_left))
          (ground (arith, run.quota_left, r.in_quota)) (ground (arith, run.update_left)))

  -- Let every script succeed, and the controller be in order. A started session with quota and
  -- activity left, whose watchdog has more left than its time limit, is exhausted by the tick with
  -- which its time runs out.
  pub time_limit_exhausts :
      s.time_remaining ≡ pos (suc n)
      → suc n < s.update_time_remaining
      → (d : Controller) × (t : Session) × (ticks (obliging dir) (suc n) c ≡ some (tt, d))
        × Inv d
        × Holds d ip p t
        × (t.state ≡ exhausted)
  time_limit_exhausts limit u =
      let run = seconds-HasRun dir n s r in
      last_second exhausted (
        second_out_of_time dir (seconds dir n s) run.still_started (ground (arith, run.time_left))
          (ground (arith, run.update_left)) (ground (arith, run.activity_left, r.active)))
