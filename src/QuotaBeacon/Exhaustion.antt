-- ===== src/QuotaBeacon/Exhaustion.antt =====
-- From the lines of the log to the tick that finds the quota used up.
use wifigateway_server.Base.{ℕ, zero, suc, ◌-◌, ◌≤◌, ◌<◌, ◌≡◌, ap, ◌∙◌, false, some, List, arith}
use wifigateway_server.Base.Int.{pos}
use wifigateway_server.Qt.Text.{QString}
use wifigateway_server.Session.{Session, started, exhausted}
use wifigateway_server.Controller.State.{Controller}
use wifigateway_server.Controller.Timer.{tick}
use wifigateway_server.Controller.Machine.{
  is_forgotten, second, second_started, exhaust_check, idle_check, exhaust,
}
use wifigateway_server.Controller.Lifetime.Heap.{Inv}
use wifigateway_server.Controller.Refinement.Steady.{next_second}
use wifigateway_server.Controller.Refinement.Round.{Holds}
use wifigateway_server.Controller.Refinement.Whole.{tick_lem}
use wifigateway_server.Controller.Timeline.{all_succeed, Outlasts, CanRun, second_runs}
use wifigateway_server.Controller.Timeline.Ticks.{obliging}
use wifigateway_server.QuotaBeacon.{feed}
use wifigateway_server.QuotaBeacon.Usage.{spend, spent, uses, feed-Charges}

spend_pos : (n q : ℕ) → spend n (pos q) ≡ pos (q - n)
spend_pos zero q = ap pos (omega arith)
spend_pos (suc n) q = ground (arith, spend_pos n (q - 1))

second_out_of_quota :
    (dir : QString) (s : Session)
    → s.state ≡ started
    → s.quota_remaining ≡ pos 0
    → 1 < s.update_time_remaining
    → 0 < s.activity_time_remaining
    → (next_second dir all_succeed s).state ≡ exhausted
unfolding second second_started exhaust_check idle_check exhaust
second_out_of_quota dir s st q u a = ground arith

-- What a started session with a quota needs to run for a second, but for the quota.
pub record Running (q : ℕ) (s : Session) : Type 0 where
  pub is_started : s.state ≡ started
  pub has_quota : s.quota_remaining ≡ pos q
  pub in_time : Outlasts 1 s.time_remaining
  pub watched : 1 < s.update_time_remaining
  pub active : 0 < s.activity_time_remaining

module _ (dir : QString) (q n : ℕ) (s : Session) (r : Running q s) where
  quota_after : (spent n s).quota_remaining ≡ pos (q - n)
  quota_after = ap (spend n) r.has_quota ∙ spend_pos n q

  spent_exhausts : q ≤ n → (next_second dir all_succeed (spent n s)).state ≡ exhausted
  spent_exhausts enough =
      second_out_of_quota dir (spent n s) r.is_started
        (quota_after ∙ ap pos (omega (arith, enough))) r.watched r.active

  spent_runs : n < q → (next_second dir all_succeed (spent n s)).state ≡ started
  spent_runs left =
      let can : CanRun 1 (spent n s) = record {
        is_started = r.is_started;
        in_time = r.in_time;
        in_quota = ground (arith, quota_after, left);
        watched = r.watched;
        active = r.active;
      } in
      ap (λ (t : Session). t.state) (second_runs dir (spent n s) can) ∙ ground (arith, r.is_started)

-- Let every script succeed, and the controller be in order. Let a session be started, with a quota,
-- with more than a second left of its time and of its watchdog, and with activity. After some lines
-- of the log, the next tick exhausts it if the expression matches with its IP in at least as many
-- lines as the quota has megabytes, and leaves it started if it matches in fewer.
pub lines_exhaust :
    (dir : QString) (captured : QString → QString) (lines : List QString) (ip : QString) (p q : ℕ)
    (s : Session) (c : Controller)
    → Inv c
    → Holds c ip p s
    → Running q s
    → (b d : Controller) × (t : Session) × (feed captured lines c ≡ some (tt, b))
      × (tick (obliging dir) b ≡ some (tt, d))
      × Inv d
      × Holds d ip p t
      × (q ≤ uses captured ip lines → t.state ≡ exhausted)
      × (uses captured ip lines < q → t.state ≡ started)
lines_exhaust dir captured lines ip p q s c v held r =
    let n = uses captured ip lines in
    let (b, fed, w, h) = feed-Charges captured ip p lines s c v held in
    let (d, ran, x, ticked, _) = tick_lem dir all_succeed b w in
    let stays : is_forgotten (spent n s) ≡ false = ground (arith, r.is_started) in
    (
      b,
      d,
      next_second dir all_succeed (spent n s),
      fed,
      ran,
      x,
      (ticked ip p (spent n s) h).1 stays,
      spent_exhausts dir q n s r,
      spent_runs dir q n s r,
    )
