-- ===== src/Controller/Timeline/Ended.antt =====
-- An ended session over many ticks.
use wifigateway_server.Base.{ℕ, zero, suc, ◌≡◌, refl, true, none, some, arith}
use wifigateway_server.Qt.Text.{QString}
use wifigateway_server.Qt.Map.{lookup}
use wifigateway_server.Session.{Session, ended}
use wifigateway_server.Controller.State.{Controller}
use wifigateway_server.Controller.Timer.{tick, count_ended}
use wifigateway_server.Controller.Machine.{is_forgotten, second}
use wifigateway_server.Controller.Lifetime.Heap.{Inv}
use wifigateway_server.Controller.Refinement.Steady.{next_second}
use wifigateway_server.Controller.Refinement.Round.{Holds}
use wifigateway_server.Controller.Refinement.Whole.{tick_lem}
use wifigateway_server.Controller.Timeline.{all_succeed, seconds, Stays}
use wifigateway_server.Controller.Timeline.Ticks.{ticks, obliging, ticks_lem}

module _ (dir : QString) where
  second_ended : (s : Session) → s.state ≡ ended → next_second dir all_succeed s ≡ count_ended s
  unfolding second
  second_ended s e = rw e refl

  -- What is left of an ended session `n` seconds before it is forgotten.
  record Waits (n : ℕ) (s : Session) : Type 0 where
    is_ended : s.state ≡ ended
    left : s.end_time_remaining ≡ suc n

  Waits-second : (n : ℕ) (s : Session) → Waits (suc n) s → Waits n (next_second dir all_succeed s)
  Waits-second n s w =
      rw (second_ended s w.is_ended)
        (record { is_ended = w.is_ended; left = omega (arith, w.left) })

  Waits-Stays : (n : ℕ) (s : Session) → Waits n s → Stays dir n s
  Waits-Stays zero s w = tt
  Waits-Stays (suc n) s w =
      (ground (arith, w.left), Waits-Stays n (next_second dir all_succeed s) (Waits-second n s w))

  Waits-seconds : (n : ℕ) (s : Session) → Waits n s → Waits 0 (seconds dir n s)
  Waits-seconds zero s w = w
  Waits-seconds (suc n) s w = Waits-seconds n (next_second dir all_succeed s) (Waits-second n s w)

  last_forgotten : (s : Session) → Waits 0 s → is_forgotten s ≡ true
  last_forgotten s w = ground (arith, w.is_ended, w.left)

-- Let every script succeed, and the controller be in order. A session that has ended still has its
-- record after as many ticks as its end timer has seconds left, less one, and with the next tick
-- its IP has none.
pub ended_forgotten :
    (dir : QString) (n : ℕ) (ip : QString) (p : ℕ) (s : Session) (c : Controller)
    → Inv c
    → Holds c ip p s
    → s.state ≡ ended
    → s.end_time_remaining ≡ suc n
    → (b d : Controller) × (t : Session) × (ticks (obliging dir) n c ≡ some (tt, b))
      × Holds b ip p t
      × (tick (obliging dir) b ≡ some (tt, d))
      × (lookup ip d.sessions ≡ none)
ended_forgotten dir n ip p s c v held e left =
    let w : Waits dir n s = record { is_ended = e; left = left } in
    let (b, ran, u, h) = ticks_lem dir ip p n s c v held (Waits-Stays dir n s w) in
    let (d, last, _, ticked, _) = tick_lem dir all_succeed b u in
    (
      b,
      d,
      seconds dir n s,
      ran,
      h,
      last,
      (ticked ip p (seconds dir n s) h).0 (last_forgotten dir _ (Waits-seconds dir n s w)),
    )
