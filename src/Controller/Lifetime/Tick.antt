-- ===== src/Controller/Lifetime/Tick.antt =====
-- `tick`, which may remove the sessions that its loop goes through, on the heap.
use mathlib.Core.Path.{subst}
use wifigateway_server.Base.{ℕ, refl, sym, Bool, List, [], ◌∷◌, arith, ◌==◌}
use wifigateway_server.Qt.Text.{QString, compare_str_self, eq-of-compare_str}
use wifigateway_server.Qt.Map.{QMap, lookup, values, Above, Above-ne, IsSorted}
use wifigateway_server.Session.{
  SessionState, uninitialized, started, paused, exhausted, ended, is_exhausted,
}
use wifigateway_server.Controller.State.{Controller, Warning}
use wifigateway_server.Controller.Action.{Action, Host, ◌>>=◌}
use wifigateway_server.Base.Int.{ℤ}
use wifigateway_server.Controller.Operations.{remove_session}
use wifigateway_server.Controller.Timer.{
  run_if, emit_if, warn_started, tick_ended, end_if_idle, tick_started, tick_exhausted, resume,
  tick_paused, tick_in, tick_session, tick_each, tick,
}
use wifigateway_server.Controller.Lifetime.Heap.{Inv}
use wifigateway_server.Controller.Lifetime.Rules.{
  Live, Every, AllBut, Nothing, Keeps, After, Safe, Calm, Safe-pure, Safe-if, Safe-bind, Safe-deref,
  Safe-assign, Safe-emit, Safe-only, After-seq,
}
use wifigateway_server.Controller.Lifetime.Sessions.{
  play_session-Safe, end_session-Safe, exhaust_session-Safe,
}
use wifigateway_server.Controller.Lifetime.Removal.{remove_session-Safe}

module _ (K : QString → Type 0) (L : List (QString × ℕ)) where
  Safe-run_if : (b : Bool) (m : Action ℤ) → Safe Every L m → Safe K L (run_if b m)
  Safe-run_if b m sm =
      Safe-if K L b _ _ (Safe-bind K L m _ sm λ _. Safe-pure K L tt) (Safe-pure K L tt)

Safe-emit_if : (L : List (QString × ℕ)) (b : Bool) (w : Warning) → Safe Every L (emit_if b w)
Safe-emit_if L b w = Safe-if Every L b _ _ (Safe-emit L w) (Safe-pure Every L tt)

module _ (L : List (QString × ℕ)) (ip : QString) (p : ℕ) where
  warn_started-Safe : Safe Every ((ip, p) ∷ L) (warn_started p)
  unfolding warn_started
  warn_started-Safe = Safe-deref Every L ip p _ λ s _.
      Safe-bind Every _ _ _ (Safe-emit_if _ _ _)
        λ _. Safe-bind Every _ _ _ (Safe-emit_if _ _ _) λ _. Safe-emit_if _ _ _

  tick_ended-Safe : Safe (AllBut ip) ((ip, p) ∷ L) (tick_ended p)
  unfolding tick_ended
  tick_ended-Safe = Safe-bind _ _ _ _ (Safe-assign L ip p _ (λ s. refl)) λ _.
      Safe-deref _ L ip p _ λ s owner.
        Safe-if _ _ (s.end_time_remaining == 0) _ _
          (subst (λ (k : QString). Safe (AllBut ip) ((ip, p) ∷ L) (remove_session k)) (sym owner)
            (remove_session-Safe _ ip))
          (Safe-pure _ _ tt)

module _ (h : Host) (calm : Calm h) (L : List (QString × ℕ)) (ip : QString) (p : ℕ) where
  end_if_idle-Safe : Safe Every ((ip, p) ∷ L) (end_if_idle h p)
  unfolding end_if_idle
  end_if_idle-Safe = Safe-deref Every L ip p _ λ s _.
      Safe-bind Every _ _ _
        (Safe-run_if Every _ (s.update_time_remaining == 0) _ (end_session-Safe h calm _ s.ip))
        λ _. Safe-deref Every L ip p _ λ t _.
          Safe-run_if Every _ (t.activity_time_remaining == 0) _ (end_session-Safe h calm _ t.ip)

  tick_started-Safe : Safe Every ((ip, p) ∷ L) (tick_started h p)
  unfolding tick_started
  tick_started-Safe = Safe-bind Every _ _ _ (Safe-assign L ip p _ (λ s. refl)) λ _.
      Safe-deref Every L ip p _ λ s _.
        Safe-bind Every _ _ _
          (Safe-run_if Every _ (is_exhausted s) _ (exhaust_session-Safe h calm L ip p))
          λ _. Safe-bind Every _ _ _ end_if_idle-Safe λ _. warn_started-Safe L ip p

  tick_exhausted-Safe : Safe Every ((ip, p) ∷ L) (tick_exhausted h p)
  unfolding tick_exhausted
  tick_exhausted-Safe =
      Safe-bind Every _ _ _ (Safe-assign L ip p _ (λ s. refl)) λ _. end_if_idle-Safe

  resume-Safe : Safe Every ((ip, p) ∷ L) (resume h p)
  unfolding resume
  resume-Safe = Safe-bind Every _ _ _ (Safe-assign L ip p _ (λ s. refl)) λ _.
      Safe-deref Every L ip p _
        λ s _. Safe-bind Every _ _ _ (play_session-Safe h calm _ s.ip) λ _. Safe-pure Every _ tt

  tick_paused-Safe : Safe Every ((ip, p) ∷ L) (tick_paused h p)
  unfolding tick_paused
  tick_paused-Safe = Safe-bind Every _ _ _ (Safe-assign L ip p _ (λ s. refl)) λ _.
      Safe-deref Every L ip p _ λ s _.
        Safe-bind Every _ _ _
          (Safe-if Every _ (s.pause_time_remaining == 0) _ _ resume-Safe (Safe-pure Every _ tt))
          λ _. Safe-deref Every L ip p _ λ t _. Safe-emit_if _ _ _

  tick_in-Safe : (st : SessionState) → Safe (AllBut ip) ((ip, p) ∷ L) (tick_in h st p)
  unfolding tick_in
  tick_in-Safe started = Safe-only _ _ _ tick_started-Safe
  tick_in-Safe exhausted = Safe-only _ _ _ tick_exhausted-Safe
  tick_in-Safe paused = Safe-only _ _ _ tick_paused-Safe
  tick_in-Safe ended = tick_ended-Safe L ip p
  tick_in-Safe uninitialized = Safe-pure _ _ tt

  tick_session-Safe : Safe (AllBut ip) ((ip, p) ∷ L) (tick_session h p)
  unfolding tick_session
  tick_session-Safe = Safe-deref _ L ip p _ λ s _. tick_in-Safe s.state

Live-AllBut :
    (ip : QString) (m : QMap ℕ) (c d : Controller)
    → Above ip m
    → Keeps (AllBut ip) c d
    → Live m c
    → Live m d
Live-AllBut ip [] c d a k l = tt
Live-AllBut ip ((j, q) ∷ m) c d a k l =
    (k j q (Above-ne ip j a.0) l.0, Live-AllBut ip m c d a.1 k l.1)

module _ (h : Host) (calm : Calm h) where
  tick_each-After :
      (m : QMap ℕ) (c : Controller)
      → IsSorted m
      → Inv c
      → Live m c
      → After Nothing c (tick_each h (values m) c)
  unfolding tick_each
  tick_each-After [] c s v l = (Safe-pure Nothing [] tt).at c v tt
  tick_each-After ((ip, p) ∷ m) c s v l =
      After-seq (AllBut ip) c _ _ ((tick_session-Safe h calm m ip p).at c v l)
        λ _ d w k. tick_each-After m d s.1 w (Live-AllBut ip m c d s.0 k l.1)

-- In a sorted map each entry is found under its key.
Live-cons :
    (k : QString) (v : ℕ) (L m : QMap ℕ) (c : Controller)
    → Above k L
    → Live L (record c { sessions = m })
    → Live L (record c { sessions = (k, v) ∷ m })
unfolding lookup
Live-cons k v [] m c a l = tt
Live-cons k v ((j, q) ∷ L) m c a l =
    (ground (arith, Above-ne k j a.0, eq-of-compare_str j k), Live-cons k v L m c a.1 l.1)

pub Live-self : (m : QMap ℕ) (c : Controller) → IsSorted m → Live m (record c { sessions = m })
unfolding lookup
Live-self [] c s = tt
Live-self ((k, v) ∷ m) c s =
    (ground (arith, compare_str_self k), Live-cons k v m m c s.0 (Live-self m c s.1))

-- A tick touches live records only, whatever it removes on the way.
pub tick-After : (h : Host) (calm : Calm h) (c : Controller) → Inv c → After Nothing c (tick h c)
unfolding tick ◌>>=◌
tick-After h calm c v =
    tick_each-After h calm c.sessions c v.sorted v (Live-self c.sessions c v.sorted)
