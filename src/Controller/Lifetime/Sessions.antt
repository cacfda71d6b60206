-- ===== src/Controller/Lifetime/Sessions.antt =====
-- The operations on one session, except for its removal, on the heap.
use wifigateway_server.Base.{ℕ, ◌≡◌, refl, sym, ◌∙◌, Option, none, some, List, ◌∷◌}
use wifigateway_server.Base.Int.{ℤ}
use wifigateway_server.Qt.Text.{QString}
use wifigateway_server.Qt.Map.{lookup, lookup-insert_ne, ne-of-lookup}
use wifigateway_server.Session.{
  SessionState, started, paused, exhausted, ended, set_state, mark_started, is_state, is_exhausted,
}
use mathlib.Core.Path.{subst}
use wifigateway_server.Controller.Equations.{new_session_absent, new_session_present}
use wifigateway_server.Controller.State.{Controller}
use wifigateway_server.Controller.Action.{Host}
use wifigateway_server.Controller.Operations.{
  success, failure, new_session, start_at, start_session, close_session, pause_session,
  play_session, end_session, exhaust_session, update_session, update_quota_remaining,
}
use wifigateway_server.Controller.Settings.{set_time, set_bandwidth, set_quota, get_session}
use wifigateway_server.Controller.Lifetime.Heap.{Inv, create-Inv}
use wifigateway_server.Controller.Lifetime.Rules.{
  Every, After, Safe, Calm, Calm-Safe, Safe-pure, Safe-if, Safe-bind, Safe-find, Safe-deref,
  Safe-assign, Safe-then_pure, Safe-if_then_pure,
}

-- The operations that run no script.
module _ (L : List (QString × ℕ)) (ip : QString) where
  pub update_session-Safe : Safe Every L (update_session ip)
  unfolding update_session
  update_session-Safe =
      Safe-find Every L ip _ (Safe-pure Every L _)
        λ p. Safe-then_pure Every _ _ _ (Safe-assign L ip p _ (λ s. refl))

  pub update_quota_remaining-Safe : Safe Every L (update_quota_remaining ip)
  unfolding update_quota_remaining
  update_quota_remaining-Safe =
      Safe-find Every L ip _ (Safe-pure Every L _)
        λ p. Safe-then_pure Every _ _ _ (Safe-assign L ip p _ (λ s. refl))

  pub set_time-Safe : (time : ℤ) → Safe Every L (set_time ip time)
  unfolding set_time
  set_time-Safe time =
      Safe-find Every L ip _ (Safe-pure Every L _)
        λ p. Safe-then_pure Every _ _ _ (Safe-assign L ip p _ (λ s. refl))

  pub get_session-Safe : Safe Every L (get_session ip)
  unfolding get_session
  get_session-Safe =
      Safe-find Every L ip _ (Safe-pure Every L _)
        λ p. Safe-deref Every L ip p _ (λ s _. Safe-pure Every _ _)

  new_session-After :
      (c : Controller) (o : Option ℕ)
      → lookup ip c.sessions ≡ o
      → Inv c
      → After Every c (new_session ip c)
  new_session-After c none e v = subst (After Every c) (sym (new_session_absent ip c e)) (
    create-Inv ip _ v e refl,
    λ j q _ f. lookup-insert_ne ip j c.next c.sessions (ne-of-lookup c.sessions j ip f e) ∙ f,
  )
  new_session-After c (some p) e v =
      subst (After Every c) (sym (new_session_present ip c e)) (v, λ j q _ f. f)

  pub new_session-Safe : Safe Every L (new_session ip)
  new_session-Safe = record { at = λ c v l. new_session-After c (lookup ip c.sessions) refl v }

module _ (h : Host) (calm : Calm h) (L : List (QString × ℕ)) where
  pub close_session-Safe :
      (st : SessionState) (address ip : QString) (p : ℕ)
      → Safe Every ((ip, p) ∷ L) (close_session h st address p)
  unfolding close_session
  close_session-Safe st address ip p =
      Safe-bind Every _ _ _ (Calm-Safe h calm _ _ _)
        λ r. Safe-if_then_pure Every _ _ _ _ (Safe-assign L ip p (set_state st) (λ s. refl))

  start_at-Safe : (ip : QString) (p : ℕ) → Safe Every ((ip, p) ∷ L) (start_at h ip p)
  unfolding start_at
  start_at-Safe ip p = Safe-deref Every L ip p _ λ s _.
      Safe-if Every _ (is_state s started) _ _ (Safe-pure Every _ success) (
        Safe-if Every _ (is_exhausted s) _ _ (Safe-pure Every _ failure) (
          Safe-bind Every _ _ _ (Calm-Safe h calm _ _ _)
            λ r. Safe-if_then_pure Every _ _ _ _ (Safe-assign L ip p mark_started (λ s. refl))))

  pub start_session-Safe : (ip : QString) → Safe Every L (start_session h ip)
  unfolding start_session
  start_session-Safe ip =
      Safe-bind Every L _ _ (new_session-Safe L ip)
        λ _. Safe-find Every L ip _ (Safe-pure Every L _) (start_at-Safe ip)

  pub pause_session-Safe : (ip : QString) → Safe Every L (pause_session h ip)
  unfolding pause_session
  pause_session-Safe ip = Safe-find Every L ip _ (Safe-pure Every L _) λ p.
      Safe-deref Every L ip p _ λ s _.
        Safe-if Every _ (is_state s paused) _ _ (Safe-pure Every _ success) (
          Safe-if Every _ (is_state s started) _ _ (close_session-Safe _ ip ip p)
            (Safe-pure Every _ failure))

  pub end_session-Safe : (ip : QString) → Safe Every L (end_session h ip)
  unfolding end_session
  end_session-Safe ip = Safe-find Every L ip _ (Safe-pure Every L _) λ p.
      Safe-deref Every L ip p _ λ s _.
        Safe-if Every _ (is_state s ended) _ _ (Safe-pure Every _ success)
          (close_session-Safe _ ip ip p)

  pub exhaust_session-Safe :
      (ip : QString) (p : ℕ) → Safe Every ((ip, p) ∷ L) (exhaust_session h (some p))
  unfolding exhaust_session
  exhaust_session-Safe ip p = Safe-deref Every L ip p _ λ s _.
      Safe-if Every _ (is_state s exhausted) _ _ (Safe-pure Every _ success)
        (close_session-Safe _ s.ip ip p)

-- These start a session with the pointers that they hold.
module _ (h : Host) (calm : Calm h) (L : List (QString × ℕ)) where
  pub play_session-Safe : (ip : QString) → Safe Every L (play_session h ip)
  unfolding play_session
  play_session-Safe ip = Safe-find Every L ip _ (Safe-pure Every L _) λ p.
      Safe-deref Every L ip p _ λ s _.
        Safe-if Every _ (is_state s started) _ _ (Safe-pure Every _ success) (
          Safe-if Every _ (is_state s paused) _ _ (start_session-Safe h calm _ ip)
            (Safe-pure Every _ failure))

-- Both setters pause the session and play it again.
module _ (h : Host) (calm : Calm h) (L : List (QString × ℕ)) where
  pub set_bandwidth-Safe : (ip : QString) (bw : ℕ) → Safe Every L (set_bandwidth h ip bw)
  unfolding set_bandwidth
  set_bandwidth-Safe ip bw = Safe-find Every L ip _ (Safe-pure Every L _) λ p.
      Safe-bind Every _ _ _ (Safe-assign L ip p _ (λ s. refl)) λ _.
        Safe-bind Every _ _ _ (pause_session-Safe h calm _ ip)
          λ _. Safe-bind Every _ _ _ (play_session-Safe h calm _ ip) λ _. Safe-pure Every _ _

  pub set_quota-Safe : (ip : QString) (quota : ℤ) → Safe Every L (set_quota h ip quota)
  unfolding set_quota
  set_quota-Safe ip quota = Safe-find Every L ip _ (Safe-pure Every L _) λ p.
      Safe-bind Every _ _ _ (Safe-assign L ip p _ (λ s. refl)) λ _.
        Safe-bind Every _ _ _ (pause_session-Safe h calm _ ip)
          λ _. Safe-bind Every _ _ _ (play_session-Safe h calm _ ip) λ _. Safe-pure Every _ _
