-- ===== src/Controller/Busy/Operations.antt =====
-- The operations of controller.cpp on a busy runner.
use mathlib.Core.Path.{subst}
use wifigateway_server.Base.{
  ℕ, ◌≡◌, refl, sym, true, Option, none, some, if◌then◌else◌, arith, Option-cases, inl, inr,
}
use wifigateway_server.Base.Int.{ℤ}
use wifigateway_server.Qt.Text.{QString}
use wifigateway_server.Qt.Map.{lookup}
use wifigateway_server.Session.{
  Session, SessionState, uninitialized, started, paused, exhausted, ended, is_state, is_exhausted,
}
use wifigateway_server.Controller.Action.{Action, pure, gets, deref, assign, ◌>>=◌, ◌>>◌}
use wifigateway_server.Controller.Operations.{
  success, failure, find_session, new_session, update_session, update_quota_remaining,
  close_session, start_at, start_session, pause_session, play_session, end_session, exhaust_session,
}
use wifigateway_server.Controller.Settings.{set_time, set_bandwidth, set_quota}
use wifigateway_server.Controller.Equations.{new_session_absent, new_session_present}
use wifigateway_server.Controller.Reentrancy.{busy}
use wifigateway_server.Controller.Busy.Rules.{
  Leads, Firm, Firm-pure, Firm-gets, Firm-if, Firm-bind, Firm-deref, Firm-assign, with_session-Good,
}

pub ended_state : (s : Session) → is_state s ended ≡ true → s.state ≡ ended
ended_state s e = go s.state e
  where
    go : (st : SessionState) → is_state (record s { state = st }) ended ≡ true → st ≡ ended
    go uninitialized h = absurd (ground arith)
    go started h = absurd (ground arith)
    go paused h = absurd (ground arith)
    go exhausted h = absurd (ground arith)
    go ended h = refl

module _ (ip : QString) (p : ℕ) (st : SessionState) where
  -- By `sessions.value(IP)`: a null pointer, or a session.
  by_session :
      (j : QString) (m : ℕ → Action ℤ)
      → ((q : ℕ) → Firm ip p st (m q))
      → Firm ip p st
          (gets (find_session j) >>= λ found. elim found [ none ↦ pure failure | some q ↦ m q ])
  by_session j m fm = Firm-bind ip p st _ _ (Firm-gets ip p st _) go
    where
      go : (found : Option ℕ) → Firm ip p st (elim found [ none ↦ pure failure | some q ↦ m q ])
      go none = Firm-pure ip p st failure
      go (some q) = fm q

  write_then :
      {A : Type 0} (q : ℕ) (f : Session → Session) (a : A)
      → ((s : Session) → (f s).ip ≡ s.ip)
      → ((s : Session) → (f s).state ≡ s.state)
      → Firm ip p st (assign q f >> pure a)
  write_then q f a same_ip same_state =
      Firm-bind ip p st _ _ (Firm-assign ip p st q f same_ip same_state) λ _. Firm-pure ip p st a

  pub new_session-Firm : (j : QString) → Firm ip p st (new_session j)
  new_session-Firm j = record {
    at = λ c g. elim (Option-cases (lookup j c.sessions)) [
      | inl absent ↦
          subst (Leads ip p st) (sym (new_session_absent j c absent))
            (with_session-Good ip p st j c absent g)
      | inr (q, known) ↦ subst (Leads ip p st) (sym (new_session_present j c known)) g
    ];
  }

  pub update_session-Firm : (j : QString) → Firm ip p st (update_session j)
  unfolding update_session
  update_session-Firm j = by_session j _ λ q. write_then q _ success (λ s. refl) (λ s. refl)

  pub update_quota_remaining-Firm : (j : QString) → Firm ip p st (update_quota_remaining j)
  unfolding update_quota_remaining
  update_quota_remaining-Firm j = by_session j _ λ q. write_then q _ success (λ s. refl) (λ s. refl)

  pub set_time-Firm : (j : QString) (x : ℤ) → Firm ip p st (set_time j x)
  unfolding set_time
  set_time-Firm j x = by_session j _ λ q. write_then q _ success (λ s. refl) (λ s. refl)

  -- A command that the runner refuses.
  refused :
      {A : Type 0} (m : ℤ → Action A) → Firm ip p st (m failure) → Firm ip p st (pure failure >>= m)
  unfolding ◌>>=◌ pure
  refused m fm = record { at = λ c g. fm.at c g }

  module _ (dir : QString) where
    close_session-Firm :
        (to : SessionState) (j : QString) (q : ℕ) → Firm ip p st (close_session (busy dir) to j q)
    unfolding close_session
    close_session-Firm to j q = refused _ (Firm-pure ip p st failure)

    start_at-Firm : (j : QString) (q : ℕ) → Firm ip p st (start_at (busy dir) j q)
    unfolding start_at
    start_at-Firm j q = Firm-deref ip p st q _ λ s.
        Firm-if ip p st (is_state s started) _ _ (Firm-pure ip p st success) (
          Firm-if ip p st (is_exhausted s) _ _ (Firm-pure ip p st failure)
            (refused _ (Firm-pure ip p st failure)))

    pub start_session-Firm : (j : QString) → Firm ip p st (start_session (busy dir) j)
    unfolding start_session
    start_session-Firm j =
        Firm-bind ip p st _ _ (new_session-Firm j) λ _. by_session j _ λ q. start_at-Firm j q

    from_to :
        (q : ℕ) (aim from : SessionState) (m : Action ℤ)
        → Firm ip p st m
        → Firm ip p st (
            deref q >>= λ s.
            if is_state s aim then pure success else if is_state s from then m else pure failure)
    from_to q aim from m fm = Firm-deref ip p st q _ λ s.
        Firm-if ip p st (is_state s aim) _ _ (Firm-pure ip p st success)
          (Firm-if ip p st (is_state s from) _ _ fm (Firm-pure ip p st failure))

    pub pause_session-Firm : (j : QString) → Firm ip p st (pause_session (busy dir) j)
    unfolding pause_session
    pause_session-Firm j =
        by_session j _ λ q. from_to q paused started _ (close_session-Firm paused j q)

    pub play_session-Firm : (j : QString) → Firm ip p st (play_session (busy dir) j)
    unfolding play_session
    play_session-Firm j = by_session j _ λ q. from_to q started paused _ (start_session-Firm j)

    pub end_session-Firm : (j : QString) → Firm ip p st (end_session (busy dir) j)
    unfolding end_session
    end_session-Firm j = by_session j _ λ q. Firm-deref ip p st q _ λ s.
        Firm-if ip p st (is_state s ended) _ _ (Firm-pure ip p st success)
          (close_session-Firm ended j q)

    pub exhaust_session-Firm : (q : ℕ) → Firm ip p st (exhaust_session (busy dir) (some q))
    unfolding exhaust_session
    exhaust_session-Firm q = Firm-deref ip p st q _ λ s.
        Firm-if ip p st (is_state s exhausted) _ _ (Firm-pure ip p st success)
          (close_session-Firm exhausted s.ip q)

    bounced :
        (j : QString) (q : ℕ) (f : Session → Session)
        → ((s : Session) → (f s).ip ≡ s.ip)
        → ((s : Session) → (f s).state ≡ s.state)
        → Firm ip p st
            (do assign q f; pause_session (busy dir) j; play_session (busy dir) j; pure success)
    bounced j q f same_ip same_state =
        Firm-bind ip p st _ _ (Firm-assign ip p st q f same_ip same_state) λ _.
          Firm-bind ip p st _ _ (pause_session-Firm j)
            λ _. Firm-bind ip p st _ _ (play_session-Firm j) λ _. Firm-pure ip p st success

    pub set_bandwidth-Firm : (j : QString) (bw : ℕ) → Firm ip p st (set_bandwidth (busy dir) j bw)
    unfolding set_bandwidth
    set_bandwidth-Firm j bw = by_session j _ λ q. bounced j q _ (λ s. refl) (λ s. refl)

    pub set_quota-Firm : (j : QString) (x : ℤ) → Firm ip p st (set_quota (busy dir) j x)
    unfolding set_quota
    set_quota-Firm j x = by_session j _ λ q. bounced j q _ (λ s. refl) (λ s. refl)
