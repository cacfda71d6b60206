-- ===== src/Controller/Busy/Timer.antt =====
-- A tick on a busy runner, and a session that has not ended.
use mathlib.Core.Path.{subst}
use wifigateway_server.Base.{
  ℕ, ◌-◌, ◌≡◌, ◌≢◌, refl, sym, Bool, some, List, [], ◌∷◌, ◌==◌, if◌then◌else◌, arith, Bool-cases,
  Option-cases, inl, inr,
}
use wifigateway_server.Base.Int.{ℤ}
use wifigateway_server.Qt.Text.{QString}
use wifigateway_server.Session.{
  Session, SessionState, uninitialized, started, paused, exhausted, ended,
}
use wifigateway_server.Controller.State.{Controller, Warning, update}
use wifigateway_server.Controller.Action.{Action, pure, ◌>>=◌, deref-bind}
use wifigateway_server.Controller.Operations.{remove_session}
use wifigateway_server.Controller.Timer.{
  run_if, emit_if, count_ended, warn_started, tick_ended, end_if_idle, tick_started, tick_exhausted,
  resume, tick_paused, tick_in, tick_session, tick_each, tick,
}
use wifigateway_server.Controller.Reentrancy.{busy}
use wifigateway_server.Controller.Busy.Rules.{
  Good, Leads, Firm, Firm-pure, Firm-gets, Firm-if, Firm-bind, Firm-emit, Firm-deref, Firm-assign,
  write-Good, deref_dead,
}
use wifigateway_server.Controller.Busy.Operations.{
  play_session-Firm, end_session-Firm, exhaust_session-Firm,
}
use wifigateway_server.Controller.Busy.Removal.{ended_other, remove_other}

tick_ended_live :
    (q : ℕ) (s : Session) (c : Controller)
    → c.cell q ≡ some s
    → tick_ended q c
      ≡ (if s.end_time_remaining - 1 == 0 then remove_session s.ip else pure tt)
          (record c { cell = update c.cell q (some (count_ended s)) })
unfolding tick_ended ◌>>=◌
tick_ended_live q s c live = ground arith

module _ (ip : QString) (p : ℕ) (st : SessionState) (dir : QString) where
  run_if-Firm : (b : Bool) (m : Action ℤ) → Firm ip p st m → Firm ip p st (run_if b m)
  run_if-Firm b m fm =
      Firm-if ip p st b _ _ (Firm-bind ip p st _ _ fm λ _. Firm-pure ip p st tt)
        (Firm-pure ip p st tt)

  emit_if-Firm : (b : Bool) (w : Warning) → Firm ip p st (emit_if b w)
  emit_if-Firm b w = Firm-if ip p st b _ _ (Firm-emit ip p st w) (Firm-pure ip p st tt)

  warn_started-Firm : (q : ℕ) → Firm ip p st (warn_started q)
  unfolding warn_started
  warn_started-Firm q = Firm-deref ip p st q _ λ s.
      Firm-bind ip p st _ _ (emit_if-Firm _ _)
        λ _. Firm-bind ip p st _ _ (emit_if-Firm _ _) λ _. emit_if-Firm _ _

  end_if_idle-Firm : (q : ℕ) → Firm ip p st (end_if_idle (busy dir) q)
  unfolding end_if_idle
  end_if_idle-Firm q = Firm-deref ip p st q _ λ s.
      Firm-bind ip p st _ _ (run_if-Firm _ _ (end_session-Firm ip p st dir s.ip))
        λ _. Firm-deref ip p st q _ λ t. run_if-Firm _ _ (end_session-Firm ip p st dir t.ip)

  tick_started-Firm : (q : ℕ) → Firm ip p st (tick_started (busy dir) q)
  unfolding tick_started
  tick_started-Firm q = Firm-bind ip p st _ _ (Firm-assign ip p st q _ (λ s. refl) (λ s. refl)) λ _.
      Firm-deref ip p st q _ λ s.
        Firm-bind ip p st _ _ (run_if-Firm _ _ (exhaust_session-Firm ip p st dir q))
          λ _. Firm-bind ip p st _ _ (end_if_idle-Firm q) λ _. warn_started-Firm q

  tick_exhausted-Firm : (q : ℕ) → Firm ip p st (tick_exhausted (busy dir) q)
  unfolding tick_exhausted
  tick_exhausted-Firm q =
      Firm-bind ip p st _ _ (Firm-assign ip p st q _ (λ s. refl) (λ s. refl))
        λ _. end_if_idle-Firm q

  resume-Firm : (q : ℕ) → Firm ip p st (resume (busy dir) q)
  unfolding resume
  resume-Firm q = Firm-bind ip p st _ _ (Firm-assign ip p st q _ (λ s. refl) (λ s. refl)) λ _.
      Firm-deref ip p st q _
        λ s. Firm-bind ip p st _ _ (play_session-Firm ip p st dir s.ip) λ _. Firm-pure ip p st tt

  tick_paused-Firm : (q : ℕ) → Firm ip p st (tick_paused (busy dir) q)
  unfolding tick_paused
  tick_paused-Firm q = Firm-bind ip p st _ _ (Firm-assign ip p st q _ (λ s. refl) (λ s. refl)) λ _.
      Firm-deref ip p st q _ λ s.
        Firm-bind ip p st _ _
          (Firm-if ip p st (s.pause_time_remaining == 0) _ _ (resume-Firm q) (Firm-pure ip p st tt))
          λ _. Firm-deref ip p st q _ λ t. emit_if-Firm _ _

  module _ (running : st ≢ ended) where
    tick_ended-Leads :
        (q : ℕ) (s : Session) (c : Controller)
        → Good ip p st c
        → c.cell q ≡ some s
        → s.state ≡ ended
        → Leads ip p st (tick_ended q c)
    unfolding pure
    tick_ended-Leads q s c g live over =
        let b : Controller = record c { cell = update c.cell q (some (count_ended s)) } in
        let g' = write-Good ip p st q s (count_ended s) c live refl refl g in
        let other = ended_other ip p st running s.ip q s c g (g.inv.no_leak q s live) live over in
        subst (Leads ip p st) (sym (tick_ended_live q s c live))
          (elim (Bool-cases (s.end_time_remaining - 1 == 0)) [
            | inl last ↦ rw last (remove_other ip p st running s.ip b g' other)
            | inr more ↦ rw more g'
          ])

    -- The case of the `switch` that the state of the record selects.
    tick_in-Leads :
        (to : SessionState) (q : ℕ) (s : Session) (c : Controller)
        → Good ip p st c
        → c.cell q ≡ some s
        → s.state ≡ to
        → Leads ip p st (tick_in (busy dir) to q c)
    unfolding tick_in
    tick_in-Leads started q s c g live is = (tick_started-Firm q).at c g
    tick_in-Leads exhausted q s c g live is = (tick_exhausted-Firm q).at c g
    tick_in-Leads paused q s c g live is = (tick_paused-Firm q).at c g
    tick_in-Leads ended q s c g live is = tick_ended-Leads q s c g live is
    tick_in-Leads uninitialized q s c g live is = (Firm-pure ip p st tt).at c g

    tick_session-Firm : (q : ℕ) → Firm ip p st (tick_session (busy dir) q)
    unfolding tick_session
    tick_session-Firm q = record {
      at = λ c g. elim (Option-cases (c.cell q)) [
        | inl dead ↦ subst (Leads ip p st) (sym (deref_dead ip p st q _ c dead)) tt
        | inr (s, live) ↦
            subst (Leads ip p st) (sym (deref-bind q s _ c live))
              (tick_in-Leads s.state q s c g live refl)
      ];
    }

    tick_each-Firm : (qs : List ℕ) → Firm ip p st (tick_each (busy dir) qs)
    unfolding tick_each
    tick_each-Firm [] = Firm-pure ip p st tt
    tick_each-Firm (q ∷ qs) = Firm-bind ip p st _ _ (tick_session-Firm q) λ _. tick_each-Firm qs

    pub tick-Firm : Firm ip p st (tick (busy dir))
    unfolding tick
    tick-Firm = Firm-bind ip p st _ _ (Firm-gets ip p st _) λ qs. tick_each-Firm qs
