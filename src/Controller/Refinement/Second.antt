-- ===== src/Controller/Refinement/Second.antt =====
-- The loop body of `tick`, state by state, against one second of the protocol.
use wifigateway_server.Base.{ℕ, ◌≡◌, refl, sym, ap, ◌∙◌, some, arith, ◌==◌, if◌then◌else◌}
use wifigateway_server.Base.Int.{to_uint32}
use wifigateway_server.Qt.Text.{QString}
use wifigateway_server.Qt.Map.{lookup}
use wifigateway_server.Session.{
  SessionState, uninitialized, started, paused, exhausted, ended, is_exhausted, pause_time,
  time_warning_time, update_warning_time, activity_warning_time, pause_warning_time,
}
use wifigateway_server.Controller.State.{
  time_warning, update_time_warning, activity_time_warning, pause_time_warning,
}
use wifigateway_server.Controller.Operations.{end_session, exhaust_session, play_session}
use wifigateway_server.Controller.Timer.{
  warn_started, end_if_idle, tick_started, tick_exhausted, resume, tick_paused, count_started,
  count_exhausted, count_paused,
}
use wifigateway_server.Controller.Machine.{
  View, Answer, with_record, warn_if, start, play, end, end_when, exhaust, exhaust_check,
  idle_check, warn, second_started, second_exhausted, second_paused, second,
}
use wifigateway_server.Controller.Refinement.Host.{quiet}
use wifigateway_server.Controller.Refinement.Sessions.{
  play_session_lem, end_session_lem, exhaust_session_lem,
}
use wifigateway_server.Controller.Refinement.Rules.{
  Refines, Refines-pure, Refines-deref, Refines-assign, Refines-emit_if, Refines-bind, Refines-if,
  Refines-eq, Refines-run_if,
}

module _ (dir : QString) (answer : Answer) where
  pub start_same_ip : (v : View) → (start dir answer v).1.session.ip ≡ v.session.ip
  unfolding start
  start_same_ip v = ground arith

  pub play_same_ip : (v : View) → (play dir answer v).1.session.ip ≡ v.session.ip
  unfolding play
  play_same_ip v = ground arith

  pub end_same_ip : (v : View) → (end dir answer v).1.session.ip ≡ v.session.ip
  unfolding end
  end_same_ip v = ground arith

  pub exhaust_same_ip : (v : View) → (exhaust dir answer v).1.session.ip ≡ v.session.ip
  unfolding exhaust
  exhaust_same_ip v = ground arith

module _ (dir : QString) (answer : Answer) (ip : QString) (p : ℕ) where
  -- By name, whatever record the name was read from.
  pub end_session-Refines :
      (k : QString) → k ≡ ip → Refines ip p (end_session (quiet dir answer) k) (end dir answer)
  end_session-Refines k e = record {
    runs = λ s c live named found.
        ap (λ (j : QString). end_session (quiet dir answer) j c) (e ∙ sym named)
        ∙ end_session_lem dir answer p s c live
            (ap (λ (j : QString). lookup j c.sessions) named ∙ found);
    same_ip = λ v h. end_same_ip dir answer v ∙ h;
  }

  pub play_session-Refines :
      (k : QString) → k ≡ ip → Refines ip p (play_session (quiet dir answer) k) (play dir answer)
  play_session-Refines k e = record {
    runs = λ s c live named found.
        ap (λ (j : QString). play_session (quiet dir answer) j c) (e ∙ sym named)
        ∙ play_session_lem dir answer p s c live
            (ap (λ (j : QString). lookup j c.sessions) named ∙ found);
    same_ip = λ v h. play_same_ip dir answer v ∙ h;
  }

  pub exhaust_session-Refines :
      Refines ip p (exhaust_session (quiet dir answer) (some p)) (exhaust dir answer)
  exhaust_session-Refines = record {
    runs = λ s c live named found. exhaust_session_lem dir answer p s c live;
    same_ip = λ v h. exhaust_same_ip dir answer v ∙ h;
  }

  warn_started-Refines : Refines ip p (warn_started p) (λ v. (tt, warn v))
  unfolding warn_started
  warn_started-Refines =
      Refines-deref ip p _
        (λ s v. (
          tt,
          warn_if (s.activity_time_remaining == activity_warning_time) activity_time_warning (
              warn_if (s.update_time_remaining == update_warning_time) update_time_warning
                (warn_if (to_uint32 s.time_remaining == time_warning_time) time_warning v)),
        ))
        λ s _.
          Refines-bind ip p _ _ _
            (λ _ v. (
              tt,
              warn_if (s.activity_time_remaining == activity_warning_time) activity_time_warning
                  (warn_if (s.update_time_remaining == update_warning_time) update_time_warning v),
            ))
            (Refines-emit_if ip p _ _)
            λ _.
              Refines-bind ip p _ _ _
                (λ _ v. (
                  tt,
                  warn_if (s.activity_time_remaining == activity_warning_time) activity_time_warning
                      v,
                ))
                (Refines-emit_if ip p _ _) λ _. Refines-emit_if ip p _ _

  end_if_idle-Refines :
      Refines ip p (end_if_idle (quiet dir answer) p) (λ v. (tt, idle_check dir answer v))
  unfolding end_if_idle idle_check
  end_if_idle-Refines =
      Refines-deref ip p _
        (λ s v.
          let w = if s.update_time_remaining == 0 then (end dir answer v).1 else v in
          (tt, end_when dir answer (w.session.activity_time_remaining == 0) w))
        λ s e.
          Refines-bind ip p _ _ _
            (λ _ w. (tt, end_when dir answer (w.session.activity_time_remaining == 0) w))
            (Refines-run_if ip p _ _ _ (end_session-Refines s.ip e))
            λ _.
              Refines-deref ip p _
                (λ t w. (tt, end_when dir answer (t.activity_time_remaining == 0) w))
                λ t f. Refines-run_if ip p _ _ _ (end_session-Refines t.ip f)

  pub tick_started-Refines :
      Refines ip p (tick_started (quiet dir answer) p) (λ v. (tt, second_started dir answer v))
  unfolding tick_started second_started exhaust_check
  tick_started-Refines =
      Refines-bind ip p _ _ _
        (λ _ w. (
          tt,
          warn (
              idle_check dir answer
                (if is_exhausted w.session then (exhaust dir answer w).1 else w)),
        ))
        (Refines-assign ip p count_started (λ s. refl))
        λ _.
          Refines-deref ip p _
            (λ s w. (
              tt,
              warn (idle_check dir answer (if is_exhausted s then (exhaust dir answer w).1 else w)),
            ))
            λ s _.
              Refines-bind ip p _ _ _ (λ _ w. (tt, warn (idle_check dir answer w)))
                (Refines-run_if ip p (is_exhausted s) _ _ exhaust_session-Refines)
                λ _.
                  Refines-bind ip p _ _ _ (λ _ w. (tt, warn w)) end_if_idle-Refines
                    λ _. warn_started-Refines

  pub tick_exhausted-Refines :
      Refines ip p (tick_exhausted (quiet dir answer) p) (λ v. (tt, second_exhausted dir answer v))
  unfolding tick_exhausted second_exhausted
  tick_exhausted-Refines =
      Refines-bind ip p _ _ _ (λ _ w. (tt, idle_check dir answer w))
        (Refines-assign ip p count_exhausted (λ s. refl)) λ _. end_if_idle-Refines

  resume-Refines : Refines ip p (resume (quiet dir answer) p) (λ v. (
    tt,
    (play dir answer (with_record (record v.session { pause_time_remaining = pause_time }) v)).1,
  ))
  unfolding resume
  resume-Refines =
      Refines-bind ip p _ _ _ (λ _ w. (tt, (play dir answer w).1))
        (Refines-assign ip p _ (λ s. refl))
        λ _.
          Refines-deref ip p _ (λ s w. (tt, (play dir answer w).1))
            λ s e.
              Refines-bind ip p _ _ _ (λ _ w. (tt, w)) (play_session-Refines s.ip e)
                λ _. Refines-pure ip p tt

  pub tick_paused-Refines :
      Refines ip p (tick_paused (quiet dir answer) p) (λ v. (tt, second_paused dir answer v))
  unfolding tick_paused second_paused
  tick_paused-Refines =
      Refines-bind ip p _ _ _ after_count (Refines-assign ip p count_paused (λ s. refl)) λ _.
        Refines-deref ip p _ (λ s w. warned (if s.pause_time_remaining == 0 then resumed w else w))
          λ s _.
            Refines-bind ip p _ (λ w. (tt, if s.pause_time_remaining == 0 then resumed w else w)) _
              (λ _ x. warned x)
              (Refines-eq ip p _ _ _ (λ w. ground arith)
                (Refines-if ip p (s.pause_time_remaining == 0) _ _ _ _ resume-Refines
                  (Refines-pure ip p tt)))
              λ _. Refines-deref ip p _ _ λ t _. Refines-emit_if ip p _ _
    where
      resumed : View → View
      resumed w =
          (play dir answer
            (with_record (record w.session { pause_time_remaining = pause_time }) w)).1

      warned : View → Unit {0} × View
      warned x =
          (tt, warn_if (x.session.pause_time_remaining == pause_warning_time) pause_time_warning x)

      after_count : Unit {0} → View → Unit {0} × View
      after_count _ w = warned (if w.session.pause_time_remaining == 0 then resumed w else w)

-- A second leaves the session its IP.
module _ (dir : QString) (answer : Answer) where
  pub second-ip :
      (st : SessionState) (v : View) → (second dir answer st v).session.ip ≡ v.session.ip
  unfolding second
  second-ip started v = (tick_started-Refines dir answer v.session.ip 0).same_ip v refl
  second-ip paused v = (tick_paused-Refines dir answer v.session.ip 0).same_ip v refl
  second-ip exhausted v = (tick_exhausted-Refines dir answer v.session.ip 0).same_ip v refl
  second-ip ended v = refl
  second-ip uninitialized v = refl
