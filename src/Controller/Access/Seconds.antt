-- ===== src/Controller/Access/Seconds.antt =====
-- A second of one session, against the access of its host.
use wifigateway_server.Base.{refl, Bool, ◌==◌}
use wifigateway_server.Base.Int.{to_uint32}
use wifigateway_server.Qt.Text.{QString}
use wifigateway_server.Session.{
  SessionState, uninitialized, started, paused, exhausted, ended, is_state, pause_time,
  time_warning_time, update_warning_time, activity_warning_time,
}
use wifigateway_server.Controller.State.{time_warning, update_time_warning, activity_time_warning}
use wifigateway_server.Controller.Timer.{count_started, count_exhausted, count_paused, count_ended}
use wifigateway_server.Controller.Machine.{
  View, Answer, with_record, warn_if, warn, exhaust, end_when, idle_check, exhaust_check,
  second_started, second_exhausted, second_paused, second,
}
use wifigateway_server.Controller.Access.Protocol.{
  Grants, Grants-refl, Grants-trans, Grants-if, Grants-if1, Grants-write, Grants-warn_if,
  close-Grants, play-Grants, end-Grants,
}

module _ (dir : QString) (answer : Answer) (ip : QString) where
  exhaust-Grants : (v : View) → Grants dir answer ip v (exhaust dir answer v).1
  unfolding exhaust
  exhaust-Grants v =
      Grants-if1 dir answer ip (is_state v.session exhausted) v _ _ (Grants-refl dir answer ip v)
        (close-Grants dir answer ip exhausted v (λ e. cc))

  end_when-Grants : (b : Bool) (v : View) → Grants dir answer ip v (end_when dir answer b v)
  end_when-Grants b v =
      Grants-if dir answer ip b v _ _ (end-Grants dir answer ip v) (Grants-refl dir answer ip v)

  idle_check-Grants : (v : View) → Grants dir answer ip v (idle_check dir answer v)
  unfolding idle_check
  idle_check-Grants v =
      let w = end_when dir answer (v.session.update_time_remaining == 0) v in
      Grants-trans dir answer ip (end_when-Grants (v.session.update_time_remaining == 0) v)
        (end_when-Grants (w.session.activity_time_remaining == 0) w)

  exhaust_check-Grants : (v : View) → Grants dir answer ip v (exhaust_check dir answer v)
  unfolding exhaust_check
  exhaust_check-Grants v =
      Grants-if dir answer ip _ v _ _ (exhaust-Grants v) (Grants-refl dir answer ip v)

  warn-Grants : (v : View) → Grants dir answer ip v (warn v)
  warn-Grants v =
      let s = v.session in
      let w = warn_if (to_uint32 s.time_remaining == time_warning_time) time_warning v in
      let x = warn_if (s.update_time_remaining == update_warning_time) update_time_warning w in
      Grants-trans dir answer ip {v = x}
        (Grants-trans dir answer ip {v = w}
          (Grants-warn_if dir answer ip (to_uint32 s.time_remaining == time_warning_time)
            time_warning v)
          (Grants-warn_if dir answer ip (s.update_time_remaining == update_warning_time)
            update_time_warning w))
        (Grants-warn_if dir answer ip (s.activity_time_remaining == activity_warning_time)
          activity_time_warning x)

  second_started-Grants : (v : View) → Grants dir answer ip v (second_started dir answer v)
  unfolding second_started
  second_started-Grants v =
      let w = with_record (count_started v.session) v in
      let x = exhaust_check dir answer w in
      let y = idle_check dir answer x in
      Grants-trans dir answer ip {v = y}
        (Grants-trans dir answer ip {v = x}
          (Grants-trans dir answer ip {v = w}
            (Grants-write dir answer ip v (count_started v.session) refl refl)
            (exhaust_check-Grants w))
          (idle_check-Grants x))
        (warn-Grants y)

  second_paused-Grants : (v : View) → Grants dir answer ip v (second_paused dir answer v)
  unfolding second_paused
  second_paused-Grants v =
      let w = with_record (count_paused v.session) v in
      let reset = with_record (record w.session { pause_time_remaining = pause_time }) w in
      let played =
        Grants-trans dir answer ip {v = reset}
          (Grants-write dir answer ip w reset.session refl refl)
          (play-Grants dir answer ip reset) in
      Grants-trans dir answer ip {v = w}
        (Grants-write dir answer ip v (count_paused v.session) refl refl)
        (Grants-trans dir answer ip
          (Grants-if dir answer ip (w.session.pause_time_remaining == 0) w _ _ played
            (Grants-refl dir answer ip w))
          (Grants-warn_if dir answer ip _ _ _))

  pub second-Grants :
      (st : SessionState) (v : View) → Grants dir answer ip v (second dir answer st v)
  unfolding second second_exhausted
  second-Grants started v = second_started-Grants v
  second-Grants exhausted v =
      Grants-trans dir answer ip
        (Grants-write dir answer ip v (count_exhausted v.session) refl refl) (idle_check-Grants _)
  second-Grants paused v = second_paused-Grants v
  second-Grants ended v = Grants-write dir answer ip v (count_ended v.session) refl refl
  second-Grants uninitialized v = Grants-refl dir answer ip v
