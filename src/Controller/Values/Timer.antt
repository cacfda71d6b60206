-- ===== src/Controller/Values/Timer.antt =====
-- A tick, on the predicates of an interface.
use wifigateway_server.Base.{ℕ, ◌≡◌, Bool, true, false, List, [], ◌∷◌, ◌==◌, refl}
use wifigateway_server.Base.Int.{ℤ}
use wifigateway_server.Session.{SessionState, uninitialized, started, paused, exhausted, ended}
use wifigateway_server.Controller.State.{
  Warning, time_warning, update_time_warning, activity_time_warning, pause_time_warning,
}
use wifigateway_server.Controller.Action.{Action, Host}
use wifigateway_server.Controller.Timer.{
  run_if, emit_if, warn_started, tick_ended, end_if_idle, tick_started, tick_exhausted, resume,
  tick_paused, tick_in, tick_session, tick_each, tick,
}
use wifigateway_server.Controller.Values.{Values}
use wifigateway_server.Controller.Values.Rules.{
  Sound, Sound-pure, Sound-gets, Sound-if, Sound-bind, Sound-deref, Sound-assign, Sound-emit,
  HostSound,
}
use wifigateway_server.Controller.Values.Operations.{
  remove_session-Sound, play_session-Sound, end_session-Sound, exhaust_session-Sound,
}

module _ (V : Values) where
  run_if-Sound : (b : Bool) (m : Action ℤ) → Sound V m → Sound V (run_if b m)
  run_if-Sound b m sm =
      Sound-if V b _ _ (Sound-bind V _ _ sm λ _. Sound-pure V tt) (Sound-pure V tt)

  emit_if-Sound : (b : Bool) (w : Warning) → (b ≡ true → V.Emits w) → Sound V (emit_if b w)
  emit_if-Sound true w may = Sound-emit V w (may refl)
  emit_if-Sound false w may = Sound-pure V tt

  warn_started-Sound : (p : ℕ) → Sound V (warn_started p)
  unfolding warn_started
  warn_started-Sound p = Sound-deref V p _ λ s ok.
      Sound-bind V _ _ (emit_if-Sound _ time_warning λ _. V.warns.0) λ _.
        Sound-bind V _ _ (emit_if-Sound _ update_time_warning λ _. V.warns.1)
          λ _. emit_if-Sound _ activity_time_warning (V.warns_idle s ok)

  tick_ended-Sound : (p : ℕ) → Sound V (tick_ended p)
  unfolding tick_ended
  tick_ended-Sound p = Sound-bind V _ _ (Sound-assign V p _ V.ages) λ _. Sound-deref V p _ λ s ok.
      Sound-if V (s.end_time_remaining == 0) _ _ (remove_session-Sound V s.ip) (Sound-pure V tt)

  module _ (h : Host) (hs : HostSound V h) where
    end_if_idle-Sound : (p : ℕ) → Sound V (end_if_idle h p)
    unfolding end_if_idle
    end_if_idle-Sound p = Sound-deref V p _ λ s ok.
        Sound-bind V _ _ (run_if-Sound _ _ (end_session-Sound V h hs s.ip))
          λ _. Sound-deref V p _ λ t ok'. run_if-Sound _ _ (end_session-Sound V h hs t.ip)

    tick_started-Sound : (p : ℕ) → Sound V (tick_started h p)
    unfolding tick_started
    tick_started-Sound p = Sound-bind V _ _ (Sound-assign V p _ V.runs) λ _.
        Sound-deref V p _ λ s ok.
          Sound-bind V _ _ (run_if-Sound _ _ (exhaust_session-Sound V h hs p))
            λ _. Sound-bind V _ _ (end_if_idle-Sound p) λ _. warn_started-Sound p

    tick_exhausted-Sound : (p : ℕ) → Sound V (tick_exhausted h p)
    unfolding tick_exhausted
    tick_exhausted-Sound p = Sound-bind V _ _ (Sound-assign V p _ V.rests) λ _. end_if_idle-Sound p

    resume-Sound : (p : ℕ) → Sound V (resume h p)
    unfolding resume
    resume-Sound p = Sound-bind V _ _ (Sound-assign V p _ V.resets) λ _.
        Sound-deref V p _
          λ s ok. Sound-bind V _ _ (play_session-Sound V h hs s.ip) λ _. Sound-pure V tt

    tick_paused-Sound : (p : ℕ) → Sound V (tick_paused h p)
    unfolding tick_paused
    tick_paused-Sound p = Sound-bind V _ _ (Sound-assign V p _ V.waits) λ _.
        Sound-deref V p _ λ s ok.
          Sound-bind V _ _
            (Sound-if V (s.pause_time_remaining == 0) _ _ (resume-Sound p) (Sound-pure V tt))
            λ _. Sound-deref V p _ λ t ok'. emit_if-Sound _ pause_time_warning λ _. V.warns.2

    tick_in-Sound : (st : SessionState) (p : ℕ) → Sound V (tick_in h st p)
    unfolding tick_in
    tick_in-Sound started p = tick_started-Sound p
    tick_in-Sound exhausted p = tick_exhausted-Sound p
    tick_in-Sound paused p = tick_paused-Sound p
    tick_in-Sound ended p = tick_ended-Sound p
    tick_in-Sound uninitialized p = Sound-pure V tt

    tick_each-Sound : (ps : List ℕ) → Sound V (tick_each h ps)
    unfolding tick_each tick_session
    tick_each-Sound [] = Sound-pure V tt
    tick_each-Sound (p ∷ ps) =
        Sound-bind V _ _ (Sound-deref V p _ λ s ok. tick_in-Sound s.state p) λ _. tick_each-Sound ps

    pub tick-Sound : Sound V (tick h)
    unfolding tick
    tick-Sound = Sound-bind V _ _ (Sound-gets V _) λ ps. tick_each-Sound ps
