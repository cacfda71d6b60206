-- ===== src/Controller/Refinement/Tick.antt =====
-- One round of `tick` for one session, on the heap.
use mathlib.Core.Path.{fun_ext}
use wifigateway_server.Base.{ℕ, ◌-◌, ◌≡◌, refl, ap, ◌∙◌, Option, some, arith, ◌==◌, if◌then◌else◌}
use wifigateway_server.Qt.Text.{QString}
use wifigateway_server.Qt.Map.{lookup}
use wifigateway_server.Session.{
  Session, SessionState, uninitialized, started, paused, exhausted, ended,
}
use wifigateway_server.Controller.State.{Controller, update}
use wifigateway_server.Controller.Action.{pure, ◌>>=◌, deref-bind}
use wifigateway_server.Controller.Timer.{tick_ended, tick_in, tick_session, count_ended}
use wifigateway_server.Controller.Equations.{without_session, remove_session_present}
use wifigateway_server.Controller.Machine.{Answer, second, is_forgotten}
use wifigateway_server.Controller.Refinement.Host.{quiet, view, put, put-view}
use wifigateway_server.Controller.Refinement.Second.{
  tick_started-Refines, tick_exhausted-Refines, tick_paused-Refines,
}

module _ (p : ℕ) (s : Session) (c : Controller) (live : c.cell p ≡ some s)
    (found : lookup s.ip c.sessions ≡ some p) where
  forgotten_cell :
      without_session s.ip p (record c { cell = update c.cell p (some (count_ended s)) })
      ≡ without_session s.ip p c
  forgotten_cell =
      ap (λ (f : ℕ → Option Session). record (without_session s.ip p c) { cell = f })
        (fun_ext λ q. ground arith)

  tick_ended_lem :
      tick_ended p c
      ≡ some (
        tt,
        if s.end_time_remaining - 1 == 0
            then without_session s.ip p c
            else record c { cell = update c.cell p (some (count_ended s)) },
      )
  unfolding tick_ended ◌>>=◌
  tick_ended_lem =
      let counted : Controller = record c { cell = update c.cell p (some (count_ended s)) } in
      ground (
        arith,
        remove_session_present s.ip counted {p = p} {s = count_ended s} found,
        forgotten_cell,
      )

module _ (dir : QString) (answer : Answer) (p : ℕ) (s : Session) (c : Controller)
    (live : c.cell p ≡ some s) (found : lookup s.ip c.sessions ≡ some p) where
  tick_in_lem :
      (st : SessionState)
      → s.state ≡ st
      → tick_in (quiet dir answer) st p c
        ≡ some (
          tt,
          if is_forgotten s
              then without_session s.ip p c
              else put p (second dir answer st (view s c)) c,
        )
  unfolding tick_in second pure
  tick_in_lem started e =
      ground (arith, (tick_started-Refines dir answer s.ip p).runs s c live refl found)
  tick_in_lem exhausted e =
      ground (arith, (tick_exhausted-Refines dir answer s.ip p).runs s c live refl found)
  tick_in_lem paused e =
      ground (arith, (tick_paused-Refines dir answer s.ip p).runs s c live refl found)
  tick_in_lem ended e = ground (arith, tick_ended_lem p s c live found)
  tick_in_lem uninitialized e = ground (arith, put-view p s c live)

  -- One round of the loop of `tick` for a session that has a record, with no slot run during a
  -- script: the record has gone if the session was ended and its end timer runs out, and otherwise
  -- it has lived one second of its protocol. Nothing else has changed.
  pub tick_session_lem :
      tick_session (quiet dir answer) p c
      ≡ some (
        tt,
        if is_forgotten s
            then without_session s.ip p c
            else put p (second dir answer s.state (view s c)) c,
      )
  unfolding tick_session
  tick_session_lem = deref-bind p s _ c live ∙ tick_in_lem s.state refl
