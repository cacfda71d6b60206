-- ===== src/Controller/Refinement/Sessions.antt =====
-- startSession, pauseSession, playSession, endSession and exhaustSession against the protocol.
use wifigateway_server.Base.{ℕ, ◌≡◌, some, arith}
use wifigateway_server.Qt.Text.{QString}
use wifigateway_server.Qt.Map.{lookup}
use wifigateway_server.Session.{Session, SessionState}
use wifigateway_server.Controller.State.{Controller}
use wifigateway_server.Controller.Action.{◌>>=◌}
use wifigateway_server.Controller.Operations.{
  start_at, start_session, close_session, pause_session, play_session, end_session, exhaust_session,
}
use wifigateway_server.Controller.Equations.{new_session_present}
use wifigateway_server.Controller.Machine.{Answer, close, start, pause, play, end, exhaust}
use wifigateway_server.Controller.Refinement.Host.{quiet, view, put, put-view}

module _ (dir : QString) (answer : Answer) (p : ℕ) (s : Session) (c : Controller)
    (live : c.cell p ≡ some s) where
  close_session_lem :
      (st : SessionState)
      → let (r, v) = close dir answer st (view s c) in
        close_session (quiet dir answer) st s.ip p c ≡ some (r, put p v c)
  unfolding close_session ◌>>=◌ close
  close_session_lem st = ground (arith, put-view p s c live)

  pub start_at_lem :
      let (r, v) = start dir answer (view s c) in
      start_at (quiet dir answer) s.ip p c ≡ some (r, put p v c)
  unfolding start_at ◌>>=◌ start
  start_at_lem = ground (arith, put-view p s c live)

  pub exhaust_session_lem :
      let (r, v) = exhaust dir answer (view s c) in
      exhaust_session (quiet dir answer) (some p) c ≡ some (r, put p v c)
  unfolding exhaust_session ◌>>=◌ exhaust close_session
  exhaust_session_lem = ground (arith, put-view p s c live)

module _ (dir : QString) (answer : Answer) (p : ℕ) (s : Session) (c : Controller)
    (live : c.cell p ≡ some s) (found : lookup s.ip c.sessions ≡ some p) where
  pub start_session_lem :
      let (r, v) = start dir answer (view s c) in
      start_session (quiet dir answer) s.ip c ≡ some (r, put p v c)
  unfolding start_session ◌>>=◌
  start_session_lem =
      rw (new_session_present s.ip c found, ◌>>=◌)
        (ground (arith, start_at_lem dir answer p s c live))

  pub pause_session_lem :
      let (r, v) = pause dir answer (view s c) in
      pause_session (quiet dir answer) s.ip c ≡ some (r, put p v c)
  unfolding pause_session ◌>>=◌ pause close_session
  pause_session_lem = ground (arith, put-view p s c live)

  pub end_session_lem :
      let (r, v) = end dir answer (view s c) in
      end_session (quiet dir answer) s.ip c ≡ some (r, put p v c)
  unfolding end_session ◌>>=◌ end close_session
  end_session_lem = ground (arith, put-view p s c live)

  pub play_session_lem :
      let (r, v) = play dir answer (view s c) in
      play_session (quiet dir answer) s.ip c ≡ some (r, put p v c)
  unfolding play_session ◌>>=◌ play
  play_session_lem = ground (arith, put-view p s c live, start_session_lem)

  -- With no slot run during a script, starting, pausing, playing and ending a session that has a
  -- record change that record, the commands and the signals as its protocol says, return what it
  -- says, and change nothing else.
  pub operations_lem :
      let v = view s c in
      (let (r, w) = start dir answer v in
        start_session (quiet dir answer) s.ip c ≡ some (r, put p w c))
      × (let (r, w) = pause dir answer v in
          pause_session (quiet dir answer) s.ip c ≡ some (r, put p w c))
      × (let (r, w) = play dir answer v in
          play_session (quiet dir answer) s.ip c ≡ some (r, put p w c))
      × (let (r, w) = end dir answer v in
          end_session (quiet dir answer) s.ip c ≡ some (r, put p w c))
  operations_lem = (start_session_lem, pause_session_lem, play_session_lem, end_session_lem)
