-- ===== src/Controller/Equations.antt =====
-- What the operations that add and remove records compute to, on each branch.
use wifigateway_server.Base.{ℕ, suc, ◌≡◌, true, false, none, some, arith}
use wifigateway_server.Qt.Text.{QString, is_empty}
use wifigateway_server.Qt.Map.{lookup, insert, remove, key_of}
use wifigateway_server.Session.{Session}
use wifigateway_server.Controller.State.{Controller, update}
use wifigateway_server.Controller.Action.{◌>>=◌}
use wifigateway_server.Controller.Operations.{
  success, fresh_session, create_session, new_session, remove_session, remove_session_at,
}

-- The controller with a new record for `ip`.
abbrev pub with_session : QString → Controller → Controller
with_session ip c = record c {
  cell = update c.cell c.next (some (fresh_session ip c));
  next = suc c.next;
  sessions = insert ip c.next c.sessions;
}

-- The controller without the record of `ip`, at `p`.
abbrev pub without_session : QString → ℕ → Controller → Controller
without_session ip p c = record c { cell = update c.cell p none; sessions = remove ip c.sessions }

module _ (ip : QString) (c : Controller) where
  pub new_session_absent :
      lookup ip c.sessions ≡ none → new_session ip c ≡ some (success, with_session ip c)
  unfolding new_session create_session ◌>>=◌
  new_session_absent e = ground arith

  pub new_session_present :
      {p : ℕ} → lookup ip c.sessions ≡ some p → new_session ip c ≡ some (success, c)
  unfolding new_session ◌>>=◌
  new_session_present e = ground arith

  pub remove_session_absent : lookup ip c.sessions ≡ none → remove_session ip c ≡ some (tt, c)
  unfolding remove_session ◌>>=◌
  remove_session_absent e = ground arith

  pub remove_session_present :
      {p : ℕ} {s : Session}
      → lookup ip c.sessions ≡ some p
      → c.cell p ≡ some s
      → remove_session ip c ≡ some (tt, without_session ip p c)
  unfolding remove_session ◌>>=◌
  remove_session_present e f = ground arith

module _ (p : ℕ) (c : Controller) where
  pub remove_session_at_named :
      {s : Session}
      → is_empty (key_of p c.sessions) ≡ false
      → c.cell p ≡ some s
      → remove_session_at p c ≡ some (tt, without_session (key_of p c.sessions) p c)
  unfolding remove_session_at ◌>>=◌
  remove_session_at_named e f = ground arith

  pub remove_session_at_unnamed :
      is_empty (key_of p c.sessions) ≡ true → remove_session_at p c ≡ some (tt, c)
  unfolding remove_session_at ◌>>=◌
  remove_session_at_unnamed e = ground arith
