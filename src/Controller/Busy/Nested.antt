-- ===== src/Controller/Busy/Nested.antt =====
-- The operations on a session that has not ended, with slots that run while their script does.
use mathlib.Core.Path.{subst}
use wifigateway_server.Base.{
  ℕ, ◌≡◌, ◌≢◌, refl, sym, Bool, true, false, Option, some, List, ◌∷◌, if◌then◌else◌, arith,
  Bool-cases, inl, inr,
}
use wifigateway_server.Base.Int.{ℤ, is_zero}
use wifigateway_server.Qt.Text.{QString}
use wifigateway_server.Qt.Map.{lookup}
use wifigateway_server.Session.{
  Session, SessionState, started, paused, ended, is_state, is_exhausted, mark_started, set_state,
}
use wifigateway_server.Controller.State.{Controller, update}
use wifigateway_server.Controller.Action.{
  Action, Host, pure, modify, assign, ◌>>=◌, ◌>>◌, run-bind, assign_live, deref-bind,
}
use wifigateway_server.Controller.Operations.{
  success, failure, close_session, start_at, start_session, pause_session, play_session,
  end_session,
}
use wifigateway_server.Controller.Equations.{new_session_present}
use wifigateway_server.Controller.Calls.{Call, serve}
use wifigateway_server.Controller.Lifetime.Heap.{Inv, write-Inv}
use wifigateway_server.Controller.Lifetime.Rules.{Nothing}
use wifigateway_server.Controller.Lifetime.Serve.{result_of, serve-After}
use wifigateway_server.Controller.Refinement.Round.{Holds}
use wifigateway_server.Controller.Reentrancy.{busy, busy-Calm, run_nested, nested}
use wifigateway_server.Controller.Busy.Rules.{Good, Leads, same-Good}
use wifigateway_server.Controller.Busy.Serve.{AllSpare, serve-Firm}

-- The action returns, and leaves the controller in order and the record of `ip` at `p`.
abbrev pub Survives : QString → ℕ → Option (ℤ × Controller) → Type 0
Survives ip p o =
    (r : ℤ) × (d : Controller) × (t : Session) × (o ≡ some (r, d)) × Inv d × Holds d ip p t

module _ (ip : QString) (p : ℕ) (st : SessionState) (running : st ≢ ended) (dir : QString)
    (reply : QString → ℤ) (calls : List Call) (spare : AllSpare calls) where
  -- The slots run to their end, and the session is still there.
  run_nested_lem :
      (command : QString) (c : Controller)
      → Good ip p st c
      → (d : Controller) × (run_nested dir reply calls command c ≡ some (reply command, d))
        × Good ip p st d
  unfolding run_nested pure modify
  run_nested_lem command c g =
      let b : Controller = record c { issued = command ∷ c.issued } in
      let g' = same-Good ip p st c b refl refl refl g in
      let (_, d, ran, _) =
        result_of Nothing b (serve (busy dir) calls b)
          (serve-After (busy dir) (busy-Calm dir) calls b g'.inv) in
      (
        d,
        run-bind (modify _) _ c b d refl (run-bind (serve (busy dir) calls) _ b d d ran refl),
        subst (Leads ip p st) ran ((serve-Firm ip p st running dir calls spare).at b g'),
      )

  unchanged : (r : ℤ) (c : Controller) → Good ip p st c → Survives ip p (pure r c)
  unfolding pure
  unchanged r c g = let (t, lives, _) = g.held in (r, c, t, refl, g.inv, (g.found, lives))

  Survives-if :
      (b : Bool) (m n : Action ℤ) (c : Controller)
      → Survives ip p (m c)
      → Survives ip p (n c)
      → Survives ip p ((if b then m else n) c)
  Survives-if true m n c sm sn = sm
  Survives-if false m n c sm sn = sn

  -- A script, and a write into the record if it succeeds.
  asked :
      (command : QString) (f : Session → Session) (c : Controller)
      → ((s : Session) → (f s).ip ≡ s.ip)
      → Good ip p st c
      → Survives ip p (
          (run_nested dir reply calls command >>= λ r.
          if is_zero r then assign p f >> pure r else pure r)
            c)
  unfolding pure
  asked command f c same_ip g =
      let (d, ran, g') = run_nested_lem command c g in
      let (t, lives, _) = g'.held in
      let written : Controller = record d { cell = update d.cell p (some (f t)) } in
      elim (Bool-cases (is_zero (reply command))) [
        | inl ok ↦ (
          reply command,
          written,
          f t,
          run-bind (run_nested dir reply calls command) _ c d written ran
              (rw ok (run-bind (assign p f) _ d written written (assign_live p t f d lives) refl)),
          write-Inv p t (f t) g'.inv lives (same_ip t),
          (g'.found, ground arith),
        )
        | inr bad ↦ (
          reply command,
          d,
          t,
          run-bind (run_nested dir reply calls command) _ c d d ran (rw bad refl),
          g'.inv,
          (g'.found, lives),
        )
      ]

  close_survives :
      (to : SessionState) (c : Controller)
      → Good ip p st c
      → Survives ip p (close_session (nested dir reply calls) to ip p c)
  unfolding close_session
  close_survives to c g = asked _ (set_state to) c (λ s. refl) g

  -- What the operations do for a session that has a record.
  module _ (h : Host) (t : Session) (c : Controller) (found : lookup ip c.sessions ≡ some p)
      (lives : c.cell p ≡ some t) where
    end_found :
        end_session h ip c
        ≡ (if is_state t ended then pure success else close_session h ended ip p) c
    unfolding end_session ◌>>=◌
    end_found = ground arith

    pause_found :
        pause_session h ip c
        ≡ (if is_state t paused
              then pure success
              else if is_state t started
              then close_session h paused ip p
              else pure failure)
            c
    unfolding pause_session ◌>>=◌
    pause_found = ground arith

    play_found :
        play_session h ip c
        ≡ (if is_state t started
              then pure success
              else if is_state t paused
              then start_session h ip
              else pure failure)
            c
    unfolding play_session ◌>>=◌
    play_found = ground arith

    start_found : start_session h ip c ≡ start_at h ip p c
    unfolding start_session ◌>>=◌
    start_found = ground (arith, new_session_present ip c found)

  start_at_survives :
      (t : Session) (c : Controller)
      → Good ip p st c
      → c.cell p ≡ some t
      → Survives ip p (start_at (nested dir reply calls) ip p c)
  unfolding start_at
  start_at_survives t c g lives = subst (Survives ip p) (sym (deref-bind p t _ c lives)) (
      Survives-if (is_state t started) _ _ c (unchanged success c g) (
        Survives-if (is_exhausted t) _ _ c (unchanged failure c g)
          (asked _ mark_started c (λ s. refl) g)))

  start_survives :
      (c : Controller)
      → Good ip p st c
      → Survives ip p (start_session (nested dir reply calls) ip c)
  start_survives c g =
      let (t, lives, _) = g.held in
      subst (Survives ip p) (sym (start_found (nested dir reply calls) t c g.found lives))
        (start_at_survives t c g lives)

  operations_survive :
      (t : Session) (c : Controller)
      → Good ip p st c
      → c.cell p ≡ some t
      → let h = nested dir reply calls in
        Survives ip p (start_session h ip c)
        × Survives ip p (pause_session h ip c)
        × Survives ip p (play_session h ip c)
        × Survives ip p (end_session h ip c)
  operations_survive t c g lives =
      let h = nested dir reply calls in
      let starts = start_survives c g in
      (
        starts,
        subst (Survives ip p) (sym (pause_found h t c g.found lives)) (
            Survives-if (is_state t paused) _ _ c (unchanged success c g) (
              Survives-if (is_state t started) _ _ c (close_survives paused c g)
                (unchanged failure c g))),
        subst (Survives ip p) (sym (play_found h t c g.found lives)) (
            Survives-if (is_state t started) _ _ c (unchanged success c g)
              (Survives-if (is_state t paused) _ _ c starts (unchanged failure c g))),
        subst (Survives ip p) (sym (end_found h t c g.found lives)) (
            Survives-if (is_state t ended) _ _ c (unchanged success c g)
              (close_survives ended c g)),
      )

-- Let slots run while a script runs, and no clean-up be among them; ticks and deletions may be. In
-- a controller that is in order, the operations on a session that has not ended are safe: starting,
-- pausing, playing and ending it return, leave the controller in order, and its record is still
-- there, under the same address.
pub nested_survives :
    (dir : QString) (reply : QString → ℤ) (calls : List Call) (ip : QString) (p : ℕ) (s : Session)
    (c : Controller)
    → AllSpare calls
    → Inv c
    → Holds c ip p s
    → s.state ≢ ended
    → let h = nested dir reply calls in
      Survives ip p (start_session h ip c)
      × Survives ip p (pause_session h ip c)
      × Survives ip p (play_session h ip c)
      × Survives ip p (end_session h ip c)
nested_survives dir reply calls ip p s c spare v held running =
    operations_survive ip p s.state running dir reply calls spare s c
      (record { inv = v; found = held.0; held = (s, held.1, refl) }) held.1
