-- ===== src/Controller/Access/Tick.antt =====
-- A tick, against the access of the hosts.
use mathlib.Core.Path.{subst}
use wifigateway_server.Base.{
  ℕ, ◌≡◌, refl, sym, ap, ◌∙◌, true, false, some, [], ◌∷◌, arith, Bool-cases, inl, inr,
}
use wifigateway_server.Qt.Text.{QString}
use wifigateway_server.Qt.Map.{
  QMap, lookup, remove, values, Above, Above-ne, IsSorted, lookup-remove_ne,
}
use wifigateway_server.Session.{Session, is_state, started}
use wifigateway_server.Controller.State.{Controller}
use wifigateway_server.Controller.Action.{◌>>=◌, pure}
use wifigateway_server.Controller.Timer.{tick_session, tick_each, tick}
use wifigateway_server.Controller.Equations.{without_session}
use wifigateway_server.Controller.Machine.{Answer, second, is_forgotten}
use wifigateway_server.Controller.Lifetime.Rules.{Live}
use wifigateway_server.Controller.Lifetime.Tick.{Live-self}
use wifigateway_server.Controller.Refinement.Host.{quiet, view, put}
use wifigateway_server.Controller.Refinement.Tick.{tick_session_lem}
use wifigateway_server.Controller.Action.{run-bind}
use wifigateway_server.Controller.Access.{Admits}
use wifigateway_server.Controller.Access.Seconds.{second-Grants}
use wifigateway_server.Controller.Access.Records.{put-Admits, without_session-Admits}
use wifigateway_server.Controller.Access.Sessions.{Done, Runs}

-- The entries of `m` stay where they are when `k`, which is below them, goes.
Live-remove :
    (k : QString) (m : QMap ℕ) (c d : Controller)
    → Above k m
    → d.sessions ≡ remove k c.sessions
    → Live m c
    → Live m d
Live-remove k [] c d above e l = tt
Live-remove k ((j, q) ∷ m) c d above e l = (
  ap (lookup j) e ∙ lookup-remove_ne k j c.sessions (Above-ne k j above.0) ∙ l.0,
  Live-remove k m c d above.1 e l.1,
)

Live-same : (m : QMap ℕ) (c d : Controller) → d.sessions ≡ c.sessions → Live m c → Live m d
Live-same [] c d e l = tt
Live-same ((ip, p) ∷ m) c d e l = (rw e l.0, Live-same m c d e l.1)

forgotten_stopped : (s : Session) → is_forgotten s ≡ true → is_state s started ≡ false
forgotten_stopped s e = ground arith

module _ (dir : QString) (answer : Answer) where
  -- One round, and the entries that are still to come.
  round :
      (m : QMap ℕ) (p : ℕ) (s : Session) (c : Controller)
      → Admits dir answer c
      → c.cell p ≡ some s
      → lookup s.ip c.sessions ≡ some p
      → Above s.ip m
      → Live m c
      → (d : Controller) × (tick_session (quiet dir answer) p c ≡ some (tt, d))
        × Admits dir answer d
        × Live m d
  round m p s c a live found above l =
      let step = tick_session_lem dir answer p s c live found in
      elim (Bool-cases (is_forgotten s)) [
        | inl gone ↦ (
          without_session s.ip p c,
          step ∙ rw gone refl,
          without_session-Admits dir answer c a p s live found (forgotten_stopped s gone),
          Live-remove s.ip m c (without_session s.ip p c) above refl l,
        )
        | inr stays ↦
            let w = second dir answer s.state (view s c) in
            (
              put p w c,
              step ∙ rw stays refl,
              put-Admits dir answer c a p s w live found
                  (second-Grants dir answer s.ip s.state (view s c)),
              Live-same m c (put p w c) refl l,
            )
      ]

  tick_each_runs :
      (m : QMap ℕ) (c : Controller)
      → IsSorted m
      → Admits dir answer c
      → Live m c
      → Done dir answer (tick_each (quiet dir answer) (values m) c)
  unfolding tick_each pure
  tick_each_runs [] c s a l = (tt, c, refl, a)
  tick_each_runs ((k, q) ∷ m) c s a l =
      let (t, live, named) = a.inv.owned k q l.0 in
      let (b, ran, a', l') =
        round m q t c a live (subst (λ j. lookup j c.sessions ≡ some q) (sym named) l.0)
          (subst (λ j. Above j m) (sym named) s.0) l.1 in
      let (_, d, rest, a'') = tick_each_runs m b s.1 a' l' in
      (tt, d, run-bind _ _ c b d ran rest, a'')

  pub tick-Runs : Runs dir answer (tick (quiet dir answer))
  unfolding tick ◌>>=◌
  tick-Runs = record {
    at = λ c a. tick_each_runs c.sessions c a.inv.sorted a (Live-self c.sessions c a.inv.sorted);
  }
