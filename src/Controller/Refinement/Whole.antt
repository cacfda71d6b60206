-- ===== src/Controller/Refinement/Whole.antt =====
-- `tick` as a whole, on a steady host.
use mathlib.Core.Path.{subst}
use wifigateway_server.Base.{ℕ, ◌≡◌, refl, sym, ap, ◌∙◌, ◌≢◌, Option, none, some, [], ◌∷◌}
use wifigateway_server.Base.Int.{ℤ}
use wifigateway_server.Qt.Text.{QString, QString-discrete}
use wifigateway_server.Qt.Map.{
  QMap, lookup, values, Above, Above-ne, IsSorted, lookup-Above, lookup-cons_ne, lookup-cons_self,
  ne-of-lookup,
}
use wifigateway_server.Session.{Session}
use wifigateway_server.Controller.State.{Controller}
use wifigateway_server.Controller.Action.{pure, ◌>>=◌}
use wifigateway_server.Controller.Timer.{tick_each, tick}
use wifigateway_server.Controller.Lifetime.Heap.{Inv}
use wifigateway_server.Controller.Lifetime.Rules.{Live}
use wifigateway_server.Controller.Lifetime.Tick.{Live-self}
use wifigateway_server.Controller.Action.{run-bind}
use wifigateway_server.Controller.Refinement.Host.{quiet}
use wifigateway_server.Controller.Refinement.Steady.{steady}
use wifigateway_server.Controller.Refinement.Round.{Holds, Ticked, Round, session-Round}

-- The sessions of the entries `m` are ticked, and the others are as they were.
pub record Effect (dir : QString) (reply : QString → ℤ) (m : QMap ℕ) (c d : Controller)
    : Type 0 where
  pub inv : Inv d
  pub ticked :
      (ip : QString) (p : ℕ) (s : Session)
      → lookup ip m ≢ none
      → Holds c ip p s
      → Ticked dir reply ip p s d
  pub kept :
      (ip : QString) (p : ℕ) (s : Session) → lookup ip m ≡ none → Holds c ip p s → Holds d ip p s
  pub absent : (ip : QString) → lookup ip c.sessions ≡ none → lookup ip d.sessions ≡ none

-- The round of one session leaves the others live.
still-Live :
    {dir : QString} {reply : QString → ℤ} {k : QString} (m : QMap ℕ) (c b : Controller)
    → Above k m
    → Inv c
    → Round dir reply k c b
    → Live m c
    → Live m b
still-Live [] c b above v r l = tt
still-Live {k} ((j, q) ∷ m) c b above v r l =
    let (s, e, _) = v.owned j q l.0 in
    ((r.kept j q s (Above-ne k j above.0) (l.0, e)).0, still-Live m c b above.1 v r l.1)

module _ (dir : QString) (reply : QString → ℤ) where
  Effect-nil : (c : Controller) → Inv c → Effect dir reply [] c c
  unfolding lookup
  Effect-nil c v = record {
    inv = v;
    ticked = λ ip p s n. absurd (n refl);
    kept = λ ip p s e h. h;
    absent = λ ip e. e;
  }

  -- A later round leaves what an earlier one has made of a session.
  Ticked-kept :
      (k : QString) (q : ℕ) (t : Session) (m : QMap ℕ) (b d : Controller)
      → lookup k m ≡ none
      → Effect dir reply m b d
      → Ticked dir reply k q t b
      → Ticked dir reply k q t d
  Ticked-kept k q t m b d e x done =
      (λ goes. x.absent k (done.0 goes), λ stays. x.kept k q _ e (done.1 stays))

  Effect-cons :
      (k : QString) (q : ℕ) (m : QMap ℕ) (c b d : Controller)
      → Above k m
      → Round dir reply k c b
      → Effect dir reply m b d
      → Effect dir reply ((k, q) ∷ m) c d
  Effect-cons k q m c b d above r x = record {
    inv = x.inv;
    ticked = λ ip p s n g. elim (QString-discrete ip k) [
      | yes same ↦
          rw same
            (Ticked-kept k p s m b d (lookup-Above k m above) x (r.ticked p s (rw (← same) g)))
      | no other ↦ x.ticked ip p s (in_rest ip other n) (r.kept ip p s other g)
    ];
    kept = λ ip p s e g. x.kept ip p s (not_in_rest ip e) (r.kept ip p s (not_head ip e) g);
    absent = λ ip e. x.absent ip (r.absent ip e);
  }
    where
      in_rest : (ip : QString) → ip ≢ k → lookup ip ((k, q) ∷ m) ≢ none → lookup ip m ≢ none
      in_rest ip other n e = n (lookup-cons_ne k ip q m other ∙ e)

      not_head : (ip : QString) → lookup ip ((k, q) ∷ m) ≡ none → ip ≢ k
      not_head ip e same = ne-of-lookup ((k, q) ∷ m) k ip (lookup-cons_self k q m) e (sym same)

      not_in_rest : (ip : QString) → lookup ip ((k, q) ∷ m) ≡ none → lookup ip m ≡ none
      not_in_rest ip e = sym (lookup-cons_ne k ip q m (not_head ip e)) ∙ e

  tick_each_lem :
      (m : QMap ℕ) (c : Controller)
      → IsSorted m
      → Inv c
      → Live m c
      → (d : Controller) × (tick_each (quiet dir (steady reply)) (values m) c ≡ some (tt, d))
        × Effect dir reply m c d
  unfolding tick_each pure
  tick_each_lem [] c s v l = (c, refl, Effect-nil c v)
  tick_each_lem ((k, q) ∷ m) c s v l =
      let (t, e, named) = v.owned k q l.0 in
      let (b, ran, r) =
        session-Round dir reply q t c v
          (ap (λ (j : QString). lookup j c.sessions) named ∙ l.0, e) in
      let round : Round dir reply k c b = subst (λ j. Round dir reply j c b) named r in
      let (d, rest, x) = tick_each_lem m b s.1 r.inv (still-Live m c b s.0 v round l.1) in
      (d, run-bind _ _ c b d ran rest, Effect-cons k q m c b d s.0 round x)

  -- Let the result of a script depend on its command only, no slot run meanwhile, and the
  -- controller be in order. Then a tick completes and leaves it in order, and it ticks every
  -- session of the map and brings in none: a session that has ended and whose end timer runs out is
  -- forgotten, any other lives one second of its protocol.
  pub tick_lem :
      (c : Controller)
      → Inv c
      → (d : Controller) × (tick (quiet dir (steady reply)) c ≡ some (tt, d))
        × Inv d
        × ((ip : QString) (p : ℕ) (s : Session) → Holds c ip p s → Ticked dir reply ip p s d)
        × ((ip : QString) → lookup ip c.sessions ≡ none → lookup ip d.sessions ≡ none)
  unfolding tick ◌>>=◌
  tick_lem c v =
      let (d, ran, x) = tick_each_lem c.sessions c v.sorted v (Live-self c.sessions c v.sorted) in
      (d, ran, x.inv, λ ip p s g. x.ticked ip p s (present g.0) g, x.absent)
    where
      present : {o : Option ℕ} {p : ℕ} → o ≡ some p → o ≢ none
      present e n = cc
