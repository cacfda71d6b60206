-- ===== src/Controller/Busy/Rules.antt =====
-- Actions that leave one session in its state and under its address: one rule for each way to build
-- an action.
use mathlib.Core.Path.{subst}
use wifigateway_server.Base.{
  ℕ, ◌≡◌, ◌≢◌, refl, sym, ◌∙◌, Bool, true, false, Option, none, some, if◌then◌else◌, arith,
  Bool-cases, Option-cases, inl, inr, ◌==◌, ◌∷◌,
}
use wifigateway_server.Qt.Text.{QString}
use wifigateway_server.Qt.Map.{lookup, lookup-insert_ne, ne-of-lookup, lookup-remove_ne}
use wifigateway_server.Session.{Session, SessionState}
use wifigateway_server.Controller.State.{Controller, Warning, update}
use wifigateway_server.Controller.Action.{
  Action, pure, gets, modify, deref, assign, emit, ◌>>=◌, deref-bind, assign_live,
}
use wifigateway_server.Controller.Operations.{fresh_session}
use wifigateway_server.Controller.Equations.{with_session, without_session}
use wifigateway_server.Controller.Lifetime.Heap.{
  Inv, same_heap, owner_unique, write-Inv, create-Inv, remove-Inv,
}

module _ (ip : QString) (p : ℕ) (st : SessionState) where
  -- The controller is in order, and the session of `ip` is at `p` in the state `st`.
  pub record Good (c : Controller) : Type 0 where
    pub inv : Inv c
    pub found : lookup ip c.sessions ≡ some p
    pub held : (t : Session) × (c.cell p ≡ some t) × (t.state ≡ st)

  abbrev pub Leads : {A : Type 0} → Option (A × Controller) → Type 0
  Leads none = Unit {0}
  Leads (some (_, d)) = Good d

  pub record Firm {A : Type 0} (m : Action A) : Type 0 where
    pub at : (c : Controller) → Good c → Leads (m c)

  pub Firm-pure : {A : Type 0} (a : A) → Firm (pure a)
  unfolding pure
  Firm-pure a = record { at = λ c g. g }

  pub Firm-gets : {A : Type 0} (f : Controller → A) → Firm (gets f)
  unfolding gets
  Firm-gets f = record { at = λ c g. g }

  pub Firm-if :
      {A : Type 0} (b : Bool) (m n : Action A) → Firm m → Firm n → Firm (if b then m else n)
  Firm-if true m n fm fn = fm
  Firm-if false m n fm fn = fn

  module _ {A B : Type 0} where
    Leads-bind :
        (f : A → Action B) (o : Option (A × Controller))
        → Leads o
        → ((a : A) → Firm (f a))
        → Leads (elim o [ none ↦ none | some (a, d) ↦ f a d ])
    Leads-bind f none h ff = tt
    Leads-bind f (some (a, d)) h ff = (ff a).at d h

    pub Firm-bind :
        (m : Action A) (f : A → Action B) → Firm m → ((a : A) → Firm (f a)) → Firm (m >>= f)
    unfolding ◌>>=◌
    Firm-bind m f fm ff = record { at = λ c g. Leads-bind f (m c) (fm.at c g) ff }

  -- A change of the members that the heap does not depend on.
  pub same-Good :
      (c d : Controller)
      → d.sessions ≡ c.sessions
      → d.cell ≡ c.cell
      → d.next ≡ c.next
      → Good c
      → Good d
  same-Good c d es ec en g = record {
    inv = same_heap c d es ec en g.inv;
    found = rw es g.found;
    held = rw ec g.held;
  }

  pub Firm-modify :
      (f : Controller → Controller) → ((c : Controller) → Good c → Good (f c)) → Firm (modify f)
  unfolding modify
  Firm-modify f keeps = record { at = keeps }

  pub Firm-emit : (w : Warning) → Firm (emit w)
  unfolding emit
  Firm-emit w = record {
    at = λ c g. same-Good c (record c { emitted = w ∷ c.emitted }) refl refl refl g;
  }

  pub deref_dead :
      {B : Type 0} (q : ℕ) (f : Session → Action B) (c : Controller)
      → c.cell q ≡ none
      → (deref q >>= f) c ≡ none
  unfolding ◌>>=◌
  deref_dead q f c dead = ground arith

  pub Firm-deref :
      {B : Type 0} (q : ℕ) (f : Session → Action B)
      → ((s : Session) → Firm (f s))
      → Firm (deref q >>= f)
  Firm-deref q f ff = record {
    at = λ c g. elim (Option-cases (c.cell q)) [
      | inl dead ↦ subst Leads (sym (deref_dead q f c dead)) tt
      | inr (s, live) ↦ subst Leads (sym (deref-bind q s f c live)) ((ff s).at c g)
    ];
  }

  assign_dead :
      (q : ℕ) (f : Session → Session) (c : Controller) → c.cell q ≡ none → assign q f c ≡ none
  unfolding assign
  assign_dead q f c dead = ground arith

  pub write-Good :
      (q : ℕ) (s t : Session) (c : Controller)
      → c.cell q ≡ some s
      → t.ip ≡ s.ip
      → t.state ≡ s.state
      → Good c
      → Good (record c { cell = update c.cell q (some t) })
  write-Good q s t c live same_ip same_state g = record {
    inv = write-Inv q s t g.inv live same_ip;
    found = g.found;
    held =
        let (u, lives, state) = g.held in
        elim (Bool-cases (q == p)) [
          | inl hit ↦ (t, ground arith, ground arith)
          | inr miss ↦ (u, ground arith, state)
        ];
  }

  -- A write that leaves IP and state alone.
  pub Firm-assign :
      (q : ℕ) (f : Session → Session)
      → ((s : Session) → (f s).ip ≡ s.ip)
      → ((s : Session) → (f s).state ≡ s.state)
      → Firm (assign q f)
  Firm-assign q f same_ip same_state = record {
    at = λ c g. elim (Option-cases (c.cell q)) [
      | inl dead ↦ subst Leads (sym (assign_dead q f c dead)) tt
      | inr (s, live) ↦
          subst Leads (sym (assign_live q s f c live))
            (write-Good q s (f s) c live (same_ip s) (same_state s) g)
    ];
  }

  -- A new session, and the removal of another one.
  pub with_session-Good :
      (j : QString) (c : Controller) → lookup j c.sessions ≡ none → Good c → Good (with_session j c)
  with_session-Good j c absent g = record {
    inv = create-Inv j (fresh_session j c) g.inv absent refl;
    found =
        lookup-insert_ne j ip c.next c.sessions (ne-of-lookup c.sessions ip j g.found absent)
        ∙ g.found;
    held = let (u, lives, state) = g.held in (u, ground (arith, g.inv.fresh c.next), state);
  }

  pub without_session-Good :
      (j : QString) (q : ℕ) (c : Controller)
      → lookup j c.sessions ≡ some q
      → ip ≢ j
      → Good c
      → Good (without_session j q c)
  without_session-Good j q c at other g = record {
    inv = remove-Inv j q g.inv at;
    found = lookup-remove_ne j ip c.sessions other ∙ g.found;
    held =
        let (u, lives, state) = g.held in
        let apart : q ≢ p = λ meet. other (owner_unique g.inv ip j p g.found (rw (← meet) at)) in
        (u, ground arith, state);
  }
