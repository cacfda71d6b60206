-- ===== src/Controller/Values/Rules.antt =====
-- Actions that keep the predicates of an interface: one rule for each way to build an action.
use mathlib.Core.Path.{subst}
use wifigateway_server.Controller.Values.{Values}
use wifigateway_server.Base.{
  Option-cases, ℕ, ◌≡◌, refl, sym, Bool, true, false, Option, none, some, List, [], ◌∷◌, ◌==◌,
  if◌then◌else◌, arith, Bool-cases, inl, inr,
}
use wifigateway_server.Qt.Text.{QString}
use wifigateway_server.Session.{Session}
use wifigateway_server.Controller.State.{Controller, Warning, update}
use wifigateway_server.Controller.Action.{
  Action, Host, pure, gets, modify, alloc, deref, assign, free, emit, deref-bind, assign_live,
  ◌>>=◌, ◌>>◌,
}
use wifigateway_server.Controller.Operations.{find_session}

deref_dead :
    {B : Type 0} (p : ℕ) (f : Session → Action B) (c : Controller)
    → c.cell p ≡ none
    → (deref p >>= f) c ≡ none
unfolding ◌>>=◌
deref_dead p f c dead = ground arith

assign_dead :
    (p : ℕ) (f : Session → Session) (c : Controller) → c.cell p ≡ none → assign p f c ≡ none
unfolding assign
assign_dead p f c dead = ground arith

free_dead : (p : ℕ) (c : Controller) → c.cell p ≡ none → free p c ≡ none
unfolding free
free_dead p c dead = ground arith

free_live :
    (p : ℕ) (s : Session) (c : Controller)
    → c.cell p ≡ some s
    → free p c ≡ some (tt, record c { cell = update c.cell p none })
unfolding free
free_live p s c live = ground arith

module _ (V : Values) where
  abbrev pub Emitted : List Warning → Type 0
  Emitted [] = Unit {0}
  Emitted (w ∷ ws) = V.Emits w × Emitted ws

  pub record Valid (c : Controller) : Type 0 where
    pub records : (p : ℕ) (s : Session) → c.cell p ≡ some s → V.Ok s
    pub defaults : V.Default c.default_bandwidth c.default_quota c.default_time
    pub warnings : Emitted c.emitted

  -- An outcome in a valid state, if there is one.
  abbrev pub Ends : {A : Type 0} → Option (A × Controller) → Type 0
  Ends none = Unit {0}
  Ends (some (_, d)) = Valid d

  pub record Sound {A : Type 0} (m : Action A) : Type 0 where
    pub at : (c : Controller) → Valid c → Ends (m c)

  pub Sound-pure : {A : Type 0} (a : A) → Sound (pure a)
  unfolding pure
  Sound-pure a = record { at = λ c v. v }

  pub Sound-gets : {A : Type 0} (f : Controller → A) → Sound (gets f)
  unfolding gets
  Sound-gets f = record { at = λ c v. v }

  pub Sound-if :
      {A : Type 0} (b : Bool) (m n : Action A) → Sound m → Sound n → Sound (if b then m else n)
  Sound-if true m n sm sn = sm
  Sound-if false m n sm sn = sn

  module _ {A B : Type 0} where
    Ends-bind :
        (f : A → Action B) (o : Option (A × Controller))
        → Ends o
        → ((a : A) → Sound (f a))
        → Ends (elim o [ none ↦ none | some (a, d) ↦ f a d ])
    Ends-bind f none h sf = tt
    Ends-bind f (some (a, d)) h sf = (sf a).at d h

    pub Sound-bind :
        (m : Action A) (f : A → Action B) → Sound m → ((a : A) → Sound (f a)) → Sound (m >>= f)
    unfolding ◌>>=◌
    Sound-bind m f sm sf = record { at = λ c v. Ends-bind f (m c) (sm.at c v) sf }

  -- A change of the members that no predicate speaks of.
  pub same-Valid :
      (c d : Controller)
      → d.cell ≡ c.cell
      → d.default_bandwidth ≡ c.default_bandwidth
      → d.default_quota ≡ c.default_quota
      → d.default_time ≡ c.default_time
      → d.emitted ≡ c.emitted
      → Valid c
      → Valid d
  same-Valid c d e eb eq et ew v = record {
    records = rw e v.records;
    defaults = rw (eb, eq, et) v.defaults;
    warnings = rw ew v.warnings;
  }

  pub write-Valid :
      (c : Controller) (p : ℕ) (s : Session)
      → V.Ok s
      → Valid c
      → Valid (record c { cell = update c.cell p (some s) })
  write-Valid c p s ok v = record {
    records = λ q t e. elim (Bool-cases (p == q)) [
      | inl hit ↦ subst V.Ok (ground arith) ok
      | inr miss ↦ v.records q t (ground arith)
    ];
    defaults = v.defaults;
    warnings = v.warnings;
  }

  pub Sound-alloc : (s : Session) → V.Ok s → Sound (alloc s)
  unfolding alloc
  Sound-alloc s ok = record {
    at = λ c v.
        same-Valid (record c { cell = update c.cell c.next (some s) }) _ refl refl refl refl refl
          (write-Valid c c.next s ok v);
  }

  pub Sound-modify :
      (f : Controller → Controller) → ((c : Controller) → Valid c → Valid (f c)) → Sound (modify f)
  unfolding modify
  Sound-modify f keeps = record { at = keeps }

  -- What is read satisfies the predicate of the records.
  pub Sound-deref :
      {B : Type 0} (p : ℕ) (f : Session → Action B)
      → ((s : Session) → V.Ok s → Sound (f s))
      → Sound (deref p >>= f)
  Sound-deref p f sf = record {
    at = λ c v. elim (Option-cases (c.cell p)) [
      | inl dead ↦ subst Ends (sym (deref_dead p f c dead)) tt
      | inr (s, live) ↦
          subst Ends (sym (deref-bind p s f c live)) ((sf s (v.records p s live)).at c v)
    ];
  }

  pub Sound-assign :
      (p : ℕ) (f : Session → Session) → ((s : Session) → V.Ok s → V.Ok (f s)) → Sound (assign p f)
  Sound-assign p f keeps = record {
    at = λ c v. elim (Option-cases (c.cell p)) [
      | inl dead ↦ subst Ends (sym (assign_dead p f c dead)) tt
      | inr (s, live) ↦
          subst Ends (sym (assign_live p s f c live))
            (write-Valid c p (f s) (keeps s (v.records p s live)) v)
    ];
  }

  free-Valid : (p : ℕ) (c : Controller) → Valid c → Valid (record c { cell = update c.cell p none })
  free-Valid p c v = record {
    records = λ q t e. elim (Bool-cases (p == q)) [
      | inl hit ↦ absurd (ground arith)
      | inr miss ↦ v.records q t (ground arith)
    ];
    defaults = v.defaults;
    warnings = v.warnings;
  }

  pub Sound-free : (p : ℕ) → Sound (free p)
  Sound-free p = record {
    at = λ c v. elim (Option-cases (c.cell p)) [
      | inl dead ↦ subst Ends (sym (free_dead p c dead)) tt
      | inr (s, live) ↦ subst Ends (sym (free_live p s c live)) (free-Valid p c v)
    ];
  }

  pub Sound-emit : (w : Warning) → V.Emits w → Sound (emit w)
  unfolding emit
  Sound-emit w may = record {
    at = λ c v. record { records = v.records; defaults = v.defaults; warnings = (may, v.warnings) };
  }

  pub Sound-ignore : {A : Type 0} (m : Action A) → Sound m → Sound (m >>= λ _. pure tt)
  Sound-ignore m sm = Sound-bind m _ sm λ _. Sound-pure tt

  -- What is read off a valid state may be used.
  pub Sound-gets_bind :
      {A B : Type 0} (g : Controller → A) (f : A → Action B)
      → ((c : Controller) → Valid c → Sound (f (g c)))
      → Sound (gets g >>= f)
  unfolding ◌>>=◌ gets
  Sound-gets_bind g f sf = record { at = λ c v. (sf c v).at c v }

  -- By `sessions.value(IP)`: a null pointer, or a session.
  pub by_session :
      {A : Type 0} (ip : QString) (n : Action A) (m : ℕ → Action A)
      → Sound n
      → ((p : ℕ) → Sound (m p))
      → Sound (gets (find_session ip) >>= λ found. elim found [ none ↦ n | some p ↦ m p ])
  by_session ip n m sn sm = Sound-bind _ _ (Sound-gets _) go
    where
      go : (found : Option ℕ) → Sound (elim found [ none ↦ n | some p ↦ m p ])
      go none = sn
      go (some p) = sm p

  pub write_then :
      {A : Type 0} (p : ℕ) (f : Session → Session) (a : A)
      → ((s : Session) → V.Ok s → V.Ok (f s))
      → Sound (assign p f >> pure a)
  write_then p f a keeps = Sound-bind _ _ (Sound-assign p f keeps) λ _. Sound-pure a

  -- A host that keeps the predicates while it runs a script.
  abbrev pub HostSound : Host → Type 0
  HostSound h = (command : QString) (timeout : ℕ) → Sound (h.run_command_exec command timeout)
