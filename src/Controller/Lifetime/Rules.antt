-- ===== src/Controller/Lifetime/Rules.antt =====
-- Safe actions: they touch live memory only, keep the invariant, and keep the sessions of some IPs
-- where they are. One rule for each way to build an action.
use wifigateway_server.Base.{
  ℕ, ◌≡◌, refl, sym, ◌≢◌, Bool, true, false, Option, none, some, List, [], ◌∷◌, if◌then◌else◌,
}
use wifigateway_server.Qt.Text.{QString}
use wifigateway_server.Qt.Map.{lookup}
use wifigateway_server.Session.{Session}
use wifigateway_server.Controller.State.{Controller, Warning}
use mathlib.Core.Path.{subst}
use wifigateway_server.Controller.Action.{
  Action, Host, pure, gets, deref, assign, emit, ◌>>=◌, ◌>>◌, deref-bind, assign_live,
}
use wifigateway_server.Controller.Operations.{find_session}
use wifigateway_server.Controller.Lifetime.Heap.{Inv, write-Inv}

abbrev pub Live : List (QString × ℕ) → Controller → Type 0
Live [] c = Unit {0}
Live ((ip, p) ∷ L) c = (lookup ip c.sessions ≡ some p) × Live L c

-- The sessions of the IPs of `K` stay where they are.
abbrev pub Keeps : (QString → Type 0) → Controller → Controller → Type 0
Keeps K c d =
    (ip : QString) (p : ℕ) → K ip → lookup ip c.sessions ≡ some p → lookup ip d.sessions ≡ some p

abbrev pub Every : QString → Type 0
Every _ = Unit {0}

abbrev pub AllBut : QString → QString → Type 0
AllBut ip j = j ≢ ip

-- An outcome that is no access to dead memory, in a state that is still in order.
abbrev pub After : {A : Type 0} → (QString → Type 0) → Controller → Option (A × Controller) → Type 0
After K c none = ⊥
After K c (some (_, d)) = Inv d × Keeps K c d

-- `m` is safe where the entries of `L` are in the map.
pub record Safe {A : Type 0} (K : QString → Type 0) (L : List (QString × ℕ)) (m : Action A)
    : Type 0 where
  pub at : (c : Controller) → Inv c → Live L c → After K c (m c)

pub Live-Keeps : (L : List (QString × ℕ)) (c d : Controller) → Keeps Every c d → Live L c → Live L d
Live-Keeps [] c d k l = tt
Live-Keeps ((ip, p) ∷ L) c d k l = (k ip p tt l.0, Live-Keeps L c d k l.1)

pub After-weaken :
    {A : Type 0} (K : QString → Type 0) (c : Controller) (o : Option (A × Controller))
    → After Every c o
    → After K c o
After-weaken K c none h = absurd h
After-weaken K c (some (a, d)) h = (h.0, λ ip p _ e. h.1 ip p tt e)

-- What a host may do while a script runs: any safe thing that removes no session.
abbrev pub Calm : Host → Type 0
Calm h = (command : QString) (timeout : ℕ) → Safe Every [] (h.run_command_exec command timeout)

module _ {A : Type 0} (K : QString → Type 0) (L : List (QString × ℕ)) where
  pub Safe-pure : (a : A) → Safe K L (pure a)
  unfolding pure
  Safe-pure a = record { at = λ c v l. (v, λ ip p _ e. e) }

  pub Safe-gets : (f : Controller → A) → Safe K L (gets f)
  unfolding gets
  Safe-gets f = record { at = λ c v l. (v, λ ip p _ e. e) }

  pub Safe-if :
      (b : Bool) (m n : Action A) → Safe K L m → Safe K L n → Safe K L (if b then m else n)
  Safe-if true m n sm sn = sm
  Safe-if false m n sm sn = sn

  pub Safe-weaken : (m : Action A) → Safe Every [] m → Safe K L m
  Safe-weaken m s = record { at = λ c v l. After-weaken K c (m c) (s.at c v tt) }

After-trans :
    {B : Type 0} (K : QString → Type 0) (c d : Controller) (o : Option (B × Controller))
    → Keeps Every c d
    → After K d o
    → After K c o
After-trans K c d none k h = absurd h
After-trans K c d (some (b, e)) k h = (h.0, λ ip p w f. h.1 ip p w (k ip p tt f))

module _ {A B : Type 0} (K : QString → Type 0) (L : List (QString × ℕ)) where
  After-bind :
      (f : A → Action B) (c : Controller) (o : Option (A × Controller))
      → Live L c
      → After Every c o
      → ((a : A) → Safe K L (f a))
      → After K c (elim o [ none ↦ none | some (a, d) ↦ f a d ])
  After-bind f c none l h sf = absurd h
  After-bind f c (some (a, d)) l h sf =
      After-trans K c d (f a d) h.1 ((sf a).at d h.0 (Live-Keeps L c d h.1 l))

  pub Safe-bind :
      (m : Action A) (f : A → Action B)
      → Safe Every L m
      → ((a : A) → Safe K L (f a))
      → Safe K L (m >>= f)
  unfolding ◌>>=◌
  Safe-bind m f sm sf = record { at = λ c v l. After-bind f c (m c) l (sm.at c v l) sf }

module _ {B : Type 0} (K : QString → Type 0) (L : List (QString × ℕ)) where
  After-find :
      (ip : QString) (f : Option ℕ → Action B) (c : Controller) (o : Option ℕ)
      → lookup ip c.sessions ≡ o
      → Inv c
      → Live L c
      → Safe K L (f none)
      → ((p : ℕ) → Safe K ((ip, p) ∷ L) (f (some p)))
      → After K c (f o c)
  After-find ip f c none e v l sn ss = sn.at c v l
  After-find ip f c (some p) e v l sn ss = (ss p).at c v (e, l)

  -- What `sessions.value(IP)` returns is live in what follows.
  pub Safe-find :
      (ip : QString) (f : Option ℕ → Action B)
      → Safe K L (f none)
      → ((p : ℕ) → Safe K ((ip, p) ∷ L) (f (some p)))
      → Safe K L (gets (find_session ip) >>= f)
  unfolding ◌>>=◌
  Safe-find ip f sn ss = record {
    at = λ c v l. After-find ip f c (lookup ip c.sessions) refl v l sn ss;
  }

  -- A read of a live record, whose IP is its key.
  pub Safe-deref :
      (ip : QString) (p : ℕ) (f : Session → Action B)
      → ((s : Session) → s.ip ≡ ip → Safe K ((ip, p) ∷ L) (f s))
      → Safe K ((ip, p) ∷ L) (deref p >>= f)
  Safe-deref ip p f sf = record {
    at = λ c v l.
        let (s, e, named) = v.owned ip p l.0 in
        subst (After K c) (sym (deref-bind p s f c e)) ((sf s named).at c v l);
  }

module _ (L : List (QString × ℕ)) where
  pub Safe-assign :
      (ip : QString) (p : ℕ) (f : Session → Session)
      → ((s : Session) → (f s).ip ≡ s.ip)
      → Safe Every ((ip, p) ∷ L) (assign p f)
  Safe-assign ip p f same = record {
    at = λ c v l.
        let (s, e, named) = v.owned ip p l.0 in
        subst (After Every c) (sym (assign_live p s f c e))
          (write-Inv p s (f s) v e (same s), λ j q _ k. k);
  }

  pub Safe-emit : (w : Warning) → Safe Every L (emit w)
  unfolding emit
  Safe-emit w = record {
    at = λ c v l. (
      record { sorted = v.sorted; owned = v.owned; no_leak = v.no_leak; fresh = v.fresh },
      λ j q _ k. k,
    );
  }

module _ {A : Type 0} (K : QString → Type 0) (L : List (QString × ℕ)) where
  -- The pattern `action; return a;`.
  pub Safe-then_pure : (m : Action Unit) (a : A) → Safe Every L m → Safe K L (m >> pure a)
  Safe-then_pure m a sm = Safe-bind K L m _ sm (λ _. Safe-pure K L a)

  pub Safe-if_then_pure :
      (b : Bool) (m : Action Unit) (a : A)
      → Safe Every L m
      → Safe K L (if b then m >> pure a else pure a)
  Safe-if_then_pure b m a sm = Safe-if K L b _ _ (Safe-then_pure m a sm) (Safe-pure K L a)

-- A host that is calm is safe to call anywhere.
pub Calm-Safe :
    (h : Host) (calm : Calm h) (L : List (QString × ℕ)) (command : QString) (timeout : ℕ)
    → Safe Every L (h.run_command_exec command timeout)
Calm-Safe h calm L command timeout = Safe-weaken Every L _ (calm command timeout)

-- The IPs of no session in particular.
abbrev pub Nothing : QString → Type 0
Nothing _ = ⊥

module _ {A B : Type 0} (K : QString → Type 0) where
  -- The rest of an action after a part that may remove sessions.
  pub After-seq :
      (c : Controller) (m : Action A) (f : A → Action B)
      → After K c (m c)
      → ((a : A) (d : Controller) → Inv d → Keeps K c d → After Nothing d (f a d))
      → After Nothing c ((m >>= f) c)
  unfolding ◌>>=◌
  After-seq c m f h rest = seq (m c) h
    where
      drop : (d : Controller) (o : Option (B × Controller)) → After Nothing d o → After Nothing c o
      drop d none h' = absurd h'
      drop d (some (b, e)) h' = (h'.0, λ ip p w g. absurd w)

      seq :
          (o : Option (A × Controller))
          → After K c o
          → After Nothing c (elim o [ none ↦ none | some (a, d) ↦ f a d ])
      seq none h' = absurd h'
      seq (some (a, d)) h' = drop d (f a d) (rest a d h'.0 h'.1)

  pub Safe-last_pure :
      (L : List (QString × ℕ)) (m : Action A) (b : B) → Safe K L m → Safe K L (m >>= λ _. pure b)
  unfolding ◌>>=◌
  Safe-last_pure L m b sm = record { at = λ c v l. seq c (m c) (sm.at c v l) }
    where
      seq :
          (c : Controller) (o : Option (A × Controller))
          → After K c o
          → After K c (elim o [ none ↦ none | some (a, d) ↦ some (b, d) ])
      seq c none h = absurd h
      seq c (some (a, d)) h = h

-- What removes nothing may stand where less is asked.
pub Safe-only :
    {A : Type 0} (K : QString → Type 0) (L : List (QString × ℕ)) (m : Action A)
    → Safe Every L m
    → Safe K L m
Safe-only K L m sm = record { at = λ c v l. After-weaken K c (m c) (sm.at c v l) }
