-- ===== src/Controller/Lifetime/Cleanup.antt =====
-- `clearSessions`, on the heap.
use mathlib.Core.Path.{fun_ext}
use wifigateway_server.Base.{
  ℕ, ◌≡◌, refl, ap, ◌∙◌, ◌≢◌, Bool, true, false, Option, none, some, List, [], ◌∷◌, arith, ◌==◌,
  if◌then◌else◌, ◌||◌, inl, inr, Option-cases,
}
use wifigateway_server.Qt.Text.{QString}
use wifigateway_server.Qt.Map.{QMap, lookup, values, Above, Above-ne, IsSorted}
use wifigateway_server.Session.{Session}
use wifigateway_server.Controller.State.{Controller, update}
use wifigateway_server.Controller.Action.{free-bind, pure, ◌>>=◌}
use wifigateway_server.Controller.Settings.{free_each, clear_sessions}
use wifigateway_server.Controller.Lifetime.Heap.{Inv}
use wifigateway_server.Controller.Lifetime.Rules.{Live}
use wifigateway_server.Controller.Lifetime.Tick.{Live-self}

-- Some address of the list.
abbrev pub occurs : ℕ → List ℕ → Bool
occurs q [] = false
occurs q (p ∷ ps) = p == q || occurs q ps

-- The heap after the addresses of the list are deleted.
abbrev pub cleared : List ℕ → (ℕ → Option Session) → ℕ → Option Session
cleared ps cell q = if occurs q ps then none else cell q

-- The entries own live records of their own IPs.
abbrev pub Owned : QMap ℕ → Controller → Type 0
Owned [] c = Unit {0}
Owned ((k, p) ∷ m) c = ((s : Session) × (c.cell p ≡ some s) × (s.ip ≡ k)) × Owned m c

Owned-free :
    (k : QString) (p : ℕ) (s : Session) (m : QMap ℕ) (c : Controller)
    → c.cell p ≡ some s
    → s.ip ≡ k
    → Above k m
    → Owned m c
    → Owned m (record c { cell = update c.cell p none })
Owned-free k p s [] c e i a o = tt
Owned-free k p s ((j, q) ∷ m) c e i a o =
    let (t, te, ti) = o.0 in
    let apart : j ≢ k = Above-ne k j a.0 in
    ((t, ground (arith, apart), ti), Owned-free k p s m c e i a.1 o.1)

cleared-cons :
    (p : ℕ) (ps : List ℕ) (cell : ℕ → Option Session)
    → cleared ps (update cell p none) ≡ cleared (p ∷ ps) cell
cleared-cons p ps cell = fun_ext λ q. ground arith

free_each-values :
    (m : QMap ℕ) (c : Controller)
    → IsSorted m
    → Owned m c
    → free_each (values m) c ≡ some (tt, record c { cell = cleared (values m) c.cell })
unfolding free_each pure
free_each-values [] c s o = refl
free_each-values ((k, p) ∷ m) c s ((t, e, i), o) =
    free-bind p t (λ _. free_each (values m)) c e
    ∙ free_each-values m (record c { cell = update c.cell p none }) s.1
        (Owned-free k p t m c e i s.0 o)
    ∙ ap (λ (f : ℕ → Option Session). some (tt, record c { cell = f }))
        (cleared-cons p (values m) c.cell)

Owned-Live : (m : QMap ℕ) (c : Controller) → Inv c → Live m c → Owned m c
Owned-Live [] c v l = tt
Owned-Live ((k, p) ∷ m) c v l = (v.owned k p l.0, Owned-Live m c v l.1)

occurs-lookup :
    (k : QString) (q : ℕ) (m : QMap ℕ) → lookup k m ≡ some q → occurs q (values m) ≡ true
unfolding lookup
occurs-lookup k q [] e = cc
occurs-lookup k q ((j, p) ∷ m) e = ground (arith, occurs-lookup k q m)

cleared_all : (c : Controller) → Inv c → cleared (values c.sessions) c.cell ≡ (λ _. none)
cleared_all c v = fun_ext λ q. elim (Option-cases (c.cell q)) [
  | inl e ↦ ground arith
  | inr (s, e) ↦ rw (occurs-lookup s.ip q c.sessions (v.no_leak q s e)) refl
]

-- In a controller that is in order `clearSessions` succeeds: it deletes every record exactly once,
-- and nothing is left in the map or on the heap.
pub clear_sessions_lem :
    (c : Controller)
    → Inv c
    → clear_sessions c ≡ some (tt, record c { sessions = []; cell = λ _. none })
unfolding clear_sessions ◌>>=◌
clear_sessions_lem c v =
    let freed =
      free_each-values c.sessions c v.sorted
        (Owned-Live c.sessions c v (Live-self c.sessions c v.sorted)) in
    ground (arith, freed, cleared_all c v)
