-- ===== src/Controller/Access/Records.antt =====
-- Writing, creating and removing a session record, against the access of its host.
use mathlib.Core.Path.{subst}
use wifigateway_server.Base.{
  ℕ, ◌≡◌, ◌≢◌, refl, sym, ◌∙◌, false, Option, none, some, arith, Option-cases, inl, inr,
}
use wifigateway_server.Qt.Text.{QString, QString-discrete}
use wifigateway_server.Qt.Map.{
  lookup, lookup-insert_self, lookup-insert_ne, lookup-remove_self, lookup-remove_ne,
}
use wifigateway_server.Session.{Session, is_state, started}
use wifigateway_server.Controller.State.{Controller, update}
use wifigateway_server.Controller.Operations.{fresh_session}
use wifigateway_server.Controller.Equations.{with_session, without_session}
use wifigateway_server.Controller.Machine.{View, Answer}
use wifigateway_server.Controller.Lifetime.Heap.{
  Inv, same_heap, owner_unique, write-Inv, create-Inv, remove-Inv,
}
use wifigateway_server.Controller.Refinement.Host.{view, put}
use wifigateway_server.Controller.Access.{LastAsked, has_started, Admits}
use wifigateway_server.Controller.Access.Protocol.{Grants}

has_started_found :
    (ip : QString) (p : ℕ) (s : Session) (c : Controller)
    → lookup ip c.sessions ≡ some p
    → c.cell p ≡ some s
    → has_started ip c ≡ is_state s started
has_started_found ip p s c found live = ground arith

has_started_absent :
    (ip : QString) (c : Controller) → lookup ip c.sessions ≡ none → has_started ip c ≡ false
has_started_absent ip c absent = ground arith

-- A host whose entry and record are the same in two states.
has_started_same :
    (ip : QString) (c d : Controller)
    → lookup ip d.sessions ≡ lookup ip c.sessions
    → ((p : ℕ) → lookup ip c.sessions ≡ some p → d.cell p ≡ c.cell p)
    → has_started ip d ≡ has_started ip c
has_started_same ip c d e f = elim (Option-cases (lookup ip c.sessions)) [
  | inl absent ↦ has_started_absent ip d (e ∙ absent) ∙ sym (has_started_absent ip c absent)
  | inr (p, found) ↦ ground (arith, f p found)
]

-- The record of another host is at another address.
other_cell :
    {c : Controller} (v : Inv c) (ip j : QString) (p q : ℕ) (o : Option Session)
    → lookup j c.sessions ≡ some p
    → ip ≢ j
    → lookup ip c.sessions ≡ some q
    → update c.cell p o q ≡ c.cell q
other_cell v ip j p q o found other e =
    let apart : p ≢ q = λ meet. other (owner_unique v ip j q e (rw (← meet) found)) in ground arith

module _ (dir : QString) (answer : Answer) (c : Controller) (a : Admits dir answer c) where
  pub put-Admits :
      (p : ℕ) (s : Session) (w : View)
      → c.cell p ≡ some s
      → lookup s.ip c.sessions ≡ some p
      → Grants dir answer s.ip (view s c) w
      → Admits dir answer (put p w c)
  put-Admits p s w live found g = record {
    inv =
        same_heap (record c { cell = update c.cell p (some w.session) }) (put p w c) refl refl refl
          (write-Inv p s w.session a.inv live (g.same_ip refl));
    access = λ ip. elim (QString-discrete ip s.ip) [
      | yes same ↦
          rw (same, has_started_found s.ip p w.session (put p w c) found (ground arith))
            (g.own refl (
              subst (λ b. LastAsked dir answer s.ip b c.issued)
                (has_started_found s.ip p s c found live) (a.access s.ip)))
      | no other ↦
          rw
            (has_started_same ip c (put p w c) refl
              λ q e. other_cell a.inv ip s.ip p q _ found other e)
            (g.others ip _ refl other (a.access ip))
    ];
  }

  pub without_session-Admits :
      (p : ℕ) (s : Session)
      → c.cell p ≡ some s
      → lookup s.ip c.sessions ≡ some p
      → is_state s started ≡ false
      → Admits dir answer (without_session s.ip p c)
  without_session-Admits p s live found stopped = record {
    inv = remove-Inv s.ip p a.inv found;
    access = λ ip. elim (QString-discrete ip s.ip) [
      | yes same ↦
          rw
            (
              same,
              has_started_absent s.ip (without_session s.ip p c)
                  (lookup-remove_self s.ip c.sessions a.inv.sorted),
            )
            (subst (λ b. LastAsked dir answer s.ip b c.issued)
              (has_started_found s.ip p s c found live ∙ stopped) (a.access s.ip))
      | no other ↦
          rw
            (has_started_same ip c (without_session s.ip p c)
              (lookup-remove_ne s.ip ip c.sessions other)
              λ q e. other_cell a.inv ip s.ip p q none found other e)
            (a.access ip)
    ];
  }

  pub with_session-Admits :
      (ip : QString) → lookup ip c.sessions ≡ none → Admits dir answer (with_session ip c)
  with_session-Admits j absent = record {
    inv = create-Inv j (fresh_session j c) a.inv absent refl;
    access = λ ip. elim (QString-discrete ip j) [
      | yes same ↦
          rw
            (
              same,
              has_started_found j c.next (fresh_session j c) (with_session j c)
                  (lookup-insert_self j c.next c.sessions) (ground arith),
            )
            (subst (λ b. LastAsked dir answer j b c.issued) (has_started_absent j c absent)
              (a.access j))
      | no other ↦
          rw
            (has_started_same ip c (with_session j c)
              (lookup-insert_ne j ip c.next c.sessions other) (new_cell ip))
            (a.access ip)
    ];
  }
    where
      new_cell :
          (ip : QString) (q : ℕ)
          → lookup ip c.sessions ≡ some q
          → (with_session j c).cell q ≡ c.cell q
      new_cell ip q e = let (t, live, _) = a.inv.owned ip q e in ground (arith, a.inv.fresh c.next)
