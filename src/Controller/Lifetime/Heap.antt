-- ===== src/Controller/Lifetime/Heap.antt =====
-- The invariant between `sessions` and the heap, and the two writes that move a record in or out.
use wifigateway_server.Base.{
  ℕ, suc, ◌≤◌, ◌≡◌, refl, sym, ap, ◌∙◌, ◌≢◌, none, some, inl, inr, arith, ◌==◌, Bool-cases,
}
use wifigateway_server.Qt.Text.{QString, QString-discrete}
use wifigateway_server.Qt.Map.{
  lookup, insert, remove, ne-of-lookup, IsSorted, lookup-insert_self, lookup-insert_ne,
  insert-IsSorted, remove-IsSorted, lookup-remove_self, lookup-remove_ne,
}
use wifigateway_server.Session.{Session}
use wifigateway_server.Controller.State.{Controller, update, new_controller}

-- Each key owns a live record of its own IP, each live record stands in the map, and memory from
-- `next` on is free.
pub record Inv (c : Controller) : Type 0 where
  pub sorted : IsSorted c.sessions
  pub owned :
      (ip : QString) (p : ℕ)
      → lookup ip c.sessions ≡ some p
      → (s : Session) × (c.cell p ≡ some s) × (s.ip ≡ ip)
  pub no_leak : (p : ℕ) (s : Session) → c.cell p ≡ some s → lookup s.ip c.sessions ≡ some p
  pub fresh : (p : ℕ) → c.next ≤ p → c.cell p ≡ none

pub new_controller-Inv : Inv new_controller
unfolding lookup
new_controller-Inv = record {
  sorted = tt;
  owned = λ ip p e. cc;
  no_leak = λ p s e. cc;
  fresh = λ p _. refl;
}

-- The invariant speaks of the map, the heap and `next` only.
pub same_heap :
    (c d : Controller) → d.sessions ≡ c.sessions → d.cell ≡ c.cell → d.next ≡ c.next → Inv c → Inv d
same_heap c d es ec en v = record {
  sorted = rw es v.sorted;
  owned = rw (es, ec) v.owned;
  no_leak = rw (es, ec) v.no_leak;
  fresh = rw (ec, en) v.fresh;
}

-- One record belongs to one key.
pub owner_unique :
    {c : Controller} (v : Inv c) (i j : QString) (p : ℕ)
    → lookup i c.sessions ≡ some p
    → lookup j c.sessions ≡ some p
    → i ≡ j
owner_unique v i j p e f = let (s, se, si) = v.owned i p e in let (t, te, ti) = v.owned j p f in cc

-- A write into a live record that leaves its IP alone.
pub write-Inv :
    {c : Controller} (p : ℕ) (s t : Session)
    → Inv c
    → c.cell p ≡ some s
    → t.ip ≡ s.ip
    → Inv (record c { cell = update c.cell p (some t) })
write-Inv {c} p s t v e same = record {
  sorted = v.sorted;
  owned = λ ip q f.
      let (u, ue, ui) = v.owned ip q f in
      elim (Bool-cases (p == q)) [
        | inl hit ↦ (t, ground arith, ground arith)
        | inr miss ↦ (u, ground arith, ui)
      ];
  no_leak = λ q u f. ground (arith, v.no_leak q u, v.no_leak p s);
  fresh = λ q le. ground (arith, v.fresh q le);
}

-- `new` and `insert` together, for an IP that is not there.
module _ {c : Controller} (ip : QString) (s : Session) (v : Inv c)
    (absent : lookup ip c.sessions ≡ none) (named : s.ip ≡ ip) where
  created : Controller
  created = record c {
    cell = update c.cell c.next (some s);
    next = suc c.next;
    sessions = insert ip c.next c.sessions;
  }

  created_owned :
      (j : QString) (p : ℕ)
      → lookup j created.sessions ≡ some p
      → (t : Session) × (created.cell p ≡ some t) × (t.ip ≡ j)
  unfolding created
  created_owned j p e = elim (QString-discrete j ip) [
    | yes same ↦ (s, ground (arith, lookup-insert_self ip c.next c.sessions), named ∙ sym same)
    | no other ↦
        let (t, te, ti) = v.owned j p (sym (lookup-insert_ne ip j c.next c.sessions other) ∙ e) in
        (t, ground (arith, v.fresh c.next), ti)
  ]

  created_no_leak :
      (p : ℕ) (t : Session) → created.cell p ≡ some t → lookup t.ip created.sessions ≡ some p
  unfolding created
  created_no_leak p t e = elim (Bool-cases (c.next == p)) [
    | inl hit ↦ ground (arith, named, lookup-insert_self ip c.next c.sessions)
    | inr miss ↦
        let f : lookup t.ip c.sessions ≡ some p = v.no_leak p t (ground arith) in
        lookup-insert_ne ip t.ip c.next c.sessions (ne-of-lookup c.sessions t.ip ip f absent) ∙ f
  ]

  pub create-Inv : Inv (record c {
    cell = update c.cell c.next (some s);
    next = suc c.next;
    sessions = insert ip c.next c.sessions;
  })
  unfolding created
  create-Inv = record {
    sorted = insert-IsSorted ip c.next c.sessions v.sorted;
    owned = created_owned;
    no_leak = created_no_leak;
    fresh = λ q le. ground (arith, v.fresh q);
  }

-- `remove` and `delete` together.
module _ {c : Controller} (ip : QString) (p : ℕ) (v : Inv c)
    (found : lookup ip c.sessions ≡ some p) where
  removed : Controller
  removed = record c { cell = update c.cell p none; sessions = remove ip c.sessions }

  removed_owned :
      (j : QString) (q : ℕ)
      → lookup j removed.sessions ≡ some q
      → (t : Session) × (removed.cell q ≡ some t) × (t.ip ≡ j)
  unfolding removed
  removed_owned j q e = elim (QString-discrete j ip) [
    | yes same ↦ ground (
      arith,
      lookup-remove_self ip c.sessions v.sorted,
      ap (λ (k : QString). lookup k (remove ip c.sessions)) same,
    )
    | no other ↦
        let f : lookup j c.sessions ≡ some q = sym (lookup-remove_ne ip j c.sessions other) ∙ e in
        let (t, te, ti) = v.owned j q f in
        let apart : p ≢ q = λ meet. other (owner_unique v j ip q f (rw (← meet) found)) in
        (t, ground arith, ti)
  ]

  removed_no_leak :
      (q : ℕ) (t : Session) → removed.cell q ≡ some t → lookup t.ip removed.sessions ≡ some q
  unfolding removed
  removed_no_leak q t e =
      let f : lookup t.ip c.sessions ≡ some q = ground (arith, v.no_leak q t) in
      let other : t.ip ≢ ip =
        λ same. ground (arith, ap (λ (k : QString). lookup k c.sessions) same) in
      lookup-remove_ne ip t.ip c.sessions other ∙ f

  pub remove-Inv : Inv (record c { cell = update c.cell p none; sessions = remove ip c.sessions })
  unfolding removed
  remove-Inv = record {
    sorted = remove-IsSorted ip c.sessions v.sorted;
    owned = removed_owned;
    no_leak = removed_no_leak;
    fresh = λ q le. ground (arith, v.fresh q);
  }
