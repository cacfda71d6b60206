-- ===== src/Controller/Lifetime/Removal.antt =====
-- The operations that remove a session: deleteSession and the two removeSession, on the heap.
use mathlib.Core.Path.{subst}
use wifigateway_server.Base.{
  ℕ, ◌≡◌, refl, sym, ◌∙◌, Option, none, some, List, ◌∷◌, inl, inr, Bool-cases,
}
use wifigateway_server.Base.Int.{is_zero}
use wifigateway_server.Qt.Text.{QString, is_empty}
use wifigateway_server.Qt.Map.{lookup, key_of, lookup-remove_ne, lookup-key_of}
use wifigateway_server.Controller.State.{Controller}
use wifigateway_server.Controller.Action.{Host}
use wifigateway_server.Controller.Operations.{
  failure, remove_session, remove_session_at, delete_session,
}
use wifigateway_server.Controller.Equations.{
  remove_session_absent, remove_session_present, remove_session_at_named, remove_session_at_unnamed,
}
use wifigateway_server.Controller.Lifetime.Heap.{Inv, owner_unique, remove-Inv}
use wifigateway_server.Controller.Lifetime.Rules.{
  AllBut, After, Safe, Calm, Safe-pure, Safe-if, Safe-bind, Safe-find, Safe-last_pure,
}
use wifigateway_server.Controller.Lifetime.Sessions.{end_session-Safe}

module _ (L : List (QString × ℕ)) (ip : QString) where
  remove_session-After :
      (c : Controller) (o : Option ℕ)
      → lookup ip c.sessions ≡ o
      → Inv c
      → After (AllBut ip) c (remove_session ip c)
  remove_session-After c none e v =
      subst (After (AllBut ip) c) (sym (remove_session_absent ip c e)) (v, λ j q _ f. f)
  remove_session-After c (some p) e v =
      let (s, live, _) = v.owned ip p e in
      subst (After (AllBut ip) c) (sym (remove_session_present ip c e live))
        (remove-Inv ip p v e, λ j q other f. lookup-remove_ne ip j c.sessions other ∙ f)

  pub remove_session-Safe : Safe (AllBut ip) L (remove_session ip)
  remove_session-Safe = record {
    at = λ c v l. remove_session-After c (lookup ip c.sessions) refl v;
  }

-- `sessions.key(session)` finds the IP that the session stands under.
pub key_of_owned :
    {c : Controller} (v : Inv c) (ip : QString) (p : ℕ)
    → lookup ip c.sessions ≡ some p
    → key_of p c.sessions ≡ ip
key_of_owned {c} v ip p e =
    owner_unique v (key_of p c.sessions) ip p (lookup-key_of p c.sessions ip v.sorted e) e

module _ (L : List (QString × ℕ)) (ip : QString) (p : ℕ) where
  remove_session_at-After :
      (c : Controller)
      → Inv c
      → lookup ip c.sessions ≡ some p
      → After (AllBut ip) c (remove_session_at p c)
  remove_session_at-After c v e = elim (Bool-cases (is_empty (key_of p c.sessions))) [
    | inl unnamed ↦
        subst (After (AllBut ip) c) (sym (remove_session_at_unnamed p c unnamed)) (v, λ j q _ f. f)
    | inr named ↦
        let (s, live, _) = v.owned ip p e in
        let owner = key_of_owned v ip p e in
        subst (After (AllBut ip) c) (sym (remove_session_at_named p c named live)) (
          rw owner (remove-Inv ip p v e, λ j q other f. lookup-remove_ne ip j c.sessions other ∙ f))
  ]

  pub remove_session_at-Safe : Safe (AllBut ip) ((ip, p) ∷ L) (remove_session_at p)
  remove_session_at-Safe = record { at = λ c v l. remove_session_at-After c v l.0 }

pub delete_session-Safe :
    (h : Host) (calm : Calm h) (L : List (QString × ℕ)) (ip : QString)
    → Safe (AllBut ip) L (delete_session h ip)
unfolding delete_session
delete_session-Safe h calm L ip = Safe-find (AllBut ip) L ip _ (Safe-pure _ L failure) λ p.
    Safe-bind _ _ _ _ (end_session-Safe h calm _ ip) λ r.
      Safe-if _ _ (is_zero r) _ _ (Safe-last_pure _ _ _ r (remove_session_at-Safe L ip p))
        (Safe-pure _ _ r)
