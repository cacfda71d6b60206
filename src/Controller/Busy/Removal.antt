-- ===== src/Controller/Busy/Removal.antt =====
-- The removals on a busy runner, and a session that has not ended.
use mathlib.Core.Path.{subst}
use wifigateway_server.Base.{
  ℕ, ◌≡◌, ◌≢◌, sym, ap, ◌∙◌, true, false, none, some, arith, Bool-cases, Option-cases, inl, inr,
}
use wifigateway_server.Qt.Text.{QString, is_empty}
use wifigateway_server.Qt.Map.{lookup, key_of}
use wifigateway_server.Session.{Session, SessionState, ended, is_state}
use wifigateway_server.Controller.State.{Controller}
use wifigateway_server.Controller.Action.{pure, ◌>>=◌}
use wifigateway_server.Controller.Operations.{
  success, failure, remove_session, remove_session_at, close_session, end_session, delete_session,
}
use wifigateway_server.Controller.Equations.{
  without_session, remove_session_absent, remove_session_present, remove_session_at_named,
  remove_session_at_unnamed,
}
use wifigateway_server.Controller.Lifetime.Removal.{key_of_owned}
use wifigateway_server.Controller.Reentrancy.{busy}
use wifigateway_server.Controller.Busy.Rules.{Good, Leads, Firm, without_session-Good}
use wifigateway_server.Controller.Busy.Operations.{ended_state}

-- deleteSession of a session, by whether it has ended.
module _ (dir : QString) (j : QString) (q : ℕ) (s : Session) (c : Controller)
    (at : lookup j c.sessions ≡ some q) (live : c.cell q ≡ some s) where
  delete_running : is_state s ended ≡ false → delete_session (busy dir) j c ≡ some (failure, c)
  unfolding delete_session end_session close_session ◌>>=◌ pure
  delete_running e = ground arith

  delete_ended :
      {d : Controller}
      → is_state s ended ≡ true
      → remove_session_at q c ≡ some (tt, d)
      → delete_session (busy dir) j c ≡ some (success, d)
  unfolding delete_session end_session ◌>>=◌ pure
  delete_ended e f = ground arith

delete_absent :
    (dir j : QString) (c : Controller)
    → lookup j c.sessions ≡ none
    → delete_session (busy dir) j c ≡ some (failure, c)
unfolding delete_session ◌>>=◌
delete_absent dir j c absent = ground arith

module _ (ip : QString) (p : ℕ) (st : SessionState) (running : st ≢ ended) where
  -- A session that has ended is another one.
  pub ended_other :
      (j : QString) (q : ℕ) (s : Session) (c : Controller)
      → Good ip p st c
      → lookup j c.sessions ≡ some q
      → c.cell q ≡ some s
      → s.state ≡ ended
      → ip ≢ j
  ended_other j q s c g at live over same =
      let (t, lives, state) = g.held in
      let here : some q ≡ some p =
        sym at ∙ ap (λ (k : QString). lookup k c.sessions) (sym same) ∙ g.found in
      let twin : some s ≡ some t = sym live ∙ ap c.cell (some_eq here) ∙ lives in
      running (sym state ∙ ap (λ (u : Session). u.state) (sym (some_eq twin)) ∙ over)
    where
      some_eq : {A : Type 0} {a b : A} → some a ≡ some b → a ≡ b
      some_eq e = cc

  removed_at :
      (j : QString) (q : ℕ) (s : Session) (c : Controller)
      → Good ip p st c
      → lookup j c.sessions ≡ some q
      → c.cell q ≡ some s
      → ip ≢ j
      → (d : Controller) × (remove_session_at q c ≡ some (tt, d)) × Good ip p st d
  removed_at j q s c g at live other =
      let owner = key_of_owned g.inv j q at in
      elim (Bool-cases (is_empty (key_of q c.sessions))) [
        | inl unnamed ↦ (c, remove_session_at_unnamed q c unnamed, g)
        | inr named ↦ (
          without_session (key_of q c.sessions) q c,
          remove_session_at_named q c named live,
          subst (λ (k : QString). Good ip p st (without_session k q c)) (sym owner)
              (without_session-Good ip p st j q c at other g),
        )
      ]

  pub delete_session-Firm : (dir j : QString) → Firm ip p st (delete_session (busy dir) j)
  delete_session-Firm dir j = record {
    at = λ c g. elim (Option-cases (lookup j c.sessions)) [
      | inl absent ↦ subst (Leads ip p st) (sym (delete_absent dir j c absent)) g
      | inr (q, found) ↦
          let (s, live, _) = g.inv.owned j q found in
          elim (Bool-cases (is_state s ended)) [
            | inl over ↦
                let other = ended_other j q s c g found live (ended_state s over) in
                let (d, ran, g') = removed_at j q s c g found live other in
                subst (Leads ip p st) (sym (delete_ended dir j q s c found live over ran)) g'
            | inr runs ↦ subst (Leads ip p st) (sym (delete_running dir j q s c found live runs)) g
          ]
    ];
  }

  pub remove_other :
      (j : QString) (c : Controller) → Good ip p st c → ip ≢ j → Leads ip p st (remove_session j c)
  remove_other j c g other = elim (Option-cases (lookup j c.sessions)) [
    | inl absent ↦ subst (Leads ip p st) (sym (remove_session_absent j c absent)) g
    | inr (q, found) ↦
        let (s, live, _) = g.inv.owned j q found in
        subst (Leads ip p st) (sym (remove_session_present j c found live))
          (without_session-Good ip p st j q c found other g)
  ]
