-- ===== src/Controller/Refinement/Round.antt =====
-- One round of the loop of `tick` on a steady host, for the session that it is for and for the
-- others.
use wifigateway_server.Base.{
  ℕ, ◌≡◌, refl, ap, ◌∙◌, ◌≢◌, true, false, none, some, arith, Bool-cases, inl, inr,
}
use wifigateway_server.Base.Int.{ℤ}
use wifigateway_server.Qt.Text.{QString, QString-discrete}
use wifigateway_server.Qt.Map.{lookup, remove, lookup-remove_ne, lookup-remove_self}
use wifigateway_server.Session.{Session}
use wifigateway_server.Controller.State.{Controller}
use wifigateway_server.Controller.Timer.{tick_session}
use wifigateway_server.Controller.Equations.{without_session}
use wifigateway_server.Controller.Machine.{second, is_forgotten}
use wifigateway_server.Controller.Lifetime.Heap.{
  Inv, same_heap, owner_unique, write-Inv, remove-Inv,
}
use wifigateway_server.Controller.Refinement.Host.{quiet, view, put}
use wifigateway_server.Controller.Refinement.Tick.{tick_session_lem}
use wifigateway_server.Controller.Refinement.Steady.{steady, next_second, second-alone}
use wifigateway_server.Controller.Refinement.Second.{second-ip}

-- The session of `ip` stands at `p`.
abbrev pub Holds : Controller → QString → ℕ → Session → Type 0
Holds c ip p s = (lookup ip c.sessions ≡ some p) × (c.cell p ≡ some s)

-- What a tick makes of a session: it goes, or it lives one second.
abbrev pub Ticked : QString → (QString → ℤ) → QString → ℕ → Session → Controller → Type 0
Ticked dir reply ip p s d =
    (is_forgotten s ≡ true → lookup ip d.sessions ≡ none)
    × (is_forgotten s ≡ false → Holds d ip p (next_second dir reply s))

-- The session of `k` is ticked, and the others are as they were.
pub record Round (dir : QString) (reply : QString → ℤ) (k : QString) (c d : Controller)
    : Type 0 where
  pub inv : Inv d
  pub ticked : (p : ℕ) (s : Session) → Holds c k p s → Ticked dir reply k p s d
  pub kept : (ip : QString) (p : ℕ) (s : Session) → ip ≢ k → Holds c ip p s → Holds d ip p s
  pub absent : (ip : QString) → lookup ip c.sessions ≡ none → lookup ip d.sessions ≡ none

-- Sessions of two IPs stand at two addresses.
apart :
    {c : Controller} (v : Inv c) (ip k : QString) (p q : ℕ)
    → ip ≢ k
    → lookup ip c.sessions ≡ some p
    → lookup k c.sessions ≡ some q
    → q ≢ p
apart v ip k p q other e f meet = other (owner_unique v ip k p e (rw (← meet) f))

module _ (dir : QString) (reply : QString → ℤ) (q : ℕ) (t : Session) (c : Controller) (v : Inv c)
    (h : Holds c t.ip q t) where
  same_session : (p : ℕ) (s : Session) → Holds c t.ip p s → (q ≡ p) × (s ≡ t)
  same_session p s g = ground arith

  remove-absent :
      (ip : QString) → lookup ip c.sessions ≡ none → lookup ip (remove t.ip c.sessions) ≡ none
  remove-absent ip e = elim (QString-discrete ip t.ip) [
    | yes same ↦ ground (arith, ap (λ (k : QString). lookup k c.sessions) same)
    | no other ↦ lookup-remove_ne t.ip ip c.sessions other ∙ e
  ]

  -- The session of `t.ip` is `t` at `q`, so that it is enough to speak of these.
  all-Ticked :
      (d : Controller)
      → Ticked dir reply t.ip q t d
      → (p : ℕ) (s : Session) → Holds c t.ip p s
      → Ticked dir reply t.ip p s d
  all-Ticked d k p s g = let (at, same) = same_session p s g in rw (same, ← at) k

  -- The round of a session that goes.
  gone-Round : is_forgotten t ≡ true → Round dir reply t.ip c (without_session t.ip q c)
  gone-Round f = record {
    inv = remove-Inv t.ip q v h.0;
    ticked =
        all-Ticked (without_session t.ip q c)
          (λ _. lookup-remove_self t.ip c.sessions v.sorted, λ stays. absurd (clash stays));
    kept = λ ip p s other g. (
      lookup-remove_ne t.ip ip c.sessions other ∙ g.0,
      ground (arith, apart v ip t.ip p q other g.0 h.0),
    );
    absent = remove-absent;
  }
    where
      clash : is_forgotten t ≡ false → ⊥
      clash stays = cc

  -- The round of a session that stays.
  stays-Round :
      is_forgotten t ≡ false
      → Round dir reply t.ip c (put q (second dir (steady reply) t.state (view t c)) c)
  stays-Round f = record {
    inv = same_heap _ _ refl refl refl (
        write-Inv q t (second dir (steady reply) t.state (view t c)).session v h.1
          (second-ip dir (steady reply) t.state (view t c)));
    ticked = all-Ticked (put q (second dir (steady reply) t.state (view t c)) c) (
      λ goes. absurd (clash goes),
      λ _. (h.0, ground (arith, second-alone dir reply t.state (view t c))),
    );
    kept = λ ip p s other g. (g.0, ground (arith, apart v ip t.ip p q other g.0 h.0));
    absent = λ ip e. e;
  }
    where
      clash : is_forgotten t ≡ true → ⊥
      clash goes = cc

  pub session-Round :
      (d : Controller) × (tick_session (quiet dir (steady reply)) q c ≡ some (tt, d))
      × Round dir reply t.ip c d
  session-Round = elim (Bool-cases (is_forgotten t)) [
    | inl goes ↦ (
      without_session t.ip q c,
      ground (arith, tick_session_lem dir (steady reply) q t c h.1 h.0),
      gone-Round goes,
    )
    | inr stays ↦ (
      put q (second dir (steady reply) t.state (view t c)) c,
      ground (arith, tick_session_lem dir (steady reply) q t c h.1 h.0),
      stays-Round stays,
    )
  ]
