-- ===== src/Process/Masks.antt =====
-- Sequences of calls under `ec_neg1` that end with a new mask.
use wifigateway_server.Base.{ℕ, ◌≡◌, refl, ◌∙◌, ap, Bool, none, some, arith, ◌⊎◌, inl, inr}
use wifigateway_server.Process.Acts.{Actions, Acts, ec_neg1-call}
use wifigateway_server.Process.Signals.{
  Os, SigSet, all_signals, Ec, return, ◌>>=◌, ec_neg1, sigprocmask,
}

-- With every signal blocked before it, `m` is given up with every signal blocked, or returns `a`,
-- has changed the actions by `g`, and blocks `set`.
pub record Last {A : Type 0} (m : Ec A) (a : A) (g : Actions → Actions) (set : SigSet)
    : Type 0 where
  pub at :
      (os : Os)
      → os.blocked ≡ all_signals
      → ((m os).1.cleanup ≡ os.cleanup)
        × (((m os).0 ≡ none) × ((m os).1.blocked ≡ all_signals)
            ⊎ ((m os).0 ≡ some a) × ((m os).1.blocked ≡ set) × ((m os).1.action ≡ g os.action))

pub Last-bind :
    {A B : Type 0} (m : Ec A) (f : A → Ec B) (a : A) (b : B) (g h : Actions → Actions)
    (set : SigSet)
    → Acts m a g
    → Last (f a) b h set
    → Last (m >>= f) b (λ x. h (g x)) set
unfolding ◌>>=◌
Last-bind m f a b g h set r s = record {
  at = λ os e.
      let (blocked, same, ends) = r.at os e in
      elim ends [
        | inl out ↦ rw (out, ◌>>=◌) (same, inl (refl, blocked))
        | inr (through, acted) ↦
            let (same', ends') = s.at (m os).1 blocked in
            rw (through, ◌>>=◌)
              (
                same' ∙ same,
                elim ends' [
                  | inl out ↦ inl out
                  | inr (through', masked, acted') ↦ inr (through', masked, acted' ∙ ap h acted)
                ],
              )
      ];
}

pub Last-return :
    {A B : Type 0} (m : Ec A) (a : A) (b : B) (g : Actions → Actions) (set : SigSet)
    → Last m a g set
    → Last (m >>= λ _. return b) b g set
unfolding ◌>>=◌ return
Last-return m a b g set r = record {
  at = λ os e.
      let (same, ends) = r.at os e in
      elim ends [
        | inl (out, blocked) ↦ rw (out, ◌>>=◌) (same, inl (refl, blocked))
        | inr (through, masked, acted) ↦ rw (through, ◌>>=◌) (same, inr (refl, masked, acted))
      ];
}

module _ {A B : Type 0} (m : Ec A) (f : A → Ec B) where
  pub bind_none : (os o : Os) → m os ≡ (none, o) → (m >>= f) os ≡ (none, o)
  unfolding ◌>>=◌
  bind_none os o e = ground arith

  pub bind_some : (a : A) (os o : Os) → m os ≡ (some a, o) → (m >>= f) os ≡ f a o
  unfolding ◌>>=◌
  bind_some a os o e = ground arith

module _ (refuses : ℕ → Bool) where
  pub sigprocmask-Last : (set : SigSet) → Last (ec_neg1 (sigprocmask refuses set)) tt (λ f. f) set
  sigprocmask-Last set = record {
    at = λ os e. elim (ec_neg1-call refuses (λ o. record o { blocked = set }) os) [
      | inl (_, out) ↦ rw out (refl, inl (refl, e))
      | inr (_, through) ↦ rw through (refl, inr (refl, refl, refl))
    ];
  }
