-- ===== src/Process/Acts.antt =====
-- Calls under `ec_neg1` made while every signal is blocked, and their sequences.
use wifigateway_server.Base.{
  ℕ, suc, ◌≡◌, refl, ◌∙◌, ap, Bool, true, false, none, some, arith, ◌⊎◌, inl, inr, Bool-cases, ◌==◌,
  if◌then◌else◌,
}
use wifigateway_server.Process.Numbers.{
  sighup, sigint, sigquit, sigill, sigbus, sigfpe, sigsegv, sigpipe, sigterm, sigxcpu, sigxfsz,
  sigsys,
}
use wifigateway_server.Process.Signals.{
  Os, SigAction, all_signals, Ec, return, ◌>>=◌, ec_neg1, call, sigaction, ignore_signals,
  catch_signals,
}

abbrev pub Actions : Type 0
Actions = ℕ → SigAction

abbrev pub set_to : ℕ → SigAction → Actions → Actions
set_to signo act f s = if s == signo then act else f s

abbrev pub ignoring : SigAction → Actions → Actions
ignoring act f = set_to sigpipe act (set_to sigquit act (set_to sighup act f))

abbrev pub catching : SigAction → Actions → Actions
catching act f =
    let g = set_to sigfpe act (set_to sigbus act (set_to sigterm act (set_to sigint act f))) in
    let h = set_to sigsys act (set_to sigsegv act (set_to sigill act g)) in
    set_to sigxfsz act (set_to sigxcpu act h)

-- With every signal blocked, `m` keeps them blocked and `cleanup` as it is; if it gets through, it
-- returns `a` and changes the actions by `g`.
pub record Acts {A : Type 0} (m : Ec A) (a : A) (g : Actions → Actions) : Type 0 where
  pub at :
      (os : Os)
      → os.blocked ≡ all_signals
      → ((m os).1.blocked ≡ all_signals)
        × ((m os).1.cleanup ≡ os.cleanup)
        × (((m os).0 ≡ none) ⊎ ((m os).0 ≡ some a) × ((m os).1.action ≡ g os.action))

Acts-return : {A : Type 0} (a : A) → Acts (return a) a (λ f. f)
unfolding return
Acts-return a = record { at = λ os e. (e, refl, inr (refl, refl)) }

pub Acts-bind :
    {A B : Type 0} (m : Ec A) (f : A → Ec B) (a : A) (b : B) (g h : Actions → Actions)
    → Acts m a g
    → Acts (f a) b h
    → Acts (m >>= f) b (λ x. h (g x))
unfolding ◌>>=◌
Acts-bind m f a b g h r s = record {
  at = λ os e.
      let (blocked, same, ends) = r.at os e in
      elim ends [
        | inl out ↦ rw (out, ◌>>=◌) (blocked, same, inl refl)
        | inr (through, acted) ↦
            let (blocked', same', ends') = s.at (m os).1 blocked in
            rw (through, ◌>>=◌)
              (
                blocked',
                same' ∙ same,
                elim ends' [
                  | inl out ↦ inl out
                  | inr (through', acted') ↦ inr (through', acted' ∙ ap h acted)
                ],
              )
      ];
}

-- A call that is not refused.
abbrev pub called : (Os → Os) → Os → Os
called f os = f (record os { calls = suc os.calls })

module _ (refuses : ℕ → Bool) where
  -- The two ways in which a call under `ec_neg1` ends.
  pub ec_neg1-call :
      (f : Os → Os) (os : Os)
      → (refuses os.calls ≡ true) × (ec_neg1 (call refuses f) os ≡ (none, called (λ o. o) os))
        ⊎ (refuses os.calls ≡ false) × (ec_neg1 (call refuses f) os ≡ (some tt, called f os))
  unfolding ec_neg1
  ec_neg1-call f os = elim (Bool-cases (refuses os.calls)) [
    | inl refused ↦ inl (refused, ground arith)
    | inr granted ↦ inr (granted, ground arith)
  ]

  Acts-action :
      (signo : ℕ) (act : SigAction)
      → Acts (ec_neg1 (sigaction refuses signo act)) tt (set_to signo act)
  Acts-action signo act = record {
    at = λ os e. elim (ec_neg1-call (λ o. record o { action = set_to signo act o.action }) os) [
      | inl (_, out) ↦ rw out (e, refl, inl refl)
      | inr (_, through) ↦ rw through (e, refl, inr (refl, refl))
    ];
  }

  -- A call that only fills in a set in the memory of the program.
  pub Acts-local :
      {A : Type 0} (a : A) → Acts (ec_neg1 (call refuses (λ os. os)) >>= λ _. return a) a (λ f. f)
  Acts-local a =
      Acts-bind _ (λ _. return a) tt a (λ f. f) (λ f. f)
        (record {
          at = λ os e. elim (ec_neg1-call (λ o. o) os) [
            | inl (_, out) ↦ rw out (e, refl, inl refl)
            | inr (_, through) ↦ rw through (e, refl, inr (refl, refl))
          ];
        })
        (Acts-return a)

  Acts-then :
      {B : Type 0} (m : Ec Unit) (n : Ec B) (b : B) (g h : Actions → Actions)
      → Acts m tt g
      → Acts n b h
      → Acts (m >>= λ _. n) b (λ x. h (g x))
  Acts-then m n b g h r s = Acts-bind m (λ _. n) tt b g h r s

  pub ignore_signals-Acts : (act : SigAction) → Acts (ignore_signals refuses act) tt (ignoring act)
  unfolding ignore_signals
  ignore_signals-Acts act =
      Acts-then _ _ tt _ _ (Acts-action sighup act)
        (Acts-then _ _ tt _ _ (Acts-action sigquit act) (Acts-action sigpipe act))

  pub catch_signals-Acts : (act : SigAction) → Acts (catch_signals refuses act) tt (catching act)
  unfolding catch_signals
  catch_signals-Acts act =
      let step = λ (signo : ℕ) (n : Ec Unit) (h : Actions → Actions).
        Acts-then (ec_neg1 (sigaction refuses signo act)) n tt (set_to signo act) h
          (Acts-action signo act) in
      step sigint _ _ (
        step sigterm _ _ (
          step sigbus _ _ (
            step sigfpe _ _ (
              step sigill _ _ (
                step sigsegv _ _ (step sigsys _ _ (step sigxcpu _ _ (Acts-action sigxfsz act))))))))
