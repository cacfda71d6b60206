-- ===== src/Process/Deliver.antt =====
-- Signals that reach the process, and what the handler makes of it.
use wifigateway_server.Base.{
  ℕ, zero, suc, ◌+◌, ◌≡◌, refl, ◌∙◌, ap, true, false, ◌||◌, none, some, List, [], ◌∷◌, Bool-cases,
  inl, inr, ◌==◌, if◌then◌else◌,
}
use wifigateway_server.Base.Int.{pos}
use wifigateway_server.Qt.Text.{QString, codes}
use wifigateway_server.Process.Handler.{
  Process, SigToString, sigmap, write, write_name, report, handler, is_abnormal, sig_clean_up,
}
use wifigateway_server.Process.Signals.{
  Os, SigHandler, sig_dfl, sig_ign, sig_err, terminal, function,
}
use wifigateway_server.Process.Policy.{is_ignored, is_terminal, is_masked}

-- `other` is what a signal does whose action is neither to be ignored nor the handler of
-- handle_signals.c: the default action, or a function that the program never installs.
module _ (other : SigHandler → ℕ → Process → Process) where
  -- A signal that reaches the process. A process that has exited takes none, and a blocked one
  -- waits.
  unfoldable pub deliver : Os → ℕ → Process → Process
  deliver os s p = elim p.exit_status [
    | some _ ↦ p
    | none ↦ if os.blocked s then p else elim (os.action s).sa_handler [
      | sig_dfl ↦ other sig_dfl s p
      | sig_ign ↦ p
      | sig_err ↦ other sig_err s p
      | terminal ↦ handler os.cleanup s p
      | function f ↦ other (function f) s p
    ]
  ]

  unfoldable pub deliver_each : Os → List ℕ → Process → Process
  deliver_each os [] p = p
  deliver_each os (s ∷ ss) p = deliver_each os ss (deliver os s p)

-- The number of terminal signals.
abbrev pub terminals : List ℕ → ℕ
terminals [] = 0
terminals (s ∷ ss) = let rest = terminals ss in if is_terminal s then suc rest else rest

-- Each signal has a place in the policy.
abbrev pub Covered : List ℕ → Type 0
Covered [] = Unit {0}
Covered (s ∷ ss) = (is_ignored s || is_terminal s || is_masked s ≡ true) × Covered ss

-- What has become of a process `p` that has an application, after so many terminal signals.
abbrev pub After : ℕ → Process → Process → Type 0
After zero p q = q ≡ p
After (suc zero) p q =
    (q.exit_status ≡ none) × (q.quits ≡ p.quits + 1) × (q.interrupts ≡ p.interrupts)
After (suc (suc _)) p q =
    (q.exit_status ≡ some 1) × (q.quits ≡ p.quits + 2) × (q.interrupts ≡ p.interrupts + 1)

-- What the handler is about to look at is the same in two states of a process.
record Same (p q : Process) : Type 0 where
  quits : q.quits ≡ p.quits
  has_app : q.has_app ≡ p.has_app
  continued : q.continued ≡ p.continued
  interrupts : q.interrupts ≡ p.interrupts
  exit_status : q.exit_status ≡ p.exit_status

write-Same : (str : QString) (len : ℕ) (p : Process) → Same p (write str len p)
write-Same str len p = record {
  quits = refl;
  has_app = refl;
  continued = refl;
  interrupts = refl;
  exit_status = refl;
}

Same-trans : {p q r : Process} → Same p q → Same q r → Same p r
Same-trans x y = record {
  quits = y.quits ∙ x.quits;
  has_app = y.has_app ∙ x.has_app;
  continued = y.continued ∙ x.continued;
  interrupts = y.interrupts ∙ x.interrupts;
  exit_status = y.exit_status ∙ x.exit_status;
}

write_name-Same : (es : List SigToString) (s : ℕ) (p : Process) → Same p (write_name es s p)
write_name-Same [] s p = record {
  quits = refl;
  has_app = refl;
  continued = refl;
  interrupts = refl;
  exit_status = refl;
}
write_name-Same (e ∷ es) s p = elim (Bool-cases (e.sig == s)) [
  | inl found ↦ rw found (write-Same e.str e.len p)
  | inr other ↦ rw other (write_name-Same es s p)
]

report-Same : (s : ℕ) (p : Process) → Same p (report s p)
unfolding report
report-Same s p =
    Same-trans
      (Same-trans (write-Same (codes "Terminal signal (") 17 p) (write_name-Same sigmap s _))
      (write-Same (codes ").\n") 3 _)

-- The clean-up function: the first time, and the second.
clean_up_first :
    (s : ℕ) (q : Process)
    → q.has_app ≡ true
    → q.continued ≡ false
    → let (cont, r) = sig_clean_up s q in
      (cont ≡ pos 1)
      × (r.quits ≡ q.quits + 1)
      × (r.has_app ≡ true)
      × (r.continued ≡ true)
      × (r.interrupts ≡ q.interrupts)
      × (r.exit_status ≡ q.exit_status)
unfolding sig_clean_up
clean_up_first s q app fresh = elim (Bool-cases (is_abnormal s)) [
  | inl bad ↦ rw (bad, app, fresh) (refl, refl, refl, refl, refl, refl)
  | inr fine ↦ rw (fine, app, fresh) (refl, refl, refl, refl, refl, refl)
]

clean_up_second :
    (s : ℕ) (q : Process)
    → q.has_app ≡ true
    → q.continued ≡ true
    → let (cont, r) = sig_clean_up s q in
      (cont ≡ pos 0) × (r.quits ≡ q.quits + 1) × (r.interrupts ≡ q.interrupts)
unfolding sig_clean_up
clean_up_second s q app again = elim (Bool-cases (is_abnormal s)) [
  | inl bad ↦ rw (bad, app, again) (refl, refl, refl)
  | inr fine ↦ rw (fine, app, again) (refl, refl, refl)
]

-- The handler with it: the first time, and the second.
pub handler_first :
    (s : ℕ) (p : Process)
    → p.has_app ≡ true
    → p.continued ≡ false
    → let q = handler (some sig_clean_up) s p in
      (q.quits ≡ p.quits + 1)
      × (q.has_app ≡ true)
      × (q.continued ≡ true)
      × (q.interrupts ≡ p.interrupts)
      × (q.exit_status ≡ p.exit_status)
unfolding handler
handler_first s p app fresh =
    let same = report-Same s p in
    let (cont, quits, app', again, interrupts, status) =
      clean_up_first s (report s p) (same.has_app ∙ app) (same.continued ∙ fresh) in
    rw cont (
      quits ∙ ap (λ (n : ℕ). n + 1) same.quits,
      app',
      again,
      interrupts ∙ same.interrupts,
      status ∙ same.exit_status,
    )

pub handler_second :
    (s : ℕ) (p : Process)
    → p.has_app ≡ true
    → p.continued ≡ true
    → let q = handler (some sig_clean_up) s p in
      (q.quits ≡ p.quits + 1) × (q.interrupts ≡ p.interrupts + 1) × (q.exit_status ≡ some 1)
unfolding handler
handler_second s p app again =
    let same = report-Same s p in
    let (cont, quits, interrupts) =
      clean_up_second s (report s p) (same.has_app ∙ app) (same.continued ∙ again) in
    rw cont (
      quits ∙ ap (λ (n : ℕ). n + 1) same.quits,
      ap (λ (n : ℕ). n + 1) (interrupts ∙ same.interrupts),
      refl,
    )
