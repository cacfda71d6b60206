-- ===== src/Process/Shutdown.antt =====
-- What signals do to the process that main.cpp has set up.
use wifigateway_server.Base.{
  ℕ, suc, ◌≡◌, refl, ◌∙◌, ap, Bool, true, false, ◌||◌, none, some, List, [], ◌∷◌, arith, Bool-cases,
  inl, inr, ◌⊎◌,
}
use wifigateway_server.Process.Handler.{Process, handler, sig_clean_up}
use wifigateway_server.Process.Signals.{Os, SigAction, SigHandler, handle_signals}
use wifigateway_server.Process.Policy.{is_ignored, is_terminal, is_masked, policy}
use wifigateway_server.Process.Setup.{handle_signals_lem}
use wifigateway_server.Process.Deliver.{
  deliver, deliver_each, terminals, Covered, After, handler_first, handler_second,
}

-- A terminal signal is neither masked nor ignored, and the others have no effect.
terminal_apart : (s : ℕ) → is_terminal s ≡ true → (is_masked s ≡ false) × (is_ignored s ≡ false)
terminal_apart s e = (ground arith, ground arith)

other_apart :
    (s : ℕ)
    → is_terminal s ≡ false
    → is_ignored s || is_terminal s || is_masked s ≡ true
    → (is_masked s ≡ true) ⊎ (is_masked s ≡ false) × (is_ignored s ≡ true)
other_apart s e covered = elim (Bool-cases (is_masked s)) [
  | inl masked ↦ inl masked
  | inr unmasked ↦ inr (unmasked, ground arith)
]

module _ (other : SigHandler → ℕ → Process → Process) (os : Os) (old : ℕ → SigAction)
    (noted : os.cleanup ≡ some sig_clean_up) (masks : (s : ℕ) → os.blocked s ≡ is_masked s)
    (acts : (s : ℕ) → os.action s ≡ policy s (old s)) where
  deliver_terminal :
      (s : ℕ) (p : Process)
      → p.exit_status ≡ none
      → is_terminal s ≡ true
      → deliver other os s p ≡ handler (some sig_clean_up) s p
  unfolding deliver
  deliver_terminal s p running is =
      let (unmasked, heard) = terminal_apart s is in
      rw (running, masks s, unmasked, acts s, heard, is, noted) refl

  deliver_other :
      (s : ℕ) (p : Process)
      → is_terminal s ≡ false
      → is_ignored s || is_terminal s || is_masked s ≡ true
      → p.exit_status ≡ none
      → deliver other os s p ≡ p
  unfolding deliver
  deliver_other s p is covered running = elim (other_apart s is covered) [
    | inl masked ↦ rw (running, masks s, masked) refl
    | inr (unmasked, ignored) ↦ rw (running, masks s, unmasked, acts s, ignored) refl
  ]

  deliver_exited : (s : ℕ) (p : Process) (n : ℕ) → p.exit_status ≡ some n → deliver other os s p ≡ p
  unfolding deliver
  deliver_exited s p n gone = ground arith

  deliver_each_exited :
      (ss : List ℕ) (p : Process) (n : ℕ) → p.exit_status ≡ some n → deliver_each other os ss p ≡ p
  unfolding deliver_each
  deliver_each_exited [] p n gone = refl
  deliver_each_exited (s ∷ ss) p n gone =
      ap (deliver_each other os ss) (deliver_exited s p n gone) ∙ deliver_each_exited ss p n gone

  -- After the first terminal signal.
  deliver_each_continued :
      (ss : List ℕ) (p q : Process)
      → Covered ss
      → q.has_app ≡ true
      → q.continued ≡ true
      → After 1 p q
      → After (suc (terminals ss)) p (deliver_each other os ss q)
  unfolding deliver_each
  deliver_each_continued [] p q covered app again a = a
  deliver_each_continued (s ∷ ss) p q covered app again a = elim (Bool-cases (is_terminal s)) [
    | inr is ↦
        rw (is, deliver_other s q is covered.0 a.0)
          (deliver_each_continued ss p q covered.1 app again a)
    | inl is ↦
        let (quits, interrupts, gone) = handler_second s q app again in
        let r = handler (some sig_clean_up) s q in
        let ran : deliver_each other os (s ∷ ss) q ≡ r =
          ap (deliver_each other os ss) (deliver_terminal s q a.0 is)
          ∙ deliver_each_exited ss r 1 gone in
        rw (is, ran) (gone, ground arith, ground arith)
  ]

  deliver_each_fresh :
      (ss : List ℕ) (p : Process)
      → Covered ss
      → p.has_app ≡ true
      → p.continued ≡ false
      → p.exit_status ≡ none
      → After (terminals ss) p (deliver_each other os ss p)
  unfolding deliver_each
  deliver_each_fresh [] p covered app fresh running = refl
  deliver_each_fresh (s ∷ ss) p covered app fresh running = elim (Bool-cases (is_terminal s)) [
    | inr is ↦
        rw (is, deliver_other s p is covered.0 running)
          (deliver_each_fresh ss p covered.1 app fresh running)
    | inl is ↦
        let (quits, app', again, interrupts, status) = handler_first s p app fresh in
        rw (is, deliver_terminal s p running is)
          (deliver_each_continued ss p (handler (some sig_clean_up) s p) covered.1 app' again
            (status ∙ running, quits, interrupts))
  ]

-- Let `handle_signals` have returned true for the clean-up function of main.cpp, and let the
-- process run, have its application, and have had no terminal signal. Then whatever signals of the
-- policy reach it, with no terminal one among them nothing happens; with one the application has
-- been asked to quit and the process runs on; with more the process has sent SIGINT to its group
-- once and exited with status 1.
pub shutdown_lem :
    (other : SigHandler → ℕ → Process → Process) (refuses : ℕ → Bool) (before : Os) (ss : List ℕ)
    (p : Process)
    → let (r, os) = handle_signals refuses (some sig_clean_up) before in
      r ≡ true
      → Covered ss
      → p.has_app ≡ true
      → p.continued ≡ false
      → p.exit_status ≡ none
      → After (terminals ss) p (deliver_each other os ss p)
shutdown_lem other refuses before ss p ok covered app fresh running =
    let (noted, ends) = handle_signals_lem refuses (some sig_clean_up) before in
    elim ends [
      | inl (_, masks, acts) ↦
          deliver_each_fresh other _ before.action noted masks acts ss p covered app fresh running
      | inr (inl (bad, _, _, _)) ↦ absurd cc
      | inr (inr (bad, _)) ↦ absurd cc
    ]
