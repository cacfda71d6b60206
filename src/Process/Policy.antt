-- ===== src/Process/Policy.antt =====
-- The policy that `handle_signals` sets up, and the parts of its body that write it.
use wifigateway_server.Base.{ℕ, ◌≡◌, Bool, true, ◌||◌, arith, ◌==◌, if◌then◌else◌}
use wifigateway_server.Process.Numbers.{
  sighup, sigint, sigquit, sigill, sigbus, sigfpe, sigusr1, sigsegv, sigusr2, sigpipe, sigterm,
  sigxcpu, sigxfsz, sigsys,
}
use wifigateway_server.Process.Acts.{
  Actions, ignoring, catching, Acts, Acts-bind, Acts-local, ignore_signals-Acts, catch_signals-Acts,
}
use wifigateway_server.Process.Signals.{
  SigSet, SigAction, sig_ign, terminal, all_signals, add_signal, no_signals, Ec, return, ◌>>◌,
  set_actions, last_mask,
}
use wifigateway_server.Process.Masks.{Last, Last-bind, Last-return, sigprocmask-Last}

abbrev pub is_ignored : ℕ → Bool
is_ignored s = s == sighup || s == sigquit || s == sigpipe

abbrev pub is_terminal : ℕ → Bool
is_terminal s =
    s == sigint
    || s == sigterm
    || s == sigbus
    || s == sigfpe
    || s == sigill
    || s == sigsegv
    || s == sigsys
    || s == sigxcpu
    || s == sigxfsz

abbrev pub is_masked : ℕ → Bool
is_masked s = s == sigusr1 || s == sigusr2

-- The action of a signal, by the one that it had.
abbrev pub policy : ℕ → SigAction → SigAction
policy s old =
    if is_ignored s
    then record { sa_handler = sig_ign; sa_mask = all_signals; sa_flags = 0 }
    else if is_terminal s
    then record { sa_handler = terminal; sa_mask = all_signals; sa_flags = 0 }
    else old

-- The actions that two groups of sigaction write are those of the policy, whatever their order.
module _ (f : Actions) (s : ℕ) where
  abbrev pub written : SigAction
  written =
      catching (record { sa_handler = terminal; sa_mask = all_signals; sa_flags = 0 })
        (ignoring (record { sa_handler = sig_ign; sa_mask = all_signals; sa_flags = 0 }) f) s

  pub written_lem : written ≡ policy s (f s)
  written_lem = ground arith

abbrev pub masked : SigSet
masked = add_signal sigusr2 (add_signal sigusr1 no_signals)

module _ (refuses : ℕ → Bool) where
  set_actions-Acts : Acts (set_actions refuses) tt (λ f s. written f s)
  unfolding set_actions
  set_actions-Acts =
      Acts-bind _ _ all_signals tt (λ f. f) _ (Acts-local refuses all_signals)
        (Acts-bind _ _ tt tt _ _ (ignore_signals-Acts refuses _) (catch_signals-Acts refuses _))

  last_mask-Last : Last (last_mask refuses) tt (λ f. f) masked
  unfolding last_mask
  last_mask-Last = Last-bind _ _ no_signals tt _ _ masked (Acts-local refuses no_signals) (
      Last-bind _ _ (add_signal sigusr1 no_signals) tt _ _ masked (Acts-local refuses _) (
        Last-bind _ _ masked tt _ _ masked (Acts-local refuses masked)
          (sigprocmask-Last refuses masked)))

  unfoldable pub rest : Ec Bool
  rest = do set_actions refuses; last_mask refuses; return true

  pub rest-Last : Last rest true written masked
  unfolding rest
  rest-Last =
      Last-bind _ _ tt true _ _ masked set_actions-Acts
        (Last-return _ tt true _ masked last_mask-Last)
