-- ===== src/Process/Signals.antt =====
-- `handle_signals` and `set_sig_handler` of handle_signals.c, with the `ec_neg1` of ec_simple.h.
use wifigateway_server.Base.{ℕ, suc, Bool, true, false, Option, none, some, ◌==◌, if◌then◌else◌}
use wifigateway_server.Base.Int.{ℤ, pos, negsuc}
use wifigateway_server.Process.Numbers.{
  sighup, sigint, sigquit, sigill, sigbus, sigfpe, sigusr1, sigsegv, sigusr2, sigpipe, sigalrm,
  sigterm, sigxcpu, sigxfsz, sigsys,
}
use wifigateway_server.Process.Handler.{CleanUp}

-- A set of signals: whether each of them is in it.
abbrev pub SigSet : Type 0
SigSet = ℕ → Bool

-- A `sighandler_t`: `terminal` is the function `handler`, and `function` another one by its
-- address.
pub data SigHandler : Type 0 where
  sig_dfl sig_ign sig_err terminal : SigHandler
  function : ℕ → SigHandler

-- `struct sigaction`.
pub record SigAction : Type 0 where
  pub sa_handler : SigHandler
  pub sa_mask : SigSet
  pub sa_flags : ℕ

-- What the kernel holds for the process: the mask, the action of each signal, and how many calls
-- have been made. `cleanup` is the variable of that name, `none` for NULL.
pub record Os : Type 0 where
  pub blocked : SigSet
  pub action : ℕ → SigAction
  pub calls : ℕ
  pub cleanup : Option CleanUp

abbrev pub all_signals : SigSet
all_signals _ = true

abbrev pub no_signals : SigSet
no_signals _ = false

abbrev pub add_signal : ℕ → SigSet → SigSet
add_signal signo set s = if s == signo then true else set s

-- A body between `ec_neg1`s: `none` is a jump to `ec_cleanup_bgn`.
abbrev pub Ec : Type 0 → Type 0
Ec A = Os → Option A × Os

unfoldable pub return : {A : Type 0} → A → Ec A
return a os = (some a, os)

module _ {A B : Type 0} where
  infixl 10 ◌>>=◌ ◌>>◌
  unfoldable pub ◌>>=◌ : Ec A → (A → Ec B) → Ec B
  ◌>>=◌ m f os = elim (m os).0 [ none ↦ (none, (m os).1) | some a ↦ f a (m os).1 ]

  abbrev pub ◌>>◌ : Ec A → Ec B → Ec B
  m >> n = m >>= λ _. n

-- `ec_neg1(x)`: a jump if the call has returned -1.
unfoldable pub ec_neg1 : (Os → ℤ × Os) → Ec Unit
ec_neg1 x os = elim (x os).0 [
  | pos _ ↦ (some tt, (x os).1)
  | negsuc n ↦ if n == 0 then (none, (x os).1) else (some tt, (x os).1)
]

-- `refuses n` tells whether the call of number `n` fails; it returns -1 then, and does nothing.
module _ (refuses : ℕ → Bool) where
  abbrev pub call : (Os → Os) → Os → ℤ × Os
  call f os =
      let os' = record os { calls = suc os.calls } in
      if refuses os.calls then (negsuc 0, os') else (pos 0, f os')

  -- The mask as it is asked for. The kernel leaves SIGKILL and SIGSTOP out of it.
  abbrev pub sigprocmask : SigSet → Os → ℤ × Os
  sigprocmask set = call (λ os. record os { blocked = set })

  abbrev pub sigaction : ℕ → SigAction → Os → ℤ × Os
  sigaction signo act =
      call (λ os. record os { action = λ s. if s == signo then act else os.action s })

  -- The calls that fill in a set in memory.
  abbrev pub sigfillset : Ec SigSet
  sigfillset = do ec_neg1 (call (λ os. os)); return all_signals

  abbrev pub sigemptyset : Ec SigSet
  sigemptyset = do ec_neg1 (call (λ os. os)); return no_signals

  abbrev pub sigaddset : SigSet → ℕ → Ec SigSet
  sigaddset set signo = do ec_neg1 (call (λ os. os)); return (add_signal signo set)

  -- The three parts of `handle_signals`: the signals to ignore, those to handle, and the last mask.
  unfoldable pub ignore_signals : SigAction → Ec Unit
  ignore_signals act = do
    ec_neg1 (sigaction sighup act)
    ec_neg1 (sigaction sigquit act)
    ec_neg1 (sigaction sigpipe act)

  unfoldable pub catch_signals : SigAction → Ec Unit
  catch_signals act = do
    ec_neg1 (sigaction sigint act)
    ec_neg1 (sigaction sigterm act)
    ec_neg1 (sigaction sigbus act)
    ec_neg1 (sigaction sigfpe act)
    ec_neg1 (sigaction sigill act)
    ec_neg1 (sigaction sigsegv act)
    ec_neg1 (sigaction sigsys act)
    ec_neg1 (sigaction sigxcpu act)
    ec_neg1 (sigaction sigxfsz act)

  unfoldable pub last_mask : Ec Unit
  last_mask = do
    set ← sigemptyset
    set1 ← sigaddset set sigusr1
    set2 ← sigaddset set1 sigusr2
    ec_neg1 (sigprocmask set2)

  -- What is between the two calls of sigprocmask.
  unfoldable pub set_actions : Ec Unit
  set_actions = do
    mask ← sigfillset
    let act : SigAction = record { sa_handler = sig_ign; sa_mask = mask; sa_flags = 0 }
    ignore_signals act
    catch_signals (record act { sa_handler = terminal })

  unfoldable pub handle_signals_body : Ec Bool
  handle_signals_body = do
    set ← sigfillset
    ec_neg1 (sigprocmask set)
    set_actions
    last_mask
    return true

  -- `none` is the branch behind `EC_CLEANUP_BGN`.
  unfoldable pub handle_signals : Option CleanUp → Os → Bool × Os
  handle_signals cleanup_in os =
      let (r, os') = handle_signals_body (record os { cleanup = cleanup_in }) in
      (elim r [ none ↦ false | some b ↦ b ], os')

  -- `sa_interrupt` and `sa_restart` are the flags of <signal.h>, 0 for one that it does not have.
  module _ (sa_interrupt sa_restart : ℕ) where
    unfoldable pub set_sig_handler : ℕ → SigHandler → Os → SigHandler × Os
    set_sig_handler signo func os =
        let act : SigAction = record {
          sa_handler = func;
          sa_mask = no_signals;
          sa_flags = if signo == sigalrm then sa_interrupt else sa_restart;
        } in
        let oact = os.action signo in
        let (r, os') = (do ec_neg1 (sigaction signo act); return oact.sa_handler) os in
        (elim r [ none ↦ sig_err | some h ↦ h ], os')
