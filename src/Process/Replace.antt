-- ===== src/Process/Replace.antt =====
-- `set_sig_handler`, called twice.
use wifigateway_server.Base.{ℕ, suc, ◌≡◌, ◌≢◌, Bool, false, arith}
use wifigateway_server.Process.Signals.{Os, SigHandler, set_sig_handler, ec_neg1, return, ◌>>=◌}

-- If neither call is refused, then a handler that set_sig_handler has set and the handler that was
-- there before can be exchanged: the second call, with what the first has returned, returns what
-- the first has set, and the signal has its old handler again. The mask and the actions of the
-- other signals are as before.
pub set_sig_handler-set_sig_handler :
    (refuses : ℕ → Bool) (sa_interrupt sa_restart signo : ℕ) (func : SigHandler) (os : Os)
    → refuses os.calls ≡ false
    → refuses (suc os.calls) ≡ false
    → let (old, os1) = set_sig_handler refuses sa_interrupt sa_restart signo func os in
      let (new, os2) = set_sig_handler refuses sa_interrupt sa_restart signo old os1 in
      (new ≡ func)
      × ((os2.action signo).sa_handler ≡ (os.action signo).sa_handler)
      × ((s : ℕ) → s ≢ signo → os2.action s ≡ os.action s)
      × (os2.blocked ≡ os.blocked)
unfolding set_sig_handler ec_neg1 return ◌>>=◌
set_sig_handler-set_sig_handler refuses sa_interrupt sa_restart signo func os first second =
    (ground arith, ground arith, λ s n. ground arith, ground arith)
