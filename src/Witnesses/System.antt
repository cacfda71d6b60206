-- ===== src/Witnesses/System.antt =====
-- The process, its signals and its entry on concrete inputs.
use wifigateway_server.Base.{
  ℕ, suc, ◌≡◌, ◌≢◌, refl, Bool, true, false, ◌||◌, none, some, List, [], ◌∷◌, ◌⊎◌, ◌==◌,
}
use wifigateway_server.Base.Int.{ℤ, pos}
use wifigateway_server.Qt.Text.{QString, codes}
use wifigateway_server.Controller.State.{Controller, new_controller}
use wifigateway_server.Controller.Lifecycle.{Construction, construct}
use wifigateway_server.Controller.Reentrancy.{nested, nested-Calm}
use wifigateway_server.Controller.Timeline.{all_succeed}
use wifigateway_server.Adaptor.Connect.{connected}
use wifigateway_server.Process.Numbers.{sighup, sigterm, sigusr2, sigint, sigalrm, sigsegv}
use wifigateway_server.Process.Handler.{Process, handler, report, sigmap, sig_clean_up}
use wifigateway_server.Process.Signals.{
  Os, SigHandler, sig_dfl, function, no_signals, return, ◌>>=◌, ec_neg1, ignore_signals,
  catch_signals, set_actions, last_mask, handle_signals_body, handle_signals, set_sig_handler,
}
use wifigateway_server.Process.Policy.{is_masked, policy}
use wifigateway_server.Process.Setup.{handle_signals_lem}
use wifigateway_server.Process.Replace.{set_sig_handler-set_sig_handler}
use wifigateway_server.Process.Deliver.{deliver_each, terminals, After}
use wifigateway_server.Process.Shutdown.{shutdown_lem}
use wifigateway_server.Process.Main.{Exit, main}
use wifigateway_server.Process.Ending.{Finishes, main_lem}
use wifigateway_server.Witnesses.{dir, calls, meanwhile}
use wifigateway_server.Witnesses.Sessions.{interface, append, kern_log}

abbrev at_start : Os
at_start = record {
  blocked = no_signals;
  action = λ _. record { sa_handler = sig_dfl; sa_mask = no_signals; sa_flags = 0 };
  calls = 0;
  cleanup = none;
}

-- The fourth call is refused.
abbrev refuses_fourth : ℕ → Bool
refuses_fourth n = n == 3

abbrev refuses_none : ℕ → Bool
refuses_none _ = false

-- With the fourth call refused, false is returned and even SIGTERM stays blocked.
locked_out :
    ((handle_signals refuses_fourth (some sig_clean_up) at_start).0 ≡ false)
    × ((handle_signals refuses_fourth (some sig_clean_up) at_start).1.blocked sigterm ≡ true)
unfolding handle_signals handle_signals_body ◌>>=◌ ec_neg1 return set_actions ignore_signals
    catch_signals last_mask
locked_out = (refl, refl)

-- The message of a signal.
messages :
    ((handler (some sig_clean_up) sigsegv (record {
      written = [];
      quits = 0;
      has_app = true;
      continued = false;
      interrupts = 0;
      exit_status = none;
    })).written
      ≡ codes "Terminal signal (SIGSEGV).\nAbnormal Termination.\n")
unfolding handler report sigmap sig_clean_up
messages = refl

handle_signals_example :
    let (r, os') = handle_signals refuses_fourth (some sig_clean_up) at_start in
    (os'.cleanup ≡ some sig_clean_up)
    × ((r ≡ true)
          × ((s : ℕ) → os'.blocked s ≡ is_masked s)
          × ((s : ℕ) → os'.action s ≡ policy s (at_start.action s))
        ⊎ (r ≡ false)
          × (refuses_fourth at_start.calls || refuses_fourth (suc at_start.calls) ≡ true)
          × (os'.blocked ≡ at_start.blocked)
          × (os'.action ≡ at_start.action)
        ⊎ (r ≡ false) × ((s : ℕ) → os'.blocked s ≡ true))
handle_signals_example = handle_signals_lem refuses_fourth (some sig_clean_up) at_start

set_sig_handler_example :
    let (old, os1) = set_sig_handler refuses_none 0 1 sigalrm (function 5) at_start in
    let (new, os2) = set_sig_handler refuses_none 0 1 sigalrm old os1 in
    (new ≡ function 5)
    × ((os2.action sigalrm).sa_handler ≡ sig_dfl)
    × ((s : ℕ) → s ≢ sigalrm → os2.action s ≡ at_start.action s)
    × (os2.blocked ≡ at_start.blocked)
set_sig_handler_example =
    set_sig_handler-set_sig_handler refuses_none 0 1 sigalrm (function 5) at_start refl refl

abbrev running : Process
running = record {
  written = [];
  quits = 0;
  has_app = true;
  continued = false;
  interrupts = 0;
  exit_status = none;
}

-- A signal that is left to its default action has no effect here.
abbrev no_effect : SigHandler → ℕ → Process → Process
no_effect h s p = p

abbrev signals : List ℕ
signals = sighup ∷ sigterm ∷ sigusr2 ∷ sigint ∷ []

set_up : (handle_signals refuses_none (some sig_clean_up) at_start).0 ≡ true
unfolding handle_signals handle_signals_body ◌>>=◌ ec_neg1 return set_actions ignore_signals
    catch_signals last_mask
set_up = refl

shutdown_example :
    let os = (handle_signals refuses_none (some sig_clean_up) at_start).1 in
    After (terminals signals) running (deliver_each no_effect os signals running)
shutdown_example =
    shutdown_lem no_effect refuses_none at_start signals running set_up
      (refl, (refl, (refl, (refl, tt)))) refl refl refl

-- The text of a failed script, whatever its status.
abbrev init_text : ℤ → QString
init_text _ = codes "Failed initializing IPTables rules"

-- A stand-in for what qFatal makes of a text without a percent sign.
abbrev unchanged : QString → QString
unchanged s = s

main_example :
    let h = nested dir all_succeed meanwhile in
    (result : Construction) × (c : Controller) × (e : Exit) × (d : Controller) × (construct
        interface append h true kern_log new_controller
      ≡ some (result, c))
    × (main interface append init_text unchanged true kern_log h connected calls
          (pos 0)
          new_controller
        ≡ some (e, d))
    × Finishes interface append init_text unchanged true kern_log h result connected (pos 0) c e d
main_example =
    main_lem interface append init_text unchanged true kern_log (nested dir all_succeed meanwhile)
      (nested-Calm dir all_succeed meanwhile (λ r. r, (λ r. r, tt))) connected calls (pos 0)
