-- ===== src/Controller/Access.antt =====
-- What the controller has last asked of the scripts for an IP, by the commands that it has issued
-- and their exit statuses. What a script does to the firewall is not modelled.
pub mod Unique
mod Protocol
mod Seconds
mod Records
mod Sessions
mod Settings
mod Tick
pub mod Serve
use wifigateway_server.Base.{ℕ, ◌≡◌, ◌≢◌, Bool, true, false, none, some, List, [], ◌∷◌}
use wifigateway_server.Base.Int.{ℤ, is_zero}
use wifigateway_server.Qt.Text.{QString}
use wifigateway_server.Qt.Map.{lookup}
use wifigateway_server.Session.{is_state, started}
use wifigateway_server.Controller.State.{Controller}
use wifigateway_server.Controller.Script.{add_host_command, remove_host_command, clean_up_command}
use wifigateway_server.Controller.Machine.{Answer}
use wifigateway_server.Controller.Lifetime.Heap.{Inv}

-- `LastAsked dir answer ip b log`: since the last clean-up in `log`, whose newest command is the
-- first, the last command for `ip` that has succeeded was to add it, if `b` is true; if `b` is
-- false, it was to remove it, or there was none.
pub data LastAsked (dir : QString) (answer : Answer) (ip : QString)
    : Bool → List QString → Type 0 where
  at_first : LastAsked dir answer ip false []
  failed :
      (command : QString) (b : Bool) (log : List QString)
      → is_zero (answer command log) ≡ false
      → command ≢ clean_up_command dir
      → LastAsked dir answer ip b log
      → LastAsked dir answer ip b (command ∷ log)
  added :
      (bandwidth : ℕ) (quota : ℤ) (b : Bool) (log : List QString)
      → is_zero (answer (add_host_command dir ip bandwidth quota) log) ≡ true
      → LastAsked dir answer ip b log
      → LastAsked dir answer ip true (add_host_command dir ip bandwidth quota ∷ log)
  removed :
      (b : Bool) (log : List QString)
      → is_zero (answer (remove_host_command dir ip) log) ≡ true
      → LastAsked dir answer ip b log
      → LastAsked dir answer ip false (remove_host_command dir ip ∷ log)
  other_added :
      (j : QString) (bandwidth : ℕ) (quota : ℤ) (b : Bool) (log : List QString)
      → ip ≢ j
      → LastAsked dir answer ip b log
      → LastAsked dir answer ip b (add_host_command dir j bandwidth quota ∷ log)
  other_removed :
      (j : QString) (b : Bool) (log : List QString)
      → ip ≢ j
      → LastAsked dir answer ip b log
      → LastAsked dir answer ip b (remove_host_command dir j ∷ log)
  cleaned_up :
      (b : Bool) (log : List QString)
      → LastAsked dir answer ip b log
      → LastAsked dir answer ip false (clean_up_command dir ∷ log)

-- The controller has a session of `ip` that is started.
abbrev pub has_started : QString → Controller → Bool
has_started ip c = elim (lookup ip c.sessions) [
  | none ↦ false
  | some p ↦ elim (c.cell p) [ none ↦ false | some s ↦ is_state s started ]
]

-- The controller is in order, and the IPs that it has last asked to add are those of its started
-- sessions.
pub record Admits (dir : QString) (answer : Answer) (c : Controller) : Type 0 where
  pub inv : Inv c
  pub access : (ip : QString) → LastAsked dir answer ip (has_started ip c) c.issued
