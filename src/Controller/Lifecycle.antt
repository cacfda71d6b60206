-- ===== src/Controller/Lifecycle.antt =====
-- The constructor and the destructor of the controller, and its life between them.
pub mod Clean
use wifigateway_server.Base.{ℕ, Bool, Option, List, ◌++◌, ◌||◌, if◌then◌else◌}
use wifigateway_server.Base.Int.{ℤ, is_zero}
use wifigateway_server.Qt.Text.{QString, codes, is_empty}
use wifigateway_server.FileWatcher.{File}
use wifigateway_server.FileWatcher.Opening.{Opening, opened, missing, no_permission, open_watcher}
use wifigateway_server.Controller.Action.{Action, Host, pure, ◌>>=◌, ◌>>◌}
use wifigateway_server.Controller.Script.{script_timeout}
use wifigateway_server.Controller.Settings.{cleanup}
use wifigateway_server.Controller.Calls.{Call, serve}

-- How the constructor ends: with an object, with one of the exceptions of its member `beacon`,
-- whose FileWatcher does not find the kernel log or may not read it, or with one of its own.
pub data Construction : Type 0 where
  constructed : Construction
  log_missing log_unreadable : Construction
  no_interface : Construction
  init_failed : ℤ → Construction

pub init_command : QString → QString
init_command dir =
    dir ++ codes "/wifigateway-script/gw_init.sh EXTIF=%1 INTIF=%2 SET_DEFAULT_FIREWALL=%3"

-- The slots, and the destructor, which calls `cleanup`. It is not run for an object whose
-- constructor throws.
pub live_on : Host → List Call → Construction → Action Construction
live_on h calls constructed = do serve h calls; cleanup h; pure constructed
live_on h calls log_missing = pure log_missing
live_on h calls log_unreadable = pure log_unreadable
live_on h calls no_interface = pure no_interface
live_on h calls (init_failed code) = pure (init_failed code)

-- `value` is QSettings with the default "", `arg` is QString::arg.
module _ (value : QString → QString) (arg : QString → QString → QString) (h : Host) where
  -- The body of the constructor.
  construct_body : Action Construction
  construct_body =
      let ext_if = value (codes "EXTIF") in
      let int_if = value (codes "INTIF") in
      let fw = value (codes "SET_DEFAULT_FIREWALL") in
      if is_empty ext_if || is_empty int_if then pure no_interface else do
        r ←
            h.run_command_exec (arg (arg (arg (init_command h.script_dir) ext_if) int_if) fw)
              script_timeout
        if is_zero r then pure constructed else pure (init_failed r)

  -- The body runs after the member `beacon` has been constructed, if it has.
  construct_on : Opening → Action Construction
  unfolding construct_body
  construct_on (opened _) = construct_body
  construct_on missing = pure log_missing
  construct_on no_permission = pure log_unreadable

  -- `kern_log` is what /var/log/kern.log stands for, and `readable` whether its owner may read it.
  module _ (readable : Bool) (kern_log : Option File) where
    pub construct : Action Construction
    unfolding construct_on
    construct = construct_on (open_watcher readable kern_log)

    pub live : List Call → Action Construction
    live calls = do result ← construct; live_on h calls result
