-- ===== src/Process/Main.antt =====
-- main.cpp: `sysLogMsgHandler` and `main`.
use wifigateway_server.Base.{
  ℕ, ◌+◌, ◌*◌, Bool, Option, true, false, List, [], ◌∷◌, ◌++◌, if◌then◌else◌,
}
use wifigateway_server.Base.Int.{ℤ}
use wifigateway_server.Qt.Text.{QString, codes}
use wifigateway_server.FileWatcher.{File}
use wifigateway_server.Controller.Action.{Action, Host, pure, ◌>>=◌, ◌>>◌}
use wifigateway_server.Controller.Settings.{cleanup}
use wifigateway_server.Controller.Calls.{Call, serve}
use wifigateway_server.Controller.Lifecycle.{
  constructed, log_missing, log_unreadable, no_interface, init_failed, construct,
}
use wifigateway_server.Adaptor.Connect.{
  Connection, connected, no_dbus, service_failed, object_failed,
}

pub data QtMsgType : Type 0 where
  qt_debug_msg qt_warning_msg qt_critical_msg qt_fatal_msg : QtMsgType

-- A line of the system log: its priority and its text.
abbrev pub SysLog : Type 0
SysLog = List (ℕ × QString)

-- `debug_output` is whether QT_NO_DEBUG_OUTPUT is not defined. What is logged, and whether
-- `qApp->quit()` is called.
abbrev pub sys_log_msg_handler : Bool → QtMsgType → QString → SysLog × Bool
sys_log_msg_handler debug_output qt_debug_msg msg =
    (if debug_output then (7, codes "DEBUG: " ++ msg) ∷ [] else [], false)
sys_log_msg_handler debug_output qt_warning_msg msg = ((4, codes "WARNING: " ++ msg) ∷ [], false)
sys_log_msg_handler debug_output qt_critical_msg msg = ((2, codes "CRITICAL: " ++ msg) ∷ [], false)
sys_log_msg_handler debug_output qt_fatal_msg msg = ((3 * 8 + 1, codes "FATAL: " ++ msg) ∷ [], true)

-- How the process ends: with the result of the event loop, or by `qFatal`, which aborts after
-- the message handler has logged.
pub data Exit : Type 0 where
  returned : ℤ → Exit
  aborted : SysLog → Exit

-- `qFatal(what)`: `format` is what it makes of its first argument, a format, without others.
abbrev pub fatal : (QString → QString) → QString → Exit
fatal format what = aborted (sys_log_msg_handler true qt_fatal_msg (format what)).0

-- The texts of the exceptions of the controller.
abbrev pub log_missing_text : QString
log_missing_text = codes "Could not watch file /var/log/kern.log. Does not exist?"

abbrev pub log_unreadable_text : QString
log_unreadable_text = codes "Could not watch file /var/log/kern.log. No permission."

abbrev pub no_interface_text : QString
no_interface_text = codes "Config error. No interface def provided"

-- The texts of the exceptions of the adaptor.
abbrev pub connection_text : Connection → QString
connection_text connected = []
connection_text no_dbus = codes "No DBUS"
connection_text service_failed = codes "DBUS service registration failed"
connection_text object_failed = codes "DBUS object registration failed"

-- `value` is QSettings, `arg` is QString::arg, and `init_text` the text of a failed gw_init.sh.
-- `kern_log` is the kernel log, and `readable` whether it may be read.
module _ (value : QString → QString) (arg : QString → QString → QString) (init_text : ℤ → QString)
    (format : QString → QString) (readable : Bool) (kern_log : Option File) (h : Host) where
  -- With a controller: the adaptor, the event loop, which runs `calls` and returns `code`, the
  -- clean-up on aboutToQuit, and the destructor of the controller, which is run for an exception of
  -- the adaptor as well.
  unfoldable pub run_app : Connection → List Call → ℤ → Action Exit
  run_app connected calls code = do serve h calls; cleanup h; cleanup h; pure (returned code)
  run_app failed calls code = do cleanup h; pure (fatal format (connection_text failed))

  unfoldable pub main : Connection → List Call → ℤ → Action Exit
  main connection calls code = do
    result ← construct value arg h readable kern_log
    elim result [
      | constructed ↦ run_app connection calls code
      | log_missing ↦ pure (fatal format log_missing_text)
      | log_unreadable ↦ pure (fatal format log_unreadable_text)
      | no_interface ↦ pure (fatal format no_interface_text)
      | init_failed r ↦ pure (fatal format (init_text r))
    ]
