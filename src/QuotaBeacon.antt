-- ===== src/QuotaBeacon.antt =====
-- quotabeacon.h/.cpp: a line of the kernel log that the firewall wrote for a megabyte of a session
-- becomes a signal with the IP, which the controller's constructor connects to
-- updateQuotaRemaining.
pub mod Pattern
pub mod Search
pub mod Capture
pub mod Usage
pub mod Exhaustion
pub mod Log
use wifigateway_server.Base.{Option, none, some, List, [], ◌∷◌, if◌then◌else◌}
use wifigateway_server.Qt.Text.{QString, is_empty}
use wifigateway_server.Controller.Action.{Action, pure, ◌>>=◌, ◌>>◌}
use wifigateway_server.Controller.Operations.{update_quota_remaining}

-- What the signal sets off in the controller.
pub on_signal : Option QString → Action Unit
on_signal none = pure tt
on_signal (some ip) = do update_quota_remaining ip; pure tt

-- `captured line` is `cap(1)` after `indexIn(line)`. That of the constructor's expression is
-- Pattern.captured.
module _ (captured : QString → QString) where
  -- The IP of the signal, if there is one.
  pub new_line : QString → Option QString
  new_line line = let ip_match = captured line in if is_empty ip_match then none else some ip_match

  pub on_line : QString → Action Unit
  on_line line = on_signal (new_line line)

  pub feed : List QString → Action Unit
  feed [] = pure tt
  feed (line ∷ more) = do on_line line; feed more
