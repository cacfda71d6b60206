-- ===== src/Adaptor.antt =====
-- controllerdbusadaptor.h/.cpp and sessionexport.h: the bus interface. Each method passes its call
-- to the controller; SessionExport is what crosses the bus.
pub mod Marshal
pub mod Register
pub mod Connect
pub mod Forward
use wifigateway_server.Base.{ℕ, List}
use wifigateway_server.Base.Int.{ℤ, pos, to_uint32}
use wifigateway_server.Qt.Text.{QString}
use wifigateway_server.Session.{Session, ordinal}
use wifigateway_server.Controller.Action.{Action, Host, pure, ◌>>=◌, ◌>>◌}
use wifigateway_server.Controller.Operations
use wifigateway_server.Controller.Settings

-- `struct SessionExport`.
pub record SessionExport : Type 0 where
  pub ip : QString
  pub mac : QString
  pub state : ℤ
  pub bandwidth : ℕ
  pub time_remaining : ℤ
  pub quota_remaining : ℤ
  pub activity_time_remaining : ℕ
  pub update_time_remaining : ℕ
  pub pause_time_remaining : ℕ
  pub end_time_remaining : ℕ
  pub session_time : ℕ

-- The copy, field by field, of getSession.
abbrev pub export : Session → SessionExport
export s = record {
  ip = s.ip;
  mac = s.mac;
  state = pos (ordinal s.state);
  bandwidth = s.bandwidth;
  time_remaining = s.time_remaining;
  quota_remaining = s.quota_remaining;
  activity_time_remaining = s.activity_time_remaining;
  update_time_remaining = s.update_time_remaining;
  pause_time_remaining = s.pause_time_remaining;
  end_time_remaining = s.end_time_remaining;
  session_time = s.session_time;
}

pub new_session : QString → Action ℤ
new_session ip = Operations.new_session ip

pub update_session : QString → Action ℤ
update_session ip = Operations.update_session ip

pub get_session : QString → Action SessionExport
get_session ip = do stats ← Settings.get_session ip; pure (export stats)

module _ (h : Host) where
  pub start_session : QString → Action ℤ
  start_session ip = Operations.start_session h ip

  pub pause_session : QString → Action ℤ
  pause_session ip = Operations.pause_session h ip

  pub play_session : QString → Action ℤ
  play_session ip = Operations.play_session h ip

  pub end_session : QString → Action ℤ
  end_session ip = Operations.end_session h ip

  pub delete_session : QString → Action ℤ
  delete_session ip = Operations.delete_session h ip

  -- The argument is a qint32, and the controller's parameter a quint32.
  pub set_bandwidth : QString → ℤ → Action ℤ
  set_bandwidth ip bw = Settings.set_bandwidth h ip (to_uint32 bw)

  pub set_quota : QString → ℤ → Action ℤ
  set_quota ip quota = Settings.set_quota h ip quota

  -- As it is written: the time goes to `setQuota`.
  pub set_time : QString → ℤ → Action ℤ
  set_time ip time = Settings.set_quota h ip time

pub get_ips : Action (List QString)
get_ips = Settings.get_ips

pub set_default_bandwidth : ℕ → Action ℤ
set_default_bandwidth bw = Settings.set_default_bandwidth bw

pub set_default_quota : ℤ → Action ℤ
set_default_quota quota = Settings.set_default_quota quota

pub set_default_time : ℤ → Action ℤ
set_default_time time = Settings.set_default_time time

-- Only three fields are assigned: `uninitialised` stands for what the others hold.
pub get_default_session : SessionExport → Action SessionExport
get_default_session uninitialised = do
  s ← Settings.get_default_session
  pure (record uninitialised {
    bandwidth = s.bandwidth;
    quota_remaining = s.quota_remaining;
    time_remaining = s.time_remaining;
  })

-- Here too, `uninitialised` is the rest of the record that is passed on.
pub set_default_session : Session → SessionExport → Action ℤ
set_default_session uninitialised s = Settings.set_default_session (record uninitialised {
  bandwidth = s.bandwidth;
  quota_remaining = s.quota_remaining;
  time_remaining = s.time_remaining;
})
