-- ===== src/Controller/State.antt =====
-- The Controller object with the heap that its sessions live in.
use wifigateway_server.Base.{ℕ, Option, none, List, [], ◌==◌, if◌then◌else◌}
use wifigateway_server.Base.Int.{to_uint32}
use wifigateway_server.Qt.Text.{QString}
use wifigateway_server.Qt.Map.{QMap}
use wifigateway_server.Session.{
  Session, default_bandwidth_value, default_quota_value, default_time_value,
}

-- The signals of the controller.
pub data Warning : Type 0 where
  time_warning update_time_warning activity_time_warning pause_time_warning : Warning

-- `sessions` maps an address to each IP; `cell` is the heap, where `none` is memory that was never
-- allocated or has been deleted, and `next` is the address of the next `new`. `emitted` and
-- `issued` record the signals and the commands, the newest first.
pub record Controller : Type 0 where
  pub sessions : QMap ℕ
  pub cell : ℕ → Option Session
  pub next : ℕ
  pub default_bandwidth : ℕ
  pub default_quota : ℕ
  pub default_time : ℕ
  pub emitted : List Warning
  pub issued : List QString

abbrev pub update : (ℕ → Option Session) → ℕ → Option Session → ℕ → Option Session
update f p o q = if p == q then o else f q

-- A new controller: no session, and the defaults of controller.h in their quint32 members.
abbrev pub new_controller : Controller
new_controller = record {
  sessions = [];
  cell = λ _. none;
  next = 0;
  default_bandwidth = default_bandwidth_value;
  default_quota = to_uint32 default_quota_value;
  default_time = to_uint32 default_time_value;
  emitted = [];
  issued = [];
}
