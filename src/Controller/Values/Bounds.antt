-- ===== src/Controller/Values/Bounds.antt =====
-- The ranges of the fields and of the defaults, as the machine has them and as the timers use them.
use mathlib.Core.Path.{subst}
use wifigateway_server.Base.{◌^◌, ◌≤◌, ◌<◌, ◌≡◌, some, List, arith}
use wifigateway_server.Base.Int.{
  ℤ, pos, negsuc, count_down, FitsInt32, to_uint32-lt, to_int32-FitsInt32,
}
use wifigateway_server.Session.{Session, activity_time, update_time, pause_time, end_time}
use wifigateway_server.Controller.State.{Controller, new_controller}
use wifigateway_server.Controller.Action.{Host}
use wifigateway_server.Controller.Calls.{Call, serve}
use wifigateway_server.Controller.Lifetime.Rules.{Calm}
use wifigateway_server.Controller.Lifetime.Serve.{serve_safe}
use wifigateway_server.Controller.Values.{Values}
use wifigateway_server.Controller.Values.Rules.{Valid, Ends, HostSound}
use wifigateway_server.Controller.Values.Serve.{AllFit, serve-Sound}

-- A quint32 or a qint32 holds each field, and no timer has more left than it starts with.
abbrev pub InBounds : Session → Type 0
InBounds s =
    (s.bandwidth < 2 ^ 32)
    × FitsInt32 s.time_remaining
    × FitsInt32 s.quota_remaining
    × (s.activity_time_remaining ≤ activity_time)
    × (s.update_time_remaining ≤ update_time)
    × (s.pause_time_remaining ≤ pause_time)
    × (s.end_time_remaining ≤ end_time)
    × (s.session_time < 2 ^ 32)

pub count_down-FitsInt32 : (x : ℤ) → FitsInt32 x → FitsInt32 (count_down x)
count_down-FitsInt32 (pos n) h = omega arith
count_down-FitsInt32 (negsuc n) h = h

abbrev pub bounds : Values
bounds = record {
  Ok = InBounds;
  Default = λ b q t. (b < 2 ^ 32) × (q < 2 ^ 32) × (t < 2 ^ 32);
  Emits = λ w. Unit {0};
  Bandwidth = λ bw. bw < 2 ^ 32;
  Number = FitsInt32;
  fresh = λ b q t ip ok. (
    ok.0,
    to_int32-FitsInt32 t,
    to_int32-FitsInt32 q,
    omega arith,
    omega arith,
    omega arith,
    omega arith,
    omega arith,
  );
  starts = λ s ok. (ok.0, ok.1, ok.2, omega arith, omega arith, ok.5, ok.6, ok.7);
  moves = λ st s ok. (ok.0, ok.1, ok.2, ok.3, ok.4, ok.5, ok.6, ok.7);
  updates = λ s ok. (ok.0, ok.1, ok.2, ok.3, omega arith, ok.5, ok.6, ok.7);
  charges = λ s ok.
      (ok.0, ok.1, count_down-FitsInt32 s.quota_remaining ok.2, ok.3, ok.4, ok.5, ok.6, ok.7);
  runs = λ s ok. (
    ok.0,
    count_down-FitsInt32 s.time_remaining ok.1,
    ok.2,
    ok.3,
    omega (arith, ok.4),
    ok.5,
    ok.6,
    omega arith,
  );
  rests = λ s ok. (ok.0, ok.1, ok.2, ok.3, omega (arith, ok.4), ok.5, ok.6, omega arith);
  waits = λ s ok. (ok.0, ok.1, ok.2, ok.3, ok.4, omega (arith, ok.5), ok.6, ok.7);
  ages = λ s ok. (ok.0, ok.1, ok.2, ok.3, ok.4, ok.5, omega (arith, ok.6), ok.7);
  resets = λ s ok. (ok.0, ok.1, ok.2, ok.3, ok.4, omega arith, ok.6, ok.7);
  bandwidth = λ bw s fits ok. (fits, ok.1, ok.2, ok.3, ok.4, ok.5, ok.6, ok.7);
  quota = λ x s fits ok. (ok.0, ok.1, fits, ok.3, ok.4, ok.5, ok.6, ok.7);
  time = λ x s fits ok. (ok.0, fits, ok.2, ok.3, ok.4, ok.5, ok.6, ok.7);
  default_bandwidth = λ b q t bw fits ok. (fits, ok.1, ok.2);
  default_quota = λ b q t x fits ok. (ok.0, to_uint32-lt x, ok.2);
  default_time = λ b q t x fits ok. (ok.0, ok.1, to_uint32-lt x);
  warns = (tt, tt, tt);
  warns_idle = λ s ok e. tt;
}

new_controller-Valid : Valid bounds new_controller
new_controller-Valid = record {
  records = λ p s e. absurd cc;
  defaults = (omega arith, omega arith, omega arith);
  warnings = tt;
}

-- Let a host remove no session and keep the bounds while it runs a script. Then the controller
-- serves every sequence of calls with arguments that fit their types, and at the end the fields of
-- every record and the defaults fit their types too, and no timer of a record has more left than it
-- starts with.
pub serve-Valid :
    (h : Host)
    → Calm h
    → HostSound bounds h
    → (calls : List Call) → AllFit bounds calls
    → (d : Controller) × (serve h calls new_controller ≡ some (tt, d)) × Valid bounds d
serve-Valid h calm sound calls fit =
    let (d, ran, _) = serve_safe h calm calls in
    (
      d,
      ran,
      subst (Ends bounds) ran
          ((serve-Sound bounds h sound calls fit).at new_controller new_controller-Valid),
    )
