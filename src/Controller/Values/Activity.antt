-- ===== src/Controller/Values/Activity.antt =====
-- The activity timer, whose counting down is left out of `tick`.
use mathlib.Core.Path.{subst}
use wifigateway_server.Base.{ℕ, ◌≡◌, ◌≢◌, refl, some, List, [], ◌∷◌, arith, true, ◌==◌}
use wifigateway_server.Session.{Session, activity_time, activity_warning_time}
use wifigateway_server.Controller.State.{
  Controller, Warning, time_warning, update_time_warning, pause_time_warning, activity_time_warning,
  new_controller,
}
use wifigateway_server.Controller.Action.{Host}
use wifigateway_server.Controller.Calls.{Call, default_session_call, serve}
use wifigateway_server.Controller.Lifetime.Rules.{Calm}
use wifigateway_server.Controller.Lifetime.Serve.{serve_safe}
use wifigateway_server.Controller.Values.{Values}
use wifigateway_server.Controller.Values.Rules.{Valid, Emitted, Ends, HostSound}
use wifigateway_server.Controller.Values.Serve.{Fits, AllFit, serve-Sound}

-- The other signals, and a timer that is full.
pub other_warnings :
    (time_warning ≢ activity_time_warning)
    × (update_time_warning ≢ activity_time_warning)
    × (pause_time_warning ≢ activity_time_warning)
other_warnings = (λ e. cc, λ e. cc, λ e. cc)

pub full_is_not_low :
    (n : ℕ)
    → n ≡ activity_time
    → (n == activity_warning_time) ≡ true
    → activity_time_warning ≢ activity_time_warning
full_is_not_low n full low = absurd (ground arith)

abbrev pub activity : Values
activity = record {
  Ok = λ s. s.activity_time_remaining ≡ activity_time;
  Default = λ b q t. Unit {0};
  Emits = λ w. w ≢ activity_time_warning;
  Bandwidth = λ bw. Unit {0};
  Number = λ x. Unit {0};
  fresh = λ b q t ip ok. refl;
  starts = λ s ok. refl;
  moves = λ st s ok. ok;
  updates = λ s ok. ok;
  charges = λ s ok. ok;
  runs = λ s ok. ok;
  rests = λ s ok. ok;
  waits = λ s ok. ok;
  ages = λ s ok. ok;
  resets = λ s ok. ok;
  bandwidth = λ bw s fits ok. ok;
  quota = λ x s fits ok. ok;
  time = λ x s fits ok. ok;
  default_bandwidth = λ b q t bw fits ok. tt;
  default_quota = λ b q t x fits ok. tt;
  default_time = λ b q t x fits ok. tt;
  warns = other_warnings;
  warns_idle = λ s ok e. full_is_not_low s.activity_time_remaining ok e;
}

new_controller-Valid : Valid activity new_controller
new_controller-Valid = record { records = λ p s e. absurd cc; defaults = tt; warnings = tt }

-- Every call fits an interface that asks nothing of the arguments.
any-Fits : (call : Call) → Fits activity call
any-Fits (default_session_call s) = (tt, tt, tt)
any-Fits call = tt

any-AllFit : (calls : List Call) → AllFit activity calls
any-AllFit [] = tt
any-AllFit (call ∷ calls) = (any-Fits call, any-AllFit calls)

-- No signal of the list is the activity warning.
abbrev pub IsSilent : List Warning → Type 0
IsSilent [] = Unit {0}
IsSilent (w ∷ ws) = (w ≢ activity_time_warning) × IsSilent ws

-- Let a host remove no session and leave the activity timers and the activity warning alone while
-- it runs a script. Then the controller serves every sequence of calls, and at the end the activity
-- timer of every record has all of its time left, and the activity warning has never been emitted.
pub serve-IsSilent :
    (h : Host)
    → Calm h
    → HostSound activity h
    → (calls : List Call)
    → (d : Controller) × (serve h calls new_controller ≡ some (tt, d))
      × ((p : ℕ) (s : Session) → d.cell p ≡ some s → s.activity_time_remaining ≡ activity_time)
      × IsSilent d.emitted
serve-IsSilent h calm sound calls =
    let (d, ran, _) = serve_safe h calm calls in
    let v : Valid activity d = subst (Ends activity) ran (
      (serve-Sound activity h sound calls (any-AllFit calls)).at new_controller
        new_controller-Valid) in
    (d, ran, v.records, silent d.emitted v.warnings)
  where
    silent : (ws : List Warning) → Emitted activity ws → IsSilent ws
    silent [] e = tt
    silent (w ∷ ws) e = (e.0, silent ws e.1)
