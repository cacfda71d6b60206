-- ===== src/Witnesses/Timeline.antt =====
-- Many ticks on concrete inputs.
use wifigateway_server.Base.{◌≡◌, refl, none, some, arith}
use wifigateway_server.Base.Int.{pos}
use wifigateway_server.Qt.Map.{lookup}
use wifigateway_server.Session.{Session, started, paused, exhausted, ended}
use wifigateway_server.Controller.State.{Controller}
use wifigateway_server.Controller.Timer.{tick}
use wifigateway_server.Controller.Lifetime.Heap.{Inv, create-Inv, new_controller-Inv}
use wifigateway_server.Controller.Refinement.Round.{Holds}
use wifigateway_server.Controller.Timeline.{CanRun, HasRun}
use wifigateway_server.Controller.Timeline.Ended.{ended_forgotten}
use wifigateway_server.Controller.Timeline.Paused.{HasRested, ticks-HasRested}
use wifigateway_server.Controller.Timeline.Ticks.{
  ticks, obliging, ticks_run, watchdog_ends, time_limit_exhausts,
}
use wifigateway_server.Witnesses.{
  dir, client, session_in, holding, nobody, holding-Inv, found_client,
}

can_run : CanRun 10 (session_in started)
can_run = record {
  is_started = refl;
  in_time = omega arith;
  in_quota = tt;
  watched = omega arith;
  active = omega arith;
}

ticks_run_example :
    (d : Controller) × (t : Session) × (ticks (obliging dir) 10 (holding (session_in started))
      ≡ some (tt, d))
    × Inv d
    × Holds d client 0 t
    × HasRun 10 (session_in started) t
ticks_run_example =
    ticks_run dir 10 client 0 (session_in started) (holding (session_in started))
      (holding-Inv started) (found_client (session_in started), refl) can_run

-- Three seconds before the watchdog, and with three seconds left.
abbrev unwatched : Session
unwatched = record (session_in started) { update_time_remaining = 3 }

abbrev short : Session
short = record (session_in started) { time_remaining = pos 3 }

watchdog_ends_example :
    (d : Controller) × (t : Session) × (ticks (obliging dir) 3 (holding unwatched) ≡ some (tt, d))
    × Inv d
    × Holds d client 0 t
    × (t.state ≡ ended)
watchdog_ends_example =
    watchdog_ends dir 2 client 0 unwatched (holding unwatched)
      (create-Inv client unwatched new_controller-Inv nobody refl) (found_client unwatched, refl)
      (record {
        is_started = refl;
        in_time = omega arith;
        in_quota = tt;
        watched = omega arith;
        active = omega arith;
      })
      (omega arith) refl

time_limit_exhausts_example :
    (d : Controller) × (t : Session) × (ticks (obliging dir) 3 (holding short) ≡ some (tt, d))
    × Inv d
    × Holds d client 0 t
    × (t.state ≡ exhausted)
time_limit_exhausts_example =
    time_limit_exhausts dir 2 client 0 short (holding short)
      (create-Inv client short new_controller-Inv nobody refl) (found_client short, refl)
      (record {
        is_started = refl;
        in_time = omega arith;
        in_quota = tt;
        watched = omega arith;
        active = omega arith;
      })
      refl (omega arith)

ended_forgotten_example :
    (b d : Controller) × (t : Session) × (ticks (obliging dir) 3599 (holding (session_in ended))
      ≡ some (tt, b))
    × Holds b client 0 t
    × (tick (obliging dir) b ≡ some (tt, d))
    × (lookup client d.sessions ≡ none)
ended_forgotten_example =
    ended_forgotten dir 3599 client 0 (session_in ended) (holding (session_in ended))
      (holding-Inv ended) (found_client (session_in ended), refl) refl refl

ticks-HasRested_example :
    (d : Controller) × (t : Session) × (ticks (obliging dir) 60 (holding (session_in paused))
      ≡ some (tt, d))
    × Inv d
    × Holds d client 0 t
    × HasRested (session_in paused) t
ticks-HasRested_example =
    ticks-HasRested dir 59 client 0 (session_in paused) (holding (session_in paused))
      (holding-Inv paused) (found_client (session_in paused), refl) refl refl
