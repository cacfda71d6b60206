-- ===== src/Process/Ending.antt =====
-- How `main` ends, and what it leaves.
use wifigateway_server.Base.{Bool, Option, ◌≡◌, refl, some, List, arith}
use wifigateway_server.Base.Int.{ℤ}
use wifigateway_server.Qt.Text.{QString}
use wifigateway_server.Qt.Map.{lookup}
use wifigateway_server.FileWatcher.{File}
use wifigateway_server.Controller.State.{Controller, new_controller}
use wifigateway_server.Controller.Action.{Host, pure, ◌>>◌, run-bind}
use wifigateway_server.Controller.Settings.{cleanup}
use wifigateway_server.Controller.Calls.{Call, serve}
use wifigateway_server.Controller.Lifetime.Heap.{Inv, new_controller-Inv}
use wifigateway_server.Controller.Lifetime.Rules.{Every, Nothing, Calm}
use wifigateway_server.Controller.Lifetime.Serve.{result_of, serve-After}
use wifigateway_server.Controller.Lifecycle.{
  Construction, constructed, log_missing, log_unreadable, no_interface, init_failed, construct,
}
use wifigateway_server.Controller.Lifecycle.Clean.{Leaves, cleanup_clean, construct-Safe}
use wifigateway_server.Adaptor.Connect.{
  Connection, connected, no_dbus, service_failed, object_failed,
}
use wifigateway_server.Process.Main.{
  Exit, returned, fatal, log_missing_text, log_unreadable_text, no_interface_text, connection_text,
  run_app, main,
}

clean-Inv : (c : Controller) → Leaves constructed c → Inv c
unfolding lookup
clean-Inv c (empty, free) = record {
  sorted = rw empty tt;
  owned = rw empty λ ip p e. absurd cc;
  no_leak = λ p s e. absurd (ground (arith, free p));
  fresh = λ p _. free p;
}

abbrev pub exit_of : (QString → QString) → Connection → ℤ → Exit
exit_of format connected code = returned code
exit_of format no_dbus code = fatal format (connection_text no_dbus)
exit_of format service_failed code = fatal format (connection_text service_failed)
exit_of format object_failed code = fatal format (connection_text object_failed)

module _ (value : QString → QString) (arg : QString → QString → QString) (init_text : ℤ → QString)
    (format : QString → QString) (readable : Bool) (kern_log : Option File) (h : Host) where
  -- The exit of `main` and the controller that it leaves, by how the constructor has ended in `c`.
  abbrev pub Finishes : Construction → Connection → ℤ → Controller → Exit → Controller → Type 0
  Finishes constructed connection code c e d =
      (e ≡ exit_of format connection code) × Leaves constructed d
  Finishes log_missing connection code c e d = (e ≡ fatal format log_missing_text) × (d ≡ c)
  Finishes log_unreadable connection code c e d = (e ≡ fatal format log_unreadable_text) × (d ≡ c)
  Finishes no_interface connection code c e d = (e ≡ fatal format no_interface_text) × (d ≡ c)
  Finishes (init_failed r) connection code c e d = (e ≡ fatal format (init_text r)) × (d ≡ c)

  module _ (calm : Calm h) where
    once :
        (e : Exit) (c : Controller)
        → Inv c
        → (d : Controller) × ((do cleanup h; pure e) c ≡ some (e, d)) × Leaves constructed d
    unfolding pure
    once e c v =
        let (d, ran, clean) = cleanup_clean h calm c v in
        (d, run-bind (cleanup h) (λ _. pure e) c d d ran refl, clean)

    run_app_lem :
        (connection : Connection) (calls : List Call) (code : ℤ) (c : Controller)
        → Inv c
        → (d : Controller) × (run_app value arg init_text format readable kern_log h connection
              calls code c
            ≡ some (exit_of format connection code, d))
          × Leaves constructed d
    unfolding run_app
    run_app_lem connected calls code c v =
        let (_, b, served, w) =
          result_of Nothing c (serve h calls c) (serve-After h calm calls c v) in
        let (b', quit, clean) = cleanup_clean h calm b w in
        let (d, ran, clean') = once (returned code) b' (clean-Inv b' clean) in
        (
          d,
          run-bind (serve h calls) _ c b d served (run-bind (cleanup h) _ b b' d quit ran),
          clean',
        )
    run_app_lem no_dbus calls code c v = once _ c v
    run_app_lem service_failed calls code c v = once _ c v
    run_app_lem object_failed calls code c v = once _ c v

    finish :
        (result : Construction) (connection : Connection) (calls : List Call) (code : ℤ)
        (c : Controller)
        → construct value arg h readable kern_log new_controller ≡ some (result, c)
        → Inv c
        → (e : Exit) × (d : Controller) × (main value arg init_text format readable kern_log h
              connection calls code new_controller
            ≡ some (e, d))
          × Finishes result connection code c e d
    unfolding main pure
    finish constructed connection calls code c built v =
        let (d, ran, clean) = run_app_lem connection calls code c v in
        (
          _,
          d,
          run-bind (construct value arg h readable kern_log) _ new_controller c d built ran,
          (refl, clean),
        )
    finish log_missing connection calls code c built v = (
      _,
      c,
      run-bind (construct value arg h readable kern_log) _ new_controller c c built refl,
      (refl, refl),
    )
    finish log_unreadable connection calls code c built v = (
      _,
      c,
      run-bind (construct value arg h readable kern_log) _ new_controller c c built refl,
      (refl, refl),
    )
    finish no_interface connection calls code c built v = (
      _,
      c,
      run-bind (construct value arg h readable kern_log) _ new_controller c c built refl,
      (refl, refl),
    )
    finish (init_failed r) connection calls code c built v = (
      _,
      c,
      run-bind (construct value arg h readable kern_log) _ new_controller c c built refl,
      (refl, refl),
    )

    -- On a host that removes no session while it runs a script, main ends for every configuration,
    -- kernel log, connection to the bus and sequence of calls. If the controller is constructed
    -- then no session is left in the map or on the heap, and main returns what the event loop
    -- returns, or aborts with the text of the adaptor's exception. If not, it aborts with the text
    -- of the controller's exception, that of a kernel log that is missing or not readable included,
    -- and nothing has been done but what its constructor did. The text is what qFatal makes of it
    -- as a format.
    pub main_lem :
        (connection : Connection) (calls : List Call) (code : ℤ)
        → (result : Construction) × (c : Controller) × (e : Exit) × (d : Controller) × (construct
              value arg h readable kern_log new_controller
            ≡ some (result, c))
          × (main value arg init_text format readable kern_log h connection calls code
                new_controller
              ≡ some (e, d))
          × Finishes result connection code c e d
    main_lem connection calls code =
        let (result, c, built, v) =
          result_of Every new_controller (construct value arg h readable kern_log new_controller) (
            (construct-Safe value arg h calm readable kern_log).at new_controller new_controller-Inv
              tt) in
        let (e, d, ran, ends) = finish result connection calls code c built v in
        (result, c, e, d, built, ran, ends)
