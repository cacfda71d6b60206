-- ===== src/Controller/Lifecycle/Clean.antt =====
-- What a controller leaves on the heap when its life is over.
use wifigateway_server.Base.{Bool, Option, ℕ, ◌≡◌, refl, none, some, List, []}
use wifigateway_server.Qt.Text.{QString}
use wifigateway_server.FileWatcher.{File}
use wifigateway_server.FileWatcher.Opening.{Opening, opened, missing, no_permission, open_watcher}
use wifigateway_server.Controller.State.{Controller, new_controller}
use wifigateway_server.Controller.Action.{Host, pure, run-bind}
use wifigateway_server.Controller.Script.{clean_up_command, script_timeout}
use wifigateway_server.Controller.Settings.{cleanup, clear_sessions}
use wifigateway_server.Controller.Calls.{Call, serve}
use wifigateway_server.Controller.Lifetime.Heap.{Inv, new_controller-Inv}
use wifigateway_server.Controller.Lifetime.Rules.{
  Every, Nothing, Safe, Calm, Safe-pure, Safe-if, Safe-bind,
}
use wifigateway_server.Controller.Lifetime.Cleanup.{clear_sessions_lem}
use wifigateway_server.Controller.Lifetime.Serve.{result_of, serve-After}
use wifigateway_server.Controller.Lifecycle.{
  Construction, constructed, log_missing, log_unreadable, no_interface, init_failed, construct_body,
  construct_on, construct, live_on, live,
}

-- Nothing is left of a controller that was constructed; one that was not is in order.
abbrev pub Leaves : Construction → Controller → Type 0
Leaves constructed d = (d.sessions ≡ []) × ((p : ℕ) → d.cell p ≡ none)
Leaves log_missing d = Inv d
Leaves log_unreadable d = Inv d
Leaves no_interface d = Inv d
Leaves (init_failed _) d = Inv d

module _ (h : Host) (calm : Calm h) where
  pub cleanup_clean :
      (c : Controller)
      → Inv c
      → (d : Controller) × (cleanup h c ≡ some (tt, d)) × Leaves constructed d
  unfolding cleanup
  cleanup_clean c v =
      let script = h.run_command_exec (clean_up_command h.script_dir) script_timeout in
      let (r, b, ran, w) = result_of Every c (script c) ((calm _ _).at c v tt) in
      let d : Controller = record b { sessions = []; cell = λ _. none } in
      (
        d,
        run-bind script (λ _. clear_sessions) c b d ran (clear_sessions_lem b w),
        (refl, λ p. refl),
      )

module _ (value : QString → QString) (arg : QString → QString → QString) (h : Host)
    (calm : Calm h) where
  construct_body-Safe : Safe Every [] (construct_body value arg h)
  unfolding construct_body
  construct_body-Safe = Safe-if Every [] _ _ _ (Safe-pure Every [] no_interface) (
      Safe-bind Every [] _ _ (calm _ _) λ r.
        Safe-if Every [] _ _ _ (Safe-pure Every [] constructed)
          (Safe-pure Every [] (init_failed r)))

  construct_on-Safe : (o : Opening) → Safe Every [] (construct_on value arg h o)
  unfolding construct_on
  construct_on-Safe (opened _) = construct_body-Safe
  construct_on-Safe missing = Safe-pure Every [] log_missing
  construct_on-Safe no_permission = Safe-pure Every [] log_unreadable

  pub construct-Safe :
      (readable : Bool) (kern_log : Option File)
      → Safe Every [] (construct value arg h readable kern_log)
  unfolding construct
  construct-Safe readable kern_log = construct_on-Safe (open_watcher readable kern_log)

  rest_of_life :
      (result : Construction) (calls : List Call) (c : Controller)
      → Inv c
      → (d : Controller) × (live_on h calls result c ≡ some (result, d)) × Leaves result d
  unfolding live_on pure
  rest_of_life constructed calls c v =
      let (_, b, served, w) =
        result_of Nothing c (serve h calls c) (serve-After h calm calls c v) in
      let (d, cleaned, clean) = cleanup_clean h calm b w in
      (
        d,
        run-bind (serve h calls) _ c b d served
            (run-bind (cleanup h) (λ _. pure constructed) b d d cleaned refl),
        clean,
      )
  rest_of_life log_missing calls c v = (c, refl, v)
  rest_of_life log_unreadable calls c v = (c, refl, v)
  rest_of_life no_interface calls c v = (c, refl, v)
  rest_of_life (init_failed code) calls c v = (c, refl, v)

  -- On a host that removes no session while it runs a script, the life of a controller runs to its
  -- end for every kernel log and every sequence of calls. If its constructor has succeeded then the
  -- destructor leaves no session in the map and no record on the heap; if it has thrown, the map
  -- and the heap agree.
  pub live_clean :
      (readable : Bool) (kern_log : Option File) (calls : List Call)
      → (result : Construction) × (d : Controller) × (live value arg h readable kern_log calls
            new_controller
          ≡ some (result, d))
        × Leaves result d
  unfolding live
  live_clean readable kern_log calls =
      let (result, c, built, v) =
        result_of Every new_controller (construct value arg h readable kern_log new_controller)
          ((construct-Safe readable kern_log).at new_controller new_controller-Inv tt) in
      let (d, ran, left) = rest_of_life result calls c v in
      (
        result,
        d,
        run-bind (construct value arg h readable kern_log) (live_on h calls) new_controller c d
            built ran,
        left,
      )
