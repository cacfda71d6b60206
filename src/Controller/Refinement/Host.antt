-- ===== src/Controller/Refinement/Host.antt =====
-- The host that runs no slot while a script runs, and the controller seen from one session.
use mathlib.Core.Path.{fun_ext}
use wifigateway_server.Base.{ℕ, ◌≡◌, ap, Option, some, ◌∷◌, arith}
use wifigateway_server.Qt.Text.{QString}
use wifigateway_server.Session.{Session}
use wifigateway_server.Controller.State.{Controller, update}
use wifigateway_server.Controller.Action.{Host}
use wifigateway_server.Controller.Machine.{View, Answer}

abbrev pub quiet : QString → Answer → Host
quiet dir answer = record {
  script_dir = dir;
  run_command_exec =
      λ command timeout c. some (answer command c.issued, record c { issued = command ∷ c.issued });
}

abbrev pub view : Session → Controller → View
view s c = record { session = s; issued = c.issued; emitted = c.emitted }

abbrev pub put : ℕ → View → Controller → Controller
put p v c = record c {
  cell = update c.cell p (some v.session);
  issued = v.issued;
  emitted = v.emitted;
}

-- Writing back what is there changes nothing.
pub put-view : (p : ℕ) (s : Session) (c : Controller) → c.cell p ≡ some s → put p (view s c) c ≡ c
put-view p s c e =
    ap (λ (f : ℕ → Option Session). record c { cell = f }) (fun_ext λ q. ground arith)

pub put-put : (p : ℕ) (v w : View) (c : Controller) → put p w (put p v c) ≡ put p w c
put-put p v w c =
    ap (λ (f : ℕ → Option Session). record c { cell = f; issued = w.issued; emitted = w.emitted })
      (fun_ext λ q. ground arith)
