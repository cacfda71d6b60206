-- ===== src/Controller/Action.antt =====
-- A method of the controller as an action on its state; `none` is an access to memory that is not
-- allocated, or a second delete.
use native.Mathlib.Omega.{arith}
use wifigateway_server.Base.{ℕ, suc, ◌≡◌, Option, none, some, ◌∷◌}
use wifigateway_server.Base.Int.{ℤ}
use wifigateway_server.Qt.Text.{QString}
use wifigateway_server.Session.{Session}
use wifigateway_server.Controller.State.{Controller, Warning, update}

abbrev pub Action : Type 0 → Type 0
Action A = Controller → Option (A × Controller)

module _ {A : Type 0} where
  unfoldable pub pure : A → Action A
  pure a c = some (a, c)

  unfoldable pub gets : (Controller → A) → Action A
  gets f c = some (f c, c)

unfoldable pub modify : (Controller → Controller) → Action Unit
modify f c = some (tt, f c)

-- `new Session`, initialised.
unfoldable pub alloc : Session → Action ℕ
alloc s c = some (c.next, record c { cell = update c.cell c.next (some s); next = suc c.next })

-- `*session`, for a read.
unfoldable pub deref : ℕ → Action Session
deref p c = elim (c.cell p) [ none ↦ none | some s ↦ some (s, c) ]

-- `session->field = ...`, one or several of them.
unfoldable pub assign : ℕ → (Session → Session) → Action Unit
assign p f c = elim (c.cell p) [
  | none ↦ none
  | some s ↦ some (tt, record c { cell = update c.cell p (some (f s)) })
]

-- `delete session`.
unfoldable pub free : ℕ → Action Unit
free p c = elim (c.cell p) [
  | none ↦ none
  | some _ ↦ some (tt, record c { cell = update c.cell p none })
]

unfoldable pub emit : Warning → Action Unit
emit w c = some (tt, record c { emitted = w ∷ c.emitted })

module _ {A B : Type 0} where
  infixl 10 ◌>>=◌ ◌>>◌
  unfoldable pub ◌>>=◌ : Action A → (A → Action B) → Action B
  unfolding pure gets modify alloc deref assign free emit
  ◌>>=◌ m f c = elim (m c) [ none ↦ none | some (a, c') ↦ f a c' ]

  abbrev pub ◌>>◌ : Action A → Action B → Action B
  m >> n = m >>= λ _. n

module _ (p : ℕ) (s : Session) where
  pub deref-bind :
      {B : Type 0} (f : Session → Action B) (c : Controller)
      → c.cell p ≡ some s
      → (deref p >>= f) c ≡ f s c
  unfolding ◌>>=◌
  deref-bind f c e = ground arith

  pub assign_live :
      (f : Session → Session) (c : Controller)
      → c.cell p ≡ some s
      → assign p f c ≡ some (tt, record c { cell = update c.cell p (some (f s)) })
  unfolding assign
  assign_live f c e = ground arith

  pub free-bind :
      {B : Type 0} (f : Unit → Action B) (c : Controller)
      → c.cell p ≡ some s
      → (free p >>= f) c ≡ f tt (record c { cell = update c.cell p none })
  unfolding ◌>>=◌
  free-bind f c e = ground arith

-- A first action and the rest, run one after the other.
pub run-bind :
    {A B : Type 0} (m : Action A) (n : A → Action B) {a : A} {o : B} (c b d : Controller)
    → m c ≡ some (a, b)
    → n a b ≡ some (o, d)
    → (m >>= n) c ≡ some (o, d)
unfolding ◌>>=◌
run-bind m n c b d e f = ground arith

-- What the controller runs on: the directory of the scripts, which the build fills in, and the
-- shell behind `RunCommand::runCommandExec`, which returns a result and may run other slots
-- of the controller before it does, since it waits in an event loop. The number is the timeout.
pub record Host : Type 0 where
  pub script_dir : QString
  pub run_command_exec : QString → ℕ → Action ℤ
