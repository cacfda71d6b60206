-- ===== src/Controller/Refinement/Rules.antt =====
-- Actions that refine a step of the protocol of the session at an address: one rule for each way
-- to build an action.
use mathlib.Core.Path.{subst, fun_ext}
use wifigateway_server.Base.{ℕ, ◌≡◌, ◌∙◌, Bool, true, false, some, arith, if◌then◌else◌}
use wifigateway_server.Base.Int.{ℤ}
use wifigateway_server.Qt.Text.{QString}
use wifigateway_server.Qt.Map.{lookup}
use wifigateway_server.Session.{Session}
use wifigateway_server.Controller.State.{Controller, Warning}
use wifigateway_server.Controller.Action.{Action, pure, deref, assign, emit, ◌>>=◌, deref-bind}
use wifigateway_server.Controller.Timer.{run_if, emit_if}
use wifigateway_server.Controller.Machine.{View, with_record, warn_if}
use wifigateway_server.Controller.Refinement.Host.{view, put, put-view, put-put}

-- `m` does to a controller that holds the session of `ip` at `p` what `f` does to the session's
-- view, and `f` leaves the session its IP.
pub record Refines {A : Type 0} (ip : QString) (p : ℕ) (m : Action A) (f : View → A × View)
    : Type 0 where
  pub runs :
      (s : Session) (c : Controller)
      → c.cell p ≡ some s
      → s.ip ≡ ip
      → lookup ip c.sessions ≡ some p
      → m c ≡ some ((f (view s c)).0, put p (f (view s c)).1 c)
  pub same_ip : (v : View) → v.session.ip ≡ ip → (f v).1.session.ip ≡ ip

module _ (ip : QString) (p : ℕ) where
  pub Refines-pure : {A : Type 0} (a : A) → Refines ip p (pure a) (λ v. (a, v))
  unfolding pure
  Refines-pure a = record {
    runs = λ s c live _ found. ground (arith, put-view p s c live);
    same_ip = λ v e. e;
  }

  pub Refines-assign :
      (f : Session → Session)
      → ((s : Session) → (f s).ip ≡ s.ip)
      → Refines ip p (assign p f) (λ v. (tt, with_record (f v.session) v))
  unfolding assign
  Refines-assign f same = record {
    runs = λ s c live _ found. ground arith;
    same_ip = λ v e. same v.session ∙ e;
  }

  pub Refines-emit_if :
      (b : Bool) (w : Warning) → Refines ip p (emit_if b w) (λ v. (tt, warn_if b w v))
  unfolding emit pure
  Refines-emit_if b w = record {
    runs = λ s c live _ found. ground (arith, put-view p s c live);
    same_ip = λ v e. ground arith;
  }

  module _ {A B : Type 0} where
    pub Refines-bind :
        (m : Action A) (f : View → A × View) (n : A → Action B) (g : A → View → B × View)
        → Refines ip p m f
        → ((a : A) → Refines ip p (n a) (g a))
        → Refines ip p (m >>= n) (λ v. g (f v).0 (f v).1)
    unfolding ◌>>=◌
    Refines-bind m f n g rm rn = record {
      runs = λ s c live named found.
          let w = (f (view s c)).1 in
          let ran = rm.runs s c live named found in
          let next =
            (rn (f (view s c)).0).runs w.session (put p w c) (ground arith)
              (rm.same_ip (view s c) named) found in
          ground (arith, ran, next, put-put p w (g (f (view s c)).0 w).1 c);
      same_ip = λ v e. (rn (f v).0).same_ip (f v).1 (rm.same_ip v e);
    }

  module _ {B : Type 0} where
    -- A read, of the record that the view shows.
    pub Refines-deref :
        (n : Session → Action B) (g : Session → View → B × View)
        → ((s : Session) → s.ip ≡ ip → Refines ip p (n s) (g s))
        → Refines ip p (deref p >>= n) (λ v. g v.session v)
    Refines-deref n g rn = record {
      runs =
          λ s c live named found. deref-bind p s n c live ∙ (rn s named).runs s c live named found;
      same_ip = λ v e. (rn v.session e).same_ip v e;
    }

    pub Refines-if :
        (b : Bool) (m n : Action B) (f g : View → B × View)
        → Refines ip p m f
        → Refines ip p n g
        → Refines ip p (if b then m else n) (λ v. if b then f v else g v)
    Refines-if true m n f g rm rn = rm
    Refines-if false m n f g rm rn = rn

    -- Two steps that agree on every view are one.
    pub Refines-eq :
        (m : Action B) (f g : View → B × View)
        → ((v : View) → f v ≡ g v)
        → Refines ip p m f
        → Refines ip p m g
    Refines-eq m f g same = subst (Refines ip p m) (fun_ext same)

  -- `if(test) { action; }`, where the result is dropped.
  pub Refines-run_if :
      (b : Bool) (m : Action ℤ) (f : View → ℤ × View)
      → Refines ip p m f
      → Refines ip p (run_if b m) (λ v. (tt, if b then (f v).1 else v))
  Refines-run_if true m f rm = Refines-bind m f _ (λ _ v. (tt, v)) rm (λ _. Refines-pure tt)
  Refines-run_if false m f rm = Refines-pure tt
