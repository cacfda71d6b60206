-- ===== src/Controller/Busy/Serve.antt =====
-- Calls on a busy runner, and a session that has not ended.
use wifigateway_server.Base.{ℕ, ◌≢◌, refl, Option, none, some, List, [], ◌∷◌}
use wifigateway_server.Qt.Text.{QString}
use wifigateway_server.Session.{SessionState, ended, blank_session}
use wifigateway_server.Controller.State.{Controller}
use wifigateway_server.Controller.Action.{Action, pure, modify, deref, ◌>>=◌, ◌>>◌}
use wifigateway_server.Controller.Operations.{success}
use wifigateway_server.Controller.Settings.{
  get_session, set_default_bandwidth, set_default_quota, set_default_time, get_default_session,
  set_default_session, deref_each, get_all_sessions, get_ips,
}
use wifigateway_server.Controller.Calls.{
  Call, new_call, start_call, pause_call, play_call, update_call, end_call, delete_call,
  bandwidth_call, quota_call, time_call, default_bandwidth_call, default_quota_call,
  default_time_call, default_session_call, quota_used_call, session_call, default_session_query,
  all_sessions_call, ips_call, tick_call, cleanup_call, perform, serve,
}
use wifigateway_server.Controller.Reentrancy.{busy}
use wifigateway_server.Controller.Busy.Rules.{
  Good, Firm, Firm-pure, Firm-gets, Firm-bind, Firm-modify, Firm-deref, same-Good,
}
use wifigateway_server.Controller.Busy.Operations.{
  new_session-Firm, update_session-Firm, update_quota_remaining-Firm, set_time-Firm,
  start_session-Firm, pause_session-Firm, play_session-Firm, end_session-Firm, set_bandwidth-Firm,
  set_quota-Firm,
}
use wifigateway_server.Controller.Busy.Removal.{delete_session-Firm}
use wifigateway_server.Controller.Busy.Timer.{tick-Firm}

-- The calls that are no clean-up.
abbrev pub Spares : Call → Type 0
Spares cleanup_call = ⊥
Spares _ = Unit {0}

abbrev pub AllSpare : List Call → Type 0
AllSpare [] = Unit {0}
AllSpare (call ∷ calls) = Spares call × AllSpare calls

module _ (ip : QString) (p : ℕ) (st : SessionState) where
  ignored : {A : Type 0} (m : Action A) → Firm ip p st m → Firm ip p st (m >>= λ _. pure tt)
  ignored m fm = Firm-bind ip p st m _ fm λ _. Firm-pure ip p st tt

  setting :
      (f : Controller → Controller)
      → ((c : Controller) → Good ip p st c → Good ip p st (f c))
      → Firm ip p st (modify f >> pure success)
  setting f keeps =
      Firm-bind ip p st _ _ (Firm-modify ip p st f keeps) λ _. Firm-pure ip p st success

  get_session-Firm : (j : QString) → Firm ip p st (get_session j)
  unfolding get_session
  get_session-Firm j = Firm-bind ip p st _ _ (Firm-gets ip p st _) go
    where
      go :
          (found : Option ℕ)
          → Firm ip p st (elim found [
            | none ↦ pure blank_session
            | some q ↦ deref q >>= λ s. pure (record s { ip = j })
          ])
      go none = Firm-pure ip p st blank_session
      go (some q) = Firm-deref ip p st q _ λ s. Firm-pure ip p st _

  deref_each-Firm : (qs : List ℕ) → Firm ip p st (deref_each qs)
  unfolding deref_each
  deref_each-Firm [] = Firm-pure ip p st []
  deref_each-Firm (q ∷ qs) =
      Firm-deref ip p st q _
        λ s. Firm-bind ip p st _ _ (deref_each-Firm qs) λ rest. Firm-pure ip p st (s ∷ rest)

  module _ (running : st ≢ ended) (dir : QString) where
    perform-Firm : (call : Call) → Spares call → Firm ip p st (perform (busy dir) call)
    unfolding perform set_default_bandwidth set_default_quota set_default_time set_default_session
        get_default_session get_ips get_all_sessions
    perform-Firm (new_call j) f = ignored _ (new_session-Firm ip p st j)
    perform-Firm (start_call j) f = ignored _ (start_session-Firm ip p st dir j)
    perform-Firm (pause_call j) f = ignored _ (pause_session-Firm ip p st dir j)
    perform-Firm (play_call j) f = ignored _ (play_session-Firm ip p st dir j)
    perform-Firm (update_call j) f = ignored _ (update_session-Firm ip p st j)
    perform-Firm (end_call j) f = ignored _ (end_session-Firm ip p st dir j)
    perform-Firm (delete_call j) f = ignored _ (delete_session-Firm ip p st running dir j)
    perform-Firm (bandwidth_call j bw) f = ignored _ (set_bandwidth-Firm ip p st dir j bw)
    perform-Firm (quota_call j x) f = ignored _ (set_quota-Firm ip p st dir j x)
    perform-Firm (time_call j x) f = ignored _ (set_time-Firm ip p st j x)
    perform-Firm (default_bandwidth_call bw) f =
        ignored _ (setting _ λ c g. same-Good ip p st c _ refl refl refl g)
    perform-Firm (default_quota_call x) f =
        ignored _ (setting _ λ c g. same-Good ip p st c _ refl refl refl g)
    perform-Firm (default_time_call x) f =
        ignored _ (setting _ λ c g. same-Good ip p st c _ refl refl refl g)
    perform-Firm (default_session_call s) f =
        ignored _ (setting _ λ c g. same-Good ip p st c _ refl refl refl g)
    perform-Firm (quota_used_call j) f = ignored _ (update_quota_remaining-Firm ip p st j)
    perform-Firm (session_call j) f = ignored _ (get_session-Firm j)
    perform-Firm default_session_query f = ignored _ (Firm-gets ip p st _)
    perform-Firm all_sessions_call f =
        ignored _ (Firm-bind ip p st _ _ (Firm-gets ip p st _) λ qs. deref_each-Firm qs)
    perform-Firm ips_call f = ignored _ (Firm-gets ip p st _)
    perform-Firm tick_call f = tick-Firm ip p st dir running
    perform-Firm cleanup_call f = absurd f

    pub serve-Firm : (calls : List Call) → AllSpare calls → Firm ip p st (serve (busy dir) calls)
    unfolding serve
    serve-Firm [] f = Firm-pure ip p st tt
    serve-Firm (call ∷ calls) (f, g) =
        Firm-bind ip p st _ _ (perform-Firm call f) λ _. serve-Firm calls g
