-- ===== src/Controller/Access/Serve.antt =====
-- Runs of the whole server, against the access of the hosts.
use wifigateway_server.Base.{ℕ, ◌≡◌, refl, some, List, [], ◌∷◌}
use wifigateway_server.Base.Int.{ℤ, pos}
use wifigateway_server.Qt.Text.{QString}
use wifigateway_server.Qt.Map.{lookup}
use wifigateway_server.Session.{Session, blank_session}
use wifigateway_server.Controller.State.{Controller, new_controller}
use wifigateway_server.Controller.Action.{Action, pure, ◌>>=◌}
use wifigateway_server.Controller.Settings.{
  set_default_bandwidth, set_default_quota, set_default_time, set_default_session,
  get_default_session, get_ips,
}
use wifigateway_server.Controller.Calls.{
  Call, new_call, start_call, pause_call, play_call, update_call, end_call, delete_call,
  bandwidth_call, quota_call, time_call, default_bandwidth_call, default_quota_call,
  default_time_call, default_session_call, quota_used_call, session_call, default_session_query,
  all_sessions_call, ips_call, tick_call, cleanup_call, perform, serve,
}
use wifigateway_server.Controller.Machine.{Answer}
use wifigateway_server.Controller.Lifetime.Heap.{new_controller-Inv}
use wifigateway_server.Controller.Refinement.Host.{quiet}
use wifigateway_server.Controller.Action.{run-bind}
use wifigateway_server.Controller.Access.{LastAsked, at_first, has_started, Admits}
use wifigateway_server.Base.{◌↔◌, Bool, sym}
use mathlib.Core.Path.{subst}
use wifigateway_server.Controller.Access.Unique.{LastAsked-unique}
use wifigateway_server.Controller.Access.Sessions.{
  Runs, new_session-Runs, start_session-Runs, pause_session-Runs, play_session-Runs,
  end_session-Runs, delete_session-Runs,
}
use wifigateway_server.Controller.Access.Settings.{
  update_session-Runs, update_quota_remaining-Runs, set_time-Runs, set_quota-Runs,
  set_bandwidth-Runs, get_session-Runs, get_all_sessions-Runs, same-Admits, cleanup-Runs,
}
use wifigateway_server.Controller.Access.Tick.{tick-Runs}

module _ (dir : QString) (answer : Answer) where
  new_controller-Admits : Admits dir answer new_controller
  unfolding lookup
  new_controller-Admits = record { inv = new_controller-Inv; access = λ ip. at_first }

  ignored : {A : Type 0} (m : Action A) → Runs dir answer m → Runs dir answer (m >>= λ _. pure tt)
  unfolding pure
  ignored m r = record {
    at = λ c a.
        let (x, d, ran, b) = r.at c a in (tt, d, run-bind m (λ _. pure tt) c d d ran refl, b);
  }

  -- The setters of the defaults, and the getters that read no record.
  setters-Runs :
      (bw : ℕ) (quota time : ℤ) (s : Session)
      → Runs dir answer (set_default_bandwidth bw)
        × Runs dir answer (set_default_quota quota)
        × Runs dir answer (set_default_time time)
        × Runs dir answer (set_default_session s)
  unfolding set_default_bandwidth set_default_quota set_default_time set_default_session ◌>>=◌
  setters-Runs bw quota time s = (
    record { at = λ c a. (_, _, refl, same-Admits dir answer c _ refl refl refl refl a) },
    record { at = λ c a. (_, _, refl, same-Admits dir answer c _ refl refl refl refl a) },
    record { at = λ c a. (_, _, refl, same-Admits dir answer c _ refl refl refl refl a) },
    record { at = λ c a. (_, _, refl, same-Admits dir answer c _ refl refl refl refl a) },
  )

  getters-Runs : Runs dir answer get_default_session × Runs dir answer get_ips
  unfolding get_default_session get_ips ◌>>=◌
  getters-Runs = (record { at = λ c a. (_, c, refl, a) }, record { at = λ c a. (_, c, refl, a) })

  perform-Runs : (call : Call) → Runs dir answer (perform (quiet dir answer) call)
  unfolding perform
  perform-Runs (new_call ip) = ignored _ (new_session-Runs dir answer ip)
  perform-Runs (start_call ip) = ignored _ (start_session-Runs dir answer ip)
  perform-Runs (pause_call ip) = ignored _ (pause_session-Runs dir answer ip)
  perform-Runs (play_call ip) = ignored _ (play_session-Runs dir answer ip)
  perform-Runs (update_call ip) = ignored _ (update_session-Runs dir answer ip)
  perform-Runs (end_call ip) = ignored _ (end_session-Runs dir answer ip)
  perform-Runs (delete_call ip) = ignored _ (delete_session-Runs dir answer ip)
  perform-Runs (bandwidth_call ip bw) = ignored _ (set_bandwidth-Runs dir answer ip bw)
  perform-Runs (quota_call ip quota) = ignored _ (set_quota-Runs dir answer ip quota)
  perform-Runs (time_call ip time) = ignored _ (set_time-Runs dir answer ip time)
  perform-Runs (default_bandwidth_call bw) =
      ignored _ (setters-Runs bw (pos 0) (pos 0) blank_session).0
  perform-Runs (default_quota_call quota) = ignored _ (setters-Runs 0 quota (pos 0) blank_session).1
  perform-Runs (default_time_call time) = ignored _ (setters-Runs 0 (pos 0) time blank_session).2
  perform-Runs (default_session_call s) = ignored _ (setters-Runs 0 (pos 0) (pos 0) s).3
  perform-Runs (quota_used_call ip) = ignored _ (update_quota_remaining-Runs dir answer ip)
  perform-Runs (session_call ip) = ignored _ (get_session-Runs dir answer ip)
  perform-Runs default_session_query = ignored _ getters-Runs.0
  perform-Runs all_sessions_call = ignored _ (get_all_sessions-Runs dir answer)
  perform-Runs ips_call = ignored _ getters-Runs.1
  perform-Runs tick_call = tick-Runs dir answer
  perform-Runs cleanup_call = cleanup-Runs dir answer

  serve-Runs : (calls : List Call) → Runs dir answer (serve (quiet dir answer) calls)
  unfolding serve pure
  serve-Runs [] = record { at = λ c a. (tt, c, refl, a) }
  serve-Runs (call ∷ calls) = record {
    at = λ c a.
        let (_, b, ran, a') = (perform-Runs call).at c a in
        let (_, d, rest, a'') = (serve-Runs calls).at b a' in
        (
          tt,
          d,
          run-bind (perform (quiet dir answer) call) (λ _. serve (quiet dir answer) calls) c b d ran
              rest,
          a'',
        );
  }

-- Let no slot run during a script. Then the controller serves every sequence of calls, ticks and
-- clean-ups included, and at the end it has last asked to let an IP in, by a command that has
-- succeeded and that no clean-up has followed, if and only if the IP has a session that is started.
pub serve_admits :
    (dir : QString) (answer : Answer) (calls : List Call)
    → (d : Controller) × (serve (quiet dir answer) calls new_controller ≡ some (tt, d))
      × ((ip : QString) (b : Bool) → LastAsked dir answer ip b d.issued ↔ (b ≡ has_started ip d))
serve_admits dir answer calls =
    let (_, d, ran, a) =
      (serve-Runs dir answer calls).at new_controller (new_controller-Admits dir answer) in
    (
      d,
      ran,
      λ ip b. (
        λ x. LastAsked-unique dir answer ip b (has_started ip d) d.issued x (a.access ip),
        λ e. subst (λ k. LastAsked dir answer ip k d.issued) (sym e) (a.access ip),
      ),
    )
