-- ===== src/Controller/Access/Settings.antt =====
-- The calls that write a record without a script, the setters, the getters and the clean-up,
-- against the access of the hosts.
use wifigateway_server.Base.{ℕ, ◌≡◌, refl, none, some, List, [], ◌∷◌, arith}
use wifigateway_server.Base.Int.{ℤ}
use wifigateway_server.Qt.Text.{QString}
use wifigateway_server.Qt.Map.{QMap, lookup, values}
use wifigateway_server.Session.{Session, blank_session}
use wifigateway_server.Controller.State.{Controller}
use wifigateway_server.Controller.Action.{◌>>=◌, pure}
use wifigateway_server.Controller.Script.{clean_up_command}
use wifigateway_server.Controller.Operations.{update_session, update_quota_remaining}
use wifigateway_server.Controller.Settings.{
  set_time, set_quota, set_bandwidth, get_session, deref_each, get_all_sessions, cleanup,
}
use wifigateway_server.Controller.Machine.{Answer}
use wifigateway_server.Controller.Lifetime.Heap.{Inv, same_heap}
use wifigateway_server.Controller.Lifetime.Rules.{Live}
use wifigateway_server.Controller.Lifetime.Tick.{Live-self}
use wifigateway_server.Controller.Lifetime.Cleanup.{clear_sessions_lem}
use wifigateway_server.Controller.Refinement.Host.{quiet, view}
use wifigateway_server.Controller.Refinement.Bounce.{set_quota_lem, set_bandwidth_lem}
use wifigateway_server.Controller.Access.{cleaned_up, Admits}
use wifigateway_server.Controller.Access.Protocol.{Grants-write, bounce-Grants}
use wifigateway_server.Controller.Access.Records.{put-Admits}
use wifigateway_server.Controller.Access.Sessions.{
  Runs, by_record, unknown_fails, unknown_setting_fails, write_lem,
}

module _ (dir : QString) (answer : Answer) (ip : QString) where
  pub update_session-Runs : Runs dir answer (update_session ip)
  update_session-Runs =
      by_record dir answer update_session ip
        (λ c a absent. (_, c, (unknown_fails dir answer ip c absent).4, a))
        λ c p s a live found. (
          _,
          _,
          (write_lem p s c live found).0,
          put-Admits dir answer c a p s _ live found
              (Grants-write dir answer s.ip (view s c) _ refl refl),
        )

  pub update_quota_remaining-Runs : Runs dir answer (update_quota_remaining ip)
  update_quota_remaining-Runs =
      by_record dir answer update_quota_remaining ip
        (λ c a absent. (_, c, (unknown_fails dir answer ip c absent).5, a))
        λ c p s a live found. (
          _,
          _,
          (write_lem p s c live found).1,
          put-Admits dir answer c a p s _ live found
              (Grants-write dir answer s.ip (view s c) _ refl refl),
        )

  pub set_time-Runs : (time : ℤ) → Runs dir answer (set_time ip time)
  set_time-Runs time =
      by_record dir answer (λ j. set_time j time) ip
        (λ c a absent. (_, c, (unknown_setting_fails dir answer ip c absent).0 time, a))
        λ c p s a live found. (
          _,
          _,
          (write_lem p s c live found).2 time,
          put-Admits dir answer c a p s _ live found
              (Grants-write dir answer s.ip (view s c) _ refl refl),
        )

  pub set_quota-Runs : (quota : ℤ) → Runs dir answer (set_quota (quiet dir answer) ip quota)
  set_quota-Runs quota =
      by_record dir answer (λ j. set_quota (quiet dir answer) j quota) ip
        (λ c a absent. (_, c, (unknown_setting_fails dir answer ip c absent).1 quota, a))
        λ c p s a live found. (
          _,
          _,
          set_quota_lem dir answer p s c live found quota,
          put-Admits dir answer c a p s _ live found (
              bounce-Grants dir answer s.ip (λ t. record t { quota_remaining = quota }) (view s c)
                refl refl),
        )

  pub set_bandwidth-Runs : (bw : ℕ) → Runs dir answer (set_bandwidth (quiet dir answer) ip bw)
  set_bandwidth-Runs bw =
      by_record dir answer (λ j. set_bandwidth (quiet dir answer) j bw) ip
        (λ c a absent. (_, c, (unknown_setting_fails dir answer ip c absent).2 bw, a))
        λ c p s a live found. (
          _,
          _,
          set_bandwidth_lem dir answer p s c live found bw,
          put-Admits dir answer c a p s _ live found (
              bounce-Grants dir answer s.ip (λ t. record t { bandwidth = bw }) (view s c) refl
                refl),
        )

  get_session_found :
      (p : ℕ) (s : Session) (c : Controller)
      → c.cell p ≡ some s
      → lookup ip c.sessions ≡ some p
      → get_session ip c ≡ some (record s { ip = ip }, c)
  unfolding get_session ◌>>=◌
  get_session_found p s c live found = ground arith

  get_session_absent :
      (c : Controller)
      → lookup ip c.sessions ≡ none
      → (s : Session) × (get_session ip c ≡ some (s, c))
  unfolding get_session ◌>>=◌
  get_session_absent c absent = (blank_session, ground arith)

module _ (dir : QString) (answer : Answer) where
  pub get_session-Runs : (ip : QString) → Runs dir answer (get_session ip)
  get_session-Runs ip =
      by_record dir answer get_session ip
        (λ c a absent. let (s, e) = get_session_absent dir answer ip c absent in (s, c, e, a))
        λ c p s a live found. (_, c, get_session_found dir answer s.ip p s c live found, a)

  -- A change of the members that neither the heap nor the hosts depend on.
  pub same-Admits :
      (c d : Controller)
      → d.sessions ≡ c.sessions
      → d.cell ≡ c.cell
      → d.next ≡ c.next
      → d.issued ≡ c.issued
      → Admits dir answer c
      → Admits dir answer d
  same-Admits c d es ec en ei a = record {
    inv = same_heap c d es ec en a.inv;
    access = rw (es, ec, ei) a.access;
  }

  -- Reading every record changes nothing.
  deref_each_lem :
      (m : QMap ℕ) (c : Controller)
      → Inv c
      → Live m c
      → (ss : List Session) × (deref_each (values m) c ≡ some (ss, c))
  unfolding deref_each ◌>>=◌ pure
  deref_each_lem [] c v l = ([], refl)
  deref_each_lem ((ip, p) ∷ m) c v l =
      let (s, live, _) = v.owned ip p l.0 in
      let (ss, e) = deref_each_lem m c v l.1 in (s ∷ ss, ground (arith, live, e))

  pub get_all_sessions-Runs : Runs dir answer get_all_sessions
  unfolding get_all_sessions ◌>>=◌
  get_all_sessions-Runs = record {
    at = λ c a.
        let (ss, e) = deref_each_lem c.sessions c a.inv (Live-self c.sessions c a.inv.sorted) in
        (ss, c, e, a);
  }

  cleanup_lem :
      (c : Controller)
      → Inv c
      → cleanup (quiet dir answer) c
        ≡ some (
          tt,
          record c { sessions = []; cell = λ _. none; issued = clean_up_command dir ∷ c.issued },
        )
  unfolding cleanup ◌>>=◌
  cleanup_lem c v =
      let b : Controller = record c { issued = clean_up_command dir ∷ c.issued } in
      clear_sessions_lem b (same_heap c b refl refl refl v)

  -- After a clean-up, whether or not its script succeeds, there is no session left.
  pub cleanup-Runs : Runs dir answer (cleanup (quiet dir answer))
  unfolding lookup
  cleanup-Runs = record {
    at = λ c a. (
      tt,
      _,
      cleanup_lem c a.inv,
      record {
        inv = record {
          sorted = tt;
          owned = λ ip p e. cc;
          no_leak = λ p s e. cc;
          fresh = λ p _. refl;
        };
        access = λ ip. cleaned_up _ c.issued (a.access ip);
      },
    );
  }
