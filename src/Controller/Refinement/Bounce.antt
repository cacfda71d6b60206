-- ===== src/Controller/Refinement/Bounce.antt =====
-- `setBandwidth`, `setQuota` and a start of an IP that has no session yet, against the protocol.
use wifigateway_server.Base.{ℕ, suc, [], ◌≡◌, refl, sym, ap, ◌∙◌, Option, none, some, arith}
use wifigateway_server.Base.Int.{ℤ, to_int32}
use wifigateway_server.Qt.Text.{QString}
use wifigateway_server.Qt.Map.{lookup, insert, lookup-insert_self}
use wifigateway_server.Session.{
  Session, uninitialized, activity_time, update_time, pause_time, end_time,
}
use wifigateway_server.Controller.State.{Controller, update}
use wifigateway_server.Controller.Action.{Action, pure, gets, assign, ◌>>=◌}
use wifigateway_server.Controller.Operations.{
  success, fresh_session, find_session, start_session, pause_session, play_session,
}
use wifigateway_server.Controller.Settings.{set_bandwidth, set_quota}
use wifigateway_server.Controller.Equations.{with_session, new_session_absent}
use wifigateway_server.Controller.Machine.{View, Answer, start, pause, play, bounce}
use wifigateway_server.Controller.Refinement.Host.{quiet, view, put}
use wifigateway_server.Controller.Refinement.Sessions.{start_at_lem, pause_session_lem}
use wifigateway_server.Controller.Refinement.Second.{play_session-Refines}
use wifigateway_server.Controller.Refinement.Rules.{
  Refines, Refines-pure, Refines-assign, Refines-bind,
}

module _ (dir : QString) (answer : Answer) where
  pause_same_ip : (v : View) → (pause dir answer v).1.session.ip ≡ v.session.ip
  unfolding pause
  pause_same_ip v = ground arith

  pause_session-Refines :
      (ip : QString) (p : ℕ) → Refines ip p (pause_session (quiet dir answer) ip) (pause dir answer)
  pause_session-Refines ip p = record {
    runs = λ s c live named found.
        ap (λ (j : QString). pause_session (quiet dir answer) j c) (sym named)
        ∙ pause_session_lem dir answer p s c live
            (ap (λ (j : QString). lookup j c.sessions) named ∙ found);
    same_ip = λ v h. pause_same_ip v ∙ h;
  }

  bounce-Refines :
      (ip : QString) (p : ℕ) (f : Session → Session)
      → ((s : Session) → (f s).ip ≡ s.ip)
      → Refines ip p
          (assign p f >>= λ _. pause_session (quiet dir answer) ip >>= λ _.
            play_session (quiet dir answer) ip >>= λ _. pure success)
          (bounce dir answer f)
  unfolding bounce
  bounce-Refines ip p f same =
      Refines-bind ip p _ _ _ (λ _ w. (success, (play dir answer (pause dir answer w).1).1))
        (Refines-assign ip p f same)
        λ _.
          Refines-bind ip p _ _ _ (λ _ w. (success, (play dir answer w).1))
            (pause_session-Refines ip p)
            λ _.
              Refines-bind ip p _ _ _ (λ _ w. (success, w))
                (play_session-Refines dir answer ip p ip refl) λ _. Refines-pure ip p success

find-bind :
    {B : Type 0} (ip : QString) (p : ℕ) (c : Controller) (n : Option ℕ → Action B)
    → lookup ip c.sessions ≡ some p
    → (gets (find_session ip) >>= n) c ≡ n (some p) c
unfolding ◌>>=◌
find-bind ip p c n e = rw e

module _ (dir : QString) (answer : Answer) (p : ℕ) (s : Session) (c : Controller)
    (live : c.cell p ≡ some s) (found : lookup s.ip c.sessions ≡ some p) where
  pub set_quota_lem :
      (quota : ℤ)
      → let (r, v) = bounce dir answer (λ t. record t { quota_remaining = quota }) (view s c) in
        set_quota (quiet dir answer) s.ip quota c ≡ some (r, put p v c)
  unfolding set_quota
  set_quota_lem quota =
      find-bind s.ip p c _ found
      ∙ (bounce-Refines dir answer s.ip p (λ t. record t { quota_remaining = quota })
            (λ t. refl)).runs
          s c live refl found

  pub set_bandwidth_lem :
      (bw : ℕ)
      → let (r, v) = bounce dir answer (λ t. record t { bandwidth = bw }) (view s c) in
        set_bandwidth (quiet dir answer) s.ip bw c ≡ some (r, put p v c)
  unfolding set_bandwidth
  set_bandwidth_lem bw =
      find-bind s.ip p c _ found
      ∙ (bounce-Refines dir answer s.ip p (λ t. record t { bandwidth = bw }) (λ t. refl)).runs s c
          live refl found

  -- With no slot run during a script, setting the quota or the bandwidth of a session that has a
  -- record writes the record, then pauses and plays the session as its protocol says, drops the
  -- results of both, returns 0, and changes nothing else.
  pub setters_lem :
      (quota : ℤ) (bw : ℕ)
      → (let (r, v) = bounce dir answer (λ t. record t { quota_remaining = quota }) (view s c) in
          set_quota (quiet dir answer) s.ip quota c ≡ some (r, put p v c))
        × (let (r, v) = bounce dir answer (λ t. record t { bandwidth = bw }) (view s c) in
            set_bandwidth (quiet dir answer) s.ip bw c ≡ some (r, put p v c))
  setters_lem quota bw = (set_quota_lem quota, set_bandwidth_lem bw)

-- A record with the defaults of a controller, and the controller with that record.
abbrev pub by_default : QString → Controller → Session
by_default ip c = record {
  ip = ip;
  mac = [];
  state = uninitialized;
  bandwidth = c.default_bandwidth;
  time_remaining = to_int32 c.default_time;
  quota_remaining = to_int32 c.default_quota;
  activity_time_remaining = activity_time;
  update_time_remaining = update_time;
  pause_time_remaining = pause_time;
  end_time_remaining = end_time;
  session_time = 0;
}

abbrev pub entered : QString → Session → Controller → Controller
entered ip s c = record c {
  cell = update c.cell c.next (some s);
  next = suc c.next;
  sessions = insert ip c.next c.sessions;
}

module _ (dir : QString) (answer : Answer) (ip : QString) (c : Controller)
    (absent : lookup ip c.sessions ≡ none) where
  -- With no slot run during the script, starting an IP that has no record makes one at the next
  -- address and enters it in the map, with the IP and no MAC, not initialised, with the default
  -- bandwidth, time and quota, the last two as signed integers, and with every timer wound up; then
  -- it starts that, as its protocol says.
  pub start_session_new :
      let s = by_default ip c in
      let b = entered ip s c in
      let (r, v) = start dir answer (view s b) in
      start_session (quiet dir answer) ip c ≡ some (r, put c.next v b)
  unfolding start_session ◌>>=◌
  start_session_new =
      let b = with_session ip c in
      ground (
        arith,
        new_session_absent ip c absent,
        lookup-insert_self ip c.next c.sessions,
        start_at_lem dir answer c.next (fresh_session ip c) b (ground arith),
      )
