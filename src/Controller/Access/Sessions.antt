-- ===== src/Controller/Access/Sessions.antt =====
-- The operations of controller.cpp on the session of an IP, against the access of the hosts.
use mathlib.Core.Path.{subst}
use wifigateway_server.Base.{
  ℕ, ◌≡◌, refl, sym, true, false, Option, none, some, arith, Option-cases, Bool-cases, inl, inr,
}
use wifigateway_server.Base.Int.{ℤ, is_zero, count_down}
use wifigateway_server.Qt.Text.{QString, is_empty}
use wifigateway_server.Qt.Map.{lookup, lookup-insert_self}
use wifigateway_server.Session.{Session, is_state, started, update_time}
use wifigateway_server.Controller.State.{Controller}
use wifigateway_server.Controller.Action.{Action, ◌>>=◌}
use wifigateway_server.Controller.Operations.{
  success, failure, fresh_session, new_session, start_session, pause_session, play_session,
  end_session, delete_session, update_session, update_quota_remaining,
}
use wifigateway_server.Controller.Settings.{set_time, set_quota, set_bandwidth}
use wifigateway_server.Controller.Equations.{
  with_session, without_session, new_session_absent, new_session_present,
}
use wifigateway_server.Controller.Machine.{View, Answer, with_record, end}
use wifigateway_server.Controller.Refinement.Host.{quiet, view, put}
use wifigateway_server.Controller.Refinement.Sessions.{
  start_session_lem, pause_session_lem, play_session_lem, end_session_lem,
}
use wifigateway_server.Controller.Refinement.Bounce.{start_session_new}
use wifigateway_server.Controller.Refinement.Delete.{deleted, delete_session_lem}
use wifigateway_server.Controller.Access.{Admits}
use wifigateway_server.Controller.Access.Protocol.{
  start-Grants, pause-Grants, play-Grants, end-Grants,
}
use wifigateway_server.Controller.Access.Records.{
  put-Admits, with_session-Admits, without_session-Admits,
}

-- What the operations do for an IP that has no session.
module _ (dir : QString) (answer : Answer) (ip : QString) (c : Controller)
    (absent : lookup ip c.sessions ≡ none) where
  pub unknown_fails :
      (pause_session (quiet dir answer) ip c ≡ some (failure, c))
      × (play_session (quiet dir answer) ip c ≡ some (failure, c))
      × (end_session (quiet dir answer) ip c ≡ some (failure, c))
      × (delete_session (quiet dir answer) ip c ≡ some (failure, c))
      × (update_session ip c ≡ some (failure, c))
      × (update_quota_remaining ip c ≡ some (failure, c))
  unfolding ◌>>=◌ pause_session play_session end_session delete_session update_session
      update_quota_remaining
  unknown_fails =
      (ground arith, ground arith, ground arith, ground arith, ground arith, ground arith)

  pub unknown_setting_fails :
      ((time : ℤ) → set_time ip time c ≡ some (failure, c))
      × ((quota : ℤ) → set_quota (quiet dir answer) ip quota c ≡ some (failure, c))
      × ((bw : ℕ) → set_bandwidth (quiet dir answer) ip bw c ≡ some (failure, c))
  unfolding ◌>>=◌ set_time set_quota set_bandwidth
  unknown_setting_fails = (λ time. ground arith, λ quota. ground arith, λ bw. ground arith)

-- The writes that need no script.
module _ (p : ℕ) (s : Session) (c : Controller) (live : c.cell p ≡ some s)
    (found : lookup s.ip c.sessions ≡ some p) where
  pub write_lem :
      (update_session s.ip c
        ≡ some (
          success,
          put p (with_record (record s { update_time_remaining = update_time }) (view s c)) c,
        ))
      × (update_quota_remaining s.ip c
          ≡ some (
            success,
            put p
                (with_record
                  (record s { quota_remaining = count_down s.quota_remaining })
                  (view s c))
                c,
          ))
      × ((time : ℤ)
          → set_time s.ip time c
            ≡ some (success, put p (with_record (record s { time_remaining = time }) (view s c)) c))
  unfolding ◌>>=◌ update_session update_quota_remaining set_time
  write_lem = (ground arith, ground arith, λ time. ground arith)

module _ (dir : QString) (answer : Answer) where
  -- The action succeeds, and the IPs last asked for are again those of the started sessions.
  abbrev pub Done : {A : Type 0} → Option (A × Controller) → Type 0
  Done {A} o = (a : A) × (d : Controller) × (o ≡ some (a, d)) × Admits dir answer d

  pub record Runs {A : Type 0} (m : Action A) : Type 0 where
    pub at : (c : Controller) → Admits dir answer c → Done (m c)

  pub by_record :
      {A : Type 0} (op : QString → Action A) (ip : QString)
      → ((c : Controller) → Admits dir answer c → lookup ip c.sessions ≡ none → Done (op ip c))
      → ((c : Controller) (p : ℕ) (s : Session)
          → Admits dir answer c
          → c.cell p ≡ some s
          → lookup s.ip c.sessions ≡ some p
          → Done (op s.ip c))
      → Runs (op ip)
  by_record op ip absent present = record {
    at = λ c a. elim (Option-cases (lookup ip c.sessions)) [
      | inl none_there ↦ absent c a none_there
      | inr (p, found) ↦
          let (s, live, named) = a.inv.owned ip p found in
          subst (λ j. Done (op j c)) named
            (present c p s a live (subst (λ j. lookup j c.sessions ≡ some p) (sym named) found))
    ];
  }

  pub new_session-Runs : (ip : QString) → Runs (new_session ip)
  new_session-Runs ip =
      by_record new_session ip
        (λ c a absent. (
          success,
          with_session ip c,
          new_session_absent ip c absent,
          with_session-Admits dir answer c a ip absent,
        ))
        λ c p s a live found. (success, c, new_session_present s.ip c found, a)

  pub start_session-Runs : (ip : QString) → Runs (start_session (quiet dir answer) ip)
  start_session-Runs ip =
      by_record (start_session (quiet dir answer)) ip
        (λ c a absent.
          let b = with_session ip c in
          let s = fresh_session ip c in
          (
            _,
            _,
            start_session_new dir answer ip c absent,
            put-Admits dir answer b (with_session-Admits dir answer c a ip absent) c.next s _
                (ground arith) (lookup-insert_self ip c.next c.sessions)
                (start-Grants dir answer ip (view s b)),
          ))
        λ c p s a live found. (
          _,
          _,
          start_session_lem dir answer p s c live found,
          put-Admits dir answer c a p s _ live found (start-Grants dir answer s.ip (view s c)),
        )

  pub pause_session-Runs : (ip : QString) → Runs (pause_session (quiet dir answer) ip)
  pause_session-Runs ip =
      by_record (pause_session (quiet dir answer)) ip
        (λ c a absent. (_, c, (unknown_fails dir answer ip c absent).0, a))
        λ c p s a live found. (
          _,
          _,
          pause_session_lem dir answer p s c live found,
          put-Admits dir answer c a p s _ live found (pause-Grants dir answer s.ip (view s c)),
        )

  pub play_session-Runs : (ip : QString) → Runs (play_session (quiet dir answer) ip)
  play_session-Runs ip =
      by_record (play_session (quiet dir answer)) ip
        (λ c a absent. (_, c, (unknown_fails dir answer ip c absent).1, a))
        λ c p s a live found. (
          _,
          _,
          play_session_lem dir answer p s c live found,
          put-Admits dir answer c a p s _ live found (play-Grants dir answer s.ip (view s c)),
        )

  pub end_session-Runs : (ip : QString) → Runs (end_session (quiet dir answer) ip)
  end_session-Runs ip =
      by_record (end_session (quiet dir answer)) ip
        (λ c a absent. (_, c, (unknown_fails dir answer ip c absent).2, a))
        λ c p s a live found. (
          _,
          _,
          end_session_lem dir answer p s c live found,
          put-Admits dir answer c a p s _ live found (end-Grants dir answer s.ip (view s c)),
        )

  end-stops :
      (v : View)
      → is_zero (end dir answer v).0 ≡ true
      → is_state (end dir answer v).1.session started ≡ false
  unfolding end
  end-stops v e = ground arith

  deleted-Admits :
      (c : Controller) (p : ℕ) (s : Session) (r : ℤ) (w : View)
      → Admits dir answer (put p w c)
      → lookup s.ip c.sessions ≡ some p
      → w.session.ip ≡ s.ip
      → (is_zero r ≡ true → is_state w.session started ≡ false)
      → Admits dir answer (deleted s.ip p r (put p w c))
  deleted-Admits c p s r w a found same stopped =
      let gone = λ (z : is_zero r ≡ true).
        subst (λ j. Admits dir answer (without_session j p (put p w c))) same
          (without_session-Admits dir answer (put p w c) a p w.session (ground arith)
            (subst (λ j. lookup j c.sessions ≡ some p) (sym same) found) (stopped z)) in
      elim (Bool-cases (is_zero r)) [
        | inr fails ↦ rw fails a
        | inl z ↦ elim (Bool-cases (is_empty s.ip)) [
          | inl unnamed ↦ rw (z, unnamed) a
          | inr named ↦ rw (z, named) (gone z)
        ]
      ]

  pub delete_session-Runs : (ip : QString) → Runs (delete_session (quiet dir answer) ip)
  delete_session-Runs ip =
      by_record (delete_session (quiet dir answer)) ip
        (λ c a absent. (_, c, (unknown_fails dir answer ip c absent).3, a))
        λ c p s a live found.
          let g = end-Grants dir answer s.ip (view s c) in
          let (r, w) = end dir answer (view s c) in
          (
            _,
            _,
            delete_session_lem dir answer p s c a.inv live found,
            deleted-Admits c p s r w (put-Admits dir answer c a p s w live found g) found
                (g.same_ip refl) (end-stops (view s c)),
          )
