-- ===== src/Controller/Access/Protocol.antt =====
-- The operations of controller.cpp on one session, against the access of its host.
use mathlib.Core.Path.{subst}
use wifigateway_server.Base.{
  ℕ, ◌≡◌, ◌≢◌, refl, sym, ◌∙◌, Bool, true, false, List, ◌∷◌, if◌then◌else◌, Bool-cases, inl, inr,
  ◌==◌,
}
use wifigateway_server.Base.Int.{ℤ, is_zero}
use wifigateway_server.Qt.Text.{QString}
use wifigateway_server.Session.{
  Session, SessionState, uninitialized, started, paused, exhausted, ended, ordinal, is_state,
  is_exhausted, mark_started,
}
use wifigateway_server.Controller.State.{Warning}
use wifigateway_server.Controller.Script.{add_host_command, remove_host_command}
use wifigateway_server.Controller.Machine.{
  View, Answer, with_record, issue, warn_if, close, start, pause, play, end, bounce,
}
use wifigateway_server.Controller.Script.{clean_up_command}
use wifigateway_server.Base.Int.{pos}
use wifigateway_server.Controller.Script.Commands.{add-ne-clean, remove-ne-clean}
use wifigateway_server.Controller.Access.{
  LastAsked, failed, added, removed, other_added, other_removed,
}

module _ (dir : QString) (answer : Answer) (ip : QString) where
  -- From `v` to `w` the session of `ip` stays in step with the access of its host, and the access
  -- of no other host changes.
  pub record Grants (v w : View) : Type 0 where
    pub same_ip : v.session.ip ≡ ip → w.session.ip ≡ ip
    pub own :
        v.session.ip ≡ ip
        → LastAsked dir answer ip (is_state v.session started) v.issued
        → LastAsked dir answer ip (is_state w.session started) w.issued
    pub others :
        (j : QString) (b : Bool)
        → v.session.ip ≡ ip
        → j ≢ ip
        → LastAsked dir answer j b v.issued
        → LastAsked dir answer j b w.issued

  pub Grants-refl : (v : View) → Grants v v
  Grants-refl v = record { same_ip = λ e. e; own = λ e a. a; others = λ j b e n a. a }

  pub Grants-trans : {u v w : View} → Grants u v → Grants v w → Grants u w
  Grants-trans g h = record {
    same_ip = λ e. h.same_ip (g.same_ip e);
    own = λ e a. h.own (g.same_ip e) (g.own e a);
    others = λ j b e n a. h.others j b (g.same_ip e) n (g.others j b e n a);
  }

  pub Grants-if :
      (b : Bool) (v x y : View) → Grants v x → Grants v y → Grants v (if b then x else y)
  Grants-if true v x y g h = g
  Grants-if false v x y g h = h

  pub Grants-if1 :
      (b : Bool) (v : View) (x y : ℤ × View)
      → Grants v x.1
      → Grants v y.1
      → Grants v (if b then x else y).1
  Grants-if1 true v x y g h = g
  Grants-if1 false v x y g h = h

  -- A write that leaves IP and state alone.
  pub Grants-write :
      (v : View) (s : Session)
      → s.ip ≡ v.session.ip
      → s.state ≡ v.session.state
      → Grants v (with_record s v)
  Grants-write v s e f = record {
    same_ip = λ h. e ∙ h;
    own = λ h a. rw f a;
    others = λ j b h n a. a;
  }

  pub Grants-warn_if : (b : Bool) (w : Warning) (v : View) → Grants v (warn_if b w v)
  Grants-warn_if true w v = record { same_ip = λ e. e; own = λ e a. a; others = λ j b e n a. a }
  Grants-warn_if false w v = Grants-refl v

  -- A command that fails.
  Grants-failed :
      (v : View) (command : QString)
      → is_zero (answer command v.issued) ≡ false
      → command ≢ clean_up_command dir
      → Grants v (issue command v)
  Grants-failed v command e other = record {
    same_ip = λ h. h;
    own = λ h a. failed command _ v.issued e other a;
    others = λ j b h n a. failed command b v.issued e other a;
  }

  removed_at :
      (j : QString) (b : Bool) (log : List QString)
      → j ≡ ip
      → is_zero (answer (remove_host_command dir j) log) ≡ true
      → LastAsked dir answer ip b log
      → LastAsked dir answer ip false (remove_host_command dir j ∷ log)
  removed_at j b log e ok a =
      subst (λ k. LastAsked dir answer ip false (remove_host_command dir k ∷ log)) (sym e)
        (removed b log (subst (λ k. is_zero (answer (remove_host_command dir k) log) ≡ true) e ok)
          a)

  added_at :
      (j : QString) (bandwidth : ℕ) (quota : ℤ) (b : Bool) (log : List QString)
      → j ≡ ip
      → is_zero (answer (add_host_command dir j bandwidth quota) log) ≡ true
      → LastAsked dir answer ip b log
      → LastAsked dir answer ip true (add_host_command dir j bandwidth quota ∷ log)
  added_at j bandwidth quota b log e ok a =
      subst (λ k. LastAsked dir answer ip true (add_host_command dir k bandwidth quota ∷ log))
        (sym e)
        (added bandwidth quota b log
          (subst (λ k. is_zero (answer (add_host_command dir k bandwidth quota) log) ≡ true) e ok)
          a)

  -- The state that a closing operation writes.
  not_started : (st : SessionState) → st ≢ started → (ordinal st == ordinal started) ≡ false
  not_started uninitialized n = refl
  not_started started n = absurd (n refl)
  not_started paused n = refl
  not_started exhausted n = refl
  not_started ended n = refl

  pub close-Grants :
      (st : SessionState) (v : View) → st ≢ started → Grants v (close dir answer st v).1
  unfolding close
  close-Grants st v n =
      elim (Bool-cases (is_zero (answer (remove_host_command dir v.session.ip) v.issued))) [
        | inl ok ↦ rw ok (record {
          same_ip = λ h. h;
          own = λ h a. rw (not_started st n) (removed_at v.session.ip _ v.issued h ok a);
          others = λ j b h m a. other_removed v.session.ip b v.issued (λ e. m (e ∙ h)) a;
        })
        | inr bad ↦ rw bad (
            Grants-failed v (remove_host_command dir v.session.ip) bad
              (remove-ne-clean dir v.session.ip v.session.ip 0 (pos 0)))
      ]

  ask_start-Grants :
      (v : View)
      → let command =
          add_host_command dir v.session.ip v.session.bandwidth v.session.quota_remaining in
        Grants v (
          if is_zero (answer command v.issued)
          then with_record (mark_started v.session) (issue command v)
          else issue command v)
  ask_start-Grants v =
      let s = v.session in
      let command = add_host_command dir s.ip s.bandwidth s.quota_remaining in
      elim (Bool-cases (is_zero (answer command v.issued))) [
        | inl ok ↦ rw ok (record {
          same_ip = λ h. h;
          own = λ h a. added_at s.ip s.bandwidth s.quota_remaining _ v.issued h ok a;
          others = λ j b h m a.
              other_added s.ip s.bandwidth s.quota_remaining b v.issued (λ e. m (e ∙ h)) a;
        })
        | inr bad ↦
            rw bad (
              Grants-failed v command bad
                (add-ne-clean dir s.ip s.ip s.bandwidth s.quota_remaining))
      ]

  pub start-Grants : (v : View) → Grants v (start dir answer v).1
  unfolding start
  start-Grants v =
      Grants-if1 (is_state v.session started) v _ _ (Grants-refl v)
        (Grants-if1 (is_exhausted v.session) v _ _ (Grants-refl v) (ask_start-Grants v))

  pub pause-Grants : (v : View) → Grants v (pause dir answer v).1
  unfolding pause
  pause-Grants v = Grants-if1 (is_state v.session paused) v _ _ (Grants-refl v) (
      Grants-if1 (is_state v.session started) v _ _ (close-Grants paused v (λ e. cc))
        (Grants-refl v))

  pub play-Grants : (v : View) → Grants v (play dir answer v).1
  unfolding play
  play-Grants v =
      Grants-if1 (is_state v.session started) v _ _ (Grants-refl v)
        (Grants-if1 (is_state v.session paused) v _ _ (start-Grants v) (Grants-refl v))

  pub end-Grants : (v : View) → Grants v (end dir answer v).1
  unfolding end
  end-Grants v =
      Grants-if1 (is_state v.session ended) v _ _ (Grants-refl v) (close-Grants ended v (λ e. cc))

  pub bounce-Grants :
      (f : Session → Session) (v : View)
      → (f v.session).ip ≡ v.session.ip
      → (f v.session).state ≡ v.session.state
      → Grants v (bounce dir answer f v).1
  unfolding bounce
  bounce-Grants f v e g =
      Grants-trans (Grants-trans (Grants-write v (f v.session) e g) (pause-Grants _))
        (play-Grants _)
