-- ===== src/Controller/Refinement/Steady.antt =====
-- A host whose answer to a command does not depend on the commands before it, and the next record
-- of a session there.
use wifigateway_server.Base.{◌≡◌, refl, sym, ap, ◌∙◌, [], arith}
use wifigateway_server.Base.Int.{ℤ}
use wifigateway_server.Qt.Text.{QString}
use wifigateway_server.Session.{
  Session, SessionState, uninitialized, started, paused, exhausted, ended,
}
use wifigateway_server.Controller.Timer.{count_started, count_exhausted}
use wifigateway_server.Controller.Machine.{
  View, Answer, with_record, exhaust_check, end, play, exhaust, idle_check, warn, second_started,
  second_exhausted, second_paused, second,
}

abbrev pub steady : (QString → ℤ) → Answer
steady reply command _ = reply command

-- The view of a session of which no command and no signal is known.
abbrev pub alone : Session → View
alone s = record { session = s; issued = []; emitted = [] }

-- The record after one second.
abbrev pub next_second : QString → (QString → ℤ) → Session → Session
next_second dir reply s = (second dir (steady reply) s.state (alone s)).session

module _ (dir : QString) (reply : QString → ℤ) where
  end-alone :
      (v : View)
      → (end dir (steady reply) v).1.session ≡ (end dir (steady reply) (alone v.session)).1.session
  unfolding end
  end-alone v = ground arith

  play-alone :
      (v : View)
      → (play dir (steady reply) v).1.session
        ≡ (play dir (steady reply) (alone v.session)).1.session
  unfolding play
  play-alone v = ground arith

  exhaust-alone :
      (v : View)
      → (exhaust dir (steady reply) v).1.session
        ≡ (exhaust dir (steady reply) (alone v.session)).1.session
  unfolding exhaust
  exhaust-alone v = ground arith

  idle_check-alone :
      (v : View)
      → (idle_check dir (steady reply) v).session
        ≡ (idle_check dir (steady reply) (alone v.session)).session
  unfolding idle_check
  idle_check-alone v = ground arith

  warn-session : (v : View) → (warn v).session ≡ v.session
  warn-session v = ground arith

  exhaust_check-alone :
      (v : View)
      → (exhaust_check dir (steady reply) v).session
        ≡ (exhaust_check dir (steady reply) (alone v.session)).session
  unfolding exhaust_check
  exhaust_check-alone v = ground (arith, exhaust-alone v)

  second_started-alone :
      (v : View)
      → (second_started dir (steady reply) v).session
        ≡ (second_started dir (steady reply) (alone v.session)).session
  unfolding second_started
  second_started-alone v =
      let w = with_record (count_started v.session) v in
      let a = with_record (count_started v.session) (alone v.session) in
      let x = exhaust_check dir (steady reply) w in
      let y = exhaust_check dir (steady reply) a in
      let same : x.session ≡ y.session = exhaust_check-alone w in
      warn-session (idle_check dir (steady reply) x)
      ∙ idle_check-alone x
      ∙ ap (λ (s : Session). (idle_check dir (steady reply) (alone s)).session) same
      ∙ sym (idle_check-alone y)
      ∙ sym (warn-session (idle_check dir (steady reply) y))

  second_paused-alone :
      (v : View)
      → (second_paused dir (steady reply) v).session
        ≡ (second_paused dir (steady reply) (alone v.session)).session
  unfolding second_paused play
  second_paused-alone v = ground arith

  -- What other sessions had run and signalled does not matter.
  pub second-alone :
      (st : SessionState) (v : View)
      → (second dir (steady reply) st v).session
        ≡ (second dir (steady reply) st (alone v.session)).session
  unfolding second second_exhausted
  second-alone started v = second_started-alone v
  second-alone paused v = second_paused-alone v
  second-alone exhausted v = idle_check-alone (with_record (count_exhausted v.session) v)
  second-alone ended v = refl
  second-alone uninitialized v = refl
