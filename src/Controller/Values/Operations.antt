-- ===== src/Controller/Values/Operations.antt =====
-- The operations and settings of controller.cpp, on the predicates of an interface.
use mathlib.Core.Path.{subst}
use wifigateway_server.Base.{if◌then◌else◌, sym, ℕ, ◌≡◌, refl, none, some}
use wifigateway_server.Base.Int.{ℤ, is_zero}
use wifigateway_server.Qt.Text.{QString, is_empty}
use wifigateway_server.Session.{
  Session, SessionState, started, paused, ended, exhausted, is_state, is_exhausted,
}
use wifigateway_server.Controller.State.{Controller}
use wifigateway_server.Controller.Action.{
  Action, Host, pure, gets, modify, deref, assign, free, ◌>>=◌, ◌>>◌,
}
use wifigateway_server.Controller.Operations.{
  success, failure, find_session, register, unregister, create_session, new_session, update_session,
  update_quota_remaining, remove_session, remove_session_at, close_session, start_at, start_session,
  pause_session, play_session, end_session, delete_session, exhaust_session,
}
use wifigateway_server.Controller.Settings.{set_time, set_bandwidth, set_quota}
use wifigateway_server.Controller.Values.{Values}
use wifigateway_server.Controller.Values.Rules.{
  Valid, Sound, Sound-pure, Sound-gets, Sound-if, Sound-bind, same-Valid, Sound-alloc, Sound-modify,
  Sound-deref, Sound-assign, Sound-free, Sound-gets_bind, by_session, write_then, HostSound,
}

module _ (V : Values) where
  sessions-Valid :
      (f : Controller → Controller)
      → ((c : Controller) → f c ≡ record c { sessions = (f c).sessions })
      → (c : Controller) → Valid V c
      → Valid V (f c)
  sessions-Valid f same c v =
      subst (Valid V) (sym (same c)) (same-Valid V c _ refl refl refl refl refl v)

  create_session-Sound : (ip : QString) → Sound V (create_session ip)
  unfolding create_session
  create_session-Sound ip = Sound-gets_bind V _ _ λ c v.
      Sound-bind V _ _ (Sound-alloc V _ (V.fresh _ _ _ ip v.defaults)) λ p.
        Sound-bind V _ _ (Sound-modify V _ (sessions-Valid (register ip p) λ c. refl))
          λ _. Sound-pure V success

  pub new_session-Sound : (ip : QString) → Sound V (new_session ip)
  unfolding new_session
  new_session-Sound ip =
      Sound-bind V _ _ (Sound-gets V _)
        λ known. Sound-if V known _ _ (Sound-pure V success) (create_session-Sound ip)

  by_ip :
      (ip : QString) (m : ℕ → Action ℤ)
      → ((p : ℕ) → Sound V (m p))
      → Sound V
          (gets (find_session ip) >>= λ found. elim found [ none ↦ pure failure | some p ↦ m p ])
  by_ip ip m sm = by_session V ip _ m (Sound-pure V failure) sm

  pub update_session-Sound : (ip : QString) → Sound V (update_session ip)
  unfolding update_session
  update_session-Sound ip = by_ip ip _ λ p. write_then V p _ success V.updates

  pub update_quota_remaining-Sound : (ip : QString) → Sound V (update_quota_remaining ip)
  unfolding update_quota_remaining
  update_quota_remaining-Sound ip = by_ip ip _ λ p. write_then V p _ success V.charges

  pub set_time-Sound : (ip : QString) (x : ℤ) → V.Number x → Sound V (set_time ip x)
  unfolding set_time
  set_time-Sound ip x fits = by_ip ip _ λ p. write_then V p _ success λ s. V.time x s fits

  take_out : (key : QString) (p : ℕ) → Sound V (modify (unregister key) >> free p)
  take_out key p =
      Sound-bind V _ _ (Sound-modify V _ (sessions-Valid (unregister key) λ c. refl))
        λ _. Sound-free V p

  pub remove_session-Sound : (ip : QString) → Sound V (remove_session ip)
  unfolding remove_session
  remove_session-Sound ip = by_session V ip _ _ (Sound-pure V tt) λ p. take_out ip p

  remove_session_at-Sound : (p : ℕ) → Sound V (remove_session_at p)
  unfolding remove_session_at
  remove_session_at-Sound p =
      Sound-bind V _ _ (Sound-gets V _)
        λ key. Sound-if V (is_empty key) _ _ (Sound-pure V tt) (take_out key p)

  module _ (h : Host) (hs : HostSound V h) where
    close_session-Sound :
        (st : SessionState) (ip : QString) (p : ℕ) → Sound V (close_session h st ip p)
    unfolding close_session
    close_session-Sound st ip p =
        Sound-bind V _ _ (hs _ _)
          λ r. Sound-if V (is_zero r) _ _ (write_then V p _ r (V.moves st)) (Sound-pure V r)

    start_at-Sound : (ip : QString) (p : ℕ) → Sound V (start_at h ip p)
    unfolding start_at
    start_at-Sound ip p = Sound-deref V p _ λ s ok.
        Sound-if V (is_state s started) _ _ (Sound-pure V success) (
          Sound-if V (is_exhausted s) _ _ (Sound-pure V failure) (
            Sound-bind V _ _ (hs _ _)
              λ r. Sound-if V (is_zero r) _ _ (write_then V p _ r V.starts) (Sound-pure V r)))

    pub start_session-Sound : (ip : QString) → Sound V (start_session h ip)
    unfolding start_session
    start_session-Sound ip =
        Sound-bind V _ _ (new_session-Sound ip) λ _. by_ip ip _ λ p. start_at-Sound ip p

    -- One state is the aim, one is left for it, and the others are refused.
    from_to :
        (p : ℕ) (aim from : SessionState) (m : Action ℤ)
        → Sound V m
        → Sound V (
            deref p >>= λ s.
            if is_state s aim then pure success else if is_state s from then m else pure failure)
    from_to p aim from m sm = Sound-deref V p _ λ s ok.
        Sound-if V (is_state s aim) _ _ (Sound-pure V success)
          (Sound-if V (is_state s from) _ _ sm (Sound-pure V failure))

    pub pause_session-Sound : (ip : QString) → Sound V (pause_session h ip)
    unfolding pause_session
    pause_session-Sound ip =
        by_ip ip _ λ p. from_to p paused started _ (close_session-Sound paused ip p)

    pub play_session-Sound : (ip : QString) → Sound V (play_session h ip)
    unfolding play_session
    play_session-Sound ip = by_ip ip _ λ p. from_to p started paused _ (start_session-Sound ip)

    pub end_session-Sound : (ip : QString) → Sound V (end_session h ip)
    unfolding end_session
    end_session-Sound ip = by_ip ip _ λ p. Sound-deref V p _ λ s ok.
        Sound-if V (is_state s ended) _ _ (Sound-pure V success) (close_session-Sound ended ip p)

    pub delete_session-Sound : (ip : QString) → Sound V (delete_session h ip)
    unfolding delete_session
    delete_session-Sound ip = by_ip ip _ λ p. Sound-bind V _ _ (end_session-Sound ip) λ r.
        Sound-if V (is_zero r) _ _
          (Sound-bind V _ _ (remove_session_at-Sound p) λ _. Sound-pure V r) (Sound-pure V r)

    pub exhaust_session-Sound : (p : ℕ) → Sound V (exhaust_session h (some p))
    unfolding exhaust_session
    exhaust_session-Sound p = Sound-deref V p _ λ s ok.
        Sound-if V (is_state s exhausted) _ _ (Sound-pure V success)
          (close_session-Sound exhausted s.ip p)

    -- A write, a pause and a play.
    bounced :
        (ip : QString) (p : ℕ) (f : Session → Session)
        → ((s : Session) → V.Ok s → V.Ok (f s))
        → Sound V (do assign p f; pause_session h ip; play_session h ip; pure success)
    bounced ip p f keeps = Sound-bind V _ _ (Sound-assign V p f keeps) λ _.
        Sound-bind V _ _ (pause_session-Sound ip)
          λ _. Sound-bind V _ _ (play_session-Sound ip) λ _. Sound-pure V success

    pub set_bandwidth-Sound :
        (ip : QString) (bw : ℕ) → V.Bandwidth bw → Sound V (set_bandwidth h ip bw)
    unfolding set_bandwidth
    set_bandwidth-Sound ip bw fits = by_ip ip _ λ p. bounced ip p _ λ s. V.bandwidth bw s fits

    pub set_quota-Sound : (ip : QString) (x : ℤ) → V.Number x → Sound V (set_quota h ip x)
    unfolding set_quota
    set_quota-Sound ip x fits = by_ip ip _ λ p. bounced ip p _ λ s. V.quota x s fits
