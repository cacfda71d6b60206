-- ===== src/Controller/Lifetime/Serve.antt =====
-- Every slot, and runs of the whole server, on the heap.
use mathlib.Core.Path.{subst}
use wifigateway_server.Base.{ℕ, ◌≡◌, refl, sym, Option, none, some, List, [], ◌∷◌}
use wifigateway_server.Base.Int.{ℤ}
use wifigateway_server.Qt.Text.{QString}
use wifigateway_server.Qt.Map.{QMap, lookup, values}
use wifigateway_server.Session.{Session}
use wifigateway_server.Controller.State.{Controller, new_controller}
use wifigateway_server.Controller.Action.{Action, Host, modify, pure, ◌>>=◌}
use wifigateway_server.Controller.Operations.{success, delete_session}
use wifigateway_server.Controller.Settings.{
  set_default_bandwidth, set_default_quota, set_default_time, set_default_session,
  get_default_session, get_ips, get_all_sessions, deref_each, cleanup,
}
use wifigateway_server.Controller.Calls.{
  Call, new_call, start_call, pause_call, play_call, update_call, end_call, delete_call,
  bandwidth_call, quota_call, time_call, default_bandwidth_call, default_quota_call,
  default_time_call, default_session_call, quota_used_call, session_call, default_session_query,
  all_sessions_call, ips_call, tick_call, cleanup_call, perform, serve,
}
use wifigateway_server.Controller.Lifetime.Heap.{Inv, same_heap, new_controller-Inv}
use wifigateway_server.Controller.Lifetime.Rules.{
  Every, Nothing, AllBut, After, After-weaken, After-seq, Safe, Calm, Safe-pure, Safe-gets,
  Safe-bind, Safe-deref, Safe-then_pure, Safe-last_pure,
}
use wifigateway_server.Controller.Lifetime.Sessions.{
  new_session-Safe, start_session-Safe, pause_session-Safe, play_session-Safe, end_session-Safe,
  update_session-Safe, update_quota_remaining-Safe, set_time-Safe, set_bandwidth-Safe,
  set_quota-Safe, get_session-Safe,
}
use wifigateway_server.Controller.Lifetime.Removal.{delete_session-Safe}
use wifigateway_server.Controller.Lifetime.Tick.{tick-After, Live-self}
use wifigateway_server.Controller.Lifetime.Cleanup.{clear_sessions_lem}

module _ (L : List (QString × ℕ)) where
  -- A change of members other than the map and the heap.
  pub Safe-modify :
      (f : Controller → Controller)
      → ((c : Controller) → Inv c → Inv (f c))
      → ((c : Controller) → (f c).sessions ≡ c.sessions)
      → Safe Every L (modify f)
  unfolding modify
  Safe-modify f keep same = record { at = λ c v l. (keep c v, λ ip p _ e. rw (same c) e) }

module _ (L : List (QString × ℕ)) where
  set_default_bandwidth-Safe : (bw : ℕ) → Safe Every L (set_default_bandwidth bw)
  unfolding set_default_bandwidth
  set_default_bandwidth-Safe bw =
      Safe-then_pure Every L _ success
        (Safe-modify L _ (λ c. same_heap c _ refl refl refl) (λ c. refl))

  set_default_quota-Safe : (quota : ℤ) → Safe Every L (set_default_quota quota)
  unfolding set_default_quota
  set_default_quota-Safe quota =
      Safe-then_pure Every L _ success
        (Safe-modify L _ (λ c. same_heap c _ refl refl refl) (λ c. refl))

  set_default_time-Safe : (time : ℤ) → Safe Every L (set_default_time time)
  unfolding set_default_time
  set_default_time-Safe time =
      Safe-then_pure Every L _ success
        (Safe-modify L _ (λ c. same_heap c _ refl refl refl) (λ c. refl))

  set_default_session-Safe : (s : Session) → Safe Every L (set_default_session s)
  unfolding set_default_session
  set_default_session-Safe s =
      Safe-then_pure Every L _ success
        (Safe-modify L _ (λ c. same_heap c _ refl refl refl) (λ c. refl))

Safe-drop :
    {A : Type 0} (e : QString × ℕ) (L : List (QString × ℕ)) (m : Action A)
    → Safe Every L m
    → Safe Every (e ∷ L) m
Safe-drop e L m sm = record { at = λ c v l. sm.at c v l.1 }

deref_each-Safe : (m : QMap ℕ) → Safe Every m (deref_each (values m))
unfolding deref_each
deref_each-Safe [] = Safe-pure Every [] []
deref_each-Safe ((ip, p) ∷ m) = Safe-deref Every m ip p _ λ s _.
    Safe-bind Every _ _ _ (Safe-drop (ip, p) m _ (deref_each-Safe m))
      λ rest. Safe-pure Every _ (s ∷ rest)

get_all_sessions-Safe : (L : List (QString × ℕ)) → Safe Every L get_all_sessions
unfolding get_all_sessions ◌>>=◌
get_all_sessions-Safe L = record {
  at = λ c v l. (deref_each-Safe c.sessions).at c v (Live-self c.sessions c v.sorted);
}

-- The calls that may remove a session.
abbrev pub Removes : Call → Type 0
Removes (delete_call _) = Unit {0}
Removes tick_call = Unit {0}
Removes cleanup_call = Unit {0}
Removes _ = ⊥

module _ (h : Host) (calm : Calm h) where
  cleanup-After : (c : Controller) → Inv c → After Nothing c (cleanup h c)
  unfolding cleanup lookup
  cleanup-After c v = After-seq Every c _ _ ((calm _ _).at c v tt) λ _ d w _.
      subst (After Nothing d) (sym (clear_sessions_lem d w)) (
        record { sorted = tt; owned = λ ip p e. cc; no_leak = λ p s e. cc; fresh = λ p _. refl },
        λ ip p n. absurd n,
      )

  ignored : {A : Type 0} (m : Action A) → Safe Every [] m → Safe Every [] (m >>= λ _. pure tt)
  ignored m sm = Safe-last_pure Every [] m tt sm

  -- A call that removes no session leaves every session under its address.
  pub perform-Safe : (call : Call) → ¬ Removes call → Safe Every [] (perform h call)
  unfolding perform
  perform-Safe (new_call ip) n = ignored _ (new_session-Safe [] ip)
  perform-Safe (start_call ip) n = ignored _ (start_session-Safe h calm [] ip)
  perform-Safe (pause_call ip) n = ignored _ (pause_session-Safe h calm [] ip)
  perform-Safe (play_call ip) n = ignored _ (play_session-Safe h calm [] ip)
  perform-Safe (update_call ip) n = ignored _ (update_session-Safe [] ip)
  perform-Safe (end_call ip) n = ignored _ (end_session-Safe h calm [] ip)
  perform-Safe (delete_call ip) n = absurd (n tt)
  perform-Safe (bandwidth_call ip bw) n = ignored _ (set_bandwidth-Safe h calm [] ip bw)
  perform-Safe (quota_call ip quota) n = ignored _ (set_quota-Safe h calm [] ip quota)
  perform-Safe (time_call ip time) n = ignored _ (set_time-Safe [] ip time)
  perform-Safe (default_bandwidth_call bw) n = ignored _ (set_default_bandwidth-Safe [] bw)
  perform-Safe (default_quota_call quota) n = ignored _ (set_default_quota-Safe [] quota)
  perform-Safe (default_time_call time) n = ignored _ (set_default_time-Safe [] time)
  perform-Safe (default_session_call s) n = ignored _ (set_default_session-Safe [] s)
  perform-Safe (quota_used_call ip) n = ignored _ (update_quota_remaining-Safe [] ip)
  perform-Safe (session_call ip) n = ignored _ (get_session-Safe [] ip)
  perform-Safe default_session_query n =
      ignored _ (unfold get_default_session in Safe-gets Every [] _)
  perform-Safe all_sessions_call n = ignored _ (get_all_sessions-Safe [])
  perform-Safe ips_call n = ignored _ (unfold get_ips in Safe-gets Every [] _)
  perform-Safe tick_call n = absurd (n tt)
  perform-Safe cleanup_call n = absurd (n tt)

  finished : (c : Controller) → Inv c → After Nothing c (pure tt c)
  finished c v = (Safe-pure Nothing [] tt).at c v tt

  perform-After : (call : Call) (c : Controller) → Inv c → After Nothing c (perform h call c)
  perform-After (delete_call ip) c v =
      unfold perform in
      After-seq (AllBut ip) c (delete_session h ip) _ ((delete_session-Safe h calm [] ip).at c v tt)
        λ _ d w _. finished d w
  perform-After tick_call c v = unfold perform in tick-After h calm c v
  perform-After cleanup_call c v = unfold perform in cleanup-After c v
  perform-After call c v = After-weaken Nothing c _ ((perform-Safe call (λ r. absurd r)).at c v tt)

  pub serve-After : (calls : List Call) (c : Controller) → Inv c → After Nothing c (serve h calls c)
  unfolding serve
  serve-After [] c v = finished c v
  serve-After (call ∷ calls) c v =
      After-seq Nothing c (perform h call) _ (perform-After call c v)
        λ _ d w _. serve-After calls d w

pub result_of :
    {A : Type 0} (K : QString → Type 0) (c : Controller) (o : Option (A × Controller))
    → After K c o
    → (a : A) × (d : Controller) × (o ≡ some (a, d)) × Inv d
result_of K c none h = absurd h
result_of K c (some (a, d)) h = (a, d, refl, h.0)

-- On a host that removes no session while it runs a script, the controller serves every sequence
-- of calls from its start to the end: no call reads or writes a record that is not allocated or
-- deletes one twice, and at the end the map and the heap agree, so that no record is leaked.
pub serve_safe :
    (h : Host) (calm : Calm h) (calls : List Call)
    → (d : Controller) × (serve h calls new_controller ≡ some (tt, d)) × Inv d
serve_safe h calm calls =
    let (_, d, ran, v) =
      result_of Nothing new_controller (serve h calls new_controller)
        (serve-After h calm calls new_controller new_controller-Inv) in
    (d, ran, v)
