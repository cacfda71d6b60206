-- ===== src/Controller/Getters.antt =====
-- getIPs, getSession and getAllSessions of controller.cpp, against the map and the heap.
use wifigateway_server.Base.{ℕ, ◌≡◌, refl, ap, none, some, List, [], ◌∷◌, arith, map}
use wifigateway_server.Qt.Text.{QString}
use wifigateway_server.Qt.Map.{QMap, lookup, keys, values}
use wifigateway_server.Session.{Session, blank_session}
use wifigateway_server.Controller.State.{Controller}
use wifigateway_server.Controller.Action.{pure, ◌>>=◌}
use wifigateway_server.Controller.Settings.{get_session, deref_each, get_all_sessions, get_ips}
use wifigateway_server.Controller.Lifetime.Heap.{Inv}
use wifigateway_server.Controller.Lifetime.Rules.{Live}
use wifigateway_server.Controller.Lifetime.Tick.{Live-self}
use wifigateway_server.Controller.Refinement.Round.{Holds}

-- The records of the entries of a map, one for each, in the order of the entries.
abbrev pub Reads : QMap ℕ → List Session → Controller → Type 0
Reads [] [] c = Unit {0}
Reads [] (s ∷ ss) c = ⊥
Reads (e ∷ m) [] c = ⊥
Reads ((ip, p) ∷ m) (s ∷ ss) c = Holds c ip p s × (s.ip ≡ ip) × Reads m ss c

deref_each_lem :
    (m : QMap ℕ) (c : Controller)
    → Inv c
    → Live m c
    → (ss : List Session) × (deref_each (values m) c ≡ some (ss, c)) × Reads m ss c
unfolding deref_each ◌>>=◌ pure
deref_each_lem [] c v l = ([], refl, tt)
deref_each_lem ((ip, p) ∷ m) c v l =
    let (s, live, named) = v.owned ip p l.0 in
    let (ss, e, reads) = deref_each_lem m c v l.1 in
    (s ∷ ss, ground (arith, live, e), ((l.0, live), named, reads))

-- The IPs of the records are the keys.
Reads-keys :
    (m : QMap ℕ) (ss : List Session) (c : Controller)
    → Reads m ss c
    → keys m ≡ map (λ (s : Session). s.ip) ss
Reads-keys [] [] c r = refl
Reads-keys [] (s ∷ ss) c r = absurd r
Reads-keys (e ∷ m) [] c r = absurd r
Reads-keys ((ip, p) ∷ m) (s ∷ ss) c (held, named, r) =
    rw named (ap (λ (ips : List QString). ip ∷ ips) (Reads-keys m ss c r))

module _ (c : Controller) (v : Inv c) where
  get_session_held :
      (ip : QString) (p : ℕ) (s : Session) → Holds c ip p s → get_session ip c ≡ some (s, c)
  unfolding get_session ◌>>=◌ pure
  get_session_held ip p s held =
      let (t, live, named) = v.owned ip p held.0 in ground (arith, held.0, held.1, live, named)

  get_session_absent :
      (ip : QString) → lookup ip c.sessions ≡ none → get_session ip c ≡ some (blank_session, c)
  unfolding get_session ◌>>=◌ pure
  get_session_absent ip absent = ground arith

  -- In a controller that is in order the getters change nothing and agree: getAllSessions returns
  -- the record of each IP, getIPs the IPs of those records, in the same order, and getSession the
  -- record of its IP, or a blank one for an IP that has none.
  pub getters_lem :
      (ss : List Session) × (get_all_sessions c ≡ some (ss, c))
      × (get_ips c ≡ some (map (λ (s : Session). s.ip) ss, c))
      × Reads c.sessions ss c
      × ((ip : QString) (p : ℕ) (s : Session) → Holds c ip p s → get_session ip c ≡ some (s, c))
      × ((ip : QString) → lookup ip c.sessions ≡ none → get_session ip c ≡ some (blank_session, c))
  unfolding get_all_sessions get_ips ◌>>=◌
  getters_lem =
      let (ss, e, reads) = deref_each_lem c.sessions c v (Live-self c.sessions c v.sorted) in
      (
        ss,
        e,
        ap (λ (ips : List QString). some (ips, c)) (Reads-keys c.sessions ss c reads),
        reads,
        get_session_held,
        get_session_absent,
      )
