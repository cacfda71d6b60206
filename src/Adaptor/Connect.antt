-- ===== src/Adaptor/Connect.antt =====
-- The constructor of the adaptor, with the registration loops that it calls.
use wifigateway_server.Base.{
  ℕ, ◌<◌, ◌≡◌, ◌↔◌, refl, Bool, true, false, Option, none, some, if◌then◌else◌, arith,
}
use wifigateway_server.Adaptor.Register.{dbus_retries, register, register_total, register_iff}

-- How the constructor ends: with an object, or with one of its three exceptions.
pub data Connection : Type 0 where
  connected no_dbus service_failed object_failed : Connection

-- `registerObject`, and what comes of it.
abbrev pub connect_object : (ℕ → Bool) → Option Connection
connect_object object = elim (register object) [
  | none ↦ none
  | some ok ↦ some (if ok then connected else object_failed)
]

-- `service` and `object` are the results of the bus at each try of the two registrations; `none` is
-- fuel that ran out.
pub connect : Bool → (ℕ → Bool) → (ℕ → Bool) → Option Connection
connect is_connected service object =
    if is_connected
    then elim (register service) [
      | none ↦ none
      | some ok ↦ if ok then connect_object object else some service_failed
    ]
    else some no_dbus

-- One of the first five tries succeeds.
abbrev pub Early : (ℕ → Bool) → Type 0
Early attempt = (i : ℕ) × (i < dbus_retries) × (attempt i ≡ true)

abbrev connection : Bool → Bool → Bool → Connection
connection is_connected service_ok object_ok =
    if is_connected
    then (if service_ok then (if object_ok then connected else object_failed) else service_failed)
    else no_dbus

-- The constructor ends, whatever the bus answers: with the connection that the bus and the two
-- registrations give.
connect_as :
    (is_connected service_ok object_ok : Bool) (service object : ℕ → Bool)
    → register service ≡ some service_ok
    → register object ≡ some object_ok
    → connect is_connected service object ≡ some (connection is_connected service_ok object_ok)
unfolding connect
connect_as is_connected service_ok object_ok service object e f = ground arith

same_result : {o : Option Bool} {a b : Bool} → o ≡ some a → o ≡ some b → a ≡ b
same_result e f = cc

connected_iff :
    (is_connected service_ok object_ok : Bool)
    → (connection is_connected service_ok object_ok ≡ connected)
      ↔ ((is_connected ≡ true) × (service_ok ≡ true) × (object_ok ≡ true))
connected_iff true true true = (λ e. (refl, refl, refl), λ e. refl)
connected_iff true true false = (λ e. absurd cc, λ e. absurd (ground arith))
connected_iff true false o = (λ e. absurd cc, λ e. absurd (ground arith))
connected_iff false s o = (λ e. absurd cc, λ e. absurd (ground arith))

-- Whatever the bus answers, the constructor of the adaptor ends, and it is connected, without an
-- exception, if and only if the bus is connected and each of the two registrations succeeds within
-- its first five tries.
pub connect_lem :
    (is_connected : Bool) (service object : ℕ → Bool)
    → (c : Connection) × (connect is_connected service object ≡ some c)
      × ((c ≡ connected) ↔ ((is_connected ≡ true) × Early service × Early object))
connect_lem is_connected service object =
    let (service_ok, e) = register_total service in
    let (object_ok, f) = register_total object in
    let (to_service, from_service) = register_iff service in
    let (to_object, from_object) = register_iff object in
    let (to, from) = connected_iff is_connected service_ok object_ok in
    (
      connection is_connected service_ok object_ok,
      connect_as is_connected service_ok object_ok service object e f,
      (
        λ is. let (a, b, c) = to is in (a, to_service (rw b at e), to_object (rw c at f)),
        λ early.
            from
              (early.0, same_result e (from_service early.1), same_result f (from_object early.2)),
      ),
    )
