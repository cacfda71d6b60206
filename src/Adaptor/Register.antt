-- ===== src/Adaptor/Register.antt =====
-- The registration loops of the constructor. `attempt` is the result of the bus at each try.
use wifigateway_server.Base.{
  ℕ, zero, suc, ◌+◌, ◌<◌, ◌≡◌, Bool, true, false, Option, none, some, ◌||◌, ◌↔◌, inl, inr,
  Bool-cases, arith, ltb, if◌then◌else◌,
}

abbrev pub dbus_retries : ℕ
dbus_retries = 5

-- `while(!attempt() && retries++ < DBUS_RETRIES) sleep(1);`, and the final value of `retries`. The
-- try of number `retries` is made with that many failures before it. `none` is fuel that ran out.
pub retry_loop : ℕ → (ℕ → Bool) → ℕ → Option ℕ
retry_loop zero attempt retries = none
retry_loop (suc fuel) attempt retries =
    let again = retry_loop fuel attempt (retries + 1) in
    if attempt retries
    then some retries
    else (if ltb retries dbus_retries then again else some (retries + 1))

-- `registerService` and `registerObject`, which have the same body; seven tries are never made.
pub register : (ℕ → Bool) → Option Bool
register attempt = elim (retry_loop 7 attempt 0) [
  | none ↦ none
  | some retries ↦ some (ltb retries dbus_retries)
]

-- One of the first five tries succeeds.
abbrev settled : (ℕ → Bool) → Bool
settled attempt = attempt 0 || attempt 1 || attempt 2 || attempt 3 || attempt 4

-- The loop ends within six tries whatever the bus answers, so that registration has a result.
pub register_total : (attempt : ℕ → Bool) → (ok : Bool) × (register attempt ≡ some ok)
unfolding register retry_loop
register_total attempt = elim (Bool-cases (settled attempt)) [
  | inl e ↦ (true, ground arith)
  | inr e ↦ (false, ground arith)
]

-- Registration is reported to succeed exactly when one of the first five tries succeeds.
pub register_iff :
    (attempt : ℕ → Bool)
    → (register attempt ≡ some true) ↔ ((i : ℕ) × (i < dbus_retries) × (attempt i ≡ true))
unfolding register retry_loop
register_iff attempt = (first, back)
  where
    first : register attempt ≡ some true → (i : ℕ) × (i < dbus_retries) × (attempt i ≡ true)
    first e = elim (Bool-cases (attempt 0)) [
      | inl a ↦ (0, omega arith, a)
      | inr a ↦ elim (Bool-cases (attempt 1)) [
        | inl b ↦ (1, omega arith, b)
        | inr b ↦ elim (Bool-cases (attempt 2)) [
          | inl d ↦ (2, omega arith, d)
          | inr d ↦ elim (Bool-cases (attempt 3)) [
            | inl f ↦ (3, omega arith, f)
            | inr f ↦ (4, omega arith, ground arith)
          ]
        ]
      ]
    ]

    back : (i : ℕ) × (i < dbus_retries) × (attempt i ≡ true) → register attempt ≡ some true
    back (zero, lt, e) = ground arith
    back (suc zero, lt, e) = ground arith
    back (suc (suc zero), lt, e) = ground arith
    back (suc (suc (suc zero)), lt, e) = ground arith
    back (suc (suc (suc (suc zero))), lt, e) = ground arith
    back (suc (suc (suc (suc (suc i)))), lt, e) = absurd (omega arith)

-- A bus that takes the name at the sixth try has registered it, and the registration is reported
-- as failed.
pub register_sixth_lost :
    (attempt : ℕ → Bool)
    → ((i : ℕ) → i < dbus_retries → attempt i ≡ false)
    → attempt dbus_retries ≡ true
    → (retry_loop 7 attempt 0 ≡ some dbus_retries) × (register attempt ≡ some false)
unfolding register retry_loop
register_sixth_lost attempt none_before sixth = ground (
  arith,
  none_before 0 (omega arith),
  none_before 1 (omega arith),
  none_before 2 (omega arith),
  none_before 3 (omega arith),
  none_before 4 (omega arith),
)
