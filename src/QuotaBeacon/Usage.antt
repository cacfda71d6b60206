-- ===== src/QuotaBeacon/Usage.antt =====
-- The quota of a session after some lines of the log.
use mathlib.Core.Path.{subst}
use wifigateway_server.Base.{
  if◌then◌else◌, Bool-cases, ℕ, zero, suc, ◌≡◌, ◌≢◌, refl, sym, none, some, Option, List, [], ◌∷◌,
  arith, Option-cases, inl, inr, ◌⊎◌,
}
use wifigateway_server.Base.Int.{ℤ, count_down}
use wifigateway_server.Qt.Text.{QString, is_empty, QString-discrete}
use wifigateway_server.Qt.Map.{lookup}
use wifigateway_server.Session.{Session}
use wifigateway_server.Controller.State.{Controller, update}
use wifigateway_server.Controller.Action.{Action, pure, ◌>>=◌}
use wifigateway_server.Controller.Operations.{success, failure, update_quota_remaining}
use wifigateway_server.Controller.Lifetime.Heap.{Inv, owner_unique, write-Inv}
use wifigateway_server.Controller.Refinement.Round.{Holds}
use wifigateway_server.Controller.Action.{run-bind}
use wifigateway_server.QuotaBeacon.{new_line, on_signal, on_line, feed}

-- `n` megabytes off a quota, where a negative one is no limit.
abbrev pub spend : ℕ → ℤ → ℤ
spend zero quota = quota
spend (suc n) quota = spend n (count_down quota)

abbrev add_if : {P : Type 0} → Dec P → ℕ → ℕ
add_if (yes _) n = suc n
add_if (no _) n = n

add_if_yes : {P : Type 0} (d : Dec P) (n : ℕ) → P → add_if d n ≡ suc n
add_if_yes (yes _) n h = refl
add_if_yes (no k) n h = absurd (k h)

add_if_no : {P : Type 0} (d : Dec P) (n : ℕ) → ¬ P → add_if d n ≡ n
add_if_no (yes h) n k = absurd (k h)
add_if_no (no _) n k = refl

-- One more, if the signal is for `ip`.
abbrev also : QString → Option QString → ℕ → ℕ
also ip none n = n
also ip (some j) n = add_if (QString-discrete j ip) n

-- How many of the lines capture `ip`; a line that captures nothing counts for nobody.
abbrev pub uses : (QString → QString) → QString → List QString → ℕ
uses captured ip [] = 0
uses captured ip (line ∷ more) =
    let n = uses captured ip more in
    if is_empty (captured line) then n else add_if (QString-discrete (captured line) ip) n

uses-also :
    (captured : QString → QString) (ip line : QString) (more : List QString)
    → uses captured ip (line ∷ more) ≡ also ip (new_line captured line) (uses captured ip more)
unfolding new_line
uses-also captured ip line more = elim (Bool-cases (is_empty (captured line))) [
  | inl e ↦ rw e refl
  | inr e ↦ rw e refl
]

abbrev pub spent : ℕ → Session → Session
spent n s = record s { quota_remaining = spend n s.quota_remaining }

-- The record of `p` after one megabyte.
abbrev charged : ℕ → Session → Controller → Controller
charged p s c = record c { cell = update c.cell p (some (spent 1 s)) }

module _ (ip : QString) (c : Controller) where
  charge_unknown : lookup ip c.sessions ≡ none → update_quota_remaining ip c ≡ some (failure, c)
  unfolding update_quota_remaining ◌>>=◌
  charge_unknown e = ground arith

  charge_known :
      (p : ℕ) (s : Session)
      → Holds c ip p s
      → update_quota_remaining ip c ≡ some (success, charged p s c)
  unfolding update_quota_remaining ◌>>=◌
  charge_known p s (found, live) = ground arith

module _ (ip : QString) (p : ℕ) where
  -- An action charges the session of `ip` `n` megabytes.
  abbrev pub Charges : ℕ → Session → Controller → Action Unit → Type 0
  Charges n s c m = (d : Controller) × (m c ≡ some (tt, d)) × Inv d × Holds d ip p (spent n s)

  charge_own :
      (s : Session) (c : Controller) → Inv c → Holds c ip p s → Charges 1 s c (on_signal (some ip))
  unfolding on_signal pure
  charge_own s c v held = (
    charged p s c,
    run-bind (update_quota_remaining ip) (λ _. pure tt) c (charged p s c) (charged p s c)
        (charge_known ip c p s held) refl,
    write-Inv p s (spent 1 s) v held.1 refl,
    (held.0, ground arith),
  )

  charge_other :
      (j : QString) (s : Session) (c : Controller)
      → j ≢ ip
      → Inv c
      → Holds c ip p s
      → Charges 0 s c (on_signal (some j))
  unfolding on_signal pure
  charge_other j s c other v held = elim (Option-cases (lookup j c.sessions)) [
    | inl absent ↦ (
      c,
      run-bind (update_quota_remaining j) (λ _. pure tt) c c c (charge_unknown j c absent) refl,
      v,
      held,
    )
    | inr (q, found) ↦
        let (t, live, _) = v.owned j q found in
        let apart : q ≢ p = λ meet. other (owner_unique v j ip p (rw (← meet) found) held.0) in
        (
          charged q t c,
          run-bind (update_quota_remaining j) (λ _. pure tt) c (charged q t c) (charged q t c)
              (charge_known j c q t (found, live)) refl,
          write-Inv q t (spent 1 t) v live refl,
          (held.0, ground (arith, held.1)),
        )
  ]

  -- A signal is for `ip` and charges it, or it does not.
  charge :
      (o : Option QString) (s : Session) (c : Controller)
      → Inv c
      → Holds c ip p s
      → (((n : ℕ) → also ip o n ≡ n) × Charges 0 s c (on_signal o))
        ⊎ (((n : ℕ) → also ip o n ≡ suc n) × Charges 1 s c (on_signal o))
  unfolding on_signal pure
  charge none s c v held = inl (λ n. refl, (c, refl, v, held))
  charge (some j) s c v held = elim (QString-discrete j ip) [
    | yes same ↦ inr (
      λ n. add_if_yes (QString-discrete j ip) n same,
      subst (λ k. Charges 1 s c (on_signal (some k))) (sym same) (charge_own s c v held),
    )
    | no other ↦
        inl (λ n. add_if_no (QString-discrete j ip) n other, charge_other j s c other v held)
  ]

module _ (captured : QString → QString) (ip : QString) (p : ℕ) where
  -- In a controller that is in order, the quota of a session goes down by one for each line of the
  -- log that the expression matches with the session's IP, and stops at 0; a negative quota stays
  -- as it is. The other lines do not matter to the session.
  pub feed-Charges :
      (lines : List QString) (s : Session) (c : Controller)
      → Inv c
      → Holds c ip p s
      → Charges ip p (uses captured ip lines) s c (feed captured lines)
  unfolding feed pure on_line
  feed-Charges [] s c v held = (c, refl, v, held)
  feed-Charges (line ∷ lines) s c v held = elim (charge ip p (new_line captured line) s c v held) [
    | inl (count, (b, ran, w, still)) ↦
        let (d, rest, x, h) = feed-Charges lines s b w still in
        (
          d,
          run-bind (on_line captured line) (λ _. feed captured lines) c b d ran rest,
          x,
          rw (uses-also captured ip line lines, count (uses captured ip lines)) h,
        )
    | inr (count, (b, ran, w, still)) ↦
        let (d, rest, x, h) = feed-Charges lines (spent 1 s) b w still in
        (
          d,
          run-bind (on_line captured line) (λ _. feed captured lines) c b d ran rest,
          x,
          rw (uses-also captured ip line lines, count (uses captured ip lines)) h,
        )
  ]
