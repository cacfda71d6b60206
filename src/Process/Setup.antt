-- ===== src/Process/Setup.antt =====
-- What `handle_signals` leaves behind, whichever of its calls is refused.
use wifigateway_server.Base.{
  ℕ, suc, ◌≡◌, refl, ◌∙◌, Bool, true, false, ◌||◌, Option, none, some, arith, ◌⊎◌, inl, inr,
}
use wifigateway_server.Process.Handler.{CleanUp}
use wifigateway_server.Process.Acts.{called, ec_neg1-call}
use wifigateway_server.Process.Signals.{
  Os, SigSet, all_signals, Ec, return, ◌>>=◌, ec_neg1, call, sigprocmask, sigfillset,
  handle_signals_body, handle_signals,
}
use wifigateway_server.Process.Masks.{bind_none, bind_some}
use wifigateway_server.Process.Policy.{is_masked, policy, written_lem, rest, rest-Last}

module _ (refuses : ℕ → Bool) where
  then_lock : SigSet → Ec Bool
  then_lock set = ec_neg1 (sigprocmask refuses set) >>= λ _. rest refuses

  fills :
      (os : Os)
      → ec_neg1 (call refuses (λ o. o)) os ≡ (some tt, called (λ o. o) os)
      → sigfillset refuses os ≡ (some all_signals, called (λ o. o) os)
  unfolding return
  fills os filled = bind_some _ _ tt os _ filled

  -- The body up to the first mask: refused, or on to the rest with every signal blocked.
  body_lem :
      (os : Os)
      → (o : Os) × (o.cleanup ≡ os.cleanup)
        × (o.action ≡ os.action)
        × ((handle_signals_body refuses os ≡ (none, o))
              × (o.blocked ≡ os.blocked)
              × (refuses os.calls || refuses (suc os.calls) ≡ true)
            ⊎ (handle_signals_body refuses os ≡ rest refuses o) × (o.blocked ≡ all_signals))
  unfolding handle_signals_body rest then_lock
  body_lem os = elim (ec_neg1-call refuses (λ o. o) os) [
    | inl (refused, out) ↦ (
      called (λ o. o) os,
      refl,
      refl,
      inl (bind_none _ _ os _ (bind_none _ _ os _ out), refl, ground arith),
    )
    | inr (granted, filled) ↦
        let o1 = called (λ o. o) os in
        let lock = λ (o : Os). record o { blocked = all_signals } in
        let first = bind_some (sigfillset refuses) then_lock all_signals os o1 (fills os filled) in
        elim (ec_neg1-call refuses lock o1) [
          | inl (refused, out) ↦ (
            called (λ o. o) o1,
            refl,
            refl,
            inl (first ∙ bind_none _ _ o1 _ out, refl, ground arith),
          )
          | inr (_, locked) ↦
              (called lock o1, refl, refl, inr (first ∙ bind_some _ _ tt o1 _ locked, refl))
        ]
  ]

  -- Whichever calls are refused, handle_signals notes the clean-up function. If it returns true
  -- then SIGUSR1 and SIGUSR2 are blocked and no other signal is, SIGHUP, SIGQUIT and SIGPIPE are
  -- ignored, the nine terminal signals go to its handler, which runs with every signal blocked, and
  -- the action of every other signal is as it was. If it returns false, then either one of its
  -- first two calls was refused and neither mask nor action has changed, or every signal is left
  -- blocked.
  pub handle_signals_lem :
      (cleanup_in : Option CleanUp) (os : Os)
      → let (r, os') = handle_signals refuses cleanup_in os in
        (os'.cleanup ≡ cleanup_in)
        × ((r ≡ true)
              × ((s : ℕ) → os'.blocked s ≡ is_masked s)
              × ((s : ℕ) → os'.action s ≡ policy s (os.action s))
            ⊎ (r ≡ false)
              × (refuses os.calls || refuses (suc os.calls) ≡ true)
              × (os'.blocked ≡ os.blocked)
              × (os'.action ≡ os.action)
            ⊎ (r ≡ false) × ((s : ℕ) → os'.blocked s ≡ true))
  unfolding handle_signals
  handle_signals_lem cleanup_in os =
      let (o, same, acted, ends) = body_lem (record os { cleanup = cleanup_in }) in
      elim ends [
        | inl (out, blocked, refused) ↦
            rw (handle_signals, out) (same, inr (inl (refl, refused, blocked, acted)))
        | inr (on, locked) ↦
            let (same', ends') = (rest-Last refuses).at o locked in
            rw (handle_signals, on)
              (
                same' ∙ same,
                elim ends' [
                  | inl (out, all) ↦ inr (inr (rw out refl, λ s. rw all refl))
                  | inr (through, masks, acts) ↦ inl (
                    rw through refl,
                    λ s. rw masks (ground arith),
                    λ s. rw (acts, acted) (written_lem os.action s),
                  )
                ],
              )
      ]
