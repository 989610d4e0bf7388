-- ===== src/Commands/Waiting.antt =====
-- How `waitForRelay` of src/commands/Register.ts ends.
use rif_relay_server.Base.{
  ◌==◌, ℕ, zero, suc, ◌+◌, ◌*◌, ◌≡◌, ◌≤◌, ◌<◌, inl, inr, refl, ◌∙◌, true, false, Option, some, ltb,
  arith, Bool-cases,
}
use rif_relay_server.Outcome.{Outcome, ok, err, relay_not_ready}
use rif_relay_server.Commands.{
  RegisterNode, Setup, is_ready_info, requested, slept, wait_until, wait_for_relay,
}

module _ (node : RegisterNode) where
  -- No answer from the one on and before the other was one of a ready relay.
  abbrev pub IsUnready : ℕ → ℕ → Type 0
  IsUnready from to = (n : ℕ) → from ≤ n → n < to → is_ready_info (node.get_chain_info n) ≡ false

  -- The waiting until the time has ended: with an answer of a ready relay, which it had asked for
  -- before the time was over, or with an error once the time is over.
  pub data IsWaited (end_time : ℕ) (s : Setup) (r : Outcome (Option (Unit {0})) × Setup)
      : Type 0 where
    found :
        (t : Setup)
        → s.calls ≤ t.calls
        → IsUnready s.calls t.calls
        → t.now < end_time
        → is_ready_info (node.get_chain_info t.calls) ≡ true
        → r ≡ (ok (some tt), requested node t)
        → IsWaited end_time s r
    gave_up :
        (t : Setup)
        → IsUnready s.calls t.calls
        → end_time ≤ t.now
        → r ≡ (err relay_not_ready, t)
        → IsWaited end_time s r

  more-IsUnready :
      (from to : ℕ)
      → is_ready_info (node.get_chain_info from) ≡ false
      → IsUnready (from + 1) to
      → IsUnready from to
  more-IsUnready from to first rest n low high = elim (Bool-cases (n == from)) [
    | inl e ↦ let same : n ≡ from = ground arith in rw same first
    | inr e ↦ rest n (ground arith) high
  ]

  -- A round that finds no ready relay goes on after the sleep.
  later_round :
      (s : Setup) (end_time : ℕ) {r r' : Outcome (Option (Unit {0})) × Setup}
      → is_ready_info (node.get_chain_info s.calls) ≡ false
      → IsWaited end_time (slept node (requested node s)) r'
      → r ≡ r'
      → IsWaited end_time s r
  later_round s end_time unready (found t later silent early ready e) same =
      found t (omega arith) (more-IsUnready s.calls t.calls unready silent) early ready (same ∙ e)
  later_round s end_time unready (gave_up t silent late e) same =
      gave_up t (more-IsUnready s.calls t.calls unready silent) late (same ∙ e)

  wait_until-IsWaited :
      (fuel end_time : ℕ) (s : Setup)
      → end_time ≤ s.now + fuel * 3000
      → IsWaited end_time s (wait_until node (suc fuel) end_time s)
  unfolding wait_until
  wait_until-IsWaited zero end_time s enough = elim (Bool-cases (ltb s.now end_time)) [
    | inl early ↦ absurd (ground arith)
    | inr late ↦ gave_up s (λ n low high. absurd (omega arith)) (ground arith) (rw late refl)
  ]
  wait_until-IsWaited (suc fuel) end_time s enough = elim (Bool-cases (ltb s.now end_time)) [
    | inl early ↦ elim (Bool-cases (is_ready_info (node.get_chain_info s.calls))) [
      | inl ready ↦
          found s (omega arith) (λ n low high. absurd (omega arith)) (ground arith) ready
            (rw (early, ready) refl)
      | inr unready ↦
          later_round s end_time unready
            (wait_until-IsWaited fuel end_time (slept node (requested node s)) (omega arith))
            (rw (early, unready) refl)
    ]
    | inr late ↦ gave_up s (λ n low high. absurd (omega arith)) (ground arith) (rw late refl)
  ]

  -- `waitForRelay` ends, however long the client takes: either it returns on an answer of a ready
  -- relay, asked for before the timeout, or it throws, not before the timeout. No answer before was
  -- one of a ready relay.
  pub wait_for_relay-IsWaited :
      (timeout : ℕ) (s : Setup)
      → IsWaited (s.now + timeout * 1000) s (wait_for_relay node timeout s)
  unfolding wait_for_relay
  wait_for_relay-IsWaited timeout s =
      wait_until-IsWaited timeout (s.now + timeout * 1000) s (omega arith)
