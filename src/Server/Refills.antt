-- ===== src/Server/Refills.antt =====
-- When the worker's balance is filled up, and by how much.
use rif_relay_server.Base.{
  ℕ, ◌+◌, ◌≡◌, ◌<◌, ◌≤◌, ◌⊎◌, inl, inr, refl, Bool, true, false, ◌&&◌, none, some, List, [], ◌∷◌,
  Text, arith, Bool-cases, ltb,
}
use rif_relay_server.Base.Int.{sub_ℕ, ltb_ℤ}
use rif_relay_server.Stored.{value_transfer}
use rif_relay_server.Outcome.{Outcome, Error, ok, err, pure, next, ◌>>=◌}
use rif_relay_server.Keys.{SignedTransactionDetails}
use rif_relay_server.TxManager.{World, SendTransactionDetails, send_transaction}
use rif_relay_server.TxManager.Sending.{Sent, send_transaction-Sent}
use rif_relay_server.TxStore.{is_action_pending}
use rif_relay_server.Amounts.{is_satisfied}
use rif_relay_server.Server.{Server, ServerContext}
use rif_relay_server.Server.Replenish.{
  can_refill, send_refill, emit_funding_needed, refill_unless_pending, refill_worker,
  replenish_from,
}

-- A difference of numbers below another.
ltb_sub : (a b m k : ℕ) → ltb_ℤ (sub_ℕ a b) (sub_ℕ m k) ≡ true → a + k < m + b
ltb_sub a b m k h = ground arith

not_ltb_sub : (a b m k : ℕ) → ltb_ℤ (sub_ℕ a b) (sub_ℕ m k) ≡ false → m + b ≤ a + k
not_ltb_sub a b m k h = ground arith

and_false : (b : Bool) → (b && false) ≡ false
and_false true = refl
and_false false = refl

answer_cases : (o : Outcome Bool) → (o ≡ ok true) ⊎ ((o ≡ ok false) ⊎ ((e : Error) × (o ≡ err e)))
answer_cases (ok true) = inl refl
answer_cases (ok false) = inr (inl refl)
answer_cases (err e) = inr (inr (e, refl))

module _ {Store : Type 0} (c : ServerContext Store) where
  abbrev pub current : Server Store → ℕ
  current s = s.worker_balance_required.current_value

  abbrev pub pending_refill : Server Store → Outcome Bool
  pending_refill s =
      is_action_pending c.base.get_address c.base.env.db value_transfer (some c.base.worker_address)
        s.registration.world.store

  -- A transfer from the manager to the worker of what the worker's balance lacks of the target.
  abbrev pub refill : ℕ → Server Store → SendTransactionDetails
  refill block s = record {
    signer = c.base.manager_address;
    server_action = value_transfer;
    method = none;
    destination = c.base.worker_address;
    value = some (sub_ℕ c.settings.worker_target_balance (current s));
    gas_limit = c.base.min_tx_gas_cost;
    gas_price = none;
    creation_block_number = block;
  }

  -- The state with another world of the transaction manager.
  abbrev pub in_world : Server Store → World Store → Server Store
  in_world s v = record s { registration = record s.registration { world = v } }

  -- The end of a round of `sendTransaction` for the refill: it was prepared, stored and broadcast, and
  -- its hash is the result; or `sendTransaction` threw, and so did the replenishment.
  abbrev pub RefillSent : ℕ → Server Store → Outcome (List Text) × Server Store → Type 0
  RefillSent block s (r, t) =
      ((signed : SignedTransactionDetails) × (v : World Store) × (r ≡ ok (signed.tx_hash ∷ []))
        × (t ≡ in_world s v)
        × Sent c.base.env (refill block s) s.registration.world v signed)
      ⊎ ((e : Error) × (v : World Store) × (r ≡ err e)
          × (t ≡ in_world s v)
          × (send_transaction c.base.env (refill block s) s.registration.world ≡ (err e, v)))

  send_refill-RefillSent :
      (block : ℕ) (s : Server Store)
      → RefillSent block s
          (send_refill c block (sub_ℕ c.settings.worker_target_balance (current s)) s)
  unfolding send_refill ◌>>=◌
  send_refill-RefillSent block s =
      go (send_transaction c.base.env (refill block s) s.registration.world) refl
    where
      go :
          (x : Outcome SignedTransactionDetails × World Store)
          → send_transaction c.base.env (refill block s) s.registration.world ≡ x
          → RefillSent block s (next (λ signed. pure (signed.tx_hash ∷ [])) (x.0, in_world s x.1))
      go (ok signed, v) h = inl (
        signed,
        v,
        refl,
        refl,
        send_transaction-Sent c.base.env (refill block s) s.registration.world v signed h,
      )
      go (err e, v) h = inr (e, v, refl, refl, h)

  -- The worker is to be refilled: its balance is below the required one, no refill is pending, and the
  -- manager keeps more than its minimum.
  pub record IsRefilled (manager_balance block : ℕ) (s : Server Store) : Type 0 where
    pub needed : current s < s.worker_balance_required.required_value
    pub none_pending : pending_refill s ≡ ok false
    pub affordable :
        c.settings.worker_target_balance + c.settings.manager_min_balance
        < manager_balance + current s
    pub sent : RefillSent block s (replenish_from c manager_balance block s)

  pub record IsUnfunded (manager_balance block : ℕ) (s : Server Store) : Type 0 where
    pub needed : current s < s.worker_balance_required.required_value
    pub none_pending : pending_refill s ≡ ok false
    pub unaffordable :
        manager_balance + current s
        ≤ c.settings.worker_target_balance + c.settings.manager_min_balance
    pub told : replenish_from c manager_balance block s ≡ emit_funding_needed c s

  -- Once the balances are known, a replenishment ends in one of four ways: the refill up to the
  -- target is needed and the manager can pay for it, and `sendTransaction` is called for it, which
  -- sends the transfer or throws; it is needed, but too much for the manager, and the need is emitted; nothing is
  -- done, the worker's balance being enough or a refill pending; or the query of the store throws.
  pub replenish_from_lem :
      (manager_balance block : ℕ) (s : Server Store)
      → IsRefilled manager_balance block s
        ⊎ (IsUnfunded manager_balance block s
            ⊎ (((replenish_from c manager_balance block s ≡ (ok [], s))
                  × ((s.worker_balance_required.required_value ≤ current s)
                      ⊎ (pending_refill s ≡ ok true)))
                ⊎ ((e : Error) × (pending_refill s ≡ err e)
                    × (replenish_from c manager_balance block s ≡ (err e, s)))))
  unfolding replenish_from refill_unless_pending refill_worker
  replenish_from_lem manager_balance block s =
      elim (Bool-cases (is_satisfied s.worker_balance_required)) [
        | inl satisfied ↦
            let enough : s.worker_balance_required.required_value ≤ current s = ground arith in
            elim (Bool-cases (ltb c.settings.manager_target_balance manager_balance)) [
              | inl rich ↦ inr (inr (inl (rw (rich, satisfied) refl, inl enough)))
              | inr poor ↦ elim (answer_cases (pending_refill s)) [
                | inl p ↦ inr (inr (inl (rw (poor, satisfied, p) refl, inl enough)))
                | inr (inl p) ↦ inr (inr (inl (rw (poor, satisfied, p) refl, inl enough)))
                | inr (inr (e, p)) ↦ inr (inr (inr (e, p, rw (poor, satisfied, p) refl)))
              ]
            ]
        | inr low ↦
            let guard = and_false (ltb c.settings.manager_target_balance manager_balance) in
            let needed : current s < s.worker_balance_required.required_value = ground arith in
            elim (answer_cases (pending_refill s)) [
              | inl p ↦ inr (inr (inl (rw (low, guard, p) refl, inr p)))
              | inr (inl p) ↦ elim (Bool-cases (can_refill c manager_balance s)) [
                | inl affordable ↦ inl (record {
                  needed = needed;
                  none_pending = p;
                  affordable = ltb_sub _ _ _ _ affordable;
                  sent = rw (low, guard, p) (rw affordable (send_refill-RefillSent block s));
                })
                | inr dear ↦ inr (
                    inl (record {
                      needed = needed;
                      none_pending = p;
                      unaffordable = not_ltb_sub _ _ _ _ dear;
                      told = rw (low, guard, p) (rw dear refl);
                    }))
              ]
              | inr (inr (e, p)) ↦ inr (inr (inr (e, p, rw (low, guard, p) refl)))
            ]
      ]
