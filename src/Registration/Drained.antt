-- ===== src/Registration/Drained.antt =====
-- What the withdrawals of src/RegistrationManager.ts send to the owner.
use rif_relay_server.Base.{
  ℕ, ◌+◌, ◌*◌, ◌≡◌, ◌<◌, ◌⊎◌, inl, inr, refl, sym, ap, ◌∙◌, Bool, true, false, Option, none, some,
  List, [], ◌∷◌, ◌++◌, Text, subst, if◌then◌else◌,
}
use rif_relay_server.Outcome.{ok, ok_injective, pure, >>=-eq-ok}
use rif_relay_server.Keys.{SignedTransactionDetails}
use rif_relay_server.TxManager.{SendTransactionDetails, call, send_transaction}
use rif_relay_server.TxManager.Nonces.{called}
use rif_relay_server.TxManager.Steps.{call-answer, call-state}
use rif_relay_server.TxManager.Sending.{Sent, send_transaction-Sent}
use rif_relay_server.Registration.{Context, Registration, on_world}
use rif_relay_server.Registration.Funds.{IsWhole, transfer_balance_lem}
use rif_relay_server.Registration.Sending.{in_world, on_world-eq-ok}
use rif_relay_server.Registration.Methods.{
  transfer_balance, send_to_owner, send_manager_eth_balance_to_owner,
  send_workers_eth_balances_to_owner, withdraw_all_funds,
}

module _ {Store : Type 0} (c : Context Store) where
  -- The signer's balance was left, being below the cost of a transfer; or one transaction was sent,
  -- which takes the whole of it to the owner.
  abbrev pub IsPaidOut :
      Text → Text → ℕ → ℕ → Registration Store → Registration Store → List Text → Type 0
  IsPaidOut signer owner gas_price balance r t hashes =
      ((balance < c.min_tx_gas_cost * gas_price) × (hashes ≡ []) × (t ≡ r))
      ⊎ ((d : SendTransactionDetails) × (signed : SignedTransactionDetails) × IsWhole c signer owner
            gas_price balance d
          × Sent c.env d r.world t.world signed
          × (hashes ≡ signed.tx_hash ∷ [])
          × (t ≡ in_world r t.world))

  transfer_balance-IsPaidOut :
      (signer owner : Text) (gas_price balance block : ℕ) (r t : Registration Store)
      (hashes : List Text)
      → transfer_balance c signer owner gas_price balance block r ≡ (ok hashes, t)
      → IsPaidOut signer owner gas_price balance r t hashes
  transfer_balance-IsPaidOut signer owner gas_price balance block r t hashes e =
      elim (transfer_balance_lem c signer owner gas_price balance block r) [
        | inl (poor, kept) ↦
            let same = sym kept ∙ e in inl (poor, sym (ok_injective same), sym (ap (λ p. p.1) same))
        | inr (d, whole, sends) ↦
            let (signed, u, sent, done) = >>=-eq-ok _ _ r (sym sends ∙ e) in
            let (ran, left) = on_world-eq-ok (send_transaction c.env d) r u signed sent in
            let same : u ≡ t = ap (λ p. p.1) done in
            inr (
              d,
              signed,
              whole,
              subst (λ x. Sent c.env d r.world x.world signed) same
                  (send_transaction-Sent c.env d r.world u.world signed ran),
              sym (ok_injective done),
              subst (λ x. x ≡ in_world r x.world) same left,
            )
      ]

  -- No owner is known, and nothing was done; or the node told a gas price and the signer's balance,
  -- and it was paid out to the owner.
  abbrev pub IsOwnerPaid : Text → Registration Store → Registration Store → List Text → Type 0
  IsOwnerPaid signer r t hashes =
      (((r.owner_address ≡ none) ⊎ (r.owner_address ≡ some [])) × (hashes ≡ []) × (t ≡ r))
      ⊎ ((owner : Text) × (gas_price balance : ℕ) × (r.owner_address ≡ some owner)
          × (c.env.node.gas_price r.world.calls ≡ some gas_price)
          × (c.env.node.balance (r.world.calls + 1) signer ≡ some balance)
          × IsPaidOut signer owner gas_price balance (in_world r (called (called r.world))) t
              hashes)

  send_to_owner-IsOwnerPaid :
      (signer : Text) (block : ℕ) (owner : Option Text) (r t : Registration Store)
      (hashes : List Text)
      → r.owner_address ≡ owner
      → send_to_owner c signer block owner r ≡ (ok hashes, t)
      → IsOwnerPaid signer r t hashes
  unfolding send_to_owner
  send_to_owner-IsOwnerPaid signer block none r t hashes o e =
      inl (inl o, sym (ok_injective e), sym (ap (λ p. p.1) e))
  send_to_owner-IsOwnerPaid signer block (some []) r t hashes o e =
      inl (inr o, sym (ok_injective e), sym (ap (λ p. p.1) e))
  send_to_owner-IsOwnerPaid signer block (some (x ∷ xs)) r t hashes o e =
      let (gas_price, r1, e1, f1) = >>=-eq-ok _ _ r e in
      let (balance, r2, e2, f2) = >>=-eq-ok _ _ r1 f1 in
      asked r r1 r2 t gas_price balance hashes o e1 e2
        (transfer_balance-IsPaidOut signer (x ∷ xs) gas_price balance block r2 t hashes f2)
    where
      asked :
          (r r1 r2 t : Registration Store) (gas_price balance : ℕ) (hashes : List Text)
          → r.owner_address ≡ some (x ∷ xs)
          → on_world (call c.env.node.gas_price) r ≡ (ok gas_price, r1)
          → on_world (call (λ n. c.env.node.balance n signer)) r1 ≡ (ok balance, r2)
          → IsPaidOut signer (x ∷ xs) gas_price balance r2 t hashes
          → IsOwnerPaid signer r t hashes
      asked r r1 r2 t gas_price balance hashes o e1 e2 paid =
          let ask = λ (n : ℕ). c.env.node.balance n signer in
          let (ran1, left1) = on_world-eq-ok (call c.env.node.gas_price) r r1 gas_price e1 in
          let (ran2, left2) = on_world-eq-ok (call ask) r1 r2 balance e2 in
          let w1 : r1.world ≡ called r.world =
            sym (ap (λ p. p.1) ran1) ∙ call-state c.env.node.gas_price r.world in
          let w2 : r2.world ≡ called (called r.world) =
            sym (ap (λ p. p.1) ran2) ∙ call-state ask r1.world ∙ ap called w1 in
          let same : r2 ≡ in_world r (called (called r.world)) =
            left2
            ∙ ap (λ x. in_world x r2.world) (left1 ∙ ap (in_world r) w1)
            ∙ ap (in_world r) w2 in
          inr (
            x ∷ xs,
            gas_price,
            balance,
            o,
            call-answer c.env.node.gas_price r.world r1.world ran1,
            subst (λ w. ask w.calls ≡ some balance) w1 (call-answer ask r1.world r2.world ran2),
            subst (λ s. IsPaidOut signer (x ∷ xs) gas_price balance s t hashes) same paid,
          )

  -- A withdrawal: the worker's balance, then, if asked for, the manager's, and then `unstaked`.
  pub record IsWithdrawn (manager : Bool) (r t : Registration Store) (hashes : List Text)
      : Type 0 where
    pub middle : Registration Store
    pub paid : Registration Store
    pub from_worker : List Text
    pub from_manager : List Text
    pub worker_paid : IsOwnerPaid c.worker_address r middle from_worker
    pub manager_paid :
        ((manager ≡ true) × IsOwnerPaid c.manager_address middle paid from_manager)
        ⊎ ((manager ≡ false) × (from_manager ≡ []) × (paid ≡ middle))
    pub emitted : t ≡ record paid { unstaked = paid.unstaked + 1 }
    pub all_sent : hashes ≡ from_worker ++ from_manager

  manager_part :
      (manager : Bool) (block : ℕ) (r t : Registration Store) (hashes : List Text)
      → (if manager then send_manager_eth_balance_to_owner c block else pure []) r ≡ (ok hashes, t)
      → ((manager ≡ true) × IsOwnerPaid c.manager_address r t hashes)
        ⊎ ((manager ≡ false) × (hashes ≡ []) × (t ≡ r))
  unfolding send_manager_eth_balance_to_owner
  manager_part true block r t hashes e =
      inl
        (refl, send_to_owner-IsOwnerPaid c.manager_address block r.owner_address r t hashes refl e)
  manager_part false block r t hashes e = inr (refl, sym (ok_injective e), sym (ap (λ p. p.1) e))

  worker_part :
      (block : ℕ) (r t : Registration Store) (hashes : List Text)
      → send_workers_eth_balances_to_owner c block r ≡ (ok hashes, t)
      → IsOwnerPaid c.worker_address r t hashes
  unfolding send_workers_eth_balances_to_owner
  worker_part block r t hashes e =
      send_to_owner-IsOwnerPaid c.worker_address block r.owner_address r t hashes refl e

  pub withdraw_all_funds-IsWithdrawn :
      (manager : Bool) (block : ℕ) (r t : Registration Store) (hashes : List Text)
      → withdraw_all_funds c manager block r ≡ (ok hashes, t)
      → IsWithdrawn manager r t hashes
  unfolding withdraw_all_funds
  withdraw_all_funds-IsWithdrawn manager block r t hashes e =
      let (a, r1, sent, e1) = >>=-eq-ok _ _ r e in
      let (b, r2, sent_too, e2) = >>=-eq-ok _ _ r1 e1 in
      let (u, r3, emits, e3) = >>=-eq-ok _ _ r2 e2 in
      record {
        middle = r1;
        paid = r2;
        from_worker = a;
        from_manager = b;
        worker_paid = worker_part block r r1 a sent;
        manager_paid = manager_part manager block r1 r2 b sent_too;
        emitted = sym (ap (λ p. p.1) e3) ∙ sym (ap (λ p. p.1) emits);
        all_sent = sym (ok_injective e3);
      }
