-- ===== src/Registration/Sending.antt =====
-- What src/RegistrationManager.ts sends to the hub: the addition of the worker, and the registration.
use rif_relay_server.Base.{
  ℕ, ◌+◌, ◌≡◌, ◌⊎◌, inl, inr, refl, sym, ap, ◌∙◌, Option, none, some, Text, subst, Option-cases,
}
use rif_relay_server.Stored.{PopulatedTransaction, ServerAction, add_worker, register_server}
use rif_relay_server.Outcome.{ok, ok_injective, Action, ◌>>=◌, pure, >>=-eq-ok}
use rif_relay_server.Keys.{SignedTransactionDetails}
use rif_relay_server.TxManager.{Env, World, call, attempt_estimate_gas, send_transaction}
use rif_relay_server.TxManager.Nonces.{called}
use rif_relay_server.TxManager.Steps.{call-answer, call-state}
use rif_relay_server.TxManager.Sending.{Sent, send_transaction-Sent}
use rif_relay_server.Registration.{Context, Registration, on_world, hub_details}
use rif_relay_server.Registration.Methods.{add_relay_worker, register}

module _ {Store : Type 0} where
  abbrev pub in_world : Registration Store → World Store → Registration Store
  in_world r w = record r { world = w }

  pub on_world-eq-ok :
      {A : Type 0} (m : Action (World Store) A) (r t : Registration Store) (a : A)
      → on_world m r ≡ (ok a, t)
      → (m r.world ≡ (ok a, t.world)) × (t ≡ in_world r t.world)
  on_world-eq-ok m r t a e =
      let left : in_world r (m r.world).1 ≡ t = ap (λ p. p.1) e in
      (ap (λ p. (p.0, p.1.world)) e, sym left ∙ ap (λ x. in_world r x.world) left)

module _ {Store : Type 0} (env : Env Store) where
  -- The gas limit that `attemptEstimateGas` gives: the scaled estimate, or the default without one.
  abbrev pub IsLimit : ℕ → PopulatedTransaction → Text → ℕ → Type 0
  IsLimit n method from limit =
      ((env.node.estimate_gas n method from ≡ none) × (limit ≡ env.settings.default_gas_limit))
      ⊎ ((g : ℕ) × (env.node.estimate_gas n method from ≡ some g)
          × (limit ≡ env.settings.scale_estimate g))

  attempt_estimate_gas-IsLimit :
      (method : PopulatedTransaction) (from : Text) (w v : World Store) (limit : ℕ)
      → attempt_estimate_gas env method from w ≡ (ok limit, v)
      → IsLimit w.calls method from limit × (v ≡ called w)
  unfolding attempt_estimate_gas
  attempt_estimate_gas-IsLimit method from w v limit e = (
    elim (Option-cases (env.node.estimate_gas w.calls method from)) [
      | inl h ↦ inl (h, sym (ok_injective (rw h at e)))
      | inr (g, h) ↦ inr (g, h, sym (ok_injective (rw h at e)))
    ],
    sym (ap (λ p. p.1) e),
  )

module _ {Store : Type 0} (c : Context Store) where
  -- The hub gave the method's transaction, and it was sent from the manager to the hub, for the given
  -- action and with the estimated gas limit; nothing but the transaction manager's world changed.
  pub record SentToHub (ask : ℕ → Option PopulatedTransaction) (action : ServerAction) (block : ℕ)
      (r t : Registration Store) (tx_hash : Text) : Type 0 where
    pub method : PopulatedTransaction
    pub asked : ask r.world.calls ≡ some method
    pub gas_limit : ℕ
    pub limited : IsLimit c.env (r.world.calls + 1) method c.manager_address gas_limit
    pub signed : SignedTransactionDetails
    pub sent :
        Sent c.env
          (hub_details c.manager_address action c.hub_address method gas_limit block)
          (called (called r.world))
          t.world
          signed
    pub hashed : tx_hash ≡ signed.tx_hash
    pub left : t ≡ in_world r t.world

  -- The steps that both calls of the hub share.
  abbrev send_to_hub :
      (ℕ → Option PopulatedTransaction) → ServerAction → ℕ → Action (Registration Store) Text
  send_to_hub ask action block = do
    method ← on_world (call ask)
    gas_limit ← on_world (attempt_estimate_gas c.env method c.manager_address)
    signed ← on_world (
        send_transaction c.env
          (hub_details c.manager_address action c.hub_address method gas_limit block))
    pure signed.tx_hash

  SentToHub-of :
      (ask : ℕ → Option PopulatedTransaction) (action : ServerAction) (block : ℕ)
      (r r1 r2 r3 : Registration Store) (method : PopulatedTransaction) (gas_limit : ℕ)
      (signed : SignedTransactionDetails)
      → on_world (call ask) r ≡ (ok method, r1)
      → on_world (attempt_estimate_gas c.env method c.manager_address) r1 ≡ (ok gas_limit, r2)
      → on_world
          (send_transaction c.env
            (hub_details c.manager_address action c.hub_address method gas_limit block))
          r2
        ≡ (ok signed, r3)
      → SentToHub ask action block r r3 signed.tx_hash
  SentToHub-of ask action block r r1 r2 r3 method gas_limit signed e1 e2 e3 =
      let d = hub_details c.manager_address action c.hub_address method gas_limit block in
      let (ran1, left1) = on_world-eq-ok (call ask) r r1 method e1 in
      let (ran2, left2) =
        on_world-eq-ok (attempt_estimate_gas c.env method c.manager_address) r1 r2 gas_limit e2 in
      let (ran3, left3) = on_world-eq-ok (send_transaction c.env d) r2 r3 signed e3 in
      let w1 : r1.world ≡ called r.world = sym (ap (λ p. p.1) ran1) ∙ call-state ask r.world in
      let (limit, w2) =
        attempt_estimate_gas-IsLimit c.env method c.manager_address r1.world r2.world gas_limit
          ran2 in
      record {
        method = method;
        asked = call-answer ask r.world r1.world ran1;
        gas_limit = gas_limit;
        limited = subst (λ w. IsLimit c.env w.calls method c.manager_address gas_limit) w1 limit;
        signed = signed;
        sent =
            subst (λ w. Sent c.env d w r3.world signed) (w2 ∙ ap called w1)
              (send_transaction-Sent c.env d r2.world r3.world signed ran3);
        hashed = refl;
        left = left3 ∙ ap (λ x. in_world x r3.world) (left2 ∙ ap (λ x. in_world x r2.world) left1);
      }

  send_to_hub-SentToHub :
      (ask : ℕ → Option PopulatedTransaction) (action : ServerAction) (block : ℕ)
      (r t : Registration Store) (tx_hash : Text)
      → send_to_hub ask action block r ≡ (ok tx_hash, t)
      → SentToHub ask action block r t tx_hash
  send_to_hub-SentToHub ask action block r t tx_hash e =
      let (method, r1, e1, f1) = >>=-eq-ok _ _ r e in
      let (gas_limit, r2, e2, f2) = >>=-eq-ok _ _ r1 f1 in
      let (signed, r3, e3, f3) = >>=-eq-ok _ _ r2 f2 in
      subst (λ h. SentToHub ask action block r t h) (ok_injective f3)
        (subst (λ x. SentToHub ask action block r x signed.tx_hash) (ap (λ p. p.1) f3)
          (SentToHub-of ask action block r r1 r2 r3 method gas_limit signed e1 e2 e3))

  pub add_relay_worker-SentToHub :
      (block : ℕ) (r t : Registration Store) (tx_hash : Text)
      → add_relay_worker c block r ≡ (ok tx_hash, t)
      → SentToHub (λ n. c.hub.add_relay_workers n c.worker_address) add_worker block r t tx_hash
  unfolding add_relay_worker
  add_relay_worker-SentToHub block r t tx_hash e =
      send_to_hub-SentToHub _ add_worker block r t tx_hash e

  pub register-SentToHub :
      (block : ℕ) (r t : Registration Store) (tx_hash : Text)
      → register c block r ≡ (ok tx_hash, t)
      → SentToHub (λ n. c.hub.register_relay_server n c.url) register_server block r t tx_hash
  unfolding register
  register-SentToHub block r t tx_hash e =
      send_to_hub-SentToHub _ register_server block r t tx_hash e
