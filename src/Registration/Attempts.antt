-- ===== src/Registration/Attempts.antt =====
-- What an attempt to register sends.
use rif_relay_server.Base.{
  ℕ, ◌≡◌, ◌≤◌, arith, ◌⊎◌, inl, inr, refl, sym, ap, Bool, true, false, ◌||◌, none, List, [], ◌∷◌,
  ◌++◌, Text, Bool-cases, subst,
}
use rif_relay_server.Stored.{add_worker, register_server}
use rif_relay_server.Outcome.{Outcome, ok, err, Action, ◌>>=◌, next, >>=-eq-ok}
use rif_relay_server.TxStore.{is_action_pending}
use rif_relay_server.Registration.{Context, Registration, is_worker_valid}
use rif_relay_server.Registration.Sending.{
  SentToHub, add_relay_worker-SentToHub, register-SentToHub,
}
use rif_relay_server.Registration.Methods.{
  all_prerequisites_ok, add_relay_worker, add_worker_if_needed, register, attempt_registration,
}

-- A block that begins by reading the state.
read-eq-ok :
    {S A B : Type 0} (f : S → Outcome A) (g : A → Action S B) (s : S) {b : B} {u : S}
    → ((λ r. (f r, r)) >>= g) s ≡ (ok b, u)
    → (a : A) × (f s ≡ ok a) × (g a s ≡ (ok b, u))
unfolding ◌>>=◌
read-eq-ok {S} {A} {B} f g s {b} {u} e = go (f s) refl e
  where
    go :
        (r : Outcome A)
        → f s ≡ r
        → next g (r, s) ≡ (ok b, u)
        → (a : A) × (f s ≡ ok a) × (g a s ≡ (ok b, u))
    go (ok a) h k = (a, h, k)
    go (err x) h k = cc

pure-eq-ok :
    {S A : Type 0} {a b : A} {s t : S}
    → ◌≡◌ {A = Outcome A × S} (ok a, s) (ok b, t)
    → (a ≡ b) × (s ≡ t)
pure-eq-ok h = (ok_injective (ap (λ r. r.0) h), ap (λ r. r.1) h)
  where
    ok_injective : {A : Type 0} {a b : A} → ok a ≡ ok b → a ≡ b
    ok_injective q = cc

module _ {Store : Type 0} (c : Context Store) where
  -- What is sent for the worker: nothing, where it is valid or its addition pends; otherwise the
  -- addition, and nothing else.
  pub data WorkerSent (block : ℕ) (pending : Bool) (r u : Registration Store)
      : List Text → Type 0 where
    kept :
        (is_worker_valid r.last_worker_added || pending) ≡ true
        → r ≡ u
        → WorkerSent block pending r u []
    sent :
        (tx_hash : Text)
        → (is_worker_valid r.last_worker_added || pending) ≡ false
        → SentToHub c (λ n. c.hub.add_relay_workers n c.worker_address) add_worker block r u tx_hash
        → WorkerSent block pending r u (tx_hash ∷ [])

  add_worker_if_needed-WorkerSent :
      (block : ℕ) (pending : Bool) (r u : Registration Store) (added : List Text)
      → add_worker_if_needed c block pending r ≡ (ok added, u)
      → WorkerSent block pending r u added
  unfolding add_worker_if_needed
  add_worker_if_needed-WorkerSent block pending r u added h =
      elim (Bool-cases (is_worker_valid r.last_worker_added || pending)) [
        | inl e ↦
            let (q, same) = pure-eq-ok (rw e at h) in
            subst (λ l. WorkerSent block pending r u l) q (kept e same)
        | inr e ↦
            let (tx_hash, v, ran, done) = >>=-eq-ok (add_relay_worker c block) _ r (rw e at h) in
            let (q, same) = pure-eq-ok done in
            subst (λ l. WorkerSent block pending r u l) q
              (sent tx_hash e (
                add_relay_worker-SentToHub c block r u tx_hash
                  (subst (λ w. add_relay_worker c block r ≡ (ok tx_hash, w)) same ran)))
      ]

  -- An attempt that met the prerequisites: the worker's part, and then the registration.
  pub record IsAttempted (block : ℕ) (r t : Registration Store) (hashes : List Text) : Type 0 where
    pub pending : Bool
    pub answered :
        is_action_pending c.get_address c.env.db add_worker none r.world.store ≡ ok pending
    pub added : List Text
    pub tx_hash : Text
    pub middle : Registration Store
    pub worker_sent : WorkerSent block pending r middle added
    pub registered :
        SentToHub c
          (λ n. c.hub.register_relay_server n c.url)
          register_server
          block
          middle
          t
          tx_hash
    pub all_sent : hashes ≡ added ++ tx_hash ∷ []

  -- The stake is locked, and the stake and the balance are enough.
  abbrev pub HasPrerequisites : Registration Store → Type 0
  HasPrerequisites r =
      (r.is_stake_locked ≡ true)
      × (r.stake_required.required_value ≤ r.stake_required.current_value)
      × (r.balance_required.required_value ≤ r.balance_required.current_value)

  HasPrerequisites-cases :
      (r : Registration Store)
      → ((all_prerequisites_ok c r ≡ true) × HasPrerequisites r)
        ⊎ ((all_prerequisites_ok c r ≡ false) × (HasPrerequisites r → ⊥))
  unfolding all_prerequisites_ok
  HasPrerequisites-cases r = elim (Bool-cases (all_prerequisites_ok c r)) [
    | inl e ↦ inl (e, ground arith)
    | inr e ↦ inr (e, λ (locked, staked, funded). ground arith)
  ]

  -- A successful `attemptRegistration` did nothing, for want of a prerequisite; or all of them were
  -- met, and it sent to the hub, from the manager, the registration that the hub gave for the server's
  -- URL, and before it the addition of the worker, exactly if the worker was neither added nor about to
  -- be: each was signed, stored and broadcast with the gas limit of the estimate.
  pub attempt_registration_lem :
      (block : ℕ) (r t : Registration Store) (hashes : List Text)
      → attempt_registration c block r ≡ (ok hashes, t)
      → ((HasPrerequisites r → ⊥) × (hashes ≡ []) × (t ≡ r))
        ⊎ (HasPrerequisites r × IsAttempted block r t hashes)
  unfolding attempt_registration
  attempt_registration_lem block r t hashes h = elim (HasPrerequisites-cases r) [
    | inr (e, lacks) ↦ let (q, same) = pure-eq-ok (rw e at h) in inl (lacks, sym q, sym same)
    | inl (e, met) ↦
        let (pending, answered, h1) = read-eq-ok _ _ r (rw e at h) in
        let (added, u, adds, h2) = >>=-eq-ok (add_worker_if_needed c block pending) _ r h1 in
        let (tx_hash, v, ran, done) = >>=-eq-ok (register c block) _ u h2 in
        let (q, same) = pure-eq-ok done in
        inr (
          met,
          record {
            pending = pending;
            answered = answered;
            added = added;
            tx_hash = tx_hash;
            middle = u;
            worker_sent = add_worker_if_needed-WorkerSent block pending r u added adds;
            registered =
                register-SentToHub c block u t tx_hash
                  (subst (λ w. register c block u ≡ (ok tx_hash, w)) same ran);
            all_sent = sym q;
          },
        )
  ]
