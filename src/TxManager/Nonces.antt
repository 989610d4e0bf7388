-- ===== src/TxManager/Nonces.antt =====
-- The nonce counters.
use rif_relay_server.Base.{
  ◌∙◌, ℕ, ◌+◌, ◌≡◌, ◌≤◌, ◌≢◌, ◌⊎◌, inl, inr, refl, Option, none, some, Text, eq_text_iff, arith,
  get_or, Bool-cases, Option-cases, eq_text_refl, ◌<◌, ltb,
}
use rif_relay_server.Outcome.{or_throw, bind_of_ok, bind_of_err, ok, err, provider_failed}
use rif_relay_server.TxManager.{call, Env, World, poll_nonce, settle_nonce, assign}

pub assign_self : (f : Text → Option ℕ) (k : Text) (v : Option ℕ) → assign f k v k ≡ v
assign_self f k v = rw (eq_text_refl k)

pub assign_ne :
    (f : Text → Option ℕ) (k : Text) (v : Option ℕ) (a : Text) → a ≢ k → assign f k v a ≡ f a
assign_ne f k v a h = ground (arith, eq_text_iff k a)

module _ {Store : Type 0} where
  -- The counter of a signer, where an absent one counts from 0.
  abbrev pub counter : World Store → Text → ℕ
  counter w a = get_or (w.nonces a) 0

  -- `n` was settled for the signer on the node's answer: it is the larger of the answer and the
  -- counter, and the counter from then on; nothing else has changed.
  pub record Settled (signer : Text) (answer : ℕ) (w v : World Store) (n : ℕ) : Type 0 where
    pub answer_le : answer ≤ n
    pub counter_le : counter w signer ≤ n
    pub origin : (n ≡ answer) ⊎ (n ≡ counter w signer)
    pub now : v.nonces signer ≡ some n
    pub others : (a : Text) → a ≢ signer → v.nonces a ≡ w.nonces a
    pub same_store : v.store ≡ w.store
    pub same_calls : v.calls ≡ w.calls
    pub same_broadcast : v.broadcast ≡ w.broadcast

  some_of_counter :
      (w : World Store) (signer : Text) (n : ℕ)
      → n < counter w signer
      → w.nonces signer ≡ some (counter w signer)
  some_of_counter w signer n h = ground arith

  pub settle_nonce-Settled :
      (signer : Text) (answer : ℕ) (w : World Store)
      → (n : ℕ) × (v : World Store) × (settle_nonce signer answer w ≡ (ok n, v))
        × Settled signer answer w v n
  unfolding settle_nonce
  settle_nonce-Settled signer answer w = elim (Bool-cases (ltb answer (counter w signer))) [
    | inl e ↦ (
      counter w signer,
      w,
      rw e refl,
      record {
        answer_le = ground arith;
        counter_le = omega arith;
        origin = inr refl;
        now = some_of_counter w signer answer (ground arith);
        others = λ a h. refl;
        same_store = refl;
        same_calls = refl;
        same_broadcast = refl;
      },
    )
    | inr e ↦ (
      answer,
      record w { nonces = assign w.nonces signer (some answer) },
      rw e refl,
      record {
        answer_le = omega arith;
        counter_le = ground arith;
        origin = inl refl;
        now = assign_self w.nonces signer (some answer);
        others = λ a h. assign_ne w.nonces signer (some answer) a h;
        same_store = refl;
        same_calls = refl;
        same_broadcast = refl;
      },
    )
  ]

  -- The world after one more call of the node.
  abbrev pub called : World Store → World Store
  called w = record w { calls = w.calls + 1 }

  pub call-some :
      {A : Type 0} (ask : ℕ → Option A) (w : World Store) {a : A}
      → ask w.calls ≡ some a
      → call ask w ≡ (ok a, called w)
  unfolding call
  call-some ask w e = rw (e, or_throw)

  pub call-none :
      {A : Type 0} (ask : ℕ → Option A) (w : World Store)
      → ask w.calls ≡ none
      → call ask w ≡ (err provider_failed, called w)
  unfolding call
  call-none ask w e = rw (e, or_throw)

  module _ (env : Env Store) where
    -- `pollNonce` ends in one of two ways: with the rejection of the node's answer, or with a nonce
    -- that is settled on the answer.
    pub poll_nonce_lem :
        (signer : Text) (w : World Store)
        → ((env.node.count_pending w.calls signer ≡ none)
            × (poll_nonce env signer w ≡ (err provider_failed, called w)))
          ⊎ ((answer : ℕ) × (n : ℕ) × (v : World Store) × (env.node.count_pending w.calls signer
                ≡ some answer)
              × (poll_nonce env signer w ≡ (ok n, v))
              × Settled signer answer (called w) v n)
    unfolding poll_nonce
    poll_nonce_lem signer w = elim (Option-cases (env.node.count_pending w.calls signer)) [
      | inl e ↦ inl (e, bind_of_err _ _ w (call-none _ w e))
      | inr (answer, e) ↦
          let (n, v, ran, settled) = settle_nonce-Settled signer answer (called w) in
          inr (answer, n, v, e, bind_of_ok _ _ w (call-some _ w e) ∙ ran, settled)
    ]
