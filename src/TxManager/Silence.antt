-- ===== src/TxManager/Silence.antt =====
-- Which blocks broadcast nothing, however they end.
use rif_relay_server.Base.{ℕ, ◌≡◌, refl, ◌∙◌, ap, Bool, true, false, Option, if◌then◌else◌, Text}
use rif_relay_server.Outcome.{Outcome, Error, Action, ◌>>=◌, pure, throw, bind-inv}
use rif_relay_server.TxManager.{Env, World, call, lift, poll_nonce, settle_nonce}
use rif_relay_server.TxManager.Steps.{call-state}
use rif_relay_server.TxManager.Nonces.{settle_nonce-Settled}

module _ {Store : Type 0} where
  pub record IsSilent {A : Type 0} (m : Action (World Store) A) : Type 0 where
    pub silent : (w : World Store) → (m w).1.broadcast ≡ w.broadcast

  pub pure-IsSilent : {A : Type 0} (a : A) → IsSilent (pure a)
  pure-IsSilent a = record { silent = λ w. refl }

  pub throw-IsSilent : {A : Type 0} (e : Error) → IsSilent (throw {A = A} e)
  throw-IsSilent e = record { silent = λ w. refl }

  pub lift-IsSilent : {A : Type 0} (r : Outcome A) → IsSilent (lift r)
  lift-IsSilent r = record { silent = λ w. refl }

  pub call-IsSilent : {A : Type 0} (ask : ℕ → Option A) → IsSilent (call ask)
  call-IsSilent ask = record { silent = λ w. ap (λ t. t.broadcast) (call-state ask w) }

  pub bind-IsSilent :
      {A B : Type 0} (m : Action (World Store) A) (f : A → Action (World Store) B)
      → IsSilent m
      → ((a : A) → IsSilent (f a))
      → IsSilent (m >>= f)
  bind-IsSilent m f first later = record {
    silent = λ w.
        bind-inv (λ t. t.broadcast ≡ w.broadcast) m f w (first.silent w)
          (λ a t _ same. (later a).silent t ∙ same);
  }

  pub if-IsSilent :
      {A : Type 0} (b : Bool) (m k : Action (World Store) A)
      → IsSilent m
      → IsSilent k
      → IsSilent (if b then m else k)
  if-IsSilent true m k p q = p
  if-IsSilent false m k p q = q

  pub ruleset silent_rules =
      (pure-IsSilent, throw-IsSilent, lift-IsSilent, call-IsSilent, bind-IsSilent, if-IsSilent)

  settle_nonce-IsSilent : (signer : Text) (answer : ℕ) → IsSilent (settle_nonce signer answer)
  settle_nonce-IsSilent signer answer = record {
    silent = λ w. let (n, v, e, s) = settle_nonce-Settled signer answer w in rw e s.same_broadcast;
  }

  pub poll_nonce-IsSilent : (env : Env Store) (signer : Text) → IsSilent (poll_nonce env signer)
  unfolding poll_nonce
  poll_nonce-IsSilent env signer = search (silent_rules, settle_nonce-IsSilent)
