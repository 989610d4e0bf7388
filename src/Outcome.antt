-- ===== src/Outcome.antt =====
-- How a call of the server ends: with a value, or with the error that it throws. A method is a
-- function from the state to its outcome and the state it leaves, which stays as it is after a
-- throw. One constructor of `Error` stands for each message that the sources throw.
use rif_relay_server.Base.{
  ap, sym, ◌∙◌, ◌⊎◌, inl, inr, ◌↔◌, Bool, true, false, if◌then◌else◌, Option, none, some, ◌≡◌, refl,
}

pub data Error : Type 0 where
  invalid_tx unique_violated not_managed signing_failed hash_mismatch : Error
  provider_failed invalid_address range_error no_document : Error
  not_initialized several_managers no_manager no_custom_replenish : Error
  no_gas_price older_block already_initialized no_relay_hub not_trusted : Error
  wrong_hub wrong_fees_receiver low_gas_price request_expired no_signature : Error
  max_nonce_exceeded invalid_verifier invalid_number gas_deviates insufficient_token_amount : Error
  not_ready invalid_shape incompatible_verifier missing_verifier unknown_verifier_error : Error
  verification_failed both_given file_failed invalid_seed no_hd_key not_started : Error
  invalid_body not_available bad_params already_registered wrong_chain already_owned : Error
  stake_failed funding_failed relay_not_ready no_wealthy_account not_regtest : Error
  invalid_wallet invalid_configuration undefined_configuration negative_gas_fee : Error
  negative_usd_fee missing_node_url missing_gas : Error

pub data Outcome (A : Type 0) : Type 0 where
  ok : A → Outcome A
  err : Error → Outcome A

abbrev pub Action : Type 0 → Type 0 → Type 0
Action S A = S → Outcome A × S

module _ {S A : Type 0} where
  abbrev pub pure : A → Action S A
  pure a s = (ok a, s)

  abbrev pub throw : Error → Action S A
  throw e s = (err e, s)

  -- An optional answer, `none` for a rejected promise.
  abbrev pub or_throw : Option A → Error → Action S A
  or_throw none e s = (err e, s)
  or_throw (some a) e s = (ok a, s)

-- A test that throws.
pub pass_iff :
    {S : Type 0} (b : Bool) (e : Error) (s : S)
    → (((if b then pure {S = S} tt else throw e) s).0 ≡ ok tt) ↔ (b ≡ true)
pass_iff true e s = (λ h. refl, λ h. refl)
pass_iff false e s = (λ h. cc, λ h. cc)

-- What comes after a call: nothing, if it threw.
abbrev pub next : {S A B : Type 0} → (A → Action S B) → Outcome A × S → Outcome B × S
next f (ok a, t) = f a t
next f (err e, t) = (err e, t)

infixl 5 ◌>>=◌ ◌>>◌
-- Shut, so that a proof steps through a block by `bind_of_ok` and `bind_of_err`.
unfoldable pub ◌>>=◌ : {S A B : Type 0} → Action S A → (A → Action S B) → Action S B
◌>>=◌ m f s = next f (m s)

abbrev pub ◌>>◌ : {S A B : Type 0} → Action S A → Action S B → Action S B
m >> k = m >>= λ _. k

module _ {S A B : Type 0} (m : Action S A) (f : A → Action S B) (s : S) where
  pub bind_of_ok : {a : A} {t : S} → m s ≡ (ok a, t) → (m >>= f) s ≡ f a t
  unfolding ◌>>=◌
  bind_of_ok e = ap (next f) e

  pub bind_of_err : {e : Error} {t : S} → m s ≡ (err e, t) → (m >>= f) s ≡ (err e, t)
  unfolding ◌>>=◌
  bind_of_err e = ap (next f) e

pub ok_injective :
    {S A : Type 0} {a b : A} {s t : S} → ◌≡◌ {A = Outcome A × S} (ok a, s) (ok b, t) → a ≡ b
ok_injective e = cc

-- How a call ended.
pub Outcome-cases :
    {S A : Type 0} (r : Outcome A × S)
    → ((e : Error) × (t : S) × (r ≡ (err e, t))) ⊎ ((a : A) × (t : S) × (r ≡ (ok a, t)))
Outcome-cases (ok a, t) = inr (a, t, refl)
Outcome-cases (err e, t) = inl (e, t, refl)

-- A block either stops at the throw of its first part, or goes on from the state it left.
pub >>=-cases :
    {S A B : Type 0} (m : Action S A) (f : A → Action S B) (s : S)
    → ((e : Error) × (t : S) × (m s ≡ (err e, t)) × ((m >>= f) s ≡ (err e, t)))
      ⊎ ((a : A) × (t : S) × (m s ≡ (ok a, t)) × ((m >>= f) s ≡ f a t))
>>=-cases m f s = elim (Outcome-cases (m s)) [
  | inl (e, t, h) ↦ inl (e, t, h, bind_of_err m f s h)
  | inr (a, t, h) ↦ inr (a, t, h, bind_of_ok m f s h)
]

-- A successful block: the first part succeeded, and the second did from the state it left.
pub >>=-eq-ok :
    {S A B : Type 0} (m : Action S A) (f : A → Action S B) (s : S) {b : B} {u : S}
    → (m >>= f) s ≡ (ok b, u)
    → (a : A) × (t : S) × (m s ≡ (ok a, t)) × (f a t ≡ (ok b, u))
>>=-eq-ok m f s e = elim (>>=-cases m f s) [
  | inl (x, t, h, k) ↦ let bad = sym k ∙ e in cc
  | inr (a, t, h, k) ↦ (a, t, h, sym k ∙ e)
]

-- The state that a block leaves has a property that its first part establishes, and that the rest
-- keeps from every state in which it starts.
pub bind-inv :
    {S A B : Type 0} (P : S → Type 0) (m : Action S A) (f : A → Action S B) (s : S)
    → P (m s).1
    → ((a : A) (t : S) → m s ≡ (ok a, t) → P t → P (f a t).1)
    → P ((m >>= f) s).1
bind-inv P m f s first later = elim (>>=-cases m f s) [
  | inl (e, t, h, k) ↦ rw k (rw h at first)
  | inr (a, t, h, k) ↦ rw k (later a t h (rw h at first))
]
