-- ===== src/Fees/Conditions.antt =====
-- The conditions on which `calculateFee` of src/relayServerUtils charges each of its fees.
use rif_relay_server.Base.{
  ℕ, ◌≡◌, ◌⊎◌, inl, inr, refl, sym, ap, ◌∙◌, true, false, Option, none, some, In, Text, codes,
  eq_text, eq_text_iff, Bool-cases, Option-cases, List, [], ◌∷◌,
}
use rif_relay_server.Base.Int.{ℤ}
use rif_relay_server.Outcome.{ok}
use rif_relay_server.Envelope.{EnvelopingRequest}
use rif_relay_server.Numbers.{Numbers, of_ℕ, is_truthy}
use rif_relay_server.Fees.{
  FeeSettings, includes, get_method_hash_from_data, value_index_in_data,
  is_transfer_or_transfer_from, is_sponsorship_allowed, calculate_fee_from_gas, takes_transfer_fee,
  with_gas_fee,
}

includes-In : (a : Text) (bs : List Text) → includes a bs ≡ true → In a bs
includes-In a [] h = cc
includes-In a (b ∷ bs) h = elim (Bool-cases (eq_text b a)) [
  | inl same ↦ inl (sym ((eq_text_iff b a).0 same))
  | inr other ↦ inr (includes-In a bs (rw other at h))
]

not_included : (a : Text) (bs : List Text) → includes a bs ≡ false → In a bs → ⊥
not_included a [] h m = elim m [ ]
not_included a (b ∷ bs) h m = elim (Bool-cases (eq_text b a)) [
  | inl same ↦ let f = (rw same at h) in cc
  | inr other ↦ elim m [
    | inl e ↦ let f = sym other ∙ (eq_text_iff b a).1 (sym e) in cc
    | inr later ↦ not_included a bs (rw other at h) later
  ]
]

-- Where the value of a transfer starts in its data, by the selector: after one word of 64 digits for
-- `transfer(to, value)`, and after two for `transferFrom(from, to, value)`.
abbrev pub IsTransferAt : Text → ℕ → Type 0
IsTransferAt call_data index =
    ((get_method_hash_from_data call_data ≡ codes "a9059cbb") × (index ≡ 74))
    ⊎ ((get_method_hash_from_data call_data ≡ codes "23b872dd") × (index ≡ 138))

value_index_cases :
    (call_data : Text)
    → ((index : ℕ) × (value_index_in_data (get_method_hash_from_data call_data) ≡ some index)
        × IsTransferAt call_data index)
      ⊎ ((value_index_in_data (get_method_hash_from_data call_data) ≡ none)
          × ((index : ℕ) → IsTransferAt call_data index → ⊥))
value_index_cases call_data =
    elim (Bool-cases (eq_text (get_method_hash_from_data call_data) (codes "a9059cbb"))) [
      | inl one ↦ inl (74, rw one refl, inl ((eq_text_iff _ _).0 one, refl))
      | inr not_one ↦
          elim (Bool-cases (eq_text (get_method_hash_from_data call_data) (codes "23b872dd"))) [
            | inl two ↦ inl (138, rw (not_one, two) refl, inr ((eq_text_iff _ _).0 two, refl))
            | inr not_two ↦ inr (
              rw (not_one, not_two) refl,
              λ index h. elim h [
                | inl (e, _) ↦ let f = sym not_one ∙ (eq_text_iff _ _).1 e in cc
                | inr (e, _) ↦ let f = sym not_two ∙ (eq_text_iff _ _).1 e in cc
              ],
            )
          ]
    ]

-- Sponsorship is not disabled, or the destination is one of the sponsored ones.
abbrev pub IsSponsored : {D : Type 0} → FeeSettings D → EnvelopingRequest → Type 0
IsSponsored c r = (c.disable_sponsored_tx ≡ false) ⊎ In r.request.to c.sponsored_destinations

is_transfer-of :
    (call_data : Text) (index : ℕ)
    → value_index_in_data (get_method_hash_from_data call_data) ≡ some index
    → is_transfer_or_transfer_from call_data ≡ true
is_transfer-of call_data index k = ap (λ (o : Option ℕ). elim o [ none ↦ false | some i ↦ true ]) k

is_transfer-none :
    (call_data : Text)
    → value_index_in_data (get_method_hash_from_data call_data) ≡ none
    → is_transfer_or_transfer_from call_data ≡ false
is_transfer-none call_data k = ap (λ (o : Option ℕ). elim o [ none ↦ false | some i ↦ true ]) k

pub IsSponsored-cases :
    {D : Type 0} (c : FeeSettings D) (r : EnvelopingRequest)
    → ((is_sponsorship_allowed c r ≡ true) × IsSponsored c r)
      ⊎ ((is_sponsorship_allowed c r ≡ false) × (IsSponsored c r → ⊥))
IsSponsored-cases c r = elim (Bool-cases c.disable_sponsored_tx) [
  | inr on ↦ inl (rw on refl, inl on)
  | inl off ↦ elim (Bool-cases (includes r.request.to c.sponsored_destinations)) [
    | inl listed ↦ inl (rw (off, listed) refl, inr (includes-In _ _ listed))
    | inr other ↦ inr (
      rw (off, other) refl,
      λ h. elim h [ inl on ↦ let f = sym off ∙ on in cc | inr m ↦ not_included _ _ other m ],
    )
  ]
]

module _ {D : Type 0} (num : Numbers D) where
  -- No number is configured, or one that counts for nothing.
  abbrev pub IsUncharged : Option D → Type 0
  IsUncharged o = (o ≡ none) ⊎ ((p : D) × (o ≡ some p) × (is_truthy num p ≡ false))

  -- A number is configured that is neither 0 nor NaN.
  abbrev pub IsCharged : Option D → D → Type 0
  IsCharged o p = (o ≡ some p) × (is_truthy num p ≡ true)

  pub charge_cases : (o : Option D) → IsUncharged o ⊎ ((p : D) × IsCharged o p)
  charge_cases none = inl (inl refl)
  charge_cases (some p) = elim (Bool-cases (is_truthy num p)) [
    | inl e ↦ inr (p, (refl, e))
    | inr e ↦ inl (inr (p, refl, e))
  ]

  -- The fee from the gas: nothing is added, or the rounded percentage of the gas.
  abbrev pub GasPart : FeeSettings D → ℕ → D → D → Type 0
  GasPart c gas fixed fee =
      (IsUncharged c.gas_fee_percentage × (fee ≡ fixed))
      ⊎ ((p : D) × (z : ℤ) × IsCharged c.gas_fee_percentage p
          × (num.to_fixed (num.times (of_ℕ num gas) p) ≡ some z)
          × (fee ≡ num.plus fixed (num.of_int z)))

  pub with_gas_fee-GasPart :
      (c : FeeSettings D) (gas : ℕ) (fixed fee : D)
      → with_gas_fee num c.gas_fee_percentage gas fixed ≡ ok fee
      → GasPart c gas fixed fee
  unfolding with_gas_fee calculate_fee_from_gas
  with_gas_fee-GasPart c gas fixed fee e = elim (charge_cases c.gas_fee_percentage) [
    | inl (inl h) ↦ inl (inl h, let f = (rw h at e) in cc)
    | inl (inr (p, h, k)) ↦ inl (inr (p, h, k), let f = (rw (h, k) at e) in cc)
    | inr (p, (h, k)) ↦ elim (Option-cases (num.to_fixed (num.times (of_ℕ num gas) p))) [
      | inl unknown ↦ let f = (rw (h, k, unknown) at e) in cc
      | inr (z, known) ↦ inr (p, z, (h, k), known, let f = (rw (h, k, known) at e) in cc)
    ]
  ]

  -- No fee on transfers is configured, or one below 0, or the call is no transfer.
  abbrev pub NoTransfer : FeeSettings D → EnvelopingRequest → Type 0
  NoTransfer c r =
      (c.transfer_fee_percentage ≡ none)
      ⊎ (((p : D) × (c.transfer_fee_percentage ≡ some p) × (num.gte p (of_ℕ num 0) ≡ false))
          ⊎ ((index : ℕ) → IsTransferAt r.request.call_data index → ⊥))

  pub transfer_cases :
      (c : FeeSettings D) (r : EnvelopingRequest)
      → ((p : D) × (index : ℕ) × (c.transfer_fee_percentage ≡ some p)
          × (num.gte p (of_ℕ num 0) ≡ true)
          × (value_index_in_data (get_method_hash_from_data r.request.call_data) ≡ some index)
          × (takes_transfer_fee num c.transfer_fee_percentage r.request.call_data ≡ true)
          × IsTransferAt r.request.call_data index)
        ⊎ (NoTransfer c r
            × (takes_transfer_fee num c.transfer_fee_percentage r.request.call_data ≡ false))
  transfer_cases c r = elim (Option-cases c.transfer_fee_percentage) [
    | inl h ↦ inr (inl h, rw h refl)
    | inr (p, h) ↦ elim (Bool-cases (num.gte p (of_ℕ num 0))) [
      | inr low ↦ inr (inr (inl (p, h, low)), rw (h, low) refl)
      | inl high ↦ elim (value_index_cases r.request.call_data) [
        | inl (index, k, at) ↦
            inl
              (p, index, h, high, k, rw (h, high) (is_transfer-of r.request.call_data index k), at)
        | inr (k, other) ↦
            inr (inr (inr other), rw (h, high) (is_transfer-none r.request.call_data k))
      ]
    ]
  ]
