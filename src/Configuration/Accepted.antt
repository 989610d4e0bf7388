-- ===== src/Configuration/Accepted.antt =====
-- The sections that obey the schemas of src/serverConfigParamsUtils.ts.
use rif_relay_server.Base.{
  ℕ, ◌≡◌, refl, ap, ◌∙◌, inl, inr, Bool, true, ◌||◌, Option, none, some, List, [], ◌∷◌, Text,
  eq_text, eq_text_iff, arith, Bool-cases, Option-cases,
}
use rif_relay_server.Numbers.{Numbers, of_ℕ}
use rif_relay_server.Values.{
  Value, Fields, object, text, get, at, all_named, entry, null, bigint, boolean, number, array,
}
use rif_relay_server.Configuration.Schema.{
  Checks, Rule, required, amount, address, number_rule, min, is_valid_representation,
  is_big_numberish, is_address,
}
use rif_relay_server.Configuration.{
  Conversions, obeys, meets, is_allowed, all_obeyed, fits, all_fit, is_required,
}

module _ {D : Type 0} (num : Numbers D) (conv : Conversions D) where
  obeys-entry :
      (schema : List (Text × Rule D)) (fs : Fields D) (key : Text) {r : Rule D}
      → all_obeyed num conv schema fs ≡ true
      → entry key schema ≡ some r
      → obeys num conv r (get key fs) ≡ true
  obeys-entry [] fs key h e = cc
  obeys-entry ((k, s) ∷ rest) fs key h e = elim (Bool-cases (eq_text key k)) [
    | inl same ↦ let found = (rw same at e) in rw ((eq_text_iff key k).0 same) (ground arith)
    | inr other ↦ let found = (rw other at e) in obeys-entry rest fs key (ground arith) found
  ]

  pub fits-entry :
      (sections : List (Text × List (Text × Rule D))) (fs : Fields D) (key : Text)
      {schema : List (Text × Rule D)}
      → all_fit num conv sections fs ≡ true
      → entry key sections ≡ some schema
      → fits num conv schema (get key fs) ≡ true
  fits-entry [] fs key h e = cc
  fits-entry ((k, s) ∷ rest) fs key h e = elim (Bool-cases (eq_text key k)) [
    | inl same ↦ let found = (rw same at e) in rw ((eq_text_iff key k).0 same) (ground arith)
    | inr other ↦ let found = (rw other at e) in fits-entry rest fs key (ground arith) found
  ]

  -- A required value is there, and meets its rule.
  required_given :
      (r : Rule D) (o : Option (Value D))
      → obeys num conv r o ≡ true
      → is_required num conv r ≡ true
      → (v : Value D) × (o ≡ some v) × ((is_allowed num conv r v || meets num conv r v) ≡ true)
  required_given r none h e = ground arith
  required_given r (some v) h e = (v, refl, h)

  -- A section with the keys of its schema at most, that obeys each rule.
  unfoldable pub IsSection : List (Text × Rule D) → Value D → Type 0
  IsSection schema v =
      (fs : Fields D) × (v ≡ object fs)
      × (all_named schema fs ≡ true)
      × (all_obeyed num conv schema fs ≡ true)

  pub fits-IsSection :
      (schema : List (Text × Rule D)) (v : Value D)
      → fits num conv schema (some v) ≡ true
      → IsSection schema v
  unfolding IsSection
  fits-IsSection schema (object fs) h = (fs, refl, ground arith, ground arith)
  fits-IsSection schema null h = cc
  fits-IsSection schema bigint h = cc
  fits-IsSection schema (boolean b) h = cc
  fits-IsSection schema (number x) h = cc
  fits-IsSection schema (text t) h = cc
  fits-IsSection schema (array vs) h = cc

  pub section_given :
      (schema : List (Text × Rule D)) (s : Value D) (key : Text) (r : Rule D)
      → IsSection schema s
      → entry key schema ≡ some r
      → is_required num conv r ≡ true
      → (v : Value D) × (at key s ≡ some v)
        × ((is_allowed num conv r v || meets num conv r v) ≡ true)
  unfolding IsSection
  section_given schema s key r (fs, same, _, obeyed) e q =
      rw same (required_given r (get key fs) (obeys-entry schema fs key obeyed e) q)

  -- A number stands at the key, in the range.
  abbrev pub IsNumberAt : Value D → (D → Bool) → Text → Type 0
  IsNumberAt s in_range key =
      (v : Value D) × (x : D) × (at key s ≡ some v)
      × (conv.to_number v ≡ some x)
      × (in_range x ≡ true)

  abbrev pub from : ℕ → D → Bool
  from n x = num.gte x (of_ℕ num n)

  pub section_number :
      (schema : List (Text × Rule D)) (s : Value D) (n : ℕ) (key : Text)
      → IsSection schema s
      → entry key schema ≡ some (required (min n number_rule))
      → IsNumberAt s (from n) key
  section_number schema s n key h e =
      let (v, found, met) = section_given schema s key (required (min n number_rule)) h e refl in
      elim (Option-cases (conv.to_number v)) [
        | inl bad ↦ absurd (ground arith)
        | inr (x, good) ↦ (v, x, found, good, ground arith)
      ]

  -- A number from 0 on that ethers can represent stands at the key.
  abbrev pub IsAmountAt : Checks D → Value D → Text → Type 0
  IsAmountAt checks s key =
      (v : Value D) × (x : D) × (at key s ≡ some v)
      × (conv.to_number v ≡ some x)
      × (from 0 x ≡ true)
      × (is_valid_representation checks v ≡ true)

  pub section_amount :
      (checks : Checks D) (schema : List (Text × Rule D)) (s : Value D) (key : Text)
      → IsSection schema s
      → entry key schema ≡ some (required (amount checks))
      → IsAmountAt checks s key
  unfolding is_big_numberish
  section_amount checks schema s key h e =
      let (v, found, met) = section_given schema s key (required (amount checks)) h e refl in
      elim (Option-cases (conv.to_number v)) [
        | inl bad ↦ absurd (ground arith)
        | inr (x, good) ↦ (v, x, found, good, ground arith, ground arith)
      ]

  abbrev pub IsAddressAt : Checks D → Value D → Text → Type 0
  IsAddressAt checks s key =
      (t : Text) × (at key s ≡ some (text t)) × (checks.valid_address t ≡ true)

  address-text :
      (checks : Checks D) (v : Value D)
      → (is_allowed num conv (required (address checks)) v
          || meets num conv (required (address checks)) v)
        ≡ true
      → (t : Text) × (v ≡ text t) × (checks.valid_address t ≡ true)
  unfolding is_address
  address-text checks (text t) h = (t, refl, ground arith)
  address-text checks null h = cc
  address-text checks bigint h = cc
  address-text checks (boolean b) h = cc
  address-text checks (number x) h = cc
  address-text checks (array vs) h = cc
  address-text checks (object fs) h = cc

  pub section_address :
      (checks : Checks D) (schema : List (Text × Rule D)) (s : Value D) (key : Text)
      → IsSection schema s
      → entry key schema ≡ some (required (address checks))
      → IsAddressAt checks s key
  section_address checks schema s key h e =
      let (v, found, met) = section_given schema s key (required (address checks)) h e refl in
      let (t, same, valid) = address-text checks v met in (t, found ∙ ap some same, valid)
