-- ===== src/Configuration/Returned.antt =====
-- The steps of `verifyServerConfiguration` and `getServerConfig` of src/ServerConfigParams.ts, from a
-- call that succeeds.
use rif_relay_server.Base.{
  ◌≡◌, ◌⊎◌, refl, sym, ap, ◌∙◌, inl, inr, Bool, true, false, some, List, Text, codes, arith,
  Bool-cases, Option-cases, subst,
}
use rif_relay_server.Outcome.{
  ok_injective, Outcome, ok, err, Error, undefined_configuration, Action, >>=-eq-ok, bind_of_err,
  bind_of_ok, ◌>>=◌,
}
use rif_relay_server.Numbers.{Numbers}
use rif_relay_server.Values.{
  Value, Fields, object, text, get, at, entry, null, bigint, boolean, number, array,
}
use rif_relay_server.Configuration.Schema.{Checks, Schema, server_config_schema}
use rif_relay_server.Configuration.{
  Joi, Config, ServerConfigParams, section, verify_server_configuration, get_server_config,
  validate_schema, all_fit, is_documented, is_below_zero, number_at, is_set, check_fees,
}
use rif_relay_server.Configuration.Accepted.{fits-entry, fits-IsSection, IsSection}

err-ok :
    {S A : Type 0} {x : Error} {a : A} {s t : S}
    → (◌≡◌ {A = Outcome A × S} (err x, s) (ok a, t))
    → ⊥
err-ok e = cc

some_injective : {A : Type 0} {a b : A} → (some a ≡ some b) → a ≡ b
some_injective e = cc

module _ {D : Type 0} (num : Numbers D) (joi : Joi num) (checks : Checks D) where
  section-eq-ok :
      {B : Type 0} {b : B} {u : Config D} (key : Text) (f : Value D → Action (Config D) B)
      (c : Config D)
      → (section key >>= f) c ≡ (ok b, u)
      → (v : Value D) × (c.lookup key ≡ some v) × (f v c ≡ (ok b, u))
  section-eq-ok key f c e = elim (Option-cases (c.lookup key)) [
    | inl h ↦
        let failed : section key c ≡ (err undefined_configuration, c) = rw h refl in
        let bad = sym (bind_of_err (section key) f c failed) ∙ e in absurd (err-ok bad)
    | inr (v, h) ↦
        let found : section key c ≡ (ok v, c) = rw h refl in
        (v, h, sym (bind_of_ok (section key) f c found) ∙ e)
  ]

  validate_schema-eq-ok :
      (c t : Config D) (u : Unit {0})
      → validate_schema num joi checks c ≡ (ok u, t)
      → (joi.validate (server_config_schema checks) c.whole ≡ true) × (t ≡ c)
  unfolding validate_schema
  validate_schema-eq-ok c t u e =
      elim (Bool-cases (joi.validate (server_config_schema checks) c.whole)) [
        | inl h ↦ let good = (rw h at e) in (h, sym (ap (λ p. p.1) good))
        | inr h ↦ let bad = (rw h at e) in cc
      ]

  pub at-object :
      (s : Value D) (key : Text) {v : Value D}
      → at key s ≡ some v
      → (fs : Fields D) × (s ≡ object fs) × (get key fs ≡ some v)
  at-object (object fs) key h = (fs, refl, h)
  at-object null key h = cc
  at-object bigint key h = cc
  at-object (boolean b) key h = cc
  at-object (number x) key h = cc
  at-object (text t) key h = cc
  at-object (array vs) key h = cc

  documented-all_fit :
      (sections : List (Text × Schema D)) (v : Value D) (fs : Fields D)
      → v ≡ object fs
      → is_documented num joi.conversions sections v ≡ true
      → all_fit num joi.conversions sections fs ≡ true
  documented-all_fit sections v fs same h = let k = (rw same at h) in ground arith

  -- Every section of an accepted configuration obeys its schema.
  pub accepted-IsSection :
      (c : Config D) (key : Text) {v : Value D} {schema : Schema D}
      → joi.validate (server_config_schema checks) c.whole ≡ true
      → at key c.whole ≡ some v
      → entry key (server_config_schema checks) ≡ some schema
      → IsSection num joi.conversions schema v
  accepted-IsSection c key {v} {schema} h found named =
      let (fs, same, there) = at-object c.whole key found in
      let documented = joi.validate_lem (server_config_schema checks) c.whole h in
      fits-IsSection num joi.conversions schema v (
        rw there at (
          fits-entry num joi.conversions (server_config_schema checks) fs key
            (documented-all_fit (server_config_schema checks) c.whole fs same documented) named))

  -- The number at the key is below 0.
  abbrev pub is_negative_fee : Config D → Value D → Text → Bool
  is_negative_fee c app key = is_below_zero num joi checks (number_at num joi checks c (at key app))

  -- Sponsored requests are allowed, or neither fee is below 0.
  abbrev pub AreFees : Config D → Value D → Type 0
  AreFees c app =
      (is_set num joi checks (at (codes "disableSponsoredTx") app) ≡ false)
      ⊎ ((is_negative_fee c app (codes "gasFeePercentage") ≡ false)
          × (is_negative_fee c app (codes "fixedUsdFee") ≡ false))

  check_fees-eq-ok :
      (app : Value D) (c t : Config D) (u : Unit {0})
      → check_fees num joi checks app c ≡ (ok u, t)
      → (is_negative_fee c app (codes "gasFeePercentage") ≡ false)
        × (is_negative_fee c app (codes "fixedUsdFee") ≡ false)
        × (t ≡ c)
  check_fees-eq-ok app c t u e =
      elim (Bool-cases (is_negative_fee c app (codes "gasFeePercentage"))) [
        | inl h ↦ let bad = (rw h at e) in cc
        | inr h ↦ elim (Bool-cases (is_negative_fee c app (codes "fixedUsdFee"))) [
          | inl k ↦ let bad = (rw (h, k) at e) in cc
          | inr k ↦ let good = (rw (h, k) at e) in (h, k, sym (ap (λ p. p.1) good))
        ]
      ]

  verify_server_configuration-eq-ok :
      (c t : Config D) (u : Unit {0})
      → verify_server_configuration num joi checks c ≡ (ok u, t)
      → (app : Value D) × (c.lookup (codes "app") ≡ some app)
        × (joi.validate (server_config_schema checks) c.whole ≡ true)
        × AreFees c app
        × (t ≡ c)
  unfolding verify_server_configuration
  verify_server_configuration-eq-ok c t u e =
      let (v, c1, passed, e1) = >>=-eq-ok _ _ c e in
      let (valid, same) = validate_schema-eq-ok c c1 v passed in
      let (app, found, e2) = section-eq-ok (codes "app") _ c (rw same at e1) in
      elim (Bool-cases (is_set num joi checks (at (codes "disableSponsoredTx") app))) [
        | inl h ↦
            let (gas, usd, kept) = check_fees-eq-ok app c t u (rw h at e2) in
            (app, found, valid, inr (gas, usd), kept)
        | inr h ↦ let e3 = (rw h at e2) in (app, found, valid, inl h, sym (ap (λ p. p.1) e3))
      ]

  verified-eq-ok :
      {B : Type 0} {b : B} {u : Config D} (f : Unit {0} → Action (Config D) B) (c : Config D)
      → (verify_server_configuration num joi checks >>= f) c ≡ (ok b, u)
      → (app : Value D) × (c.lookup (codes "app") ≡ some app)
        × (joi.validate (server_config_schema checks) c.whole ≡ true)
        × AreFees c app
        × (f tt c ≡ (ok b, u))
  verified-eq-ok {B} {b} {u} f c e =
      let (v, t, verified, rest) = >>=-eq-ok (verify_server_configuration num joi checks) f c e in
      let (app, found, valid, fees, same) = verify_server_configuration-eq-ok c t v verified in
      (app, found, valid, fees, subst (λ x. f tt x ≡ (ok b, u)) same rest)

  abbrev pub IsReturned : Config D → ServerConfigParams D → Type 0
  IsReturned c p =
      (c.lookup (codes "contracts") ≡ some p.contracts)
      × (c.lookup (codes "app") ≡ some p.app)
      × (c.lookup (codes "blockchain") ≡ some p.blockchain)
      × (c.lookup (codes "register") ≡ some p.register)
      × (joi.validate (server_config_schema checks) c.whole ≡ true)
      × AreFees c p.app

  pub get_server_config-IsReturned :
      (c t : Config D) (p : ServerConfigParams D)
      → get_server_config num joi checks c ≡ (ok p, t)
      → IsReturned c p
  unfolding get_server_config
  get_server_config-IsReturned c t p e =
      let (app0, found0, valid, fees, e0) = verified-eq-ok _ c e in
      let (contracts, found1, e1) = section-eq-ok (codes "contracts") _ c e0 in
      let (app, found2, e2) = section-eq-ok (codes "app") _ c e1 in
      let (blockchain, found3, e3) = section-eq-ok (codes "blockchain") _ c e2 in
      let (register, found4, e4) = section-eq-ok (codes "register") _ c e3 in
      subst (IsReturned c) (ok_injective e4) (
        found1,
        found2,
        found3,
        found4,
        valid,
        subst (AreFees c) (some_injective (sym found0 ∙ found2)) fees,
      )
