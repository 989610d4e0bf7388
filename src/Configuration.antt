-- ===== src/Configuration.antt =====
-- The reading of the configuration: `verifyServerConfiguration` and `getServerConfig` of
-- src/ServerConfigParams.ts. Joi and the library config are parameters; an error of Joi is
-- `invalid_configuration`, and one of config `undefined_configuration`.
pub mod Schema
pub mod Accepted
pub mod Returned
pub mod Configured
use rif_relay_server.Base.{
  Bool, true, false, not, ◌&&◌, ◌||◌, ◌≡◌, Option, none, some, List, [], ◌∷◌, Text, codes, eq_text,
  if◌then◌else◌, ℕ, is_some,
}
use rif_relay_server.Outcome.{
  Outcome, ok, err, Action, ◌>>=◌, ◌>>◌, pure, throw, or_throw, invalid_configuration,
  undefined_configuration, negative_gas_fee, negative_usd_fee,
}
use rif_relay_server.Numbers.{Numbers, of_ℕ}
use rif_relay_server.Values.{
  Value, Items, Fields, null, bigint, boolean, number, text, array, object, nil, cons, end, field,
  get, at, is_true, all_named,
}
use rif_relay_server.Configuration.Schema.{
  Checks, Rule, any, number_rule, string_rule, boolean_rule, array_of, uri, unsafe, required,
  optional, min, max, allow, custom, server_config_schema,
}

-- The values that Joi takes for a number or a boolean, and the texts that it takes for a URI.
pub record Conversions (D : Type 0) : Type 0 where
  pub to_number : Value D → Option D
  pub to_boolean : Value D → Option Bool
  pub is_uri : Text → Bool

-- The documented meaning of the rules.
module _ {D : Type 0} (num : Numbers D) (conv : Conversions D) where
  abbrev pub is_required : Rule D → Bool
  is_required (required r) = true
  is_required (optional r) = false
  is_required (array_of r) = false
  is_required (uri r) = is_required r
  is_required (unsafe r) = is_required r
  is_required (min n r) = is_required r
  is_required (max n r) = is_required r
  is_required (allow t r) = is_required r
  is_required (custom f r) = is_required r
  is_required r = false

  -- The rule allows this very text, whatever its other calls ask for.
  abbrev pub is_allowed : Rule D → Value D → Bool
  is_allowed (allow t r) (text s) = eq_text s t || is_allowed r (text s)
  is_allowed (uri r) v = is_allowed r v
  is_allowed (unsafe r) v = is_allowed r v
  is_allowed (required r) v = is_allowed r v
  is_allowed (optional r) v = is_allowed r v
  is_allowed (min n r) v = is_allowed r v
  is_allowed (max n r) v = is_allowed r v
  is_allowed (custom f r) v = is_allowed r v
  is_allowed r v = false

  abbrev pub at_least : ℕ → Option D → Bool
  at_least n none = false
  at_least n (some x) = num.gte x (of_ℕ num n)

  abbrev pub at_most : ℕ → Option D → Bool
  at_most n none = false
  at_most n (some x) = num.gte (of_ℕ num n) x

  abbrev pub is_text : (Text → Bool) → Value D → Bool
  is_text f (text t) = f t
  is_text f v = false

  abbrev pub each : (Value D → Bool) → Items D → Bool
  each f nil = true
  each f (cons v vs) = let rest = each f vs in if f v then rest else false

  abbrev pub is_array : (Value D → Bool) → Value D → Bool
  is_array f (array vs) = each f vs
  is_array f v = false

  abbrev pub meets : Rule D → Value D → Bool
  meets any v = true
  meets number_rule v = is_some (conv.to_number v)
  meets string_rule v = is_text (λ t. not (eq_text t [])) v
  meets boolean_rule v = is_some (conv.to_boolean v)
  meets (array_of r) v = is_array (λ w. is_allowed r w || meets r w) v
  meets (uri r) v = meets r v && is_text conv.is_uri v
  meets (unsafe r) v = meets r v
  meets (required r) v = meets r v
  meets (optional r) v = meets r v
  meets (min n r) v = meets r v && at_least n (conv.to_number v)
  meets (max n r) v = meets r v && at_most n (conv.to_number v)
  meets (allow t r) v = meets r v
  meets (custom f r) v = meets r v && f v

  abbrev pub obeys : Rule D → Option (Value D) → Bool
  obeys r none = not (is_required r)
  obeys r (some v) = is_allowed r v || meets r v

  abbrev pub all_obeyed : List (Text × Rule D) → Fields D → Bool
  all_obeyed [] fs = true
  all_obeyed ((k, r) ∷ rest) fs = obeys r (get k fs) && all_obeyed rest fs

  abbrev pub fits : List (Text × Rule D) → Option (Value D) → Bool
  fits schema none = true
  fits schema (some (object fs)) = all_named schema fs && all_obeyed schema fs
  fits schema (some v) = false

  abbrev pub all_fit : List (Text × List (Text × Rule D)) → Fields D → Bool
  all_fit [] fs = true
  all_fit ((k, schema) ∷ rest) fs = fits schema (get k fs) && all_fit rest fs

  abbrev pub is_documented : List (Text × List (Text × Rule D)) → Value D → Bool
  is_documented sections (object fs) = all_named sections fs && all_fit sections fs
  is_documented sections v = false

-- Joi: it accepts no value that the documentation refuses.
pub record Joi {D : Type 0} (num : Numbers D) : Type 0 where
  pub conversions : Conversions D
  pub validate : List (Text × List (Text × Rule D)) → Value D → Bool
  pub validate_lem :
      (sections : List (Text × List (Text × Rule D))) (v : Value D)
      → validate sections v ≡ true
      → is_documented num conversions sections v ≡ true

-- The library config: `lookup` is `get` on the name of a section, which throws where it is missing.
-- `compared_as` is what a comparison makes of a value, and `none` is NaN.
pub record Config (D : Type 0) : Type 0 where
  pub whole : Value D
  pub lookup : Text → Option (Value D)
  pub compared_as : Value D → Option D
  pub lookup_lem : (key : Text) (v : Value D) → lookup key ≡ some v → at key whole ≡ some v

pub record ServerConfigParams (D : Type 0) : Type 0 where
  pub app : Value D
  pub contracts : Value D
  pub blockchain : Value D
  pub register : Value D

abbrev pub section : {D : Type 0} → Text → Action (Config D) (Value D)
section key c = or_throw (c.lookup key) undefined_configuration c

module _ {D : Type 0} (num : Numbers D) (joi : Joi num) (checks : Checks D) where
  -- `x < 0`, which a missing value is not.
  abbrev pub is_below_zero : Option D → Bool
  is_below_zero none = false
  is_below_zero (some x) = num.is_negative x && not (num.is_zero x)

  abbrev pub number_at : Config D → Option (Value D) → Option D
  number_at c none = none
  number_at c (some v) = c.compared_as v

  abbrev pub is_set : Option (Value D) → Bool
  is_set none = false
  is_set (some v) = is_true num v

  abbrev pub check_fees : Value D → Action (Config D) (Unit {0})
  check_fees app c =
      if is_below_zero (number_at c (at (codes "gasFeePercentage") app))
      then (err negative_gas_fee, c)
      else (if is_below_zero (number_at c (at (codes "fixedUsdFee") app))
          then (err negative_usd_fee, c)
          else (ok tt, c))

  unfoldable pub validate_schema : Action (Config D) (Unit {0})
  validate_schema c =
      if joi.validate (server_config_schema checks) c.whole
      then (ok tt, c)
      else (err invalid_configuration, c)

  unfoldable pub verify_server_configuration : Action (Config D) (Unit {0})
  verify_server_configuration = do
    validate_schema
    app ← section (codes "app")
    if is_set (at (codes "disableSponsoredTx") app) then check_fees app else pure tt

  unfoldable pub get_server_config : Action (Config D) (ServerConfigParams D)
  get_server_config = do
    verify_server_configuration
    contracts ← section (codes "contracts")
    app ← section (codes "app")
    blockchain ← section (codes "blockchain")
    register ← section (codes "register")
    pure (record { app = app; contracts = contracts; blockchain = blockchain; register = register })
