-- ===== src/Configuration/Schema.antt =====
-- The tables of src/serverConfigParamsUtils.ts, with the functions that they name, as Joi's calls
-- in their order. What Joi and ethers do with a value is the parameter `Checks`.
use rif_relay_server.Base.{
  ℕ, Bool, true, false, ◌&&◌, ◌||◌, Option, none, some, List, [], ◌∷◌, Text, codes, leb, ◌==◌,
  if◌then◌else◌,
}
use rif_relay_server.Outcome.{Outcome, ok, err, invalid_number, invalid_address, invalid_wallet}
use rif_relay_server.Values.{Value, null, bigint, number, text}

-- The tests of ethers; `is_whole` is `value % 1 === 0`.
pub record Checks (D : Type 0) : Type 0 where
  pub is_whole : D → Bool
  pub is_hex_string : Text → Bool
  pub is_bytes : Value D → Bool
  pub valid_address : Text → Bool
  pub wallet_of_key : Text → Option Text
  pub wallet_of_mnemonic : Text → Option Text

abbrev pub is_digit : ℕ → Bool
is_digit c = leb b'0' c && leb c b'9'

abbrev pub all_digits : Text → Bool
all_digits [] = true
all_digits (c ∷ cs) = let rest = all_digits cs in if is_digit c then rest else false

abbrev pub some_digits : Text → Bool
some_digits [] = false
some_digits (c ∷ cs) = all_digits (c ∷ cs)

-- `/^-?[0-9]+$/`.
abbrev pub is_decimal : Text → Bool
is_decimal [] = false
is_decimal (c ∷ cs) = if c == b'-' then some_digits cs else all_digits (c ∷ cs)

-- A rule of Joi, as the calls that make it.
pub data Rule (D : Type 0) : Type 0 where
  any number_rule string_rule boolean_rule : Rule D
  array_of : Rule D → Rule D
  uri unsafe required optional : Rule D → Rule D
  min max : ℕ → Rule D → Rule D
  allow : Text → Rule D → Rule D
  custom : (Value D → Bool) → Rule D → Rule D

abbrev pub Schema : Type 0 → Type 0
Schema D = List (Text × Rule D)

-- A custom rule passes a value unless it throws.
abbrev pub passes : {A : Type 0} → Outcome A → Bool
passes (ok a) = true
passes (err e) = false

-- The text of a value, where a rule for strings has been passed before.
abbrev pub on_text : {D : Type 0} → (Text → Bool) → Value D → Bool
on_text f (text t) = f t
on_text f v = false

unfoldable pub is_address : (Text → Bool) → Text → Outcome Text
is_address valid value = if valid value then ok value else err invalid_address

-- `isValidPK` and `isValidMnemonic`, on the making of the wallet.
abbrev pub is_valid_wallet : (Text → Option Text) → Text → Outcome (Unit {0})
is_valid_wallet make value = elim (make value) [ none ↦ err invalid_wallet | some wallet ↦ ok tt ]

module _ {D : Type 0} (checks : Checks D) where
  abbrev pub is_valid_representation : Value D → Bool
  is_valid_representation null = false
  is_valid_representation bigint = true
  is_valid_representation (number x) = checks.is_whole x
  is_valid_representation (text t) = is_decimal t || checks.is_hex_string t
  is_valid_representation v = checks.is_bytes v

  unfoldable pub is_big_numberish : Value D → Outcome (Value D)
  is_big_numberish value = if is_valid_representation value then ok value else err invalid_number

  abbrev pub amount : Rule D
  amount = custom (λ v. passes (is_big_numberish v)) (unsafe (min 0 number_rule))

  abbrev pub address : Rule D
  address = custom (on_text (λ t. passes (is_address checks.valid_address t))) string_rule

  unfoldable pub app_schema : Schema D
  app_schema =
      (codes "url", required (uri string_rule))
      ∷ (codes "port", min 0 (max 65535 (required number_rule)))
      ∷ (codes "workdir", required string_rule)
      ∷ (codes "devMode", optional boolean_rule)
      ∷ (codes "customReplenish", optional boolean_rule)
      ∷ (codes "logLevel", optional any)
      ∷ (codes "checkInterval", required (min 0 number_rule))
      ∷ (codes "readyTimeout", required (min 0 number_rule))
      ∷ (codes "transferFeePercentage", optional number_rule)
      ∷ (codes "gasFeePercentage", optional number_rule)
      ∷ (codes "fixedUsdFee", optional number_rule)
      ∷ (codes "disableSponsoredTx", required boolean_rule)
      ∷ (codes "sponsoredDestinations", array_of address)
      ∷ (codes "requestMinValidSeconds", required (min 0 number_rule))
      ∷ []

  unfoldable pub blockchain_schema : Schema D
  blockchain_schema =
      (codes "rskNodeUrl", required (uri string_rule))
      ∷ (codes "gasPriceFactor", required number_rule)
      ∷ (codes "registrationBlockRate", required (min 0 number_rule))
      ∷ (codes "alertedBlockDelay", required (min 0 number_rule))
      ∷ (codes "minAlertedDelayMS", required (min 0 number_rule))
      ∷ (codes "maxAlertedDelayMS", required (min 0 number_rule))
      ∷ (codes "workerMinBalance", custom (λ v. passes (is_big_numberish v)) (unsafe number_rule))
      ∷ (codes "workerTargetBalance", required amount)
      ∷ (codes "managerMinBalance", required amount)
      ∷ (codes "managerMinStake", required amount)
      ∷ (codes "managerTargetBalance", required amount)
      ∷ (codes "minHubWithdrawalBalance", required amount)
      ∷ (codes "refreshStateTimeoutBlocks", required (min 0 number_rule))
      ∷ (codes "pendingTransactionTimeoutBlocks", required (min 0 number_rule))
      ∷ (codes "successfulRoundsForReady", required (min 0 number_rule))
      ∷ (codes "confirmationsNeeded", required (min 0 number_rule))
      ∷ (codes "retryGasPriceFactor", required (min 0 number_rule))
      ∷ (codes "maxGasPrice", required amount)
      ∷ (codes "defaultGasLimit", required amount)
      ∷ (codes "estimateGasFactor", required (min 0 number_rule))
      ∷ (codes "initialBlockToScan", required (min 1 number_rule))
      ∷ (codes "maxBlockRange", required (min 1 number_rule))
      ∷ []

  unfoldable pub contracts_schema : Schema D
  contracts_schema =
      (codes "relayHubAddress", required address)
      ∷ (codes "deployVerifierAddress", required address)
      ∷ (codes "relayVerifierAddress", required address)
      ∷ (codes "feesReceiver", optional address)
      ∷ (codes "trustedVerifiers", optional (array_of address))
      ∷ []

  -- A text that may be empty, and is tested otherwise.
  abbrev pub text_or_empty : (Text → Bool) → Rule D
  text_or_empty test = optional (custom (on_text test) (allow [] string_rule))

  unfoldable pub register_schema : Schema D
  register_schema =
      (codes "stake", required (min 0 number_rule))
      ∷ (codes "funds", required (min 0 number_rule))
      ∷ (
        codes "mnemonic",
        text_or_empty (λ t. passes (is_valid_wallet checks.wallet_of_mnemonic t)),
      )
      ∷ (codes "privateKey", text_or_empty (λ t. passes (is_valid_wallet checks.wallet_of_key t)))
      ∷ (codes "relayHub", text_or_empty (λ t. passes (is_address checks.valid_address t)))
      ∷ (
        codes "gasPrice",
        required (custom (λ v. passes (is_big_numberish v)) (unsafe (min 1 number_rule))),
      )
      ∷ (codes "unstakeDelay", required (min 0 number_rule))
      ∷ []

  unfoldable pub server_config_schema : List (Text × Schema D)
  server_config_schema =
      (codes "app", app_schema)
      ∷ (codes "blockchain", blockchain_schema)
      ∷ (codes "contracts", contracts_schema)
      ∷ (codes "register", register_schema)
      ∷ []
