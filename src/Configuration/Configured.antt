-- ===== src/Configuration/Configured.antt =====
-- What the configuration is that `getServerConfig` of src/ServerConfigParams.ts returns, and what
-- `verifyServerConfiguration` refuses.
use rif_relay_server.Base.{
  ◌≡◌, refl, sym, ◌∙◌, inl, inr, true, false, ◌&&◌, some, List, [], ◌∷◌, Text, codes, eq_text,
  eq_text_iff, arith, Bool-cases, Option-cases, All, All-map,
}
use rif_relay_server.Outcome.{ok, err, invalid_configuration, bind_of_err}
use rif_relay_server.Numbers.{Numbers, of_ℕ}
use rif_relay_server.Values.{Value, Fields, get, at, all_named, entry, field, end, names}
use rif_relay_server.Configuration.Schema.{
  Checks, required, number_rule, min, max, Schema, app_schema, blockchain_schema, contracts_schema,
  register_schema, server_config_schema,
}
use rif_relay_server.Configuration.{
  Joi, Config, ServerConfigParams, verify_server_configuration, get_server_config, validate_schema,
}
use rif_relay_server.Configuration.Accepted.{
  IsSection, IsNumberAt, IsAmountAt, IsAddressAt, from, section_given, section_number,
  section_amount, section_address,
}
use rif_relay_server.Configuration.Returned.{
  AreFees, get_server_config-IsReturned, accepted-IsSection,
}

abbrev pub periods_keys : List Text
periods_keys = codes "checkInterval" ∷ codes "readyTimeout" ∷ codes "requestMinValidSeconds" ∷ []

abbrev pub limits_keys : List Text
limits_keys =
    codes "registrationBlockRate"
    ∷ codes "alertedBlockDelay"
    ∷ codes "minAlertedDelayMS"
    ∷ codes "maxAlertedDelayMS"
    ∷ codes "refreshStateTimeoutBlocks"
    ∷ codes "pendingTransactionTimeoutBlocks"
    ∷ codes "successfulRoundsForReady"
    ∷ codes "confirmationsNeeded"
    ∷ codes "retryGasPriceFactor"
    ∷ codes "estimateGasFactor"
    ∷ []

abbrev pub blocks_keys : List Text
blocks_keys = codes "initialBlockToScan" ∷ codes "maxBlockRange" ∷ []

abbrev pub amounts_keys : List Text
amounts_keys =
    codes "workerTargetBalance"
    ∷ codes "managerMinBalance"
    ∷ codes "managerMinStake"
    ∷ codes "managerTargetBalance"
    ∷ codes "minHubWithdrawalBalance"
    ∷ codes "maxGasPrice"
    ∷ codes "defaultGasLimit"
    ∷ []

abbrev pub addresses_keys : List Text
addresses_keys =
    codes "relayHubAddress" ∷ codes "deployVerifierAddress" ∷ codes "relayVerifierAddress" ∷ []

abbrev pub payments_keys : List Text
payments_keys = codes "stake" ∷ codes "funds" ∷ codes "unstakeDelay" ∷ []

module _ {D : Type 0} (num : Numbers D) (joi : Joi num) (checks : Checks D) where
  -- The configuration that is returned: its sections are those of `config`, and have the values that
  -- the server reads.
  pub record IsConfigured (c : Config D) (p : ServerConfigParams D) : Type 0 where
    pub app : at (codes "app") c.whole ≡ some p.app
    pub contracts : at (codes "contracts") c.whole ≡ some p.contracts
    pub blockchain : at (codes "blockchain") c.whole ≡ some p.blockchain
    pub register : at (codes "register") c.whole ≡ some p.register
    pub fees : AreFees num joi checks c p.app
    pub port :
        IsNumberAt num joi.conversions p.app
          (λ x. from num joi.conversions 0 x && num.gte (of_ℕ num 65535) x)
          (codes "port")
    pub periods :
        All (IsNumberAt num joi.conversions p.app (from num joi.conversions 0)) periods_keys
    pub blocks :
        All (IsNumberAt num joi.conversions p.blockchain (from num joi.conversions 1)) blocks_keys
    pub limits :
        All (IsNumberAt num joi.conversions p.blockchain (from num joi.conversions 0)) limits_keys
    pub amounts : All (IsAmountAt num joi.conversions checks p.blockchain) amounts_keys
    pub addresses : All (IsAddressAt num joi.conversions checks p.contracts) addresses_keys
    pub payments :
        All (IsNumberAt num joi.conversions p.register (from num joi.conversions 0)) payments_keys

  section_periods :
      (s : Value D)
      → IsSection num joi.conversions (app_schema checks) s
      → All (IsNumberAt num joi.conversions s (from num joi.conversions 0)) periods_keys
  unfolding app_schema
  section_periods s h =
      All-map _ _ periods_keys
        (λ k e. section_number num joi.conversions (app_schema checks) s 0 k h e)
        (refl, (refl, (refl, tt)))

  section_blocks :
      (s : Value D)
      → IsSection num joi.conversions (blockchain_schema checks) s
      → All (IsNumberAt num joi.conversions s (from num joi.conversions 1)) blocks_keys
  unfolding blockchain_schema
  section_blocks s h =
      All-map _ _ blocks_keys
        (λ k e. section_number num joi.conversions (blockchain_schema checks) s 1 k h e)
        (refl, (refl, tt))

  section_limits :
      (s : Value D)
      → IsSection num joi.conversions (blockchain_schema checks) s
      → All (IsNumberAt num joi.conversions s (from num joi.conversions 0)) limits_keys
  unfolding blockchain_schema
  section_limits s h =
      All-map _ _ limits_keys
        (λ k e. section_number num joi.conversions (blockchain_schema checks) s 0 k h e)
        (refl, (refl, (refl, (refl, (refl, (refl, (refl, (refl, (refl, (refl, tt))))))))))

  section_amounts :
      (s : Value D)
      → IsSection num joi.conversions (blockchain_schema checks) s
      → All (IsAmountAt num joi.conversions checks s) amounts_keys
  unfolding blockchain_schema
  section_amounts s h =
      All-map _ _ amounts_keys
        (λ k e. section_amount num joi.conversions checks (blockchain_schema checks) s k h e)
        (refl, (refl, (refl, (refl, (refl, (refl, (refl, tt)))))))

  section_addresses :
      (s : Value D)
      → IsSection num joi.conversions (contracts_schema checks) s
      → All (IsAddressAt num joi.conversions checks s) addresses_keys
  unfolding contracts_schema
  section_addresses s h =
      All-map _ _ addresses_keys
        (λ k e. section_address num joi.conversions checks (contracts_schema checks) s k h e)
        (refl, (refl, (refl, tt)))

  section_payments :
      (s : Value D)
      → IsSection num joi.conversions (register_schema checks) s
      → All (IsNumberAt num joi.conversions s (from num joi.conversions 0)) payments_keys
  unfolding register_schema
  section_payments s h =
      All-map _ _ payments_keys
        (λ k e. section_number num joi.conversions (register_schema checks) s 0 k h e)
        (refl, (refl, (refl, tt)))

  section_port :
      (s : Value D)
      → IsSection num joi.conversions (app_schema checks) s
      → IsNumberAt num joi.conversions s
          (λ x. from num joi.conversions 0 x && num.gte (of_ℕ num 65535) x)
          (codes "port")
  unfolding app_schema
  section_port s h =
      let (v, found, met) =
        section_given num joi.conversions (app_schema checks) s (codes "port")
          (min 0 (max 65535 (required number_rule))) h refl refl in
      elim (Option-cases (joi.conversions.to_number v)) [
        | inl bad ↦ absurd (ground arith)
        | inr (x, good) ↦ (v, x, found, good, ground arith)
      ]

  -- A configuration that `getServerConfig` returns has its sections from `config`. In them the port
  -- is a number from 0 to 65535; the periods, the limits of blocks and times, and the payments of the
  -- registration are numbers from 0 on; the first block to scan and the range of blocks are numbers
  -- from 1 on; the amounts are numbers from 0 on that ethers can represent, the addresses of the hub
  -- and the two verifiers are valid; and if sponsored requests are disabled, the two fees are not
  -- below 0.
  pub get_server_config-IsConfigured :
      (c t : Config D) (p : ServerConfigParams D)
      → get_server_config num joi checks c ≡ (ok p, t)
      → IsConfigured c p
  unfolding server_config_schema
  get_server_config-IsConfigured c t p e =
      let (found1, found2, found3, found4, valid, fees) =
        get_server_config-IsReturned num joi checks c t p e in
      let contracts = c.lookup_lem (codes "contracts") p.contracts found1 in
      let app = c.lookup_lem (codes "app") p.app found2 in
      let blockchain = c.lookup_lem (codes "blockchain") p.blockchain found3 in
      let register = c.lookup_lem (codes "register") p.register found4 in
      let is_app = accepted-IsSection num joi checks c (codes "app") valid app refl in
      let is_contracts =
        accepted-IsSection num joi checks c (codes "contracts") valid contracts refl in
      let is_blockchain =
        accepted-IsSection num joi checks c (codes "blockchain") valid blockchain refl in
      let is_register =
        accepted-IsSection num joi checks c (codes "register") valid register refl in
      record {
        app = app;
        contracts = contracts;
        blockchain = blockchain;
        register = register;
        fees = fees;
        port = section_port p.app is_app;
        periods = section_periods p.app is_app;
        blocks = section_blocks p.blockchain is_blockchain;
        limits = section_limits p.blockchain is_blockchain;
        amounts = section_amounts p.blockchain is_blockchain;
        addresses = section_addresses p.contracts is_contracts;
        payments = section_payments p.register is_register;
      }

  all_named-names :
      {A : Type 0} (table : List (Text × A)) (fs : Fields D) (key : Text) {v : Value D}
      → all_named table fs ≡ true
      → get key fs ≡ some v
      → names table key ≡ true
  all_named-names table end key h e = cc
  all_named-names table (field k w fs) key h e = elim (Bool-cases (eq_text key k)) [
    | inl same ↦ rw ((eq_text_iff key k).0 same) (ground arith)
    | inr other ↦ all_named-names table fs key (ground arith) (rw other at e)
  ]

  IsSection-names :
      (schema : Schema D) (s : Value D) (key : Text) {v : Value D}
      → IsSection num joi.conversions schema s
      → at key s ≡ some v
      → names schema key ≡ true
  unfolding IsSection
  IsSection-names schema s key (fs, same, named, _) found =
      all_named-names schema fs key named (rw same at found)

  -- `verifyServerConfiguration` throws Joi's error on every configuration with a section that has a
  -- value at a key that its schema does not name.
  pub verify_server_configuration-names :
      (c : Config D) (of key : Text) (schema : Schema D) (s v : Value D)
      → entry of (server_config_schema checks) ≡ some schema
      → names schema key ≡ false
      → at of c.whole ≡ some s
      → at key s ≡ some v
      → verify_server_configuration num joi checks c ≡ (err invalid_configuration, c)
  unfolding verify_server_configuration validate_schema
  verify_server_configuration-names c of key schema s v e unnamed there found =
      elim (Bool-cases (joi.validate (server_config_schema checks) c.whole)) [
        | inl h ↦
            let named =
              IsSection-names schema s key (accepted-IsSection num joi checks c of h there e)
                found in
            let bad : false ≡ true = sym unnamed ∙ named in cc
        | inr h ↦ bind_of_err (validate_schema num joi checks) _ c (rw h refl)
      ]
