-- ===== src/ConfigTests.antt =====
-- Tests and instances of the theorems about the configuration.
use rif_relay_server.Base.{
  ◌≡◌, refl, Bool, true, false, Option, none, some, [], codes, eq_text, ◌==◌,
}
use rif_relay_server.Outcome.{ok, err, invalid_configuration, ◌>>=◌}
use rif_relay_server.Numbers.Fractions.{Fraction, fractions, fraction}
use rif_relay_server.Values.{
  Value, Fields, boolean, number, text, array, object, nil, cons, end, field, at,
}
use rif_relay_server.Configuration.Schema as Schema
use rif_relay_server.Configuration.Schema.{Checks, register_schema}
use rif_relay_server.Configuration as Configuration
use rif_relay_server.Configuration.{
  Conversions, Joi, Config, ServerConfigParams, is_documented, get_server_config,
  verify_server_configuration,
}
use rif_relay_server.Configuration.Configured.{
  IsConfigured, get_server_config-IsConfigured, verify_server_configuration-names,
}

abbrev pub sample_checks : Checks Fraction
sample_checks = record {
  is_whole = λ x. x.den == 1;
  is_hex_string = λ t. false;
  is_bytes = λ v. false;
  valid_address = λ t. eq_text t (codes "0xab");
  wallet_of_key = λ t. none;
  wallet_of_mnemonic = λ t. none;
}

abbrev number_of : Value Fraction → Option Fraction
number_of (number x) = some x
number_of (text t) = some (fraction 0 1)
number_of v = none

abbrev boolean_of : Value Fraction → Option Bool
boolean_of (boolean b) = some b
boolean_of v = none

abbrev pub sample_conversions : Conversions Fraction
sample_conversions = record { to_number = number_of; to_boolean = boolean_of; is_uri = λ t. true }

abbrev pub sample_joi : Joi fractions
sample_joi = record {
  conversions = sample_conversions;
  validate = is_documented fractions sample_conversions;
  validate_lem = λ sections v h. h;
}

abbrev config_of : Value Fraction → Config Fraction
config_of v = record {
  whole = v;
  lookup = λ key. at key v;
  compared_as = number_of;
  lookup_lem = λ key w h. h;
}

abbrev pub sample_app : Value Fraction
sample_app = object (
    field (codes "url") (text (codes "http://127.0.0.1")) (
      field (codes "port") (number (fraction 8090 1)) (
        field (codes "workdir") (text (codes ".")) (
          field (codes "checkInterval") (number (fraction 10000 1)) (
            field (codes "readyTimeout") (number (fraction 30000 1)) (
              field (codes "gasFeePercentage") (text (codes "0")) (
                field (codes "disableSponsoredTx") (boolean true) (
                  field (codes "sponsoredDestinations") (array nil)
                    (field (codes "requestMinValidSeconds") (number (fraction 43200 1)) end)))))))))

abbrev pub sample_blockchain : Value Fraction
sample_blockchain = object (
    field (codes "rskNodeUrl") (text (codes "http://127.0.0.1:4444")) (
      field (codes "gasPriceFactor") (number (fraction 1 1)) (
        field (codes "registrationBlockRate") (number (fraction 0 1)) (
          field (codes "alertedBlockDelay") (number (fraction 0 1)) (
            field (codes "minAlertedDelayMS") (number (fraction 0 1)) (
              field (codes "maxAlertedDelayMS") (number (fraction 0 1)) (
                field (codes "workerMinBalance") (number (fraction 1000 1)) (
                  field (codes "workerTargetBalance") (number (fraction 3000 1)) (
                    field (codes "managerMinBalance") (number (fraction 1000 1)) (
                      field (codes "managerMinStake") (number (fraction 1 1)) (
                        field (codes "managerTargetBalance") (number (fraction 3000 1)) (
                          field (codes "minHubWithdrawalBalance") (number (fraction 1000 1)) (
                            field (codes "refreshStateTimeoutBlocks") (number (fraction 5 1)) (
                              field (codes "pendingTransactionTimeoutBlocks")
                                (number (fraction 30 1))
                                (field (codes "successfulRoundsForReady") (number (fraction 3 1)) (
                                  field (codes "confirmationsNeeded") (number (fraction 12 1)) (
                                    field (codes "retryGasPriceFactor") (number (fraction 12 10)) (
                                      field (codes "maxGasPrice") (number (fraction 100000000000 1))
                                        (field (codes "defaultGasLimit")
                                          (number (fraction 500000 1))
                                          (field (codes "estimateGasFactor")
                                            (number (fraction 12 10))
                                            (field (codes "initialBlockToScan")
                                              (number (fraction 1 1))
                                              (field (codes "maxBlockRange")
                                                (number (fraction 1000 1)) end))))))))))))))))))))))

abbrev pub sample_contracts : Value Fraction
sample_contracts = object (
    field (codes "relayHubAddress") (text (codes "0xab")) (
      field (codes "relayVerifierAddress") (text (codes "0xab")) (
        field (codes "deployVerifierAddress") (text (codes "0xab")) (
          field (codes "feesReceiver") (text (codes "0xab"))
            (field (codes "trustedVerifiers") (array (cons (text (codes "0xab")) nil)) end)))))

abbrev register_fields : Fields Fraction
register_fields = field (codes "stake") (number (fraction 1 1)) (
    field (codes "funds") (number (fraction 2 1)) (
      field (codes "mnemonic") (text []) (
        field (codes "privateKey") (text []) (
          field (codes "relayHub") (text []) (
            field (codes "gasPrice") (number (fraction 60000000 1))
              (field (codes "unstakeDelay") (number (fraction 1000 1)) end))))))

abbrev whole_with : Fields Fraction → Value Fraction
whole_with register = object (
    field (codes "app") (sample_app) (
      field (codes "blockchain") (sample_blockchain) (
        field (codes "contracts") (sample_contracts)
          (field (codes "register") (object register) end))))

abbrev pub sample_config : Config Fraction
sample_config = config_of (whole_with register_fields)

abbrev pub sample_params : ServerConfigParams Fraction
sample_params = record {
  app = sample_app;
  contracts = sample_contracts;
  blockchain = sample_blockchain;
  register = object register_fields;
}

reads_config :
    get_server_config fractions sample_joi sample_checks sample_config
    ≡ (ok sample_params, sample_config)
unfolding get_server_config verify_server_configuration ◌>>=◌ Configuration.validate_schema
    Schema.server_config_schema Schema.app_schema Schema.blockchain_schema Schema.is_big_numberish
    Schema.contracts_schema Schema.is_address register_schema
reads_config = refl

get_server_config-IsConfigured_example :
    IsConfigured fractions sample_joi sample_checks sample_config sample_params
get_server_config-IsConfigured_example =
    get_server_config-IsConfigured fractions sample_joi sample_checks sample_config sample_config
      sample_params reads_config

-- The key that the environment variable REGISTER_HUB_ADDRESS sets.
abbrev hub_fields : Fields Fraction
hub_fields = field (codes "hub") (text (codes "0xab")) register_fields

verify_server_configuration-names_example :
    verify_server_configuration fractions sample_joi sample_checks
      (config_of (whole_with hub_fields))
    ≡ (err invalid_configuration, config_of (whole_with hub_fields))
unfolding register_schema Schema.server_config_schema
verify_server_configuration-names_example =
    verify_server_configuration-names fractions sample_joi sample_checks
      (config_of (whole_with hub_fields)) (codes "register") (codes "hub")
      (register_schema sample_checks) (object hub_fields) (text (codes "0xab")) refl refl refl refl
