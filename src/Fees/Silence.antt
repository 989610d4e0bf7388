-- ===== src/Fees/Silence.antt =====
-- What computing a fee, by the functions of src/relayServerUtils, may broadcast.
use rif_relay_server.Base.{ℕ, Option, none, some, Text}
use rif_relay_server.Base.Int.{ℤ}
use rif_relay_server.Envelope.{EnvelopingRequest}
use rif_relay_server.Numbers.{Numbers}
use rif_relay_server.TxManager.Silence.{IsSilent, silent_rules}
use rif_relay_server.Base.{refl}
use rif_relay_server.Fees.{
  Market, FeeSettings, call_optional, token_in_native, convert_token_to_gas, fee_token,
  calculate_fixed_usd_fee, fee_from_value, calculate_fee_from_transfer, fixed_fee,
  with_variable_fee, calculate_fee, validate_if_gas_amount_is_acceptable,
  validate_if_token_amount_is_acceptable,
}

call_optional-IsSilent :
    {Store A : Type 0} (ask : ℕ → Option A) (default : A)
    → IsSilent {Store = Store} (call_optional ask default)
unfolding call_optional
call_optional-IsSilent ask default = record { silent = λ w. refl }

module _ {Store D : Type 0} (num : Numbers D) (market : Market D) where
  token_in_native-IsSilent :
      (amount : D) (token : Text)
      → IsSilent {Store = Store} (token_in_native num market amount token)
  unfolding token_in_native
  token_in_native-IsSilent amount token = search (silent_rules, call_optional-IsSilent)

  convert_token_to_gas-IsSilent :
      (amount : D) (token : Text) (gas_price : ℕ)
      → IsSilent {Store = Store} (convert_token_to_gas num market amount token gas_price)
  unfolding convert_token_to_gas
  convert_token_to_gas-IsSilent amount token gas_price =
      search (silent_rules, token_in_native-IsSilent)

  fee_token-IsSilent : (token : Text) → IsSilent {Store = Store} (fee_token num market token)
  unfolding fee_token
  fee_token-IsSilent token = search (silent_rules, call_optional-IsSilent)

  calculate_fixed_usd_fee-IsSilent :
      (r : EnvelopingRequest) (usd : D)
      → IsSilent {Store = Store} (calculate_fixed_usd_fee num market r usd)
  unfolding calculate_fixed_usd_fee
  calculate_fixed_usd_fee-IsSilent r usd =
      search (silent_rules, fee_token-IsSilent, convert_token_to_gas-IsSilent)

  fee_from_value-IsSilent :
      (index : Option ℕ) (call_data : Text) (percentage : D) (r : EnvelopingRequest)
      → IsSilent {Store = Store} (fee_from_value num market index call_data percentage r)
  fee_from_value-IsSilent none call_data percentage r = search silent_rules
  fee_from_value-IsSilent (some index) call_data percentage r = convert_token_to_gas-IsSilent _ _ _

  calculate_fee_from_transfer-IsSilent :
      (call_data : Text) (percentage : D) (r : EnvelopingRequest)
      → IsSilent {Store = Store} (calculate_fee_from_transfer num market call_data percentage r)
  unfolding calculate_fee_from_transfer
  calculate_fee_from_transfer-IsSilent call_data percentage r =
      fee_from_value-IsSilent _ call_data percentage r

  fixed_fee-IsSilent :
      (usd : Option D) (r : EnvelopingRequest)
      → IsSilent {Store = Store} (fixed_fee num market usd r)
  unfolding fixed_fee
  fixed_fee-IsSilent none r = search silent_rules
  fixed_fee-IsSilent (some usd) r = search (silent_rules, calculate_fixed_usd_fee-IsSilent)

  with_variable_fee-IsSilent :
      (c : FeeSettings D) (r : EnvelopingRequest) (gas : ℕ) (fixed : D)
      → IsSilent {Store = Store} (with_variable_fee num market c r gas fixed)
  unfolding with_variable_fee
  with_variable_fee-IsSilent c r gas fixed =
      search (silent_rules, calculate_fee_from_transfer-IsSilent)

  pub calculate_fee-IsSilent :
      (c : FeeSettings D) (r : EnvelopingRequest) (gas : ℕ)
      → IsSilent {Store = Store} (calculate_fee num market c r gas)
  unfolding calculate_fee
  calculate_fee-IsSilent c r gas =
      search (silent_rules, fixed_fee-IsSilent, with_variable_fee-IsSilent)

  pub validate_if_gas_amount-IsSilent :
      (r : EnvelopingRequest)
      → IsSilent {Store = Store} (validate_if_gas_amount_is_acceptable num market r)
  unfolding validate_if_gas_amount_is_acceptable
  validate_if_gas_amount-IsSilent r = search silent_rules

  pub validate_if_token_amount-IsSilent :
      (c : FeeSettings D) (r : EnvelopingRequest) (gas : ℤ)
      → IsSilent {Store = Store} (validate_if_token_amount_is_acceptable num market c r gas)
  unfolding validate_if_token_amount_is_acceptable
  validate_if_token_amount-IsSilent c r gas = search (silent_rules, convert_token_to_gas-IsSilent)
