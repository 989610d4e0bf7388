-- ===== src/Fees.antt =====
-- The fees of a request: the functions of src/relayServerUtils that compute a fee, convert it, or
-- decide whether the request pays. The token contracts, the price oracle of the client library and
-- its estimates are parameters, by the number of the call as for the node.
pub mod Silence
pub mod Accepting
pub mod Transfers
pub mod Conditions
pub mod Calculated
use rif_relay_server.Base.{
  ℕ, zero, suc, ◌+◌, ◌-◌, ◌*◌, ◌/◌, ◌^◌, Bool, true, false, not, ◌&&◌, ◌||◌, Option, none, some,
  List, [], ◌∷◌, ◌++◌, Text, codes, eq_text, ltb, leb, ◌==◌, get_or, if◌then◌else◌,
}
use rif_relay_server.Base.Int.{ℤ, pos, negsuc, sub_ℕ, ltb_ℤ, scale}
use rif_relay_server.Outcome.{
  Outcome, ok, err, invalid_number, missing_gas, gas_deviates, insufficient_token_amount, Action,
  ◌>>=◌, ◌>>◌, pure, throw,
}
use rif_relay_server.TxManager.{World, call, lift}
use rif_relay_server.Numbers.{Numbers, of_ℕ, is_truthy, is_invalid_number}
use rif_relay_server.Conversions.{
  get_precision, to_precision, scale_down, to_native_wei_from, from_fixed, convert_gas_to_token,
  convert_gas_to_native,
}
use rif_relay_server.Envelope.{EnvelopingRequest}

-- What the fees ask of the token contracts and of the client library.
pub record Market (D : Type 0) : Type 0 where
  pub token_symbol : ℕ → Text → Option Text
  pub token_decimals : ℕ → Text → Option ℕ
  pub token_name : ℕ → Text → Option Text
  pub exchange_rate : ℕ → Text → Text → Option D
  pub is_deploy_request : EnvelopingRequest → Bool
  pub estimate_internal_call_gas : ℕ → EnvelopingRequest → Option ℕ
  pub address_zero : Text

-- The settings of `app` for the fees; a number that is not configured is `none`.
pub record FeeSettings (D : Type 0) : Type 0 where
  pub disable_sponsored_tx : Bool
  pub sponsored_destinations : List Text
  pub fixed_usd_fee : Option D
  pub transfer_fee_percentage : Option D
  pub gas_fee_percentage : Option D

-- `Array.prototype.includes`.
abbrev pub includes : Text → List Text → Bool
includes a [] = false
includes a (b ∷ bs) = let rest = includes a bs in if eq_text b a then true else rest

abbrev pub drop : ℕ → Text → Text
drop zero t = t
drop (suc n) [] = []
drop (suc n) (c ∷ t) = drop n t

abbrev pub take : ℕ → Text → Text
take zero t = []
take (suc n) [] = []
take (suc n) (c ∷ t) = c ∷ take n t

-- `data.substring(2, 10)`.
unfoldable pub get_method_hash_from_data : Text → Text
get_method_hash_from_data call_data = take 8 (drop 2 call_data)

-- `VALUE_INDEX_IN_DATA`: where the value starts in the data of a transfer, and of a `transferFrom`.
abbrev pub value_index_in_data : Text → Option ℕ
value_index_in_data hash =
    if eq_text hash (codes "a9059cbb")
    then some 74
    else (if eq_text hash (codes "23b872dd") then some 138 else none)

abbrev pub is_transfer_or_transfer_from : Text → Bool
is_transfer_or_transfer_from call_data =
    elim (value_index_in_data (get_method_hash_from_data call_data)) [
      | none ↦ false
      | some index ↦ true
    ]

-- `callERC20OptionalMethod`: a call that fails yields the default.
unfoldable pub call_optional : {Store A : Type 0} → (ℕ → Option A) → A → Action (World Store) A
call_optional ask default w = (ok (get_or (ask w.calls) default), record w { calls = w.calls + 1 })

abbrev pub is_sponsorship_allowed : {D : Type 0} → FeeSettings D → EnvelopingRequest → Bool
is_sponsorship_allowed c r =
    not c.disable_sponsored_tx || includes r.request.to c.sponsored_destinations

pub record Conversion (D : Type 0) : Type 0 where
  pub value : ℤ
  pub value_in_token : ℤ
  pub value_in_native : ℤ
  pub exchange_rate : D
  pub gas_price : ℕ

module _ {D : Type 0} (num : Numbers D) where
  -- `calculateFeeFromGas`: the rounded product as a number again.
  abbrev pub as_number : Outcome ℤ → Outcome D
  as_number (err e) = err e
  as_number (ok z) = ok (num.of_int z)

  -- The value of a transfer: the digits from its index on.
  abbrev pub transfer_value : Text → ℕ → D
  transfer_value call_data index = num.of_text (codes "0x" ++ drop index call_data)

  unfoldable pub calculate_fee_from_gas : D → D → Outcome D
  calculate_fee_from_gas max_possible_gas fee_percentage =
      as_number (from_fixed num (num.times max_possible_gas fee_percentage))

  abbrev pub added : D → Outcome D → Outcome D
  added fixed (err e) = err e
  added fixed (ok fee) = ok (num.plus fixed fee)

  -- `transferFeePercentage >= 0`, which no missing number meets.
  abbrev pub takes_transfer_fee : Option D → Text → Bool
  takes_transfer_fee none call_data = false
  takes_transfer_fee (some percentage) call_data =
      num.gte percentage (of_ℕ num 0) && is_transfer_or_transfer_from call_data

  -- The fixed part with the fee from the gas; no fee, or one of 0, leaves the fixed part.
  unfoldable pub with_gas_fee : Option D → ℕ → D → Outcome D
  with_gas_fee none gas fixed = ok fixed
  with_gas_fee (some percentage) gas fixed =
      if is_truthy num percentage
      then added fixed (calculate_fee_from_gas (of_ℕ num gas) percentage)
      else ok fixed

  -- `validateIfGasAmountIsAcceptable`: the estimate against 1.2 times the agreed gas, rounded.
  abbrev pub gas_within : ℕ → Outcome ℤ → Outcome (Unit {0})
  gas_within estimate (err e) = err e
  gas_within estimate (ok agreed) = if ltb_ℤ agreed (pos estimate) then err gas_deviates else ok tt

  abbrev pub max_agreed_gas : ℕ → Outcome ℤ
  max_agreed_gas gas = from_fixed num (num.times (num.of_text (codes "1.2")) (of_ℕ num gas))

  -- `gasValue.toString()` throws for a request without `gas`.
  abbrev pub judge_gas : ℕ → Option ℕ → Outcome (Unit {0})
  judge_gas estimate none = err missing_gas
  judge_gas estimate (some gas) = gas_within estimate (max_agreed_gas gas)

  -- What `convertGasToTokenAndNative` returns, with the gas price of the request.
  abbrev pub no_conversion : EnvelopingRequest → ℤ → Conversion D
  no_conversion r estimation = record {
    value = estimation;
    value_in_token = scale estimation r.relay_data.gas_price;
    value_in_native = scale estimation r.relay_data.gas_price;
    exchange_rate = num.of_int (pos 1);
    gas_price = r.relay_data.gas_price;
  }

module _ {Store D : Type 0} (num : Numbers D) (market : Market D) where
  -- `getXRateFor`: the rate of a token's symbol in RBTC.
  abbrev pub get_x_rate_for : Text → Action (World Store) D
  get_x_rate_for symbol = call (λ n. market.exchange_rate n symbol (codes "RBTC"))

  abbrev pub call_erc20_symbol : Text → Action (World Store) Text
  call_erc20_symbol token = call_optional (λ n. market.token_symbol n token) (codes "ERC20")

  abbrev pub call_erc20_decimals : Text → Action (World Store) ℕ
  call_erc20_decimals token = call_optional (λ n. market.token_decimals n token) 18

  -- The amount of a token in RBTC, in its smallest unit.
  unfoldable pub token_in_native : D → Text → Action (World Store) D
  token_in_native amount token = do
    symbol ← call_erc20_symbol token
    decimals ← call_erc20_decimals token
    call (λ n. market.token_name n token)
    x_rate ← get_x_rate_for symbol
    pure (to_native_wei_from num amount decimals x_rate)

  -- `convertTokenToGas`; the zero address stands for RBTC itself.
  unfoldable pub convert_token_to_gas : D → Text → ℕ → Action (World Store) D
  convert_token_to_gas amount token gas_price = do
    native ← if eq_text token market.address_zero then pure amount else token_in_native amount token
    pure (num.divided_by native (of_ℕ num gas_price))

  -- The symbol and the precision of the token that pays.
  unfoldable pub fee_token : Text → Action (World Store) (Text × ℕ)
  fee_token token = if eq_text token market.address_zero then pure (codes "RBTC", 18) else (do
    symbol ← call_erc20_symbol token
    decimals ← call_erc20_decimals token
    pure (symbol, decimals))

  unfoldable pub calculate_fixed_usd_fee : EnvelopingRequest → D → Action (World Store) D
  calculate_fixed_usd_fee r fixed_usd_fee = do
    token ← fee_token r.request.token_contract
    rate ← call (λ n. market.exchange_rate n (codes "USD") token.0)
    convert_token_to_gas (to_precision num (num.times rate fixed_usd_fee) (pos token.1))
        r.request.token_contract r.relay_data.gas_price

  abbrev pub fee_from_value : Option ℕ → Text → D → EnvelopingRequest → Action (World Store) D
  fee_from_value none call_data percentage r = pure (of_ℕ num 0)
  fee_from_value (some index) call_data percentage r =
      convert_token_to_gas (num.times (transfer_value num call_data index) percentage)
        r.request.token_contract r.relay_data.gas_price

  unfoldable pub calculate_fee_from_transfer : Text → D → EnvelopingRequest → Action (World Store) D
  calculate_fee_from_transfer call_data percentage r =
      fee_from_value (value_index_in_data (get_method_hash_from_data call_data)) call_data
        percentage r

  -- The fixed part of the fee: a fee of 0, or none, asks nothing of the oracle.
  unfoldable pub fixed_fee : Option D → EnvelopingRequest → Action (World Store) D
  fixed_fee none r = pure (of_ℕ num 0)
  fixed_fee (some usd) r =
      if is_truthy num usd then calculate_fixed_usd_fee r usd else pure (of_ℕ num 0)

  -- The end of `calculateFee`, once the fixed part is known: the fee of a transfer comes before the
  -- fee from the gas.
  unfoldable pub with_variable_fee :
      FeeSettings D → EnvelopingRequest → ℕ → D → Action (World Store) D
  with_variable_fee c r gas fixed =
      if takes_transfer_fee num c.transfer_fee_percentage r.request.call_data
      then (do
        transfer_fee ←
            calculate_fee_from_transfer r.request.call_data
              (get_or c.transfer_fee_percentage (of_ℕ num 0)) r
        pure (num.plus fixed transfer_fee))
      else lift (with_gas_fee num c.gas_fee_percentage gas fixed)

  unfoldable pub calculate_fee : FeeSettings D → EnvelopingRequest → ℕ → Action (World Store) D
  calculate_fee c r gas =
      let computed = (do fixed ← fixed_fee c.fixed_usd_fee r; with_variable_fee c r gas fixed) in
      if is_sponsorship_allowed c r then pure (of_ℕ num 0) else computed

  unfoldable pub validate_if_gas_amount_is_acceptable :
      EnvelopingRequest → Action (World Store) (Unit {0})
  validate_if_gas_amount_is_acceptable r =
      let checked = (do
        estimate ← call (λ n. market.estimate_internal_call_gas n r)
        lift (judge_gas num estimate r.request.gas)) in
      if market.is_deploy_request r then pure tt else checked

  -- `validateIfTokenAmountIsAcceptable`, on the gas with its fees.
  unfoldable pub validate_if_token_amount_is_acceptable :
      FeeSettings D → EnvelopingRequest → ℤ → Action (World Store) (Unit {0})
  validate_if_token_amount_is_acceptable c r max_possible_gas =
      let checked = (do
        amount ←
            convert_token_to_gas (of_ℕ num r.request.token_amount) r.request.token_contract
              r.relay_data.gas_price
        if num.gte amount (num.of_int max_possible_gas)
            then pure tt
            else throw insufficient_token_amount) in
      if is_sponsorship_allowed c r then pure tt else checked

  -- The order of the calls is that of the fields of `token`.
  unfoldable pub convert_gas_to_token_and_native :
      EnvelopingRequest → ℤ → Action (World Store) (Conversion D)
  convert_gas_to_token_and_native r estimation =
      let converted = (do
        call (λ n. market.token_name n r.request.token_contract)
        symbol ← call_erc20_symbol r.request.token_contract
        decimals ← call_erc20_decimals r.request.token_contract
        x_rate ← get_x_rate_for symbol
        in_token ← lift (convert_gas_to_token num estimation decimals x_rate r.relay_data.gas_price)
        in_native ← lift (convert_gas_to_native num estimation r.relay_data.gas_price)
        pure (record {
          value = estimation;
          value_in_token = in_token;
          value_in_native = in_native;
          exchange_rate = x_rate;
          gas_price = r.relay_data.gas_price;
        })) in
      if eq_text r.request.token_contract market.address_zero
      then pure (no_conversion num r estimation)
      else converted
