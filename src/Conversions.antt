-- ===== src/Conversions.antt =====
-- src/Conversions.ts, over the numbers of bignumber.js.
use rif_relay_server.Base.{ℕ, ◌+◌, ◌^◌, ◌||◌, Option, none, some, if◌then◌else◌}
use rif_relay_server.Base.Int.{ℤ, pos, negsuc, sub_ℕ}
use rif_relay_server.Outcome.{Outcome, ok, err, invalid_number}
use rif_relay_server.Numbers.{Numbers, of_ℕ, is_invalid_number}

module _ {D : Type 0} (num : Numbers D) where
  -- `getPrecision`: a power of 10, which is exact.
  abbrev pub get_precision : ℕ → D
  get_precision precision = of_ℕ num (10 ^ precision)

  -- `toPrecision`: a negative precision divides.
  unfoldable pub to_precision : D → ℤ → D
  to_precision value (pos precision) = num.times value (get_precision precision)
  to_precision value (negsuc n) = num.divided_by value (get_precision (n + 1))

  -- `toPrecision` by `-decimals`, which is negative for `isNegative` even as -0.
  abbrev pub scale_down : D → ℕ → D
  scale_down value decimals = num.divided_by value (get_precision decimals)

  -- `toNativeWeiFrom`.
  unfoldable pub to_native_wei_from : D → ℕ → D → D
  to_native_wei_from amount decimals x_rate =
      if num.is_zero amount || num.is_zero x_rate
      then of_ℕ num 0
      else to_precision (num.times (scale_down amount decimals) x_rate) (pos 18)

  -- `BigNumber.from(x.toFixed(0))`.
  abbrev pub read_fixed : Option ℤ → Outcome ℤ
  read_fixed none = err invalid_number
  read_fixed (some z) = ok z

  abbrev pub from_fixed : D → Outcome ℤ
  from_fixed x = read_fixed (num.to_fixed x)

  -- `convertGasToToken`.
  unfoldable pub convert_gas_to_token : ℤ → ℕ → D → ℕ → Outcome ℤ
  convert_gas_to_token estimation decimals x_rate gas_price =
      if is_invalid_number num (num.of_int estimation)
        || (is_invalid_number num x_rate
            || (is_invalid_number num (of_ℕ num gas_price) || num.is_zero x_rate))
      then ok (pos 0)
      else from_fixed (
          num.divided_by
            (to_precision (num.times (num.of_int estimation) (of_ℕ num gas_price))
              (sub_ℕ 18 decimals))
            x_rate)

  -- `convertGasToNative`.
  unfoldable pub convert_gas_to_native : ℤ → ℕ → Outcome ℤ
  convert_gas_to_native estimation gas_price =
      if is_invalid_number num (num.of_int estimation) || is_invalid_number num (of_ℕ num gas_price)
      then ok (pos 0)
      else from_fixed (num.times (num.of_int estimation) (of_ℕ num gas_price))
