-- ===== src/Fees/Transfers.antt =====
-- What `calculateFee` of src/relayServerUtils reads of a transfer's data.
use rif_relay_server.Base.{
  ℕ, zero, suc, ◌+◌, ◌≡◌, refl, sym, ap, ◌∙◌, Text, codes, [], ◌∷◌, ◌++◌, length, arith,
}
use mathlib.Core.List.{append_assoc}
use rif_relay_server.Envelope.{EnvelopingRequest}
use rif_relay_server.Numbers.{Numbers}
use rif_relay_server.Fees.{
  Market, drop, get_method_hash_from_data, convert_token_to_gas, calculate_fee_from_transfer,
}

drop-append : (xs ys : Text) (n : ℕ) → length xs ≡ n → drop n (xs ++ ys) ≡ ys
drop-append [] ys zero e = refl
drop-append [] ys (suc n) e = cc
drop-append (x ∷ xs) ys zero e = ground arith
drop-append (x ∷ xs) ys (suc n) e = drop-append xs ys n (omega arith)

length-append : (xs ys : Text) → length (xs ++ ys) ≡ length xs + length ys
length-append [] ys = omega arith
length-append (x ∷ xs) ys = let ih = length-append xs ys in omega arith

module _ {Store D : Type 0} (num : Numbers D) (market : Market D) where
  -- The fee of a transfer is the percentage of the value that the transfer moves, converted to gas:
  -- the value is what follows one word of 64 digits in the data of `transfer(to, value)`, and what
  -- follows two in that of `transferFrom(from, to, value)`.
  pub calculate_fee_from_transfer_lem :
      (r : EnvelopingRequest) (percentage : D) (from to value : Text)
      → length from ≡ 64
      → length to ≡ 64
      → let fee =
          convert_token_to_gas {Store = Store} num market
            (num.times (num.of_text (codes "0x" ++ value)) percentage)
            r.request.token_contract
            r.relay_data.gas_price in
        (calculate_fee_from_transfer num market (codes "0xa9059cbb" ++ (to ++ value)) percentage r
          ≡ fee)
        × (calculate_fee_from_transfer num market
              (codes "0x23b872dd" ++ (from ++ (to ++ value)))
              percentage
              r
            ≡ fee)
  unfolding calculate_fee_from_transfer get_method_hash_from_data
  calculate_fee_from_transfer_lem r percentage from to value from_64 to_64 =
      let fee = λ (digits : Text).
        convert_token_to_gas {Store = Store} num market
          (num.times (num.of_text (codes "0x" ++ digits)) percentage) r.request.token_contract
          r.relay_data.gas_price in
      let both : length (from ++ to) ≡ 128 = rw (length-append from to) (omega arith) in
      (
        ap fee (drop-append to value 64 to_64),
        ap fee (
            ap (drop 128) (sym (append_assoc from to value))
            ∙ drop-append (from ++ to) value 128 both),
      )
