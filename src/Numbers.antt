-- ===== src/Numbers.antt =====
-- bignumber.js, as far as the fees use it: a type of numbers with the operations that they call, and
-- the documented behaviour that the theorems rely on. Products are exact, a quotient is rounded to
-- 20 decimals, and `toFixed(0)` rounds half up.
pub mod Fractions
use rif_relay_server.Base.{
  ℕ, ◌+◌, ◌*◌, ◌/◌, ◌^◌, ◌≡◌, ◌≤◌, ◌<◌, Bool, true, false, not, ◌||◌, Option, some, Text, codes,
  leb,
}
use rif_relay_server.Base.Int.{ℤ, pos}

-- `of_text` and `of_int` are the constructor on a text and on an integer, as its digits. `to_fixed`
-- is `toFixed(0)` as ethers' `BigNumber.from` reads it, which throws for "NaN" and "Infinity".
pub record Numbers (D : Type 0) : Type 0 where
  pub of_text : Text → D
  pub of_int : ℤ → D
  pub plus : D → D → D
  pub times : D → D → D
  pub divided_by : D → D → D
  pub to_fixed : D → Option ℤ
  pub is_zero : D → Bool
  pub is_negative : D → Bool
  pub is_nan : D → Bool
  pub is_finite : D → Bool
  pub gte : D → D → Bool
  pub times_int :
      (a b : ℕ) → to_fixed (times (of_int (pos a)) (of_int (pos b))) ≡ some (pos (a * b))
  pub times_fifth :
      (a : ℕ)
      → to_fixed (times (of_text (codes "1.2")) (of_int (pos a))) ≡ some (pos ((12 * a + 5) / 10))
  pub gte_quotient :
      (a p b : ℕ)
      → 0 < p
      → p ≤ 10 ^ 20
      → gte (divided_by (of_int (pos a)) (of_int (pos p))) (of_int (pos b)) ≡ leb (b * p) a
  pub int_not_negative : (a : ℕ) → is_negative (of_int (pos a)) ≡ false
  pub int_not_nan : (a : ℕ) → is_nan (of_int (pos a)) ≡ false
  pub int_finite : (a : ℕ) → is_finite (of_int (pos a)) ≡ true

module _ {D : Type 0} (num : Numbers D) where
  abbrev pub of_ℕ : ℕ → D
  of_ℕ n = num.of_int (pos n)

  -- A configured number counts for `&&` and `if` unless it is 0 or NaN.
  abbrev pub is_truthy : D → Bool
  is_truthy x = not (num.is_zero x || num.is_nan x)

  -- `isInvalidNumber`.
  unfoldable pub is_invalid_number : D → Bool
  is_invalid_number x = num.is_negative x || (num.is_nan x || not (num.is_finite x))
