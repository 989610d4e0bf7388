-- ===== src/Numbers/Fractions.antt =====
-- An instance of `Numbers`: the fractions of natural numbers, unreduced; a denominator of 0 is what
-- a division by 0 leaves.
use rif_relay_server.Base.{
  ℕ, ◌+◌, ◌*◌, ◌/◌, ◌≡◌, refl, ap, false, not, ◌&&◌, Option, none, some, Text, codes, leb, ◌==◌,
  eq_text, if◌then◌else◌, arith,
}
use rif_relay_server.Base.Int.{ℤ, pos, pos_part}
use rif_relay_server.Numbers.{Numbers}

pub record Fraction : Type 0 where
  pub num : ℕ
  pub den : ℕ

abbrev pub fraction : ℕ → ℕ → Fraction
fraction n d = record { num = n; den = d }

-- The one text with a point that the fees write.
abbrev pub fraction_of_text : Text → Fraction
fraction_of_text t = if eq_text t (codes "1.2") then fraction 12 10 else fraction 0 1

abbrev pub rounded : Fraction → Option ℤ
rounded x = if x.den == 0 then none else some (pos ((2 * x.num + x.den) / (2 * x.den)))

pub rounded_times : (a b : ℕ) → rounded (fraction (a * b) (1 * 1)) ≡ some (pos (a * b))
rounded_times a b = ap (λ n. some (pos n)) (omega arith)

pub rounded_fifth : (a : ℕ) → rounded (fraction (12 * a) (10 * 1)) ≡ some (pos ((12 * a + 5) / 10))
rounded_fifth a = ap (λ n. some (pos n)) (omega arith)

pub gte_quotient_lem : (a p b : ℕ) → leb (b * (1 * p)) (a * 1 * 1) ≡ leb (b * p) a
gte_quotient_lem a p b = ground arith

pub no_nan : (a : ℕ) → ((a == 0) && (1 == 0)) ≡ false
no_nan a = ground arith

abbrev pub fractions : Numbers Fraction
fractions = record {
  of_text = fraction_of_text;
  of_int = λ z. fraction (pos_part z) 1;
  plus = λ x y. fraction (x.num * y.den + y.num * x.den) (x.den * y.den);
  times = λ x y. fraction (x.num * y.num) (x.den * y.den);
  divided_by = λ x y. fraction (x.num * y.den) (x.den * y.num);
  to_fixed = rounded;
  is_zero = λ x. x.num == 0;
  is_negative = λ x. false;
  is_nan = λ x. (x.num == 0) && (x.den == 0);
  is_finite = λ x. not (x.den == 0);
  gte = λ x y. leb (y.num * x.den) (x.num * y.den);
  times_int = rounded_times;
  times_fifth = rounded_fifth;
  gte_quotient = λ a p b h k. gte_quotient_lem a p b;
  int_not_negative = λ a. refl;
  int_not_nan = λ a. no_nan a;
  int_finite = λ a. refl;
}
