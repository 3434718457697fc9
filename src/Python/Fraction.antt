-- ===== src/Python/Fraction.antt =====
-- `fractions.Fraction`: a numerator and a positive denominator in lowest terms.
use zksync_python.Prelude.{
  ℕ, zero, suc, ◌/◌, ◌%◌, ◌==◌, if◌then◌else◌, ℤ, pos, negsuc, neg_ℕ, Result, ok, err,
  zero_division_error,
}

pub record Fraction : Type 0 where
  pub numerator : ℤ
  pub denominator : ℤ

-- Euclid's algorithm. A round makes `b` smaller, so `b + 1` rounds are enough.
unfoldable pub gcd_loop : ℕ → ℕ → ℕ → ℕ
gcd_loop zero a b = a
gcd_loop (suc fuel) a b = let rest = gcd_loop fuel b (a % b) in if b == 0 then a else rest

abbrev pub gcd : ℕ → ℕ → ℕ
gcd a b = gcd_loop (suc b) a b

abbrev pub absolute : ℤ → ℕ
absolute (pos n) = n
absolute (negsuc n) = suc n

-- The sign of the quotient of two numbers, applied to an absolute value.
abbrev pub with_sign : ℤ → ℤ → ℕ → ℤ
with_sign (pos m) (pos n) q = pos q
with_sign (pos m) (negsuc n) q = neg_ℕ q
with_sign (negsuc m) (pos n) q = neg_ℕ q
with_sign (negsuc m) (negsuc n) q = pos q

-- `Fraction(numerator, denominator)`
unfoldable pub fraction : ℤ → ℤ → Result Fraction
fraction num den =
    let g = gcd (absolute num) (absolute den) in
    if absolute den == 0
    then err zero_division_error
    else ok (record {
      numerator = with_sign num den (absolute num / g);
      denominator = pos (absolute den / g);
    })
