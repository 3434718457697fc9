-- ===== src/Python/Decimal.antt =====
-- Finite values of `decimal.Decimal` under the default context: 28 digits, ROUND_HALF_EVEN. The
-- limits on exponents are far off and are left out.
use zksync_python.Prelude.{
  ℕ, suc, ◌+◌, ◌-◌, ◌*◌, ◌/◌, ◌%◌, ◌^◌, Bool, true, false, ◌&&◌, ◌||◌, [], ◌∷◌, ◌++◌, length, map,
  ltb, ◌==◌, if◌then◌else◌, ℤ, pos, negsuc, ◌+ℤ◌, neg_ℕ,
}
use zksync_python.Python.Text.{Text}
use zksync_python.Python.Digits.{digits, fixed_digits}

-- (-1)^negative * coefficient * 10^exponent
pub record Decimal : Type 0 where
  pub negative : Bool
  pub coefficient : ℕ
  pub exponent : ℤ

abbrev pub precision : ℕ
precision = 28

-- `str` of a number that is not negative, and of any integer.
abbrev pub digit_char : ℕ → ℕ
digit_char d = b'0' + d

unfoldable pub str_ℕ : ℕ → Text
str_ℕ n = map digit_char (digits 10 n)

unfoldable pub str_int : ℤ → Text
str_int (pos n) = str_ℕ n
str_int (negsuc n) = b'-' ∷ str_ℕ (suc n)

-- `Decimal(n)`
unfoldable pub decimal_of_int : ℤ → Decimal
decimal_of_int (pos n) = record { negative = false; coefficient = n; exponent = pos 0 }
decimal_of_int (negsuc n) = record { negative = true; coefficient = suc n; exponent = pos 0 }

-- `n / 10^k` to the nearest integer, ties to the even one.
unfoldable pub round_half_even : ℕ → ℕ → ℕ
round_half_even n k =
    let q = n / 10 ^ k in
    let r = n % 10 ^ k in
    if ltb (10 ^ k) (2 * r) || (2 * r == 10 ^ k && q % 2 == 1) then q + 1 else q

-- A coefficient of more than 28 digits is rounded. One that rounds up to 10^28 loses a zero.
unfoldable pub fix : Decimal → Decimal
fix d =
    let extra = length (digits 10 d.coefficient) - precision in
    let rounded = round_half_even d.coefficient extra in
    if extra == 0
    then d
    else if rounded == 10 ^ precision
    then record d { coefficient = 10 ^ 27; exponent = d.exponent +ℤ pos (extra + 1) }
    else record d { coefficient = rounded; exponent = d.exponent +ℤ pos extra }

-- `d.scaleb(n)`
unfoldable pub scaleb : Decimal → ℤ → Decimal
scaleb d n = fix (record d { exponent = d.exponent +ℤ n })

-- The coefficient at the exponent -places: exact where digits are added, else rounded.
abbrev pub shifted : ℕ → ℤ → ℕ
shifted n (pos k) = n * 10 ^ k
shifted n (negsuc k) = round_half_even n (suc k)

unfoldable pub rescaled : Decimal → ℕ → ℕ
rescaled d places = shifted d.coefficient (d.exponent +ℤ pos places)

-- f"{d:.{places}f}"
unfoldable pub format_fixed : Decimal → ℕ → Text
format_fixed d places =
    let n = rescaled d places in
    (if d.negative then b'-' ∷ [] else [])
    ++ (str_ℕ (n / 10 ^ places)
        ++ (if places == 0
            then []
            else b'.' ∷ map digit_char (fixed_digits 10 places (n % 10 ^ places) [])))

-- The integer part of the absolute value.
abbrev pub truncated : ℕ → ℤ → ℕ
truncated n (pos k) = n * 10 ^ k
truncated n (negsuc k) = n / 10 ^ suc k

-- `int(d)`: towards zero
unfoldable pub int_of_decimal : Decimal → ℤ
int_of_decimal d =
    let n = truncated d.coefficient d.exponent in if d.negative then neg_ℕ n else pos n
