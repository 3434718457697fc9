-- ===== src/Python/DecimalText.antt =====
-- `Decimal(x)` for a value of JSON. White space and digits are those of ASCII.
pub mod Reading
use zksync_python.Prelude.{
  ℕ, ◌+◌, ◌-◌, ℤ, pos, negsuc, ◌+ℤ◌, neg_ℕ, Bool, true, false, not, ◌&&◌, ◌||◌, List, [], ◌∷◌, ◌++◌,
  length, drop, Option, none, some, ltb, leb, ◌==◌, if◌then◌else◌, Result, ok, err, ◌>>=◌, or_raise,
  value_error, type_error, invalid_operation, Json, null, bool, int, str, arr, obj, Items, nil,
  cons,
}
use zksync_python.Python.Text.{Text, text, eqb_text, lower, starts_with}
use zksync_python.Python.Digits.{horner}
use zksync_python.Python.Decimal.{Decimal, decimal_of_int}
use zksync_python.Python.IntText.{strip, is_digit}

-- Every value of `decimal.Decimal`. A NaN has a sign, may be a signalling one, and carries a number.
pub data DecimalValue : Type 0 where
  finite : Decimal → DecimalValue
  infinite : (negative : Bool) → DecimalValue
  nan : (negative signalling : Bool) (payload : ℕ) → DecimalValue

-- `s.replace('_', '')`
unfoldable pub without_underscores : Text → Text
without_underscores [] = []
without_underscores (c ∷ s) =
    let rest = without_underscores s in if c == b'_' then rest else c ∷ rest

-- The digits at the front, by their values, and what follows them.
unfoldable pub span_digits : Text → List ℕ × Text
span_digits [] = ([], [])
span_digits (c ∷ s) =
    let (ds, rest) = span_digits s in if is_digit c then ((c - b'0') ∷ ds, rest) else ([], c ∷ s)

-- A sign at the front: whether it is a minus, and what follows it.
unfoldable pub split_sign : Text → Bool × Text
split_sign [] = (false, [])
split_sign (c ∷ s) =
    if c == b'-' then (true, s) else if c == b'+' then (false, s) else (false, c ∷ s)

-- The digits behind a point, if there is one.
unfoldable pub split_fraction : Text → List ℕ × Text
unfolding span_digits
split_fraction [] = ([], [])
split_fraction (c ∷ s) = if c == b'.' then span_digits s else ([], c ∷ s)

abbrev all_digits : List ℕ × Text → Option ℕ
all_digits (ds, []) = if length ds == 0 then none else some (horner 10 0 ds)
all_digits (ds, c ∷ rest) = none

-- What follows the digits: nothing, or an exponent.
unfoldable pub read_exponent : Text → Option ℤ
unfolding span_digits split_sign
read_exponent [] = some (pos 0)
read_exponent (c ∷ s) =
    if c == b'e' || c == b'E'
    then (let (negative, t) = split_sign s in
        elim (all_digits (span_digits t)) [
          | none ↦ none
          | some e ↦ some (if negative then neg_ℕ e else pos e)
        ])
    else none

abbrev payload : List ℕ × Text → Option ℕ
payload (ds, []) = some (horner 10 0 ds)
payload (ds, c ∷ rest) = none

abbrev read_nan : Bool → Bool → Option ℕ → Option DecimalValue
read_nan negative signalling none = none
read_nan negative signalling (some n) = some (nan negative signalling n)

-- The names of what is no number, in small letters.
unfoldable pub read_special : Bool → Text → Option DecimalValue
unfolding span_digits
read_special negative s =
    if eqb_text s (text "inf") || eqb_text s (text "infinity")
    then some (infinite negative)
    else if starts_with (text "nan") s
    then read_nan negative false (payload (span_digits (drop 3 s)))
    else if starts_with (text "snan") s
    then read_nan negative true (payload (span_digits (drop 4 s)))
    else none

abbrev number : Bool → List ℕ → List ℕ → Option ℤ → Option DecimalValue
number negative whole fraction none = none
number negative whole fraction (some e) = some (
    finite (record {
      negative = negative;
      coefficient = horner 10 0 (whole ++ fraction);
      exponent = e +ℤ neg_ℕ (length fraction);
    }))

-- What follows the sign: digits with a point among them, in front of them or behind them, or a name.
unfoldable pub read_number : Bool → Text → Option DecimalValue
unfolding span_digits split_fraction read_exponent read_special
read_number negative s =
    let (whole, behind) = span_digits s in
    let (fraction, rest) = split_fraction behind in
    if length (whole ++ fraction) == 0
    then read_special negative (lower s)
    else number negative whole fraction (read_exponent rest)

unfoldable pub decimal_of_text : Text → Option DecimalValue
unfolding strip without_underscores split_sign read_number
decimal_of_text s =
    let (negative, t) = split_sign (without_underscores (strip s)) in read_number negative t

-- The parts of a list: the sign, the digits, and the exponent or one of three letters.
abbrev sign_part : Json → Result Bool
sign_part (int (pos n)) = if n == 0 then ok false else if n == 1 then ok true else err value_error
sign_part (bool b) = ok b
sign_part _ = err value_error

abbrev digit_part : Json → Result ℕ
digit_part (int (pos n)) = if ltb n 10 then ok n else err value_error
digit_part (bool true) = ok 1
digit_part (bool false) = ok 0
digit_part _ = err value_error

abbrev digits_part : Items → Result (List ℕ)
digits_part nil = ok []
digits_part (cons x xs) = do d ← digit_part x; ds ← digits_part xs; ok (d ∷ ds)

abbrev digits_of : Json → Result (List ℕ)
digits_of (arr xs) = digits_part xs
digits_of _ = err value_error

abbrev with_exponent : Bool → List ℕ → Json → Result DecimalValue
with_exponent negative ds (int e) =
    ok (finite (record { negative = negative; coefficient = horner 10 0 ds; exponent = e }))
with_exponent negative ds (bool true) =
    ok (finite (record { negative = negative; coefficient = horner 10 0 ds; exponent = pos 1 }))
with_exponent negative ds (bool false) =
    ok (finite (record { negative = negative; coefficient = horner 10 0 ds; exponent = pos 0 }))
with_exponent negative ds (str s) =
    if eqb_text s (text "F")
    then ok (infinite negative)
    else if eqb_text s (text "n")
    then ok (nan negative false (horner 10 0 ds))
    else if eqb_text s (text "N")
    then ok (nan negative true (horner 10 0 ds))
    else err value_error
with_exponent negative ds _ = err value_error

unfoldable pub decimal_of_items : Items → Result DecimalValue
decimal_of_items (cons sign (cons ds (cons exponent nil))) = do
  negative ← sign_part sign
  ds ← digits_of ds
  with_exponent negative ds exponent
decimal_of_items _ = err value_error

-- `Decimal(x)`
unfoldable pub decimal_of_json : Json → Result DecimalValue
unfolding decimal_of_text decimal_of_items
decimal_of_json (int z) = ok (finite (decimal_of_int z))
decimal_of_json (bool true) = ok (finite (decimal_of_int (pos 1)))
decimal_of_json (bool false) = ok (finite (decimal_of_int (pos 0)))
decimal_of_json (str s) = or_raise (decimal_of_text s) invalid_operation
decimal_of_json (arr xs) = decimal_of_items xs
decimal_of_json null = err type_error
decimal_of_json (obj fields) = err type_error
