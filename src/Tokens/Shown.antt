-- ===== src/Tokens/Shown.antt =====
-- The amount that a text shows.
use zksync_python.Prelude.{
  ℕ, zero, suc, ◌+◌, ◌-◌, ◌*◌, ◌/◌, ◌%◌, ◌^◌, ◌<◌, ◌≤◌, ◌≡◌, refl, sym, ap, ◌∙◌, pos, neg_ℕ, ◌+ℤ◌,
  true, false, List, [], ◌∷◌, ◌++◌, length, ok, ◌==◌, arith, Bool-cases, inl, inr, some,
}
use zksync_python.Python.Text.{Text}
use zksync_python.Python.Digits.{
  horner, AreDigits, digits, digit_loop, fixed_digits, fixed_digits-AreDigits, digits-AreDigits,
  horner-digits, length-digits,
}
use zksync_python.Python.Decimal.{
  Decimal, fix, scaleb, decimal_of_int, format_fixed, rescaled, truncated, str_ℕ, int_of_decimal,
  shifted,
}
use zksync_python.Python.DecimalText.{finite, decimal_of_text}
use zksync_python.Python.DecimalText.Reading.{digit_chars, decimal_of_text-digits}
use zksync_python.Types.{Token, plain}
use zksync_python.Tokens.{
  rstrip_zeros, with_point, decimal_amount, from_decimal, decimal_str_amount,
}
use zksync_python.Tokens.ReadBack.{
  strip_digits, fraction_digits, fraction_digits-horner, rstrip_zeros-digit_chars,
  rstrip_zeros-point, with_point-digits, strip_digits-AreDigits, pow10_pos,
}

-- Digits are never none.
digit_loop-cons :
    (fuel n d : ℕ) (out : List ℕ)
    → (d' : ℕ) × (out' : List ℕ) × (digit_loop 10 fuel n (d ∷ out) ≡ d' ∷ out')
unfolding digit_loop
digit_loop-cons zero n d out = (d, out, refl)
digit_loop-cons (suc fuel) n d out = elim (Bool-cases (n == 0)) [
  | inl done ↦ (d, out, rw done refl)
  | inr more ↦
      let (d', out', same) = digit_loop-cons fuel (n / 10) (n % 10) (d ∷ out) in
      (d', out', rw more same)
]

digits-cons : (n : ℕ) → (d : ℕ) × (ds : List ℕ) × (digits 10 n ≡ d ∷ ds)
unfolding digits digit_loop
digits-cons zero = (0, [], refl)
digits-cons (suc n) =
    let (d, ds, same) = digit_loop-cons n (suc n / 10) (suc n % 10) [] in
    let more : (suc n == 0) ≡ false = ground arith in (d, ds, rw more same)

-- A number of at most 28 digits is kept.
fix-small : (d : Decimal) → d.coefficient < 10 ^ 28 → fix d ≡ d
unfolding fix
fix-small d h =
    let short = length-digits 10 (omega arith) 28 d.coefficient (omega arith) h in
    let no_extra : (length (digits 10 d.coefficient) - 28 == 0) ≡ true = ground arith in
    rw no_extra refl

places_back : (p : ℕ) → (pos 0 +ℤ neg_ℕ p) +ℤ pos p ≡ pos 0
places_back zero = ground arith
places_back (suc p) = ground arith

places_left : (f p : ℕ) → f ≤ p → (pos 0 +ℤ neg_ℕ f) +ℤ pos p ≡ pos (p - f)
places_left zero p h = ground arith
places_left (suc f) p h = ground arith

-- The text of an amount that is no more than 28 digits long.
amount_text : ℕ → ℕ → Text
amount_text places n = str_ℕ (n / 10 ^ places) ++ (b'.' ∷ digit_chars (fraction_digits places n))

abbrev units : ℕ → ℕ → Decimal
units places n = record { negative = false; coefficient = n; exponent = pos 0 +ℤ neg_ℕ places }

decimal_amount-units :
    (token : Token) (n : ℕ)
    → n < 10 ^ 28
    → decimal_amount (plain token) (pos n) ≡ units token.decimals n
unfolding decimal_amount scaleb decimal_of_int
decimal_amount-units token n small = fix-small (units token.decimals n) small

rescaled-units : (places n : ℕ) → rescaled (units places n) places ≡ n
unfolding rescaled
rescaled-units places n = ap (shifted n) (places_back places) ∙ omega arith

format_fixed-units :
    (places n : ℕ)
    → 0 < places
    → format_fixed (units places n) places
      ≡ str_ℕ (n / 10 ^ places)
        ++ (b'.' ∷ digit_chars (fixed_digits 10 places (n % 10 ^ places) []))
unfolding format_fixed
format_fixed-units places n room =
    let some_places : (places == 0) ≡ false = ground arith in
    rw (rescaled-units places n, some_places) refl

decimal_str_amount-digits :
    (token : Token) (n : ℕ)
    → 0 < token.decimals
    → n < 10 ^ 28
    → decimal_str_amount (plain token) (pos n) ≡ ok (amount_text token.decimals n)
unfolding decimal_str_amount amount_text fraction_digits
decimal_str_amount-digits token n room small =
    let places = token.decimals in
    let front = str_ℕ (n / 10 ^ places) in
    let ds = fixed_digits 10 places (n % 10 ^ places) [] in
    let are_digits = fixed_digits-AreDigits 10 (omega arith) places (n % 10 ^ places) [] tt in
    ap (λ d. with_point (rstrip_zeros (format_fixed d places))) (decimal_amount-units token n small)
    ∙ ap (λ s. with_point (rstrip_zeros s)) (format_fixed-units places n room)
    ∙ ap with_point (rstrip_zeros-point front (digit_chars ds))
    ∙ ap (λ s. with_point (front ++ (b'.' ∷ s))) (rstrip_zeros-digit_chars ds)
    ∙ with_point-digits front (strip_digits ds) (strip_digits-AreDigits ds are_digits)

-- The digits of the whole part and those behind the point make one number.
horner-append : (a : ℕ) (xs ys : List ℕ) → horner 10 a (xs ++ ys) ≡ horner 10 (horner 10 a xs) ys
horner-append a [] ys = refl
horner-append a (x ∷ xs) ys = horner-append (a * 10 + x) xs ys

-- That text is read as the whole number of units behind the point.
decimal_of_text-amount_text :
    (places n : ℕ)
    → 0 < places
    → decimal_of_text (amount_text places n)
      ≡ some (
          finite (
            units
              (length (fraction_digits places n))
              (horner 10 (n / 10 ^ places) (fraction_digits places n))))
unfolding amount_text str_ℕ
decimal_of_text-amount_text places n room =
    let fraction = fraction_digits places n in
    let (are_digits, _, _) = fraction_digits-horner places n room in
    let (d, whole, same) = digits-cons (n / 10 ^ places) in
    let are_whole : AreDigits 10 (d ∷ whole) =
      rw same at (digits-AreDigits 10 (omega arith) (n / 10 ^ places)) in
    let spelt : horner 10 0 ((d ∷ whole) ++ fraction) ≡ horner 10 (n / 10 ^ places) fraction =
      horner-append 0 (d ∷ whole) fraction
      ∙ ap (λ ds. horner 10 (horner 10 0 ds) fraction) (sym same)
      ∙ ap (λ (m : ℕ). horner 10 m fraction) (horner-digits 10 (omega arith) (n / 10 ^ places)) in
    ap (λ ds. decimal_of_text (digit_chars ds ++ (b'.' ∷ digit_chars fraction))) same
    ∙ decimal_of_text-digits d whole fraction are_whole.0 are_whole.1 are_digits
    ∙ ap (λ m. some (finite (units (length fraction) m))) spelt

from_decimal-units :
    (token : Token) (f m n : ℕ)
    → f ≤ token.decimals
    → m * 10 ^ (token.decimals - f) ≡ n
    → n < 10 ^ 28
    → from_decimal (plain token) (units f m) ≡ pos n
unfolding from_decimal scaleb int_of_decimal
from_decimal-units token f m n fits same small =
    let few : m < 10 ^ 28 = grind (arith, pow10_pos (token.decimals - f)) in
    ap (λ (d : Decimal). int_of_decimal d)
      (fix-small
        (record {
          negative = false;
          coefficient = m;
          exponent = (pos 0 +ℤ neg_ℕ f) +ℤ pos token.decimals;
        })
        few)
    ∙ ap (λ z. pos (truncated m z)) (places_left f token.decimals fits)
    ∙ ap pos same

-- The text of an amount that a user is shown is read by `Decimal`, and `from_decimal` makes of what is
-- read the very amount again: for every token with decimals and every amount of at most 28 digits.
pub decimal_str_amount-from_decimal :
    (token : Token) (n : ℕ)
    → 0 < token.decimals
    → n < 10 ^ 28
    → (shown : Text) × (d : Decimal) × (decimal_str_amount (plain token) (pos n) ≡ ok shown)
      × (decimal_of_text shown ≡ some (finite d))
      × (from_decimal (plain token) d ≡ pos n)
decimal_str_amount-from_decimal token n room small =
    let (_, fits, same) = fraction_digits-horner token.decimals n room in
    (
      amount_text token.decimals n,
      _,
      decimal_str_amount-digits token n room small,
      decimal_of_text-amount_text token.decimals n room,
      from_decimal-units token (length (fraction_digits token.decimals n))
          (horner 10 (n / 10 ^ token.decimals) (fraction_digits token.decimals n)) n fits same
          small,
    )
