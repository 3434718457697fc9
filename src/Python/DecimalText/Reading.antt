-- ===== src/Python/DecimalText/Reading.antt =====
-- What `Decimal` makes of plain digits with a point among them.
use zksync_python.Prelude.{
  ℕ, suc, ◌-◌, ◌<◌, ◌≡◌, refl, sym, ap, ◌∙◌, pos, ◌+ℤ◌, neg_ℕ, Bool, true, false, List, [], ◌∷◌,
  ◌++◌, length, map, reverse, reverse-reverse, reverse-append, append-nil, subst, All, some, ◌==◌,
  arith,
}
use zksync_python.Python.Text.{Text}
use zksync_python.Python.Digits.{horner, AreDigits}
use zksync_python.Python.Decimal.{digit_char}
use zksync_python.Python.IntText.{strip, strip_left, is_space, is_digit}
use zksync_python.Python.DecimalText.{
  finite, without_underscores, span_digits, split_sign, split_fraction, read_exponent, read_number,
  decimal_of_text,
}

-- Neither white space nor an underscore nor a sign.
abbrev IsPlain : ℕ → Type 0
IsPlain c = (is_space c ≡ false) × ((c == b'_') ≡ false)

abbrev ArePlain : Text → Type 0
ArePlain = All IsPlain

abbrev pub digit_chars : List ℕ → Text
digit_chars = map digit_char

digit_char-IsPlain : (d : ℕ) → d < 10 → IsPlain (digit_char d)
digit_char-IsPlain d h = ground arith

digit_chars-ArePlain : (ds : List ℕ) → AreDigits 10 ds → ArePlain (digit_chars ds)
digit_chars-ArePlain [] h = tt
digit_chars-ArePlain (d ∷ ds) h = (digit_char-IsPlain d h.0, digit_chars-ArePlain ds h.1)

ArePlain-append : (s t : Text) → ArePlain s → ArePlain t → ArePlain (s ++ t)
ArePlain-append [] t hs ht = ht
ArePlain-append (c ∷ s) t hs ht = (hs.0, ArePlain-append s t hs.1 ht)

ArePlain-reverse : (s : Text) → ArePlain s → ArePlain (reverse s)
ArePlain-reverse [] h = tt
ArePlain-reverse (c ∷ s) h =
    subst ArePlain (sym (reverse-append (c ∷ []) s))
      (ArePlain-append (reverse s) (c ∷ []) (ArePlain-reverse s h.1) (h.0, tt))

strip_left-plain : (s : Text) → ArePlain s → strip_left s ≡ s
unfolding strip_left
strip_left-plain [] h = refl
strip_left-plain (c ∷ s) h = rw h.0.0 refl

strip-plain : (s : Text) → ArePlain s → strip s ≡ s
unfolding strip
strip-plain s h =
    rw (strip_left-plain s h, strip_left-plain (reverse s) (ArePlain-reverse s h))
      (reverse-reverse s)

without_underscores-plain : (s : Text) → ArePlain s → without_underscores s ≡ s
unfolding without_underscores
without_underscores-plain [] h = refl
without_underscores-plain (c ∷ s) h = rw (h.0.1) (ap (λ t. c ∷ t) (without_underscores-plain s h.1))

-- A text that no digit starts.
abbrev Stops : Text → Type 0
Stops [] = Unit
Stops (c ∷ s) = is_digit c ≡ false

span_digits_stop : (rest : Text) → Stops rest → span_digits rest ≡ ([], rest)
unfolding span_digits
span_digits_stop [] h = refl
span_digits_stop (c ∷ s) h = rw h refl

span_digits-digit_chars :
    (ds : List ℕ) (rest : Text)
    → AreDigits 10 ds
    → Stops rest
    → span_digits (digit_chars ds ++ rest) ≡ (ds, rest)
unfolding span_digits
span_digits-digit_chars [] rest h stops = span_digits_stop rest stops
span_digits-digit_chars (d ∷ ds) rest h stops =
    let digit : is_digit (digit_char d) ≡ true = ground arith in
    let value : digit_char d - b'0' ≡ d = omega arith in
    rw (span_digits-digit_chars ds rest h.1 stops, digit, value) refl

decimal_of_text-plain :
    (s : Text)
    → ArePlain s
    → decimal_of_text s ≡ (let (negative, t) = split_sign s in read_number negative t)
unfolding decimal_of_text
decimal_of_text-plain s h = rw (strip-plain s h) (rw (without_underscores-plain s h) refl)

split_sign-digit :
    (d : ℕ) (s : Text) → d < 10 → split_sign (digit_char d ∷ s) ≡ (false, digit_char d ∷ s)
unfolding split_sign
split_sign-digit d s h = ground arith

split_fraction-digits :
    (fraction : List ℕ)
    → AreDigits 10 fraction
    → split_fraction (b'.' ∷ digit_chars fraction) ≡ (fraction, [])
unfolding split_fraction
split_fraction-digits fraction h =
    ap span_digits (sym (append-nil (digit_chars fraction)))
    ∙ span_digits-digit_chars fraction [] h tt

-- Digits, a point and digits are read as the number that all the digits spell, shifted by the places
-- behind the point.
pub decimal_of_text-digits :
    (d : ℕ) (whole fraction : List ℕ)
    → d < 10
    → AreDigits 10 whole
    → AreDigits 10 fraction
    → decimal_of_text (digit_chars (d ∷ whole) ++ (b'.' ∷ digit_chars fraction))
      ≡ some (
          finite (record {
            negative = false;
            coefficient = horner 10 0 ((d ∷ whole) ++ fraction);
            exponent = pos 0 +ℤ neg_ℕ (length fraction);
          }))
unfolding read_number read_exponent
decimal_of_text-digits d whole fraction hd hw hf =
    let s : Text = digit_chars (d ∷ whole) ++ (b'.' ∷ digit_chars fraction) in
    let plain : ArePlain s =
      ArePlain-append (digit_chars (d ∷ whole)) (b'.' ∷ digit_chars fraction)
        (digit_chars-ArePlain (d ∷ whole) (hd, hw))
        ((refl, refl), digit_chars-ArePlain fraction hf) in
    let some_digits : (suc (length (whole ++ fraction)) == 0) ≡ false = ground arith in
    decimal_of_text-plain s plain
    ∙ ap (λ (p : Bool × Text). read_number p.0 p.1)
        (split_sign-digit d (digit_chars whole ++ (b'.' ∷ digit_chars fraction)) hd)
    ∙ rw
        (
          span_digits-digit_chars (d ∷ whole) (b'.' ∷ digit_chars fraction) (hd, hw) refl,
          read_number,
        )
        (rw (split_fraction-digits fraction hf) (rw some_digits refl))
