-- ===== src/Tokens/Texts.antt =====
-- The text of an amount exists, if the token has decimals.
use zksync_python.Prelude.{
  ℕ, zero, suc, ◌<◌, ◌≡◌, ◌≢◌, refl, sym, false, ◌&&◌, [], ◌∷◌, ◌++◌, ℤ, ok, ◌==◌, if◌then◌else◌,
  arith, append_assoc, map, ◌/◌, ◌%◌, ◌^◌,
}
use zksync_python.Python.Text.{Text, eqb_text}
use zksync_python.Python.Digits.{fixed_digits}
use zksync_python.Python.Decimal.{Decimal, format_fixed, rescaled, str_ℕ, digit_char}
use zksync_python.Types.{AnyToken, base}
use zksync_python.Tokens.{rstrip_zeros, last, with_point, decimal_amount, decimal_str_amount}

-- A text with a character other than 0 is not stripped away.
rstrip_zeros-ne-nil :
    (front back : Text) (c : ℕ) → c ≢ b'0' → rstrip_zeros (front ++ (c ∷ back)) ≢ []
unfolding rstrip_zeros
rstrip_zeros-ne-nil [] back c other h = ground arith
rstrip_zeros-ne-nil (d ∷ front) back c other h =
    kept (rstrip_zeros (front ++ (c ∷ back))) (rstrip_zeros-ne-nil front back c other) h
  where
    kept :
        (rest : Text)
        → rest ≢ []
        → (if d == b'0' && eqb_text rest [] then [] else d ∷ rest) ≡ []
        → ⊥
    kept [] ne h = ne refl
    kept (e ∷ rest) ne h = ground arith

last-ok : (s : Text) → s ≢ [] → (c : ℕ) × (last s ≡ ok c)
unfolding last
last-ok [] ne = absurd (ne refl)
last-ok (c ∷ []) ne = (c, refl)
last-ok (c ∷ d ∷ s) ne = last-ok (d ∷ s) (λ h. cc)

with_point-ok : (s : Text) → s ≢ [] → (t : Text) × (with_point s ≡ ok t)
unfolding with_point
with_point-ok s ne = let (c, run) = last-ok s ne in rw run (_, refl)

format_fixed-point :
    (d : Decimal) (places : ℕ)
    → (front back : Text) × (format_fixed d (suc places) ≡ front ++ (b'.' ∷ back))
unfolding format_fixed
format_fixed-point d places =
    let n = rescaled d (suc places) in
    let sign : Text = if d.negative then b'-' ∷ [] else [] in
    (
      sign ++ str_ℕ (n / 10 ^ suc places),
      map digit_char (fixed_digits 10 (suc places) (n % 10 ^ suc places) []),
      let test : (suc places == 0) ≡ false = ground arith in
          rw test (
            sym (
              append_assoc sign (str_ℕ (n / 10 ^ suc places))
                (b'.' ∷ map digit_char (fixed_digits 10 (suc places) (n % 10 ^ suc places) [])))),
    )

text_at :
    (d : Decimal) (places : ℕ)
    → 0 < places
    → (t : Text) × (with_point (rstrip_zeros (format_fixed d places)) ≡ ok t)
text_at d zero h = absurd (omega arith)
text_at d (suc places) h =
    let (front, back, same) = format_fixed-point d places in
    let point : b'.' ≢ b'0' = omega arith in
    rw same (
      with_point-ok (rstrip_zeros (front ++ (b'.' ∷ back)))
        (rstrip_zeros-ne-nil front back b'.' point))

pub decimal_str_amount-ok :
    (token : AnyToken) (amount : ℤ)
    → 0 < (base token).decimals
    → (t : Text) × (decimal_str_amount token amount ≡ ok t)
unfolding decimal_str_amount
decimal_str_amount-ok token amount h = text_at (decimal_amount token amount) (base token).decimals h
