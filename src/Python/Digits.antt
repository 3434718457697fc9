-- ===== src/Python/Digits.antt =====
-- A number's digits in a base, the highest first: with a fixed width, as `int.to_bytes` writes them,
-- and without leading zeros, as `str` and `hex` do.
use native.Mathlib.Nat.{
  add-mul-div_right, div-eq_of_lt, add_comm, pow-zero, div-add-mod, mul_comm, mod-lt, pow-suc,
}
use zksync_python.Prelude.{
  ℕ, zero, suc, ◌+◌, ◌*◌, ◌/◌, ◌%◌, ◌^◌, ◌≤◌, ◌<◌, ◌≡◌, refl, sym, ap, ap₂, ◌∙◌, Bool-cases, inl,
  inr, true, List, [], ◌∷◌, ◌++◌, length, replicate, All, ◌==◌, if◌then◌else◌, arith,
}

-- The number that digits spell behind `acc`.
abbrev pub horner : ℕ → ℕ → List ℕ → ℕ
horner base acc [] = acc
horner base acc (d ∷ ds) = horner base (acc * base + d) ds

abbrev pub AreDigits : ℕ → List ℕ → Type 0
AreDigits base = All (λ d. d < base)

-- `width` digits, in front of `out`.
unfoldable pub fixed_digits : ℕ → ℕ → ℕ → List ℕ → List ℕ
fixed_digits base zero n out = out
fixed_digits base (suc width) n out = fixed_digits base width (n / base) ((n % base) ∷ out)

-- Digits until nothing is left. The fuel is the number itself: every round divides it.
unfoldable pub digit_loop : ℕ → ℕ → ℕ → List ℕ → List ℕ
digit_loop base zero n out = out
digit_loop base (suc fuel) n out =
    let rest = digit_loop base fuel (n / base) ((n % base) ∷ out) in if n == 0 then out else rest

unfoldable pub digits : ℕ → ℕ → List ℕ
digits base n = if n == 0 then 0 ∷ [] else digit_loop base n n []

pub length-fixed_digits :
    (base width n : ℕ) (out : List ℕ) → length (fixed_digits base width n out) ≡ width + length out
unfolding fixed_digits
length-fixed_digits base zero n out = omega arith
length-fixed_digits base (suc width) n out =
    omega (arith, length-fixed_digits base width (n / base) ((n % base) ∷ out))

module _ (base : ℕ) (base_pos : 1 < base) where
  split_digit : (n : ℕ) → n / base * base + n % base ≡ n
  split_digit n = rw (mul_comm (n / base) base) (div-add-mod n base)

  fewer_digits : (n width : ℕ) → n < base ^ suc width → n / base < base ^ width
  fewer_digits n width h = grind (arith, split_digit n, pow-suc base width)

  lower_number : (n fuel : ℕ) → n ≤ suc fuel → n / base ≤ fuel
  lower_number n fuel h = grind (arith, split_digit n)

  without_last : (a x : ℕ) → x < base → (a * base + x) / base ≡ a
  without_last a x hx =
      rw (add_comm (a * base) x, add-mul-div_right x a {z = base} (omega arith), div-eq_of_lt hx)
        (omega arith)

  last_digit : (a b x y : ℕ) → x < base → y < base → a * base + x ≡ b * base + y → (a ≡ b) × (x ≡ y)
  last_digit a b x y hx hy e =
      let front : a ≡ b =
        sym (without_last a x hx) ∙ ap (λ (t : ℕ). t / base) e ∙ without_last b y hy in
      (front, omega (arith, ap (λ (t : ℕ). t * base) front))

  pub fixed_digits-AreDigits :
      (width n : ℕ) (out : List ℕ)
      → AreDigits base out
      → AreDigits base (fixed_digits base width n out)
  unfolding fixed_digits
  fixed_digits-AreDigits zero n out h = h
  fixed_digits-AreDigits (suc width) n out h =
      fixed_digits-AreDigits width (n / base) ((n % base) ∷ out) (mod-lt n (omega arith), h)

  pub horner-fixed_digits :
      (width n : ℕ) (out : List ℕ)
      → n < base ^ width
      → horner base 0 (fixed_digits base width n out) ≡ horner base n out
  unfolding fixed_digits
  horner-fixed_digits zero n out h =
      let nothing : n ≡ 0 = omega (arith, pow-zero base) in rw nothing
  horner-fixed_digits (suc width) n out h =
      horner-fixed_digits width (n / base) ((n % base) ∷ out) (fewer_digits n width h)
      ∙ ap (λ m. horner base m out) (split_digit n)

  -- Digit lists of one length that spell the same number are equal.
  pub horner-injective :
      (a b : ℕ) (xs ys : List ℕ)
      → length xs ≡ length ys
      → AreDigits base xs
      → AreDigits base ys
      → horner base a xs ≡ horner base b ys
      → (a ≡ b) × (xs ≡ ys)
  horner-injective a b [] [] n hx hy e = (e, refl)
  horner-injective a b [] (y ∷ ys) n hx hy e = absurd (omega arith)
  horner-injective a b (x ∷ xs) [] n hx hy e = absurd (omega arith)
  horner-injective a b (x ∷ xs) (y ∷ ys) n hx hy e =
      let (next, rest) =
        horner-injective (a * base + x) (b * base + y) xs ys (omega arith) hx.1 hy.1 e in
      let (front, here) = last_digit a b x y hx.0 hy.0 next in (front, ap₂ ◌∷◌ here rest)

  pub horner-digit_loop :
      (fuel n : ℕ) (out : List ℕ)
      → n ≤ fuel
      → horner base 0 (digit_loop base fuel n out) ≡ horner base n out
  unfolding digit_loop
  horner-digit_loop zero n out h = let none_left : n ≡ 0 = omega arith in rw none_left
  horner-digit_loop (suc fuel) n out h = elim (Bool-cases (n == 0)) [
    | inl done ↦ let nothing : n ≡ 0 = ground arith in rw (done, nothing)
    | inr more ↦ rw more (
        horner-digit_loop fuel (n / base) ((n % base) ∷ out) (lower_number n fuel h)
        ∙ ap (λ m. horner base m out) (split_digit n))
  ]

  -- The digits spell the number.
  pub horner-digits : (n : ℕ) → horner base 0 (digits base n) ≡ n
  unfolding digits
  horner-digits n = elim (Bool-cases (n == 0)) [
    | inl zero_digit ↦ let nothing : n ≡ 0 = ground arith in rw (zero_digit, nothing) (omega arith)
    | inr more ↦ rw more (horner-digit_loop n n [] (omega arith))
  ]

  digit_loop-AreDigits :
      (fuel n : ℕ) (out : List ℕ) → AreDigits base out → AreDigits base (digit_loop base fuel n out)
  unfolding digit_loop
  digit_loop-AreDigits zero n out h = h
  digit_loop-AreDigits (suc fuel) n out h = elim (Bool-cases (n == 0)) [
    | inl done ↦ rw done h
    | inr more ↦
        rw more
          (digit_loop-AreDigits fuel (n / base) ((n % base) ∷ out) (mod-lt n (omega arith), h))
  ]

  pub digits-AreDigits : (n : ℕ) → AreDigits base (digits base n)
  unfolding digits
  digits-AreDigits n = elim (Bool-cases (n == 0)) [
    | inl zero_digit ↦ rw zero_digit (omega arith, tt)
    | inr more ↦ rw more (digit_loop-AreDigits n n [] tt)
  ]

  length-digit_loop :
      (fuel width n : ℕ) (out : List ℕ)
      → n < base ^ width
      → length (digit_loop base fuel n out) ≤ width + length out
  unfolding digit_loop
  length-digit_loop zero width n out h = omega arith
  length-digit_loop (suc fuel) zero n out h =
      let done : (n == 0) ≡ true = ground (arith, pow-zero base) in rw done (omega arith)
  length-digit_loop (suc fuel) (suc width) n out h = elim (Bool-cases (n == 0)) [
    | inl done ↦ rw done (omega arith)
    | inr more ↦ rw more (
        omega (
          arith,
          length-digit_loop fuel width (n / base) ((n % base) ∷ out) (fewer_digits n width h),
        ))
  ]

  -- A number below a power has no more digits than the exponent says.
  pub length-digits : (width n : ℕ) → 0 < width → n < base ^ width → length (digits base n) ≤ width
  unfolding digits
  length-digits width n room h = elim (Bool-cases (n == 0)) [
    | inl zero_digit ↦ rw zero_digit room
    | inr more ↦ rw more (omega (arith, length-digit_loop n width n [] h))
  ]

-- Leading zeros change nothing.
pub horner-zeros :
    (base k : ℕ) (ds : List ℕ) → horner base 0 (replicate k 0 ++ ds) ≡ horner base 0 ds
horner-zeros base zero ds = refl
horner-zeros base (suc k) ds =
    let nothing : 0 * base + 0 ≡ 0 = omega arith in
    ap (λ m. horner base m (replicate k 0 ++ ds)) nothing ∙ horner-zeros base k ds
