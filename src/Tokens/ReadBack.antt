-- ===== src/Tokens/ReadBack.antt =====
-- The text of an amount that a user is asked to sign, read back.
use native.Mathlib.Nat.{div-add-mod', mod-lt, mul_comm, mul_assoc, pow-suc, pow-zero}
use zksync_python.Prelude.{
  ℕ, zero, suc, ◌+◌, ◌-◌, ◌*◌, ◌/◌, ◌%◌, ◌^◌, ◌<◌, ◌≤◌, ◌≡◌, refl, sym, ap, ◌∙◌, Bool, true, false,
  ◌&&◌, List, [], ◌∷◌, ◌++◌, length, ok, ◌==◌, if◌then◌else◌, arith, Bool-cases, inl, inr,
  append_assoc,
}
use zksync_python.Python.Text.{Text, eqb_text}
use zksync_python.Python.Digits.{
  horner, AreDigits, fixed_digits, fixed_digits-AreDigits, horner-fixed_digits, length-fixed_digits,
}
use zksync_python.Python.Decimal.{digit_char}
use zksync_python.Python.DecimalText.Reading.{digit_chars}
use zksync_python.Tokens.{rstrip_zeros, last, with_point, has_point}

-- `rstrip` on digits.
abbrev pub is_nil : List ℕ → Bool
is_nil [] = true
is_nil (d ∷ ds) = false

unfoldable pub strip_digits : List ℕ → List ℕ
strip_digits [] = []
strip_digits (d ∷ ds) = let rest = strip_digits ds in if d == 0 && is_nil rest then [] else d ∷ rest

pub rstrip_zeros-digit_chars :
    (ds : List ℕ) → rstrip_zeros (digit_chars ds) ≡ digit_chars (strip_digits ds)
unfolding rstrip_zeros strip_digits
rstrip_zeros-digit_chars [] = refl
rstrip_zeros-digit_chars (d ∷ ds) = rw (rstrip_zeros-digit_chars ds) (chosen (strip_digits ds))
  where
    chosen :
        (rest : List ℕ)
        → (if digit_char d == b'0' && eqb_text (digit_chars rest) []
            then []
            else digit_char d ∷ digit_chars rest)
          ≡ digit_chars (if d == 0 && is_nil rest then [] else d ∷ rest)
    chosen [] = ground arith
    chosen (e ∷ rest) = ground arith

-- What is stripped are zeros: it takes nothing from the number but their places.
strip_digits-horner :
    (a : ℕ) (ds : List ℕ)
    → (length (strip_digits ds) ≤ length ds)
      × (horner 10 a (strip_digits ds) * 10 ^ (length ds - length (strip_digits ds))
          ≡ horner 10 a ds)
unfolding strip_digits
strip_digits-horner a [] = (omega arith, omega (arith, pow-zero 10))
strip_digits-horner a (d ∷ ds) =
    let (le, same) = strip_digits-horner (a * 10 + d) ds in stripped (strip_digits ds) le same
  where
    stripped :
        (rest : List ℕ)
        → length rest ≤ length ds
        → horner 10 (a * 10 + d) rest * 10 ^ (length ds - length rest) ≡ horner 10 (a * 10 + d) ds
        → (length (if d == 0 && is_nil rest then [] else d ∷ rest) ≤ suc (length ds))
          × (horner 10 a (if d == 0 && is_nil rest then [] else d ∷ rest)
                * 10 ^ (suc (length ds) - length (if d == 0 && is_nil rest then [] else d ∷ rest))
              ≡ horner 10 (a * 10 + d) ds)
    stripped [] le same = elim (Bool-cases (d == 0)) [
      | inl is_zero ↦
          let nothing : d ≡ 0 = ground arith in
          let whole : length ds - 0 ≡ length ds = omega arith in
          let power = pow-suc 10 (length ds) in
          let all : suc (length ds) - 0 ≡ suc (length ds) = omega arith in
          let shifted : a * 10 ≡ a * 10 + d = omega arith in
          rw is_zero (
            omega arith,
            rw (all, power, mul_comm (10 ^ length ds) 10)
                (sym (mul_assoc a 10 (10 ^ length ds))
                  ∙ ap (λ (m : ℕ). m * 10 ^ length ds) shifted
                  ∙ ap (λ (k : ℕ). (a * 10 + d) * 10 ^ k) (sym whole)
                  ∙ same),
          )
      | inr other ↦
          let places : suc (length ds) - 1 ≡ length ds - 0 = omega arith in
          rw other (omega arith, rw places same)
    ]
    stripped (e ∷ rest) le same =
        let kept : (d == 0 && false) ≡ false = ground arith in
        let places : suc (length ds) - suc (suc (length rest)) ≡ length ds - suc (length rest) =
          omega arith in
        rw kept (omega arith, rw places same)

pub strip_digits-AreDigits : (ds : List ℕ) → AreDigits 10 ds → AreDigits 10 (strip_digits ds)
unfolding strip_digits
strip_digits-AreDigits [] h = tt
strip_digits-AreDigits (d ∷ ds) h = elim (Bool-cases (d == 0 && is_nil (strip_digits ds))) [
  | inl none_left ↦ rw none_left tt
  | inr some_left ↦ rw some_left (h.0, strip_digits-AreDigits ds h.1)
]

pub rstrip_zeros-point :
    (front back : Text)
    → rstrip_zeros (front ++ (b'.' ∷ back)) ≡ front ++ (b'.' ∷ rstrip_zeros back)
unfolding rstrip_zeros
rstrip_zeros-point [] back = ground arith
rstrip_zeros-point (c ∷ front) back = rw (rstrip_zeros-point front back) (kept front)
  where
    kept :
        (front : Text)
        → (if c == b'0' && eqb_text (front ++ (b'.' ∷ rstrip_zeros back)) []
            then []
            else c ∷ (front ++ (b'.' ∷ rstrip_zeros back)))
          ≡ c ∷ (front ++ (b'.' ∷ rstrip_zeros back))
    kept [] = ground arith
    kept (d ∷ front) = ground arith

last-append : (s : Text) (c : ℕ) (t : Text) → last (s ++ (c ∷ t)) ≡ last (c ∷ t)
unfolding last
last-append [] c t = refl
last-append (a ∷ []) c t = refl
last-append (a ∷ b ∷ s) c t = last-append (b ∷ s) c t

has_point-append : (s t : Text) → has_point (s ++ (b'.' ∷ t)) ≡ true
unfolding has_point
has_point-append [] t = refl
has_point-append (c ∷ s) t = elim (Bool-cases (c == b'.')) [
  | inl point ↦ rw point refl
  | inr other ↦ rw other (has_point-append s t)
]

-- The last of some digits is no point.
last-digit_chars :
    (d : ℕ) (ds : List ℕ)
    → AreDigits 10 (d ∷ ds)
    → (c : ℕ) × (last (digit_chars (d ∷ ds)) ≡ ok c) × ((c == b'.') ≡ false)
unfolding last
last-digit_chars d [] h = (digit_char d, refl, ground arith)
last-digit_chars d (e ∷ ds) h = last-digit_chars e ds h.1

-- The digits behind the point: at least one.
abbrev pub at_least_one : List ℕ → List ℕ
at_least_one [] = 0 ∷ []
at_least_one (d ∷ ds) = d ∷ ds

pub with_point-digits :
    (front : Text) (ds : List ℕ)
    → AreDigits 10 ds
    → with_point (front ++ (b'.' ∷ digit_chars ds))
      ≡ ok (front ++ (b'.' ∷ digit_chars (at_least_one ds)))
unfolding with_point last
with_point-digits front [] h =
    rw (last-append front b'.' []) (ap ok (append_assoc front (b'.' ∷ []) (b'0' ∷ [])))
with_point-digits front (d ∷ ds) h =
    let (c, run, no_point) = last-digit_chars d ds h in
    let ends : last (front ++ (b'.' ∷ digit_chars (d ∷ ds))) ≡ ok c =
      last-append front b'.' (digit_chars (d ∷ ds)) ∙ run in
    rw (ends, no_point, has_point-append front (digit_chars (d ∷ ds))) refl

pub pow10_pos : (k : ℕ) → 0 < 10 ^ k
pow10_pos zero = omega (arith, pow-zero 10)
pow10_pos (suc k) = omega (arith, pow-suc 10 k, pow10_pos k)

horner_front : (a : ℕ) (ds : List ℕ) → horner 10 a ds ≡ a * 10 ^ length ds + horner 10 0 ds
horner_front a [] = omega (arith, pow-zero 10)
horner_front a (d ∷ ds) =
    horner_front (a * 10 + d) ds
    ∙ rw (pow-suc 10 (length ds)) (grind (arith, horner_front (0 * 10 + d) ds))

unfoldable pub fraction_digits : ℕ → ℕ → List ℕ
fraction_digits places n = at_least_one (strip_digits (fixed_digits 10 places (n % 10 ^ places) []))

at_least_one-AreDigits : (ds : List ℕ) → AreDigits 10 ds → AreDigits 10 (at_least_one ds)
at_least_one-AreDigits [] h = (omega arith, tt)
at_least_one-AreDigits (d ∷ ds) h = h

-- With a zero for nothing the number stays the same, if there is a place.
at_least_one-horner :
    (a places : ℕ) (ds : List ℕ)
    → 0 < places
    → length ds ≤ places
    → (length (at_least_one ds) ≤ places)
      × (horner 10 a (at_least_one ds) * 10 ^ (places - length (at_least_one ds))
          ≡ horner 10 a ds * 10 ^ (places - length ds))
at_least_one-horner a zero [] room le = absurd (omega arith)
at_least_one-horner a (suc places) [] room le =
    let one : suc places - 1 ≡ places = omega arith in
    let all : suc places - 0 ≡ suc places = omega arith in
    (
      omega arith,
      rw (one, all, pow-suc 10 places, mul_comm (10 ^ places) 10)
          (ap (λ (m : ℕ). m * 10 ^ places) (omega arith) ∙ mul_assoc a 10 (10 ^ places)),
    )
at_least_one-horner a places (d ∷ ds) room le = (le, refl)

-- The whole part and the digits behind the point spell the number at the last of the places.
pub fraction_digits-horner :
    (places n : ℕ)
    → 0 < places
    → AreDigits 10 (fraction_digits places n)
      × (length (fraction_digits places n) ≤ places)
      × (horner 10 (n / 10 ^ places) (fraction_digits places n)
            * 10 ^ (places - length (fraction_digits places n))
          ≡ n)
unfolding fraction_digits
fraction_digits-horner places n room =
    let whole = n / 10 ^ places in
    let ds = fixed_digits 10 places (n % 10 ^ places) [] in
    let are_digits : AreDigits 10 ds =
      fixed_digits-AreDigits 10 (omega arith) places (n % 10 ^ places) [] tt in
    let width : length ds ≡ places =
      omega (arith, length-fixed_digits 10 places (n % 10 ^ places) []) in
    let (shorter, same) = strip_digits-horner whole ds in
    let (fits, same') = at_least_one-horner whole places (strip_digits ds) room (omega arith) in
    (
      at_least_one-AreDigits (strip_digits ds) (strip_digits-AreDigits ds are_digits),
      fits,
      same'
          ∙ ap (λ (w : ℕ). horner 10 whole (strip_digits ds) * 10 ^ (w - length (strip_digits ds)))
              (sym width)
          ∙ same
          ∙ horner_front whole ds
          ∙ rw width (
              ap (λ (m : ℕ). whole * 10 ^ places + m)
                (horner-fixed_digits 10 (omega arith) places (n % 10 ^ places) []
                  (mod-lt n (pow10_pos places)))
              ∙ div-add-mod' n (10 ^ places)),
    )
