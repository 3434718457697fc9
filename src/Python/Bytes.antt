-- ===== src/Python/Bytes.antt =====
-- What `int.to_bytes` returns, and that the hexadecimal text of a number is read back as the bytes
-- of that number.
use zksync_python.Prelude.{
  ℕ, zero, suc, ◌+◌, ◌-◌, ◌*◌, ◌^◌, ◌<◌, ◌≡◌, refl, sym, ap, ◌∙◌, List, [], ◌∷◌, ◌++◌, length,
  replicate, All-append, map, arith, ℤ, pos, negsuc, ok, lt→ltb, length-append, length-replicate,
  length-map, Bool-cases, inl, inr, ltb, ltb→lt, ok-injective,
}
use mathlib.Core.List.{map-append}
use zksync_python.Python.Digits.{
  horner, AreDigits, fixed_digits, digits, length-fixed_digits, fixed_digits-AreDigits,
  horner-fixed_digits, horner-injective, horner-digits, digits-AreDigits, length-digits,
  horner-zeros,
}
use zksync_python.Python.Hex.{Bytes, to_bytes, hex_char, zfill, fromhex, fromhex-pair, pair_digits}

-- A conversion that succeeds has the given length and consists of bytes that spell the number.
pub to_bytes_sound :
    (z : ℤ) (width : ℕ) (bytes : Bytes)
    → to_bytes z width ≡ ok bytes
    → (n : ℕ) × (z ≡ pos n)
      × (n < 256 ^ width)
      × (length bytes ≡ width)
      × AreDigits 256 bytes
      × (horner 256 0 bytes ≡ n)
unfolding to_bytes
to_bytes_sound (negsuc n) width bytes h = cc
to_bytes_sound (pos n) width bytes h = elim (Bool-cases (ltb n (256 ^ width))) [
  | inl fits ↦
      let room = ltb→lt n (256 ^ width) fits in
      let same : fixed_digits 256 width n [] ≡ bytes = ok-injective (rw fits at h) in
      (
        n,
        refl,
        room,
        ap length (sym same) ∙ length-fixed_digits 256 width n [] ∙ omega arith,
        rw same at (fixed_digits-AreDigits 256 (omega arith) width n [] tt),
        rw same at (horner-fixed_digits 256 (omega arith) width n [] room),
      )
  | inr big ↦ ground arith
]

-- A number that fits is converted.
pub to_bytes_fits :
    (n width : ℕ) → n < 256 ^ width → to_bytes (pos n) width ≡ ok (fixed_digits 256 width n [])
unfolding to_bytes
to_bytes_fits n width h = rw (lt→ltb n (256 ^ width) h)

-- The bytes determine the number.
pub to_bytes-injective :
    (y z : ℤ) (width : ℕ) (bytes : Bytes)
    → to_bytes y width ≡ ok bytes
    → to_bytes z width ≡ ok bytes
    → y ≡ z
to_bytes-injective y z width bytes hy hz =
    let (m, same_y, _, _, _, spell_y) = to_bytes_sound y width bytes hy in
    let (n, same_z, _, _, _, spell_z) = to_bytes_sound z width bytes hz in
    same_y ∙ ap pos (sym spell_y ∙ spell_z) ∙ sym same_z

-- An even number of hexadecimal digits is read in pairs.
fromhex-digits :
    (k : ℕ) (ds : List ℕ)
    → length ds ≡ 2 * k
    → AreDigits 16 ds
    → fromhex (map hex_char ds) ≡ ok (pair_digits ds)
fromhex-digits zero [] n h = unfold fromhex in refl
fromhex-digits (suc k) (x ∷ y ∷ ds) n (hx, (hy, h)) =
    fromhex-pair x y (map hex_char ds) (pair_digits ds) hx hy (fromhex-digits k ds (omega arith) h)
fromhex-digits _ _ n h = absurd (omega arith)

pair_digits_lem :
    (k a : ℕ) (ds : List ℕ)
    → length ds ≡ 2 * k
    → AreDigits 16 ds
    → (length (pair_digits ds) ≡ k)
      × AreDigits 256 (pair_digits ds)
      × (horner 256 a (pair_digits ds) ≡ horner 16 a ds)
pair_digits_lem zero a [] n h = (refl, tt, refl)
pair_digits_lem (suc k) a (x ∷ y ∷ ds) n (hx, (hy, h)) =
    let (len, ok_digits, spells) = pair_digits_lem k (a * 256 + (x * 16 + y)) ds (omega arith) h in
    let regroup : a * 256 + (x * 16 + y) ≡ (a * 16 + x) * 16 + y = omega arith in
    (ap suc len, (omega arith, ok_digits), spells ∙ ap (λ m. horner 16 m ds) regroup)
pair_digits_lem _ a _ n h = absurd (omega arith)

map-replicate : (k a : ℕ) (f : ℕ → ℕ) → map f (replicate k a) ≡ replicate k (f a)
map-replicate zero a f = refl
map-replicate (suc k) a f = ap (λ s. f a ∷ s) (map-replicate k a f)

replicate-AreDigits : (base k : ℕ) → 0 < base → AreDigits base (replicate k 0)
replicate-AreDigits base zero h = tt
replicate-AreDigits base (suc k) h = (h, replicate-AreDigits base k h)

module _ (k n : ℕ) (positive : 0 < k) (fits : n < 16 ^ (2 * k)) where
  abbrev padded : List ℕ
  padded = replicate (2 * k - length (digits 16 n)) 0 ++ digits 16 n

  length-padded : length padded ≡ 2 * k
  length-padded = omega (
    arith,
    length-append (replicate (2 * k - length (digits 16 n)) 0) (digits 16 n),
    length-replicate {A = ℕ} (2 * k - length (digits 16 n)) 0,
    length-digits 16 (omega arith) (2 * k) n (omega arith) fits,
  )

  padded-AreDigits : AreDigits 16 padded
  padded-AreDigits =
      All-append (λ d. d < 16) (replicate (2 * k - length (digits 16 n)) 0) (digits 16 n)
        (replicate-AreDigits 16 (2 * k - length (digits 16 n)) (omega arith))
        (digits-AreDigits 16 (omega arith) n)

  padded_text : zfill (map hex_char (digits 16 n)) (2 * k) ≡ map hex_char padded
  padded_text = rw (length-map (digits 16 n) hex_char) (
      ap (λ s. s ++ map hex_char (digits 16 n))
        (sym (map-replicate (2 * k - length (digits 16 n)) 0 hex_char))
      ∙ sym (map-append hex_char (replicate (2 * k - length (digits 16 n)) 0) (digits 16 n)))

  -- The hexadecimal text of a number, padded to two digits a byte, is read as the number's bytes.
  pub fromhex-zfill :
      n < 256 ^ k
      → fromhex (zfill (map hex_char (digits 16 n)) (2 * k)) ≡ ok (fixed_digits 256 k n [])
  fromhex-zfill room =
      let (len, bytes_ok, spells) = pair_digits_lem k 0 padded length-padded padded-AreDigits in
      let (_, same) =
        horner-injective 256 (omega arith) 0 0 (pair_digits padded) (fixed_digits 256 k n [])
          (omega (arith, len, length-fixed_digits 256 k n [])) bytes_ok
          (fixed_digits-AreDigits 256 (omega arith) k n [] tt)
          (spells
            ∙ horner-zeros 16 (2 * k - length (digits 16 n)) (digits 16 n)
            ∙ horner-digits 16 (omega arith) n
            ∙ sym (horner-fixed_digits 256 (omega arith) k n [] room)) in
      rw (padded_text, fromhex-digits k padded length-padded padded-AreDigits, same)
