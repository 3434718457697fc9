-- ===== src/Serializers/Format.antt =====
-- One packed format, for any field widths that fill whole bytes: packing, rounding and the check
-- that `pack_amount`, `pack_fee` and the functions built on them make.
use zksync_python.Prelude.{
  ℕ, zero, suc, ◌+◌, ◌-◌, ◌*◌, ◌/◌, ◌^◌, ◌≤◌, ◌<◌, ◌≡◌, ◌≢◌, refl, sym, ap, ◌∙◌, Bool-cases, inl,
  false, inr, ltb, arith, ℤ, pos, negsuc, ok, err, Result, ◌>>=◌, ◌>>◌, raise_if, eqb_ℤ, not, true,
  ◌==◌, if◌then◌else◌, lt→ltb, List, length, wrong_integer, value_not_packed, ◌⊎◌, pos-injective,
}
use native.Mathlib.Nat.{one-le-pow, mul_comm, mul-le-mul, pow-le-pow_right}
use native.Mathlib.Decide.{dec_le}
use zksync_python.Serializers.{
  integer_to_float, find_exponent, choose_mantissa, float_bytes, bytes_of_ints, reverse_bits,
  float_to_integer, num_to_bits,
}
use zksync_python.Serializers.Bits.{value, value-num_to_bits}
use zksync_python.Serializers.Float.{
  packed, length-packed, float_bytes-packed, bytes_of_ints-packed, float_to_integer-packed,
}
use zksync_python.Serializers.Rounding.{find_exponent-Found, Greatest, choose_mantissa-Greatest}

module _ (exp_bits mantissa_bits : ℕ) where
  -- The bodies of the functions for amounts and for fees.
  abbrev pub pack : ℤ → Result (List ℕ)
  pack z = do
    bytes ← integer_to_float z exp_bits mantissa_bits 10
    bytes_of_ints (reverse_bits bytes)

  abbrev pub closest : ℤ → Result ℕ
  closest z = do bytes ← pack z; float_to_integer bytes exp_bits mantissa_bits 10

  abbrev pub checked : ℤ → Result (List ℕ)
  checked z = do
    rounded ← closest z
    raise_if (not (eqb_ℤ (pos rounded) z)) value_not_packed
    pack z

  abbrev pub top : ℕ
  top = 2 ^ exp_bits - 1

  abbrev pub max_mantissa : ℕ
  max_mantissa = 2 ^ mantissa_bits - 1

  -- The greatest number of the format.
  abbrev pub max_packable : ℕ
  max_packable = max_mantissa * 10 ^ top

  -- The numbers of the format.
  abbrev pub IsPackable : ℕ → Type 0
  IsPackable n =
      (mantissa : ℕ) × (exponent : ℕ) × (mantissa < 2 ^ mantissa_bits)
      × (exponent < 2 ^ exp_bits)
      × (n ≡ 10 ^ exponent * mantissa)

module _ (exp_bits mantissa_bits k : ℕ) (whole : exp_bits + mantissa_bits ≡ 8 * k) where
  -- The exponent and the mantissa that are found for a number in range.
  choice :
      (n : ℕ)
      → n ≤ max_packable exp_bits mantissa_bits
      → (m e : ℕ) × (integer_to_float (pos n) exp_bits mantissa_bits 10
          ≡ float_bytes (pos m) e exp_bits mantissa_bits)
        × Greatest n (max_mantissa exp_bits mantissa_bits) 10 (top exp_bits mantissa_bits) m e
  unfolding integer_to_float
  choice n h =
      let powers : 0 < 2 ^ exp_bits = one-le-pow exp_bits 2 (omega arith) in
      let in_range : ltb (max_packable exp_bits mantissa_bits) n ≡ false = ground arith in
      let (j, run, found) =
        find_exponent-Found n (max_mantissa exp_bits mantissa_bits) 10 (top exp_bits mantissa_bits)
          h (2 ^ exp_bits) 0 (omega arith) (omega arith) in
      let (m, e, chosen, greatest) =
        choose_mantissa-Greatest n (max_mantissa exp_bits mantissa_bits) 10 (omega arith)
          (top exp_bits mantissa_bits) j found in
      (m, e, rw (in_range, run, chosen), greatest)

  -- The greatest number of the format up to `n`, with the bytes that are written for it.
  pub record Rounds (n r : ℕ) (bytes : List ℕ) : Type 0 where
    pub packs : pack exp_bits mantissa_bits (pos n) ≡ ok bytes
    pub reads : float_to_integer bytes exp_bits mantissa_bits 10 ≡ ok r
    pub sized : length bytes ≡ k
    pub packable : IsPackable exp_bits mantissa_bits r
    pub below : r ≤ n
    pub greatest : (r' : ℕ) → IsPackable exp_bits mantissa_bits r' → r' ≤ n → r' ≤ r

  pub pack-Rounds :
      (n : ℕ)
      → n ≤ max_packable exp_bits mantissa_bits
      → (r : ℕ) × (bytes : List ℕ) × Rounds n r bytes
  pack-Rounds n h =
      let (m, e, chosen, g) = choice n h in
      let mantissa_room : m < 2 ^ mantissa_bits =
        omega (arith, g.mantissa_fits, one-le-pow mantissa_bits 2 (omega arith)) in
      let exponent_room : e < 2 ^ exp_bits =
        omega (arith, g.exponent_fits, one-le-pow exp_bits 2 (omega arith)) in
      let written = rounded_bytes m e in
      (
        10 ^ e * m,
        written,
        record {
          packs =
              rw (chosen, float_bytes-packed e (pos m) exp_bits mantissa_bits k whole)
                (bytes_of_ints-packed e (pos m) exp_bits mantissa_bits k whole);
          reads =
              float_to_integer-packed e (pos m) exp_bits mantissa_bits k whole 10 exponent_room
              ∙ ap (λ v. ok (10 ^ e * v)) (value-num_to_bits m mantissa_bits mantissa_room);
          sized = length-packed e (pos m) exp_bits mantissa_bits k whole;
          packable = (m, e, mantissa_room, exponent_room, refl);
          below = g.below;
          greatest = λ r' packable_r' le.
              let (m', e', hm, he, same) = packable_r' in
              rw same (g.greatest m' e' (omega arith) (omega arith) (omega arith));
        },
      )
    where
      rounded_bytes : ℕ → ℕ → List ℕ
      rounded_bytes m e = packed e (pos m) exp_bits mantissa_bits k whole

  -- A number of the format lies in its range, and is rounded to itself.
  packable-le-max :
      (n : ℕ) → IsPackable exp_bits mantissa_bits n → n ≤ max_packable exp_bits mantissa_bits
  packable-le-max n (m, e, hm, he, same) =
      rw (same, mul_comm (10 ^ e) m)
        (mul-le-mul {n₁ = m} (omega arith)
          (pow-le-pow_right {n = 10} (omega arith) {i = e} (omega arith)))

  Rounds-self :
      (n r : ℕ) (bytes : List ℕ) → IsPackable exp_bits mantissa_bits n → Rounds n r bytes → r ≡ n
  Rounds-self n r bytes h rounds = omega (arith, rounds.below, rounds.greatest n h (omega arith))

  checked-Rounds :
      (n r : ℕ) (bytes : List ℕ)
      → Rounds n r bytes
      → checked exp_bits mantissa_bits (pos n) ≡ (if r == n then ok bytes else err value_not_packed)
  checked-Rounds n r bytes rounds = rw (rounds.packs, rounds.reads) (ground arith)

  -- Too large a number is refused.
  pub pack_too_large :
      (n : ℕ)
      → max_packable exp_bits mantissa_bits < n
      → pack exp_bits mantissa_bits (pos n) ≡ err wrong_integer
  unfolding integer_to_float
  pack_too_large n h = rw (lt→ltb (max_packable exp_bits mantissa_bits) n h)

  -- A number of the format passes the check, and the bytes read back as that number.
  pub checked_packable :
      (n : ℕ)
      → IsPackable exp_bits mantissa_bits n
      → (bytes : List ℕ) × (checked exp_bits mantissa_bits (pos n) ≡ ok bytes)
        × (float_to_integer bytes exp_bits mantissa_bits 10 ≡ ok n)
        × (length bytes ≡ k)
  checked_packable n h =
      let (r, bytes, rounds) = pack-Rounds n (packable-le-max n h) in
      let same = Rounds-self n r bytes h rounds in
      let test : (r == n) ≡ true = ground arith in
      (bytes, checked-Rounds n r bytes rounds ∙ rw test, rounds.reads ∙ ap ok same, rounds.sized)

  -- A number in range that the format lacks does not pass.
  pub checked_unpackable :
      (n : ℕ)
      → ¬ IsPackable exp_bits mantissa_bits n
      → n ≤ max_packable exp_bits mantissa_bits
      → checked exp_bits mantissa_bits (pos n) ≡ err value_not_packed
  checked_unpackable n h le =
      let (r, bytes, rounds) = pack-Rounds n le in
      let other : r ≢ n = λ same. h (rw same at rounds.packable) in
      let test : (r == n) ≡ false = ground arith in checked-Rounds n r bytes rounds ∙ rw test

  find_exponent_negative :
      (n fuel max_mantissa exponent power : ℕ)
      → 0 < fuel
      → find_exponent fuel (negsuc n) max_mantissa 10 exponent power ≡ ok (exponent, power)
  unfolding find_exponent
  find_exponent_negative n zero max_mantissa exponent power h = absurd (omega arith)
  find_exponent_negative n (suc fuel) max_mantissa exponent power h = refl

  -- A negative number is written as the low bits of its mantissa, without an error.
  closest_negative : (n : ℕ) → (r : ℕ) × (closest exp_bits mantissa_bits (negsuc n) ≡ ok r)
  unfolding integer_to_float choose_mantissa
  closest_negative n =
      let powers : 0 < 2 ^ exp_bits = one-le-pow exp_bits 2 (omega arith) in
      let low = negsuc (n / 1) in
      (
        10 ^ 0 * value (num_to_bits low mantissa_bits),
        rw
            (
              find_exponent_negative n (2 ^ exp_bits) (2 ^ mantissa_bits - 1) 0 1 powers,
              float_bytes-packed 0 low exp_bits mantissa_bits k whole,
              bytes_of_ints-packed 0 low exp_bits mantissa_bits k whole,
            )
            (float_to_integer-packed 0 low exp_bits mantissa_bits k whole 10 powers),
      )

  -- A negative number does not pass.
  pub checked_negative : (n : ℕ) → checked exp_bits mantissa_bits (negsuc n) ≡ err value_not_packed
  checked_negative n = let (r, run) = closest_negative n in rw run

  passes :
      (r n : ℕ) (written bytes : List ℕ)
      → (if r == n then ok written else err value_not_packed) ≡ ok bytes
      → (r ≡ n) × (written ≡ bytes)
  passes r n written bytes h = ground arith

  -- What passes is a number of the format, and the bytes stand for it alone.
  pub checked_sound :
      (z : ℤ) (bytes : List ℕ)
      → checked exp_bits mantissa_bits z ≡ ok bytes
      → (n : ℕ) × (z ≡ pos n)
        × IsPackable exp_bits mantissa_bits n
        × (float_to_integer bytes exp_bits mantissa_bits 10 ≡ ok n)
        × (length bytes ≡ k)
  checked_sound (negsuc n) bytes h = cc (checked_negative n)
  checked_sound (pos n) bytes h = elim (dec_le n (max_packable exp_bits mantissa_bits)) [
    | yes le ↦
        let (r, written, rounds) = pack-Rounds n le in
        let (same, these) =
          passes r n written bytes (sym (checked-Rounds n r written rounds) ∙ h) in
        (
          n,
          refl,
          rw same at rounds.packable,
          ap (λ bs. float_to_integer bs exp_bits mantissa_bits 10) (sym these)
              ∙ rounds.reads
              ∙ ap ok same,
          ap length (sym these) ∙ rounds.sized,
        )
    | no gt ↦ cc (pack_too_large n (omega arith))
  ]

  -- One of three things happens to any integer.
  pub checked_cases :
      (z : ℤ)
      → ((n : ℕ) × (z ≡ pos n)
          × (max_packable exp_bits mantissa_bits < n)
          × (checked exp_bits mantissa_bits z ≡ err wrong_integer))
        ⊎ (((n : ℕ) × (z ≡ pos n)
              × IsPackable exp_bits mantissa_bits n
              × (bytes : List ℕ) × (checked exp_bits mantissa_bits z ≡ ok bytes))
            ⊎ (¬ ((n : ℕ) × (z ≡ pos n) × IsPackable exp_bits mantissa_bits n)
                × (checked exp_bits mantissa_bits z ≡ err value_not_packed)))
  checked_cases (negsuc n) = inr (inr (λ (m, same, _). cc same, checked_negative n))
  checked_cases (pos n) = elim (dec_le n (max_packable exp_bits mantissa_bits)) [
    | no gt ↦ inl (n, refl, omega arith, rw (pack_too_large n (omega arith)))
    | yes le ↦
        let (r, bytes, rounds) = pack-Rounds n le in
        elim (Bool-cases (r == n)) [
          | inl equal ↦
              let same : r ≡ n = ground arith in
              let packable = rw same at rounds.packable in
              let (bytes, run, _, _) = checked_packable n packable in
              inr (inl (n, refl, packable, bytes, run))
          | inr unequal ↦
              let other : r ≢ n = ground arith in
              let unpackable : ¬ IsPackable exp_bits mantissa_bits n =
                λ packable. other (Rounds-self n r bytes packable rounds) in
              inr (
                inr (
                  λ (m, same, packable). unpackable (rw (sym (pos-injective n m same)) at packable),
                  checked_unpackable n unpackable le,
                ))
        ]
  ]
