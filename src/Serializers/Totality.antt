-- ===== src/Serializers/Totality.antt =====
-- `integer_to_float` ends, for any argument and any format.
use native.Mathlib.Nat.{one-le-pow}
use zksync_python.Prelude.{
  ℕ, ◌+◌, ◌-◌, ◌*◌, ◌^◌, ◌<◌, ◌%◌, ◌≡◌, ◌≢◌, List, ◌++◌, reverse, ◌==◌, true, false, arith,
  Bool-cases, inl, inr, ℤ, pos, ltb_ℤ, ok, err, ◌⊎◌, wrong_integer, wrong_bits,
}
use zksync_python.Serializers.{
  integer_to_float, float_bytes, bits_into_bytes_in_be_order, num_to_bits, bytes_of_bits,
}
use zksync_python.Serializers.Bits.{length-two_fields}
use zksync_python.Serializers.Rounding.{find_exponent_total}

-- The bytes are written exactly if the two widths add up to whole bytes.
float_bytes_cases :
    (z : ℤ) (e exp_bits mantissa_bits : ℕ)
    → ((bytes : List ℕ) × (float_bytes z e exp_bits mantissa_bits ≡ ok bytes)
        × ((exp_bits + mantissa_bits) % 8 ≡ 0))
      ⊎ ((float_bytes z e exp_bits mantissa_bits ≡ err wrong_bits)
          × ((exp_bits + mantissa_bits) % 8 ≢ 0))
unfolding float_bytes bits_into_bytes_in_be_order
float_bytes_cases z e exp_bits mantissa_bits =
    elim (Bool-cases ((exp_bits + mantissa_bits) % 8 == 0)) [
      | inl whole ↦ inl (
        reverse
            (bytes_of_bits (reverse (num_to_bits (pos e) exp_bits ++ num_to_bits z mantissa_bits))),
        rw (length-two_fields (pos e) z exp_bits mantissa_bits, whole),
        ground arith,
      )
      | inr part ↦ inr (rw (length-two_fields (pos e) z exp_bits mantissa_bits, part), ground arith)
    ]

-- For any integer, widths and base, `integer_to_float` ends in exactly one of three ways: above the
-- format's range it raises WrongIntegerError; otherwise it raises WrongBitsError if the widths do not
-- add up to whole bytes, and returns bytes if they do. Its loop never runs out of fuel.
pub integer_to_float_cases :
    (z : ℤ) (exp_bits mantissa_bits base : ℕ)
    → let limit = pos ((2 ^ mantissa_bits - 1) * base ^ (2 ^ exp_bits - 1)) in
      let result = integer_to_float z exp_bits mantissa_bits base in
      ((ltb_ℤ limit z ≡ true) × (result ≡ err wrong_integer))
      ⊎ ((ltb_ℤ limit z ≡ false)
          × (((bytes : List ℕ) × (result ≡ ok bytes) × ((exp_bits + mantissa_bits) % 8 ≡ 0))
              ⊎ ((result ≡ err wrong_bits) × ((exp_bits + mantissa_bits) % 8 ≢ 0))))
unfolding integer_to_float
integer_to_float_cases z exp_bits mantissa_bits base =
    elim (Bool-cases (ltb_ℤ (pos ((2 ^ mantissa_bits - 1) * base ^ (2 ^ exp_bits - 1))) z)) [
      | inl above ↦ inl (above, rw above)
      | inr within ↦
          let powers : 0 < 2 ^ exp_bits = one-le-pow exp_bits 2 (omega arith) in
          let ((e, power), run) =
            find_exponent_total z (2 ^ mantissa_bits - 1) base (2 ^ exp_bits) powers within in
          inr (within, rw (within, run) (float_bytes_cases _ _ exp_bits mantissa_bits))
    ]
