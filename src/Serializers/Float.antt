-- ===== src/Serializers/Float.antt =====
-- Writing a mantissa and an exponent as bytes and reading them back: the end of `integer_to_float`
-- and `float_to_integer`.
use zksync_python.Prelude.{
  ℕ, ◌+◌, ◌*◌, ◌%◌, ◌^◌, ◌<◌, ◌≡◌, ap, ◌∙◌, List, [], ◌∷◌, ◌++◌, reverse, length, drop, All, arith,
  ℤ, pos, ok, reverse-reverse, append-nil, All-append, reverse-append, drop-append,
}
use zksync_python.Serializers.{
  num_to_bits, bytes_of_bits, bits_into_bytes_in_be_order, float_bytes, sum_bits, float_to_integer,
  reverse_bits, bytes_of_ints,
}
use zksync_python.Serializers.Bits.{
  IsBit, length-two_fields, length-num_to_bits, num_to_bits-IsBit, value, length-two_fields,
  value-num_to_bits, sum_bits-value, buffer_to_bits_be-bytes_of_bits, length-bytes_of_bits,
  bytes_of_bits-all_bytes,
}

All-reverse {ℓ κ} : {A : Type ℓ} (P : A → Type κ) (xs : List A) → All P xs → All P (reverse xs)
All-reverse P [] h = tt
All-reverse P (x ∷ xs) (hx, h) =
    rw (reverse-append (x ∷ []) xs)
      (All-append P (reverse xs) (x ∷ []) (All-reverse P xs h) (hx, tt))

-- A field is read back from its bits, whatever follows.
sum_bits-field :
    (z : ℤ) (k : ℕ) (more : List ℕ)
    → sum_bits k (num_to_bits z k ++ more) 0 1 ≡ ok (value (num_to_bits z k))
sum_bits-field z k more =
    rw (length-num_to_bits z k) at
      (sum_bits-value (num_to_bits z k) more 0 1 (num_to_bits-IsBit z k))
    ∙ ap ok (omega arith)

sum_bits-num_to_bits :
    (n k : ℕ) (more : List ℕ) → n < 2 ^ k → sum_bits k (num_to_bits (pos n) k ++ more) 0 1 ≡ ok n
sum_bits-num_to_bits n k more h = sum_bits-field (pos n) k more ∙ ap ok (value-num_to_bits n k h)

drop-num_to_bits : (z : ℤ) (k : ℕ) (more : List ℕ) → drop k (num_to_bits z k ++ more) ≡ more
drop-num_to_bits z k more = rw (length-num_to_bits z k) at (drop-append (num_to_bits z k) more)

module _ (e : ℕ) (z : ℤ) (exp_bits mantissa_bits k : ℕ)
    (whole : exp_bits + mantissa_bits ≡ 8 * k) where
  abbrev field_bits : List ℕ
  field_bits = num_to_bits (pos e) exp_bits ++ num_to_bits z mantissa_bits

  -- The bytes of the format, the highest first.
  abbrev pub packed : List ℕ
  packed = bytes_of_bits (reverse field_bits)

  length-field_bits : length (reverse field_bits) ≡ 8 * k
  length-field_bits = length-two_fields (pos e) z exp_bits mantissa_bits ∙ whole

  field_bits-IsBit : All IsBit (reverse field_bits)
  field_bits-IsBit = All-reverse IsBit field_bits (
      All-append IsBit (num_to_bits (pos e) exp_bits) (num_to_bits z mantissa_bits)
        (num_to_bits-IsBit (pos e) exp_bits) (num_to_bits-IsBit z mantissa_bits))

  pub length-packed : length packed ≡ k
  length-packed = length-bytes_of_bits k (reverse field_bits) length-field_bits

  -- A whole number of bytes is written.
  pub float_bytes-packed : float_bytes z e exp_bits mantissa_bits ≡ ok (reverse packed)
  unfolding float_bytes bits_into_bytes_in_be_order
  float_bytes-packed =
      let multiple : length (reverse field_bits) % 8 ≡ 0 = omega (arith, length-field_bits) in
      rw multiple

  -- Reversed again and checked by `bytes`, it is the packed value.
  pub bytes_of_ints-packed : bytes_of_ints (reverse_bits (reverse packed)) ≡ ok packed
  unfolding bytes_of_ints reverse_bits
  bytes_of_ints-packed =
      rw (reverse-reverse packed)
        (rw (bytes_of_bits-all_bytes k (reverse field_bits) length-field_bits field_bits-IsBit))

  read_exponent : e < 2 ^ exp_bits → sum_bits exp_bits field_bits 0 1 ≡ ok e
  read_exponent = sum_bits-num_to_bits e exp_bits (num_to_bits z mantissa_bits)

  read_mantissa :
      sum_bits mantissa_bits (drop exp_bits field_bits) 0 1
      ≡ ok (value (num_to_bits z mantissa_bits))
  read_mantissa =
      rw (drop-num_to_bits (pos e) exp_bits (num_to_bits z mantissa_bits))
        (rw (append-nil (num_to_bits z mantissa_bits)) at (sum_bits-field z mantissa_bits []))

  -- What is read back is the number in the mantissa's field times the power.
  pub float_to_integer-packed :
      (base : ℕ)
      → e < 2 ^ exp_bits
      → float_to_integer packed exp_bits mantissa_bits base
        ≡ ok (base ^ e * value (num_to_bits z mantissa_bits))
  unfolding float_to_integer
  float_to_integer-packed base he =
      rw (buffer_to_bits_be-bytes_of_bits k (reverse field_bits) length-field_bits field_bits-IsBit)
        (rw (reverse-reverse field_bits) (rw (read_exponent he) (rw read_mantissa)))
