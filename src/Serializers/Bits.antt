-- ===== src/Serializers/Bits.antt =====
-- Bits and bytes of the packed format: what `num_to_bits` writes and the loops of
-- `float_to_integer` read, and that packing eight bits in a byte loses nothing.
use native.Mathlib.Decide.{dec_lt}
use zksync_python.Prelude.{
  ℕ, zero, suc, ◌+◌, ◌*◌, ◌/◌, ◌%◌, ◌^◌, ◌<◌, ◌≡◌, refl, ap, ◌∙◌, reverse, length-reverse,
  length-append, bit_and, Bool, true, ◌&&◌, List, [], ◌∷◌, ◌++◌, length, ltb, ◌==◌, All, arith, ℤ,
  pos, negsuc, floor_div, ok, lt→ltb,
}
use zksync_python.Serializers.{
  num_to_bits, byte_of_bits, bytes_of_bits, buffer_to_bits_be, all_bytes, sum_bits,
}

abbrev pub IsBit : ℕ → Type 0
IsBit b = b < 2

-- The number that bits spell, the lowest first.
abbrev pub value : List ℕ → ℕ
value [] = 0
value (b ∷ bits) = b + 2 * value bits

pub length-num_to_bits : (z : ℤ) (k : ℕ) → length (num_to_bits z k) ≡ k
unfolding num_to_bits
length-num_to_bits z zero = refl
length-num_to_bits z (suc k) = ap suc (length-num_to_bits (floor_div z 2) k)

-- The bits of the exponent and the mantissa together.
pub length-two_fields :
    (y z : ℤ) (j k : ℕ) → length (reverse (num_to_bits y j ++ num_to_bits z k)) ≡ j + k
length-two_fields y z j k =
    length-reverse (num_to_bits y j ++ num_to_bits z k)
    ∙ length-append (num_to_bits y j) (num_to_bits z k)
    ∙ omega (arith, length-num_to_bits y j, length-num_to_bits z k)

pub num_to_bits-IsBit : (z : ℤ) (k : ℕ) → All IsBit (num_to_bits z k)
unfolding num_to_bits
num_to_bits-IsBit z zero = tt
num_to_bits-IsBit (pos n) (suc k) = (omega arith, num_to_bits-IsBit (pos (n / 2)) k)
num_to_bits-IsBit (negsuc n) (suc k) = (omega arith, num_to_bits-IsBit (negsuc (n / 2)) k)

pub value-num_to_bits : (n k : ℕ) → n < 2 ^ k → value (num_to_bits (pos n) k) ≡ n
unfolding num_to_bits
value-num_to_bits n zero h = omega arith
value-num_to_bits n (suc k) h = omega (arith, value-num_to_bits (n / 2) k (omega arith))

-- The loop reads as many bits as it is told, whatever follows them.
pub sum_bits-value :
    (bits more : List ℕ) (sum pow2 : ℕ)
    → All IsBit bits
    → sum_bits (length bits) (bits ++ more) sum pow2 ≡ ok (sum + pow2 * value bits)
unfolding sum_bits
sum_bits-value [] more sum pow2 h = ap ok (omega arith)
sum_bits-value (zero ∷ bits) more sum pow2 (hb, h) =
    rw (sum_bits-value bits more sum (pow2 * 2) h) (ap ok (omega arith))
sum_bits-value (suc zero ∷ bits) more sum pow2 (hb, h) =
    rw (sum_bits-value bits more (sum + pow2) (pow2 * 2) h) (ap ok (omega arith))
sum_bits-value (suc (suc b) ∷ bits) more sum pow2 (hb, h) = absurd (omega arith)

-- Facts about one byte, each checked over all 256 values.
agree_below : ℕ → (f g : ℕ → ℕ) → Bool
agree_below zero f g = true
agree_below (suc bound) f g = (f bound == g bound) && agree_below bound f g

agree_below_lem : (f g : ℕ → ℕ) (bound v : ℕ) → v < bound → agree_below bound f g ≡ true → f v ≡ g v
unfolding agree_below
agree_below_lem f g zero v low agree = absurd (omega arith)
agree_below_lem f g (suc bound) v low agree = elim (dec_lt v bound) [
  | yes lower ↦ agree_below_lem f g bound v lower (ground arith)
  | no last ↦ let same : v ≡ bound = omega arith in rw same (ground arith)
]

low_bit_table : agree_below 256 (λ x. bit_and x 1) (λ x. x % 2) ≡ true
unfolding agree_below
low_bit_table = refl

low_bit-bit_and : (x : ℕ) → x < 256 → bit_and x 1 ≡ x % 2
low_bit-bit_and x h = agree_below_lem (λ x. bit_and x 1) (λ x. x % 2) 256 x h low_bit_table

abbrev rebuilt : ℕ → ℕ
rebuilt v =
    byte_of_bits (v / 128 % 2) (v / 64 % 2) (v / 32 % 2) (v / 16 % 2) (v / 8 % 2) (v / 4 % 2)
      (v / 2 % 2) (v % 2)

byte_table : agree_below 256 rebuilt (λ v. v) ≡ true
unfolding agree_below byte_of_bits
byte_table = refl

rebuilt_lem : (v : ℕ) → v < 256 → rebuilt v ≡ v
rebuilt_lem v h = agree_below_lem rebuilt (λ v. v) 256 v h byte_table

-- Eight bits make the byte whose binary digits they are.
module _ (b0 b1 b2 b3 b4 b5 b6 b7 : ℕ) where
  abbrev byte_sum : ℕ
  byte_sum = b0 * 128 + b1 * 64 + b2 * 32 + b3 * 16 + b4 * 8 + b5 * 4 + b6 * 2 + b7

  abbrev AreBits : Type 0
  AreBits = IsBit b0 × IsBit b1 × IsBit b2 × IsBit b3 × IsBit b4 × IsBit b5 × IsBit b6 × IsBit b7

  digits_of_sum :
      (v : ℕ)
      → v ≡ byte_sum
      → AreBits
      → (v < 256)
        × (b0 ≡ v / 128 % 2)
        × (b1 ≡ v / 64 % 2)
        × (b2 ≡ v / 32 % 2)
        × (b3 ≡ v / 16 % 2)
        × (b4 ≡ v / 8 % 2)
        × (b5 ≡ v / 4 % 2)
        × (b6 ≡ v / 2 % 2)
        × (b7 ≡ v % 2)
  digits_of_sum v e h = omega arith

  byte_of_bits-sum : AreBits → byte_of_bits b0 b1 b2 b3 b4 b5 b6 b7 ≡ byte_sum
  byte_of_bits-sum h =
      let (lt, e0, e1, e2, e3, e4, e5, e6, e7) = digits_of_sum byte_sum refl h in
      cc (e0, e1, e2, e3, e4, e5, e6, e7, rebuilt_lem byte_sum lt)

  byte_of_bits-ltb : AreBits → ltb (byte_of_bits b0 b1 b2 b3 b4 b5 b6 b7) 256 ≡ true
  byte_of_bits-ltb h =
      let lt = (digits_of_sum byte_sum refl h).0 in rw (byte_of_bits-sum h) (lt→ltb byte_sum 256 lt)

  unpack_byte :
      (bs : List ℕ)
      → AreBits
      → buffer_to_bits_be (byte_of_bits b0 b1 b2 b3 b4 b5 b6 b7 ∷ bs)
        ≡ b0 ∷ b1 ∷ b2 ∷ b3 ∷ b4 ∷ b5 ∷ b6 ∷ b7 ∷ buffer_to_bits_be bs
  unfolding buffer_to_bits_be
  unpack_byte bs h =
      let (lt, e0, e1, e2, e3, e4, e5, e6, e7) = digits_of_sum byte_sum refl h in
      let last : byte_sum / 1 % 2 ≡ byte_sum % 2 = omega arith in
      rw (byte_of_bits-sum h) (
        cc (
          e0,
          e1,
          e2,
          e3,
          e4,
          e5,
          e6,
          e7,
          last,
          low_bit-bit_and (byte_sum / 128) (omega arith),
          low_bit-bit_and (byte_sum / 64) (omega arith),
          low_bit-bit_and (byte_sum / 32) (omega arith),
          low_bit-bit_and (byte_sum / 16) (omega arith),
          low_bit-bit_and (byte_sum / 8) (omega arith),
          low_bit-bit_and (byte_sum / 4) (omega arith),
          low_bit-bit_and (byte_sum / 2) (omega arith),
          low_bit-bit_and (byte_sum / 1) (omega arith),
        ))

-- Bits packed eight to a byte are read back as they were.
pub buffer_to_bits_be-bytes_of_bits :
    (k : ℕ) (bits : List ℕ)
    → length bits ≡ 8 * k
    → All IsBit bits
    → buffer_to_bits_be (bytes_of_bits bits) ≡ bits
unfolding bytes_of_bits
buffer_to_bits_be-bytes_of_bits zero [] n h = unfold buffer_to_bits_be in refl
buffer_to_bits_be-bytes_of_bits (suc k) (b0 ∷ b1 ∷ b2 ∷ b3 ∷ b4 ∷ b5 ∷ b6 ∷ b7 ∷ bits) n
      (h0, (h1, (h2, (h3, (h4, (h5, (h6, (h7, h)))))))) =
    rw (unpack_byte b0 b1 b2 b3 b4 b5 b6 b7 (bytes_of_bits bits) (h0, h1, h2, h3, h4, h5, h6, h7)) (
      ap (λ bs. b0 ∷ b1 ∷ b2 ∷ b3 ∷ b4 ∷ b5 ∷ b6 ∷ b7 ∷ bs)
        (buffer_to_bits_be-bytes_of_bits k bits (omega arith) h))
buffer_to_bits_be-bytes_of_bits _ _ n h = absurd (omega arith)

pub length-bytes_of_bits :
    (k : ℕ) (bits : List ℕ) → length bits ≡ 8 * k → length (bytes_of_bits bits) ≡ k
unfolding bytes_of_bits
length-bytes_of_bits zero [] n = refl
length-bytes_of_bits (suc k) (b0 ∷ b1 ∷ b2 ∷ b3 ∷ b4 ∷ b5 ∷ b6 ∷ b7 ∷ bits) n =
    ap suc (length-bytes_of_bits k bits (omega arith))
length-bytes_of_bits _ _ n = absurd (omega arith)

pub bytes_of_bits-all_bytes :
    (k : ℕ) (bits : List ℕ)
    → length bits ≡ 8 * k
    → All IsBit bits
    → all_bytes (bytes_of_bits bits) ≡ true
unfolding bytes_of_bits all_bytes
bytes_of_bits-all_bytes zero [] n h = refl
bytes_of_bits-all_bytes (suc k) (b0 ∷ b1 ∷ b2 ∷ b3 ∷ b4 ∷ b5 ∷ b6 ∷ b7 ∷ bits) n
      (h0, (h1, (h2, (h3, (h4, (h5, (h6, (h7, h)))))))) =
    rw (byte_of_bits-ltb b0 b1 b2 b3 b4 b5 b6 b7 (h0, h1, h2, h3, h4, h5, h6, h7))
      (bytes_of_bits-all_bytes k bits (omega arith) h)
bytes_of_bits-all_bytes _ _ n h = absurd (omega arith)
