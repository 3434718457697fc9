-- ===== src/Serializers.antt =====
-- zksync_sdk/serializers.py, the packed floating point format: constants and functions. A `bytes`
-- object and a list of bits are lists of numbers.
pub mod Bits
pub mod Float
pub mod Rounding
pub mod Totality
pub mod Format
pub mod Amounts
pub mod Fees
pub mod Fields
pub mod Reversal
use zksync_python.Prelude.{
  ℕ, zero, suc, ◌+◌, ◌-◌, ◌*◌, ◌/◌, ◌%◌, ◌^◌, bit_and, bit_or, Bool, true, not, ◌&&◌, List, [], ◌∷◌,
  ◌++◌, reverse, ltb, ◌==◌, if◌then◌else◌, length, drop, ℤ, pos, ◌-ℤ◌, ◌*ℤ◌, ltb_ℤ, eqb_ℤ,
  floor_div, low_bit, Result, wrong_integer, wrong_bits, value_not_packed, value_error, index_error,
  out_of_fuel, ok, err, ◌>>=◌, ◌>>◌, raise_if,
}

abbrev pub amount_exponent_bit_width : ℕ
amount_exponent_bit_width = 5

abbrev pub amount_mantissa_bit_width : ℕ
amount_mantissa_bit_width = 35

abbrev pub fee_exponent_bit_width : ℕ
fee_exponent_bit_width = 5

abbrev pub fee_mantissa_bit_width : ℕ
fee_mantissa_bit_width = 11

-- The lowest `bits` bits, the lowest first.
unfoldable pub num_to_bits : ℤ → ℕ → List ℕ
num_to_bits integer zero = []
num_to_bits integer (suc bits) = low_bit integer ∷ num_to_bits (floor_div integer 2) bits

-- `value |= bits[i*8 + j] * 2**(7-j)` for j = 0, …, 7
unfoldable pub byte_of_bits : ℕ → ℕ → ℕ → ℕ → ℕ → ℕ → ℕ → ℕ → ℕ
byte_of_bits b0 b1 b2 b3 b4 b5 b6 b7 =
    let v0 = bit_or 0 (b0 * 2 ^ 7) in
    let v1 = bit_or v0 (b1 * 2 ^ 6) in
    let v2 = bit_or v1 (b2 * 2 ^ 5) in
    let v3 = bit_or v2 (b3 * 2 ^ 4) in
    let v4 = bit_or v3 (b4 * 2 ^ 3) in
    let v5 = bit_or v4 (b5 * 2 ^ 2) in let v6 = bit_or v5 (b6 * 2 ^ 1) in bit_or v6 (b7 * 2 ^ 0)

-- The loop over i takes the bits eight at a time. Fewer than eight are left only at the end.
unfoldable pub bytes_of_bits : List ℕ → List ℕ
bytes_of_bits (b0 ∷ b1 ∷ b2 ∷ b3 ∷ b4 ∷ b5 ∷ b6 ∷ b7 ∷ rest) =
    byte_of_bits b0 b1 b2 b3 b4 b5 b6 b7 ∷ bytes_of_bits rest
bytes_of_bits _ = []

unfoldable pub bits_into_bytes_in_be_order : List ℕ → Result (List ℕ)
bits_into_bytes_in_be_order bits = do
  raise_if (not (length bits % 8 == 0)) wrong_bits
  ok (bytes_of_bits bits)

-- `while integer > max_mantissa * exponent_temp`, from the exponent and the power reached so far.
unfoldable pub find_exponent : ℕ → ℤ → ℕ → ℕ → ℕ → ℕ → Result (ℕ × ℕ)
find_exponent zero integer max_mantissa exp_base exponent exponent_temp = err out_of_fuel
find_exponent (suc fuel) integer max_mantissa exp_base exponent exponent_temp =
    let rest =
      find_exponent fuel integer max_mantissa exp_base (exponent + 1) (exponent_temp * exp_base) in
    if ltb_ℤ (pos (max_mantissa * exponent_temp)) integer
    then rest
    else ok (exponent, exponent_temp)

-- The mantissa and the exponent, as they stand when the bits are written. An exponent of zero is
-- not lowered, so `exponent - 1` does not stop at 0.
unfoldable pub choose_mantissa : ℤ → ℕ → ℕ → ℕ → ℕ → ℤ × ℕ
choose_mantissa integer max_mantissa exp_base exponent exponent_temp =
    let mantissa = floor_div integer exponent_temp in
    let variant1 = pos exponent_temp *ℤ mantissa in
    let variant2 = pos (exponent_temp / exp_base * max_mantissa) in
    let diff1 = integer -ℤ variant1 in
    let diff2 = integer -ℤ variant2 in
    if not (exponent == 0) && ltb_ℤ diff2 diff1
    then (pos max_mantissa, exponent - 1)
    else (mantissa, exponent)

-- The end of `integer_to_float`, from `data = []` on.
unfoldable pub float_bytes : ℤ → ℕ → ℕ → ℕ → Result (List ℕ)
float_bytes mantissa exponent exp_bits mantissa_bits = do
  let bits = reverse (num_to_bits (pos exponent) exp_bits ++ num_to_bits mantissa mantissa_bits)
  result ← bits_into_bytes_in_be_order bits
  ok (reverse result)

-- The fuel is the number of exponents that the format has.
unfoldable pub integer_to_float : ℤ → ℕ → ℕ → ℕ → Result (List ℕ)
integer_to_float integer exp_bits mantissa_bits exp_base = do
  let max_exponent_power = 2 ^ exp_bits - 1
  let max_exponent = exp_base ^ max_exponent_power
  let max_mantissa = 2 ^ mantissa_bits - 1
  raise_if (ltb_ℤ (pos (max_mantissa * max_exponent)) integer) wrong_integer
  (exponent, exponent_temp) ← find_exponent (2 ^ exp_bits) integer max_mantissa exp_base 0 1
  let chosen = choose_mantissa integer max_mantissa exp_base exponent exponent_temp
  float_bytes chosen.0 chosen.1 exp_bits mantissa_bits

unfoldable pub reverse_bit : ℕ → ℕ
reverse_bit b =
    let b = bit_or (bit_and b 0xf0 / 2 ^ 4) (bit_and b 0x0f * 2 ^ 4) in
    let b = bit_or (bit_and b 0xcc / 2 ^ 2) (bit_and b 0x33 * 2 ^ 2) in
    bit_or (bit_and b 0xaa / 2 ^ 1) (bit_and b 0x55 * 2 ^ 1)

unfoldable pub reverse_bits : List ℕ → List ℕ
reverse_bits buffer = reverse buffer

-- `(b >> (7-j)) & 1` for j = 0, …, 7, byte after byte
unfoldable pub buffer_to_bits_be : List ℕ → List ℕ
buffer_to_bits_be [] = []
buffer_to_bits_be (b ∷ buff) =
    bit_and (b / 2 ^ 7) 1
    ∷ bit_and (b / 2 ^ 6) 1
    ∷ bit_and (b / 2 ^ 5) 1
    ∷ bit_and (b / 2 ^ 4) 1
    ∷ bit_and (b / 2 ^ 3) 1
    ∷ bit_and (b / 2 ^ 2) 1
    ∷ bit_and (b / 2 ^ 1) 1
    ∷ bit_and (b / 2 ^ 0) 1
    ∷ buffer_to_bits_be buff

-- `bytes(values)`: every value has to be a byte.
unfoldable pub all_bytes : List ℕ → Bool
all_bytes [] = true
all_bytes (b ∷ bs) = ltb b 256 && all_bytes bs

unfoldable pub bytes_of_ints : List ℕ → Result (List ℕ)
bytes_of_ints values = if all_bytes values then ok values else err value_error

unfoldable pub pack_fee : ℤ → Result (List ℕ)
pack_fee amount = do
  packed ← integer_to_float amount fee_exponent_bit_width fee_mantissa_bit_width 10
  bytes_of_ints (reverse_bits packed)

unfoldable pub pack_amount : ℤ → Result (List ℕ)
pack_amount amount = do
  packed ← integer_to_float amount amount_exponent_bit_width amount_mantissa_bit_width 10
  bytes_of_ints (reverse_bits packed)

-- One of the two loops of `float_to_integer`: `if bits[i] == 1: sum += pow2`, then `pow2 *= 2`, for
-- `count` bits from the front of the list. A missing bit is an IndexError.
unfoldable pub sum_bits : ℕ → List ℕ → ℕ → ℕ → Result ℕ
sum_bits zero bits sum pow2 = ok sum
sum_bits (suc count) [] sum pow2 = err index_error
sum_bits (suc count) (b ∷ bits) sum pow2 =
    sum_bits count bits (if b == 1 then sum + pow2 else sum) (pow2 * 2)

unfoldable pub float_to_integer : List ℕ → ℕ → ℕ → ℕ → Result ℕ
float_to_integer bytes exp_bits mantissa_bits exp_base_number = do
  let bits = reverse (buffer_to_bits_be bytes)
  exponent ← sum_bits exp_bits bits 0 1
  mantissa ← sum_bits mantissa_bits (drop exp_bits bits) 0 1
  ok (exp_base_number ^ exponent * mantissa)

unfoldable pub closest_packable_amount : ℤ → Result ℕ
closest_packable_amount amount = do
  packed_amount ← pack_amount amount
  float_to_integer packed_amount amount_exponent_bit_width amount_mantissa_bit_width 10

unfoldable pub closest_packable_transaction_fee : ℤ → Result ℕ
closest_packable_transaction_fee fee = do
  packed_fee ← pack_fee fee
  float_to_integer packed_fee fee_exponent_bit_width fee_mantissa_bit_width 10

unfoldable pub packed_fee_checked : ℤ → Result (List ℕ)
packed_fee_checked fee = do
  closest ← closest_packable_transaction_fee fee
  raise_if (not (eqb_ℤ (pos closest) fee)) value_not_packed
  pack_fee fee

unfoldable pub packed_amount_checked : ℤ → Result (List ℕ)
packed_amount_checked amount = do
  closest ← closest_packable_amount amount
  raise_if (not (eqb_ℤ (pos closest) amount)) value_not_packed
  pack_amount amount
