-- ===== src/Tests/Serializers.antt =====
-- Numbers and fields: runs, and the theorems on them applied.
use zksync_python.Prelude.{
  ◌≡◌, refl, ℕ, zero, suc, ◌<◌, ◌≤◌, ◌+◌, ◌*◌, ◌-◌, ◌^◌, ◌%◌, ◌≢◌, ◌++◌, pos, negsuc, ltb_ℤ, true,
  false, List, [], ◌∷◌, length, All, replicate, ok, err, arith, ◌⊎◌, wrong_integer, wrong_bits,
  value_not_packed, wrong_value,
}
use zksync_python.Encoding.{
  encoded_message, type_field, tx_type, account_id_field, order_message, swap_order_bytes,
}
use zksync_python.Library.{hash_orders, contents}
use zksync_python.Python.Hex.{to_bytes, fromhex, hex}
use zksync_python.Python.Digits.{digits, digit_loop, fixed_digits}
use zksync_python.Serializers.Fields.{
  serialize_account_id, serialize_address, remove_address_prefix, serialize_token_id,
  serialize_nonce, serialize_timestamp, serialize_ratio_part, serialize_content_hash, int_to_bytes,
}
use zksync_python.Serializers.{
  packed_amount_checked, closest_packable_amount, pack_amount, packed_fee_checked,
  closest_packable_transaction_fee, pack_fee, float_to_integer, sum_bits, buffer_to_bits_be,
  integer_to_float, find_exponent, choose_mantissa, float_bytes, num_to_bits, byte_of_bits,
  bytes_of_bits, bits_into_bytes_in_be_order, reverse_bits, all_bytes, bytes_of_ints,
}
use zksync_python.Serializers.Amounts.{
  IsAmount, max_amount, closest_packable_amount-greatest, packed_amount_checked_sound,
  packed_amount_checked_cases,
}
use zksync_python.Serializers.Fees.{IsFee, max_fee, packed_fee_checked_cases}
use zksync_python.Serializers.Totality.{integer_to_float_cases}
use zksync_python.Serializers.Fields.Numbers.{number_fields_lem}
use zksync_python.Serializers.Fields.Texts.{serialize_ratio_part-int_to_bytes}

-- `test_pack` of tests/test_signer.py
amounts_run :
    (closest_packable_amount (pos 0) ≡ ok 0)
    × (closest_packable_amount (pos 1) ≡ ok 1)
    × (closest_packable_amount (pos 2047) ≡ ok 2047)
    × (closest_packable_amount (pos 2047000) ≡ ok 2047000)
    × (closest_packable_amount (pos 1000000000000000000000000000000000)
        ≡ ok 1000000000000000000000000000000000)
unfolding encoded_message type_field tx_type account_id_field order_message swap_order_bytes
    hash_orders contents serialize_account_id serialize_address remove_address_prefix
    serialize_token_id serialize_nonce serialize_timestamp serialize_ratio_part
    serialize_content_hash int_to_bytes to_bytes fromhex hex digits digit_loop fixed_digits
    packed_amount_checked closest_packable_amount pack_amount packed_fee_checked
    closest_packable_transaction_fee pack_fee float_to_integer sum_bits buffer_to_bits_be
    integer_to_float find_exponent choose_mantissa float_bytes num_to_bits byte_of_bits
    bytes_of_bits bits_into_bytes_in_be_order reverse_bits all_bytes bytes_of_ints
amounts_run = (refl, refl, refl, refl, refl)

fees_run :
    (closest_packable_transaction_fee (pos 0) ≡ ok 0)
    × (closest_packable_transaction_fee (pos 1) ≡ ok 1)
    × (closest_packable_transaction_fee (pos 2047) ≡ ok 2047)
    × (closest_packable_transaction_fee (pos 2047000) ≡ ok 2047000)
    × (closest_packable_transaction_fee (pos 1000000000000000000000000000000000)
        ≡ ok 1000000000000000000000000000000000)
unfolding encoded_message type_field tx_type account_id_field order_message swap_order_bytes
    hash_orders contents serialize_account_id serialize_address remove_address_prefix
    serialize_token_id serialize_nonce serialize_timestamp serialize_ratio_part
    serialize_content_hash int_to_bytes to_bytes fromhex hex digits digit_loop fixed_digits
    packed_amount_checked closest_packable_amount pack_amount packed_fee_checked
    closest_packable_transaction_fee pack_fee float_to_integer sum_bits buffer_to_bits_be
    integer_to_float find_exponent choose_mantissa float_bytes num_to_bits byte_of_bits
    bytes_of_bits bits_into_bytes_in_be_order reverse_bits all_bytes bytes_of_ints
fees_run = (refl, refl, refl, refl, refl)

-- A fee is rounded down where the next number of the format is nearer.
rounded_down_run : closest_packable_transaction_fee (pos 20479) ≡ ok 20470
unfolding encoded_message type_field tx_type account_id_field order_message swap_order_bytes
    hash_orders contents serialize_account_id serialize_address remove_address_prefix
    serialize_token_id serialize_nonce serialize_timestamp serialize_ratio_part
    serialize_content_hash int_to_bytes to_bytes fromhex hex digits digit_loop fixed_digits
    packed_amount_checked closest_packable_amount pack_amount packed_fee_checked
    closest_packable_transaction_fee pack_fee float_to_integer sum_bits buffer_to_bits_be
    integer_to_float find_exponent choose_mantissa float_bytes num_to_bits byte_of_bits
    bytes_of_bits bits_into_bytes_in_be_order reverse_bits all_bytes bytes_of_ints
rounded_down_run = refl

billions-IsAmount : IsAmount 12345678901000000
billions-IsAmount = (12345678901, 6, omega arith, omega arith, refl)

closest_packable_amount-greatest_example :
    (r : ℕ) × (closest_packable_amount (pos 12345678901234567) ≡ ok r)
    × IsAmount r
    × (r ≤ 12345678901234567)
    × (12345678901000000 ≤ r)
closest_packable_amount-greatest_example =
    closest_packable_amount-greatest 12345678901234567 12345678901000000 (omega arith)
      billions-IsAmount (omega arith)

first_run : closest_packable_amount (pos 12345678901234567) ≡ ok 12345678901000000
unfolding encoded_message type_field tx_type account_id_field order_message swap_order_bytes
    hash_orders contents serialize_account_id serialize_address remove_address_prefix
    serialize_token_id serialize_nonce serialize_timestamp serialize_ratio_part
    serialize_content_hash int_to_bytes to_bytes fromhex hex digits digit_loop fixed_digits
    packed_amount_checked closest_packable_amount pack_amount packed_fee_checked
    closest_packable_transaction_fee pack_fee float_to_integer sum_bits buffer_to_bits_be
    integer_to_float find_exponent choose_mantissa float_bytes num_to_bits byte_of_bits
    bytes_of_bits bits_into_bytes_in_be_order reverse_bits all_bytes bytes_of_ints
first_run = refl

second_run : closest_packable_amount (pos 12345678909999999) ≡ ok 12345678909000000
unfolding encoded_message type_field tx_type account_id_field order_message swap_order_bytes
    hash_orders contents serialize_account_id serialize_address remove_address_prefix
    serialize_token_id serialize_nonce serialize_timestamp serialize_ratio_part
    serialize_content_hash int_to_bytes to_bytes fromhex hex digits digit_loop fixed_digits
    packed_amount_checked closest_packable_amount pack_amount packed_fee_checked
    closest_packable_transaction_fee pack_fee float_to_integer sum_bits buffer_to_bits_be
    integer_to_float find_exponent choose_mantissa float_bytes num_to_bits byte_of_bits
    bytes_of_bits bits_into_bytes_in_be_order reverse_bits all_bytes bytes_of_ints
second_run = refl

packed_run : packed_amount_checked (pos 1000000000000) ≡ ok (0x4a ∷ 0x81 ∷ 0x7c ∷ 0x80 ∷ 0x02 ∷ [])
unfolding encoded_message type_field tx_type account_id_field order_message swap_order_bytes
    hash_orders contents serialize_account_id serialize_address remove_address_prefix
    serialize_token_id serialize_nonce serialize_timestamp serialize_ratio_part
    serialize_content_hash int_to_bytes to_bytes fromhex hex digits digit_loop fixed_digits
    packed_amount_checked closest_packable_amount pack_amount packed_fee_checked
    closest_packable_transaction_fee pack_fee float_to_integer sum_bits buffer_to_bits_be
    integer_to_float find_exponent choose_mantissa float_bytes num_to_bits byte_of_bits
    bytes_of_bits bits_into_bytes_in_be_order reverse_bits all_bytes bytes_of_ints
packed_run = refl

packed_amount_checked_sound_example :
    (n : ℕ) × (pos 1000000000000 ≡ pos n)
    × IsAmount n
    × (float_to_integer (0x4a ∷ 0x81 ∷ 0x7c ∷ 0x80 ∷ 0x02 ∷ []) 5 35 10 ≡ ok n)
    × (length {A = ℕ} (0x4a ∷ 0x81 ∷ 0x7c ∷ 0x80 ∷ 0x02 ∷ []) ≡ 5)
packed_amount_checked_sound_example =
    packed_amount_checked_sound (pos 1000000000000) (0x4a ∷ 0x81 ∷ 0x7c ∷ 0x80 ∷ 0x02 ∷ [])
      packed_run

packed_amount_checked_cases_example :
    ((n : ℕ) × (pos 12345678901234567 ≡ pos n)
      × (max_amount < n)
      × (packed_amount_checked (pos 12345678901234567) ≡ err wrong_integer))
    ⊎ (((n : ℕ) × (pos 12345678901234567 ≡ pos n)
          × IsAmount n
          × (bytes : List ℕ) × (packed_amount_checked (pos 12345678901234567) ≡ ok bytes))
        ⊎ (¬ ((n : ℕ) × (pos 12345678901234567 ≡ pos n) × IsAmount n)
            × (packed_amount_checked (pos 12345678901234567) ≡ err value_not_packed)))
packed_amount_checked_cases_example = packed_amount_checked_cases (pos 12345678901234567)

million-IsFee : IsFee 1000000
million-IsFee = (1000, 3, omega arith, omega arith, refl)

packed_fee_run : packed_fee_checked (pos 1000000) ≡ ok (0x7d ∷ 0x03 ∷ [])
unfolding encoded_message type_field tx_type account_id_field order_message swap_order_bytes
    hash_orders contents serialize_account_id serialize_address remove_address_prefix
    serialize_token_id serialize_nonce serialize_timestamp serialize_ratio_part
    serialize_content_hash int_to_bytes to_bytes fromhex hex digits digit_loop fixed_digits
    packed_amount_checked closest_packable_amount pack_amount packed_fee_checked
    closest_packable_transaction_fee pack_fee float_to_integer sum_bits buffer_to_bits_be
    integer_to_float find_exponent choose_mantissa float_bytes num_to_bits byte_of_bits
    bytes_of_bits bits_into_bytes_in_be_order reverse_bits all_bytes bytes_of_ints
packed_fee_run = refl

packed_fee_checked_cases_example :
    ((n : ℕ) × (negsuc 4 ≡ pos n)
      × (max_fee < n)
      × (packed_fee_checked (negsuc 4) ≡ err wrong_integer))
    ⊎ (((n : ℕ) × (negsuc 4 ≡ pos n)
          × IsFee n
          × (bytes : List ℕ) × (packed_fee_checked (negsuc 4) ≡ ok bytes))
        ⊎ (¬ ((n : ℕ) × (negsuc 4 ≡ pos n) × IsFee n)
            × (packed_fee_checked (negsuc 4) ≡ err value_not_packed)))
packed_fee_checked_cases_example = packed_fee_checked_cases (negsuc 4)

integer_to_float_cases_example :
    let limit = pos ((2 ^ 11 - 1) * 10 ^ (2 ^ 5 - 1)) in
    let result = integer_to_float (pos 1000999) 5 11 10 in
    ((ltb_ℤ limit (pos 1000999) ≡ true) × (result ≡ err wrong_integer))
    ⊎ ((ltb_ℤ limit (pos 1000999) ≡ false)
        × (((bytes : List ℕ) × (result ≡ ok bytes) × ((5 + 11) % 8 ≡ 0))
            ⊎ ((result ≡ err wrong_bits) × ((5 + 11) % 8 ≢ 0))))
integer_to_float_cases_example = integer_to_float_cases (pos 1000999) 5 11 10

number_fields_lem_example :
    let bytes = fixed_digits 256 4 16777216 [] in
    (serialize_nonce (negsuc 16777216) ≡ err wrong_value)
    × (serialize_timestamp (negsuc 16777216) ≡ err wrong_value)
    × (serialize_token_id (negsuc 16777216) ≡ err wrong_value)
    × (serialize_account_id (negsuc 16777216) ≡ err wrong_value)
    × (serialize_nonce (pos 16777216) ≡ ok bytes)
    × (serialize_timestamp (pos 16777216) ≡ ok (replicate 4 0 ++ bytes))
    × (serialize_token_id (pos 16777216) ≡ ok bytes)
    × (serialize_account_id (pos 16777216) ≡ ok bytes)
number_fields_lem_example = number_fields_lem 16777216

All-replicate : (n b : ℕ) → b < 256 → All (λ b. b < 256) (replicate n b)
All-replicate zero b h = tt
All-replicate (suc n) b h = (h, All-replicate n b h)

serialize_ratio_part-int_to_bytes_example : serialize_ratio_part (pos 3) ≡ int_to_bytes (pos 3) 15
serialize_ratio_part-int_to_bytes_example = serialize_ratio_part-int_to_bytes 3 (omega arith)
