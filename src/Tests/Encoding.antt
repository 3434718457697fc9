-- ===== src/Tests/Encoding.antt =====
-- Messages: the vectors of tests/test_signer.py, and the theorems on messages applied to them.
use zksync_python.Prelude.{◌≡◌, ◌≢◌, refl, length, ok, arith, replicate}
use zksync_python.Encoding.{
  encoded_message, type_field, tx_type, account_id_field, order_message, swap_order_bytes,
}
use zksync_python.Library.{hash_orders, contents}
use zksync_python.Python.Hex.{to_bytes, fromhex, hex}
use zksync_python.Python.Digits.{digits, digit_loop, fixed_digits}
use zksync_python.Serializers.Fields.{
  serialize_account_id, serialize_address, remove_address_prefix, serialize_token_id,
  serialize_nonce, serialize_timestamp, serialize_ratio_part, serialize_content_hash, int_to_bytes,
}
use zksync_python.Serializers.{
  packed_amount_checked, closest_packable_amount, pack_amount, packed_fee_checked,
  closest_packable_transaction_fee, pack_fee, float_to_integer, sum_bits, buffer_to_bits_be,
  integer_to_float, find_exponent, choose_mantissa, float_bytes, num_to_bits, byte_of_bits,
  bytes_of_bits, bits_into_bytes_in_be_order, reverse_bits, all_bytes, bytes_of_ints,
}
use zksync_python.Types.{
  change_pub_key, transfer, withdraw, forced_exit, mint_nft, withdraw_nft, Transfer, base,
}
use zksync_python.Python.Text.{lower}
use zksync_python.Encoding.Widths.{IsNarrow}
use zksync_python.Encoding.Lengths.{encoded_message-HasLength, hash_orders-swap_order_bytes}
use zksync_python.Encoding.Orders.{order_message-injective}
use zksync_python.Encoding.Swaps.{swap-encoded_message-injective}
use zksync_python.Types.{swap}
use zksync_python.Python.Hex.{Bytes}
use zksync_python.Encoding.Kinds.{kind, encoded_message-kind, order_message-ne-encoded_message}
use zksync_python.Encoding.Determines.{transfer-encoded_message-injective}
use zksync_python.Tests.Data.{
  native, a_transfer, a_withdraw, a_forced_exit, a_change_pub_key, a_withdraw_nft, an_order,
  another_order, a_swap, transfer_bytes, withdraw_bytes, forced_exit_bytes, order_bytes,
  withdraw_nft_bytes, mint_nft_bytes, a_mint_nft, returned,
}

transfer_run : encoded_message (ok native) (transfer a_transfer) ≡ ok transfer_bytes
unfolding encoded_message type_field tx_type account_id_field order_message swap_order_bytes
    hash_orders contents serialize_account_id serialize_address remove_address_prefix
    serialize_token_id serialize_nonce serialize_timestamp serialize_ratio_part
    serialize_content_hash int_to_bytes to_bytes fromhex hex digits digit_loop fixed_digits
    packed_amount_checked closest_packable_amount pack_amount packed_fee_checked
    closest_packable_transaction_fee pack_fee float_to_integer sum_bits buffer_to_bits_be
    integer_to_float find_exponent choose_mantissa float_bytes num_to_bits byte_of_bits
    bytes_of_bits bits_into_bytes_in_be_order reverse_bits all_bytes bytes_of_ints
transfer_run = refl

withdraw_run : encoded_message (ok native) (withdraw a_withdraw) ≡ ok withdraw_bytes
unfolding encoded_message type_field tx_type account_id_field order_message swap_order_bytes
    hash_orders contents serialize_account_id serialize_address remove_address_prefix
    serialize_token_id serialize_nonce serialize_timestamp serialize_ratio_part
    serialize_content_hash int_to_bytes to_bytes fromhex hex digits digit_loop fixed_digits
    packed_amount_checked closest_packable_amount pack_amount packed_fee_checked
    closest_packable_transaction_fee pack_fee float_to_integer sum_bits buffer_to_bits_be
    integer_to_float find_exponent choose_mantissa float_bytes num_to_bits byte_of_bits
    bytes_of_bits bits_into_bytes_in_be_order reverse_bits all_bytes bytes_of_ints
withdraw_run = refl

forced_exit_run : encoded_message (ok native) (forced_exit a_forced_exit) ≡ ok forced_exit_bytes
unfolding encoded_message type_field tx_type account_id_field order_message swap_order_bytes
    hash_orders contents serialize_account_id serialize_address remove_address_prefix
    serialize_token_id serialize_nonce serialize_timestamp serialize_ratio_part
    serialize_content_hash int_to_bytes to_bytes fromhex hex digits digit_loop fixed_digits
    packed_amount_checked closest_packable_amount pack_amount packed_fee_checked
    closest_packable_transaction_fee pack_fee float_to_integer sum_bits buffer_to_bits_be
    integer_to_float find_exponent choose_mantissa float_bytes num_to_bits byte_of_bits
    bytes_of_bits bits_into_bytes_in_be_order reverse_bits all_bytes bytes_of_ints
forced_exit_run = refl

order_run : order_message an_order ≡ ok order_bytes
unfolding encoded_message type_field tx_type account_id_field order_message swap_order_bytes
    hash_orders contents serialize_account_id serialize_address remove_address_prefix
    serialize_token_id serialize_nonce serialize_timestamp serialize_ratio_part
    serialize_content_hash int_to_bytes to_bytes fromhex hex digits digit_loop fixed_digits
    packed_amount_checked closest_packable_amount pack_amount packed_fee_checked
    closest_packable_transaction_fee pack_fee float_to_integer sum_bits buffer_to_bits_be
    integer_to_float find_exponent choose_mantissa float_bytes num_to_bits byte_of_bits
    bytes_of_bits bits_into_bytes_in_be_order reverse_bits all_bytes bytes_of_ints
order_run = refl

withdraw_nft_run : encoded_message (ok native) (withdraw_nft a_withdraw_nft) ≡ ok withdraw_nft_bytes
unfolding encoded_message type_field tx_type account_id_field order_message swap_order_bytes
    hash_orders contents serialize_account_id serialize_address remove_address_prefix
    serialize_token_id serialize_nonce serialize_timestamp serialize_ratio_part
    serialize_content_hash int_to_bytes to_bytes fromhex hex digits digit_loop fixed_digits
    packed_amount_checked closest_packable_amount pack_amount packed_fee_checked
    closest_packable_transaction_fee pack_fee float_to_integer sum_bits buffer_to_bits_be
    integer_to_float find_exponent choose_mantissa float_bytes num_to_bits byte_of_bits
    bytes_of_bits bits_into_bytes_in_be_order reverse_bits all_bytes bytes_of_ints
withdraw_nft_run = refl

mint_nft_run : encoded_message (ok native) (mint_nft a_mint_nft) ≡ ok mint_nft_bytes
unfolding encoded_message type_field tx_type account_id_field order_message swap_order_bytes
    hash_orders contents serialize_account_id serialize_address remove_address_prefix
    serialize_token_id serialize_nonce serialize_timestamp serialize_ratio_part
    serialize_content_hash int_to_bytes to_bytes fromhex hex digits digit_loop fixed_digits
    packed_amount_checked closest_packable_amount pack_amount packed_fee_checked
    closest_packable_transaction_fee pack_fee float_to_integer sum_bits buffer_to_bits_be
    integer_to_float find_exponent choose_mantissa float_bytes num_to_bits byte_of_bits
    bytes_of_bits bits_into_bytes_in_be_order reverse_bits all_bytes bytes_of_ints
mint_nft_run = refl

change_pub_key_run :
    encoded_message (ok native) (change_pub_key a_change_pub_key)
    ≡ ok (returned (encoded_message (ok native) (change_pub_key a_change_pub_key)))
unfolding encoded_message type_field tx_type account_id_field order_message swap_order_bytes
    hash_orders contents serialize_account_id serialize_address remove_address_prefix
    serialize_token_id serialize_nonce serialize_timestamp serialize_ratio_part
    serialize_content_hash int_to_bytes to_bytes fromhex hex digits digit_loop fixed_digits
    packed_amount_checked closest_packable_amount pack_amount packed_fee_checked
    closest_packable_transaction_fee pack_fee float_to_integer sum_bits buffer_to_bits_be
    integer_to_float find_exponent choose_mantissa float_bytes num_to_bits byte_of_bits
    bytes_of_bits bits_into_bytes_in_be_order reverse_bits all_bytes bytes_of_ints
change_pub_key_run = refl

swap_orders_run : swap_order_bytes a_swap ≡ ok (returned (swap_order_bytes a_swap))
unfolding encoded_message type_field tx_type account_id_field order_message swap_order_bytes
    hash_orders contents serialize_account_id serialize_address remove_address_prefix
    serialize_token_id serialize_nonce serialize_timestamp serialize_ratio_part
    serialize_content_hash int_to_bytes to_bytes fromhex hex digits digit_loop fixed_digits
    packed_amount_checked closest_packable_amount pack_amount packed_fee_checked
    closest_packable_transaction_fee pack_fee float_to_integer sum_bits buffer_to_bits_be
    integer_to_float find_exponent choose_mantissa float_bytes num_to_bits byte_of_bits
    bytes_of_bits bits_into_bytes_in_be_order reverse_bits all_bytes bytes_of_ints
swap_orders_run = refl

narrow1 : IsNarrow an_order.ratio
narrow1 = (1, 2, refl, refl, omega arith, omega arith)

narrow2 : IsNarrow another_order.ratio
narrow2 = (3, 1, refl, refl, omega arith, omega arith)

encoded_message-HasLength_example : length transfer_bytes ≡ 77
encoded_message-HasLength_example =
    encoded_message-HasLength (ok native) (transfer a_transfer) transfer_bytes transfer_run

hash_orders-swap_order_bytes_example :
    hash_orders native (returned (swap_order_bytes a_swap)) ≡ ok (contents 31 (replicate 31 7))
hash_orders-swap_order_bytes_example =
    hash_orders-swap_order_bytes native a_swap (returned (swap_order_bytes a_swap)) narrow1 narrow2
      swap_orders_run

order_message-ne-encoded_message_example :
    encoded_message (ok native) (transfer a_transfer) ≢ ok order_bytes
order_message-ne-encoded_message_example =
    order_message-ne-encoded_message (ok native) an_order (transfer a_transfer) order_bytes
      order_run

-- The same transfer with the sender in lower case.
abbrev lowered_transfer : Transfer
lowered_transfer = record a_transfer { from_address = lower a_transfer.from_address }

lowered_transfer_run : encoded_message (ok native) (transfer lowered_transfer) ≡ ok transfer_bytes
unfolding encoded_message type_field tx_type account_id_field order_message swap_order_bytes
    hash_orders contents serialize_account_id serialize_address remove_address_prefix
    serialize_token_id serialize_nonce serialize_timestamp serialize_ratio_part
    serialize_content_hash int_to_bytes to_bytes fromhex hex digits digit_loop fixed_digits
    packed_amount_checked closest_packable_amount pack_amount packed_fee_checked
    closest_packable_transaction_fee pack_fee float_to_integer sum_bits buffer_to_bits_be
    integer_to_float find_exponent choose_mantissa float_bytes num_to_bits byte_of_bits
    bytes_of_bits bits_into_bytes_in_be_order reverse_bits all_bytes bytes_of_ints
lowered_transfer_run = refl

encoded_message-kind_example : kind (transfer a_transfer) ≡ kind (transfer lowered_transfer)
encoded_message-kind_example =
    encoded_message-kind (ok native) (transfer a_transfer) (transfer lowered_transfer)
      transfer_bytes transfer_run lowered_transfer_run

transfer-encoded_message-injective_example :
    (lowered_transfer.account_id ≡ a_transfer.account_id)
    × (serialize_address lowered_transfer.from_address ≡ serialize_address a_transfer.from_address)
    × (serialize_address lowered_transfer.to_address ≡ serialize_address a_transfer.to_address)
    × ((base lowered_transfer.token).id ≡ (base a_transfer.token).id)
    × (lowered_transfer.amount ≡ a_transfer.amount)
    × (lowered_transfer.fee ≡ a_transfer.fee)
    × (lowered_transfer.nonce ≡ a_transfer.nonce)
    × (lowered_transfer.valid_from ≡ a_transfer.valid_from)
    × (lowered_transfer.valid_until ≡ a_transfer.valid_until)
transfer-encoded_message-injective_example =
    transfer-encoded_message-injective (ok native) lowered_transfer a_transfer transfer_bytes
      lowered_transfer_run transfer_run

order_message-injective_example :
    (an_order.account_id ≡ an_order.account_id)
    × (serialize_address an_order.recipient ≡ serialize_address an_order.recipient)
    × (an_order.nonce ≡ an_order.nonce)
    × (an_order.token_sell.id ≡ an_order.token_sell.id)
    × (an_order.token_buy.id ≡ an_order.token_buy.id)
    × (an_order.ratio.numerator ≡ an_order.ratio.numerator)
    × (an_order.ratio.denominator ≡ an_order.ratio.denominator)
    × (an_order.amount ≡ an_order.amount)
    × (an_order.valid_from ≡ an_order.valid_from)
    × (an_order.valid_until ≡ an_order.valid_until)
order_message-injective_example =
    order_message-injective an_order an_order order_bytes narrow1 narrow1 order_run order_run

swap_run :
    encoded_message (ok native) (swap a_swap)
    ≡ ok (returned (encoded_message (ok native) (swap a_swap)))
unfolding encoded_message type_field tx_type account_id_field order_message swap_order_bytes
    hash_orders contents serialize_account_id serialize_address remove_address_prefix
    serialize_token_id serialize_nonce serialize_timestamp serialize_ratio_part
    serialize_content_hash int_to_bytes to_bytes fromhex hex digits digit_loop fixed_digits
    packed_amount_checked closest_packable_amount pack_amount packed_fee_checked
    closest_packable_transaction_fee pack_fee float_to_integer sum_bits buffer_to_bits_be
    integer_to_float find_exponent choose_mantissa float_bytes num_to_bits byte_of_bits
    bytes_of_bits bits_into_bytes_in_be_order reverse_bits all_bytes bytes_of_ints
swap_run = refl

swap-encoded_message-injective_example :
    (a_swap.submitter_id ≡ a_swap.submitter_id)
    × (serialize_address a_swap.submitter_address ≡ serialize_address a_swap.submitter_address)
    × (a_swap.nonce ≡ a_swap.nonce)
    × (a_swap.fee_token.id ≡ a_swap.fee_token.id)
    × (a_swap.fee ≡ a_swap.fee)
    × (a_swap.amounts.0 ≡ a_swap.amounts.0)
    × (a_swap.amounts.1 ≡ a_swap.amounts.1)
    × (orders_s orders_t : Bytes) × (swap_order_bytes a_swap ≡ ok orders_s)
    × (swap_order_bytes a_swap ≡ ok orders_t)
    × (hash_orders native orders_s ≡ hash_orders native orders_t)
swap-encoded_message-injective_example =
    swap-encoded_message-injective (ok native) a_swap a_swap
      (returned (encoded_message (ok native) (swap a_swap))) swap_run swap_run
