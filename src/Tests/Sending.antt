-- ===== src/Tests/Sending.antt =====
-- A forced exit, and an NFT minted and withdrawn.
use zksync_python.Prelude.{◌≡◌, refl, ℕ, ℤ, pos, false, none, some, ok}
use zksync_python.Python.Text.{Text, text}
use zksync_python.Python.Decimal.{
  decimal_of_int, str_ℕ, str_int, fix, scaleb, rescaled, format_fixed, int_of_decimal,
  round_half_even,
}
use zksync_python.Python.Fraction.{fraction, gcd_loop}
use zksync_python.Encoding.{
  encoded_message, type_field, tx_type, account_id_field, order_message, swap_order_bytes,
}
use zksync_python.Library.{hash_orders, contents}
use zksync_python.Python.Hex.{to_bytes, fromhex, hex}
use zksync_python.Python.Digits.{digits, digit_loop, fixed_digits}
use zksync_python.Serializers.Fields.{
  serialize_account_id, serialize_address, remove_address_prefix, serialize_token_id,
  serialize_nonce, serialize_timestamp, serialize_ratio_part, serialize_content_hash, int_to_bytes,
}
use zksync_python.Serializers.{
  packed_amount_checked, closest_packable_amount, pack_amount, packed_fee_checked,
  closest_packable_transaction_fee, pack_fee, float_to_integer, sum_bits, buffer_to_bits_be,
  integer_to_float, find_exponent, choose_mantissa, float_bytes, num_to_bits, byte_of_bits,
  bytes_of_bits, bits_into_bytes_in_be_order, reverse_bits, all_bytes, bytes_of_ints,
}
use zksync_python.Types
use zksync_python.Types.{
  Token, Nft, plain, nft, Transfer, Swap, Order, TxEthSignature, TxSignature, RatioType,
  tx_eth_signature, tx_signature, ethereum_signature,
}
use zksync_python.Tokens.{
  TokenLike, by_text, find, find_first, find_by_address, find_by_symbol, find_by_id, from_decimal,
  decimal_amount, decimal_str_amount, with_point, rstrip_zeros, last, has_point, is_eth,
}
use zksync_python.Messages.{
  human_readable_message, transfer_text, withdraw_text, forced_exit_text, mint_nft_text,
  withdraw_nft_text, swap_text, order_text, change_pub_key_text, remove_sync,
}
use zksync_python.Library.{sign}
use zksync_python.Provider.{one}
use zksync_python.Signers.{
  sign_tx, web3_sign, web3_sign_tx, encode, encode_char, pubkey_hash, pubkey_hash_str,
}
use zksync_python.Wallet.{
  Env, ◌>>=◌, address, get_account_id, resolve_token, send_signed_transaction, send_txs_batch,
}
use zksync_python.Wallet.Steps.{IsFee}
use zksync_python.Wallet.Build.{nonce_or_asked, build_transfer, build_swap}
use zksync_python.Wallet.Send.{transfer, transfer_nft, swap, swap_amounts, fee_or_asked}
use zksync_python.Wallet.Orders.{get_order, get_limit_order, unit_ratio}
use zksync_python.Provider.{FeeTxType}
use zksync_python.Types.{ForcedExit, MintNft, WithdrawNft}
use zksync_python.Wallet.Build.{build_forced_exit, build_mint_nft, build_withdraw_nft}
use zksync_python.Wallet.Send.{forced_exit, mint_nft, withdraw_nft}
use zksync_python.Wallet.Exits.{IsSignedExit, forced_exit_submits}
use zksync_python.Wallet.Nfts.{
  IsSignedMint, mint_nft_submits, IsSignedWithdrawNft, withdraw_nft_submits,
}
use zksync_python.Tests.Data.{sender, recipient, far}
use zksync_python.Tests.Wallet.{wallet, provider, known, a_hash}

abbrev eth_name : TokenLike
eth_name = by_text (text "ETH")

abbrev content : Text
content = text "0xabab"

abbrev an_nft : Nft
an_nft = record {
  token = record { address = recipient; id = pos 70000; symbol = text "NFT-70000"; decimals = 0 };
  creator_id = pos 44;
  content_hash = content;
  creator_address = sender;
  serial_id = pos 1;
}

forced_exit_run :
    forced_exit wallet recipient eth_name none (pos 0) far (known, 0) ≡ (ok a_hash, (known, 3))
unfolding encoded_message type_field tx_type account_id_field order_message swap_order_bytes
    hash_orders contents serialize_account_id serialize_address remove_address_prefix
    serialize_token_id serialize_nonce serialize_timestamp serialize_ratio_part
    serialize_content_hash int_to_bytes to_bytes fromhex hex digits digit_loop fixed_digits
    packed_amount_checked closest_packable_amount pack_amount packed_fee_checked
    closest_packable_transaction_fee pack_fee float_to_integer sum_bits buffer_to_bits_be
    integer_to_float find_exponent choose_mantissa float_bytes num_to_bits byte_of_bits
    bytes_of_bits bits_into_bytes_in_be_order reverse_bits all_bytes bytes_of_ints sign_tx sign
    tx_eth_signature tx_signature web3_sign web3_sign_tx encode encode_char pubkey_hash
    pubkey_hash_str human_readable_message transfer_text withdraw_text forced_exit_text
    mint_nft_text withdraw_nft_text swap_text order_text change_pub_key_text remove_sync
    decimal_str_amount decimal_amount with_point rstrip_zeros last has_point is_eth from_decimal
    str_ℕ str_int decimal_of_int fix scaleb rescaled format_fixed int_of_decimal round_half_even
    fraction gcd_loop address get_account_id resolve_token send_signed_transaction send_txs_batch
    nonce_or_asked build_transfer build_swap transfer transfer_nft swap swap_amounts fee_or_asked
    get_order get_limit_order unit_ratio ◌>>=◌ find find_first find_by_address find_by_symbol
    find_by_id build_forced_exit forced_exit
forced_exit_run = refl

forced_exit_submits_example :
    (t : ForcedExit) × (signed : TxEthSignature) × (token : Token) × (nonce units : ℤ) × (s1 s2
      s3 : Env wallet)
    × (world : ℕ) × (provider.get_account_nonce (address wallet) 0 ≡ (ok nonce, s1.1))
    × (known ≡ s1.0)
    × (resolve_token wallet eth_name s1 ≡ (ok token, s2))
    × (IsFee wallet none FeeTxType.withdraw recipient token units s2 s3)
    × (provider.submit_tx (Types.forced_exit t) (one (some signed)) false world ≡ (ok a_hash, 3))
    × IsSignedExit wallet recipient token units nonce (pos 0) far t signed
forced_exit_submits_example =
    forced_exit_submits wallet recipient eth_name none (pos 0) far (known, 0) (known, 3) a_hash
      forced_exit_run

mint_nft_run :
    mint_nft wallet content recipient eth_name (some (decimal_of_int (pos 1))) (known, 0)
    ≡ (ok a_hash, (known, 2))
unfolding encoded_message type_field tx_type account_id_field order_message swap_order_bytes
    hash_orders contents serialize_account_id serialize_address remove_address_prefix
    serialize_token_id serialize_nonce serialize_timestamp serialize_ratio_part
    serialize_content_hash int_to_bytes to_bytes fromhex hex digits digit_loop fixed_digits
    packed_amount_checked closest_packable_amount pack_amount packed_fee_checked
    closest_packable_transaction_fee pack_fee float_to_integer sum_bits buffer_to_bits_be
    integer_to_float find_exponent choose_mantissa float_bytes num_to_bits byte_of_bits
    bytes_of_bits bits_into_bytes_in_be_order reverse_bits all_bytes bytes_of_ints sign_tx sign
    tx_eth_signature tx_signature web3_sign web3_sign_tx encode encode_char pubkey_hash
    pubkey_hash_str human_readable_message transfer_text withdraw_text forced_exit_text
    mint_nft_text withdraw_nft_text swap_text order_text change_pub_key_text remove_sync
    decimal_str_amount decimal_amount with_point rstrip_zeros last has_point is_eth from_decimal
    str_ℕ str_int decimal_of_int fix scaleb rescaled format_fixed int_of_decimal round_half_even
    fraction gcd_loop address get_account_id resolve_token send_signed_transaction send_txs_batch
    nonce_or_asked build_transfer build_swap transfer transfer_nft swap swap_amounts fee_or_asked
    get_order get_limit_order unit_ratio ◌>>=◌ find find_first find_by_address find_by_symbol
    find_by_id build_mint_nft mint_nft
mint_nft_run = refl

mint_nft_submits_example :
    (t : MintNft) × (signed : TxEthSignature) × (token : Token) × (nonce units : ℤ) × (s1 s2
      s3 : Env wallet)
    × (world : ℕ) × (resolve_token wallet eth_name (known, 0) ≡ (ok token, s1))
    × (provider.get_account_nonce (address wallet) s1.1 ≡ (ok nonce, s2.1))
    × (s1.0 ≡ s2.0)
    × (IsFee wallet (some (decimal_of_int (pos 1))) FeeTxType.mint_nft recipient token units s2 s3)
    × (provider.submit_tx (Types.mint_nft t) (one (some signed)) false world ≡ (ok a_hash, 2))
    × IsSignedMint wallet content recipient token units nonce t signed
mint_nft_submits_example =
    mint_nft_submits wallet content recipient eth_name (some (decimal_of_int (pos 1))) (known, 0)
      (known, 2) a_hash mint_nft_run

withdraw_nft_run :
    withdraw_nft wallet recipient an_nft eth_name none (pos 0) far (known, 0)
    ≡ (ok a_hash, (known, 3))
unfolding encoded_message type_field tx_type account_id_field order_message swap_order_bytes
    hash_orders contents serialize_account_id serialize_address remove_address_prefix
    serialize_token_id serialize_nonce serialize_timestamp serialize_ratio_part
    serialize_content_hash int_to_bytes to_bytes fromhex hex digits digit_loop fixed_digits
    packed_amount_checked closest_packable_amount pack_amount packed_fee_checked
    closest_packable_transaction_fee pack_fee float_to_integer sum_bits buffer_to_bits_be
    integer_to_float find_exponent choose_mantissa float_bytes num_to_bits byte_of_bits
    bytes_of_bits bits_into_bytes_in_be_order reverse_bits all_bytes bytes_of_ints sign_tx sign
    tx_eth_signature tx_signature web3_sign web3_sign_tx encode encode_char pubkey_hash
    pubkey_hash_str human_readable_message transfer_text withdraw_text forced_exit_text
    mint_nft_text withdraw_nft_text swap_text order_text change_pub_key_text remove_sync
    decimal_str_amount decimal_amount with_point rstrip_zeros last has_point is_eth from_decimal
    str_ℕ str_int decimal_of_int fix scaleb rescaled format_fixed int_of_decimal round_half_even
    fraction gcd_loop address get_account_id resolve_token send_signed_transaction send_txs_batch
    nonce_or_asked build_transfer build_swap transfer transfer_nft swap swap_amounts fee_or_asked
    get_order get_limit_order unit_ratio ◌>>=◌ find find_first find_by_address find_by_symbol
    find_by_id build_withdraw_nft withdraw_nft
withdraw_nft_run = refl

withdraw_nft_submits_example :
    (t : WithdrawNft) × (signed : TxEthSignature) × (token : Token) × (nonce units : ℤ) × (s1 s2
      s3 : Env wallet)
    × (world : ℕ) × (provider.get_account_nonce (address wallet) 0 ≡ (ok nonce, s1.1))
    × (known ≡ s1.0)
    × (resolve_token wallet eth_name s1 ≡ (ok token, s2))
    × (IsFee wallet none FeeTxType.withdraw_nft recipient token units s2 s3)
    × (provider.submit_tx (Types.withdraw_nft t) (one (some signed)) false world ≡ (ok a_hash, 3))
    × IsSignedWithdrawNft wallet recipient an_nft token units nonce (pos 0) far t signed
withdraw_nft_submits_example =
    withdraw_nft_submits wallet recipient an_nft eth_name none (pos 0) far (known, 0) (known, 3)
      a_hash withdraw_nft_run
