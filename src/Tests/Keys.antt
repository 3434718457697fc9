-- ===== src/Tests/Keys.antt =====
-- A change of the signing key, the question whether it is set, and a withdrawal.
use zksync_python.Prelude.{◌≡◌, refl, ℕ, suc, ℤ, pos, false, [], Option, none, some, ok, replicate}
use zksync_python.Python.Text.{text}
use zksync_python.Python.Decimal.{
  decimal_of_int, str_ℕ, str_int, fix, scaleb, rescaled, format_fixed, int_of_decimal,
  round_half_even,
}
use zksync_python.Python.Fraction.{fraction, gcd_loop}
use zksync_python.Encoding.{
  encoded_message, type_field, tx_type, account_id_field, order_message, swap_order_bytes,
}
use zksync_python.Library.{hash_orders, contents}
use zksync_python.Python.Hex.{to_bytes, fromhex, hex}
use zksync_python.Python.Digits.{digits, digit_loop, fixed_digits}
use zksync_python.Serializers.Fields.{
  serialize_account_id, serialize_address, remove_address_prefix, serialize_token_id,
  serialize_nonce, serialize_timestamp, serialize_ratio_part, serialize_content_hash, int_to_bytes,
}
use zksync_python.Serializers.{
  packed_amount_checked, closest_packable_amount, pack_amount, packed_fee_checked,
  closest_packable_transaction_fee, pack_fee, float_to_integer, sum_bits, buffer_to_bits_be,
  integer_to_float, find_exponent, choose_mantissa, float_bytes, num_to_bits, byte_of_bits,
  bytes_of_bits, bits_into_bytes_in_be_order, reverse_bits, all_bytes, bytes_of_ints,
}
use zksync_python.Types
use zksync_python.Types.{
  Token, Nft, plain, nft, Transfer, Swap, Order, TxEthSignature, TxSignature, RatioType,
  tx_eth_signature, tx_signature, ethereum_signature,
}
use zksync_python.Tokens.{
  by_text, find, find_first, find_by_address, find_by_symbol, find_by_id, from_decimal,
  decimal_amount, decimal_str_amount, with_point, rstrip_zeros, last, has_point, is_eth,
}
use zksync_python.Messages.{
  human_readable_message, transfer_text, withdraw_text, forced_exit_text, mint_nft_text,
  withdraw_nft_text, swap_text, order_text, change_pub_key_text, remove_sync,
}
use zksync_python.Library.{sign}
use zksync_python.Provider.{FeeTxType, one}
use zksync_python.Signers.{
  sign_tx, web3_sign, web3_sign_tx, encode, encode_char, pubkey_hash, pubkey_hash_str,
}
use zksync_python.Wallet.{
  Context, Env, ◌>>=◌, address, get_account_id, resolve_token, send_signed_transaction,
  send_txs_batch,
}
use zksync_python.Wallet.Steps.{IsNonce, IsFee}
use zksync_python.Wallet.Build.{nonce_or_asked, build_transfer, build_swap}
use zksync_python.Wallet.Send.{transfer, transfer_nft, swap, swap_amounts, fee_or_asked}
use zksync_python.Wallet.Orders.{get_order, get_limit_order, unit_ratio}
use zksync_python.Tests.Data.{recipient, far}
use zksync_python.Types.{EthAuthData, auth_ecdsa, ChangePubKey}
use zksync_python.Encoding.{get_eth_tx_bytes, encode_message}
use zksync_python.Library.{get_pubkey_hash}
use zksync_python.Wallet.Build.{build_change_pub_key, get_auth_data}
use zksync_python.Wallet.Send.{set_signing_key, auth_fee_type}
use zksync_python.Wallet.Authorising.{IsAuthorised}
use zksync_python.Wallet.Keys.{set_signing_key_submits, is_signing_key_set_answers}
use zksync_python.Wallet.Withdrawing.{IsSignedWithdraw, withdraw_submits}
use zksync_python.Wallet.{get_account_state, is_signing_key_set}
use zksync_python.Wallet.Build.{build_withdraw}
use zksync_python.Wallet.Send.{withdraw}
use zksync_python.Types.{Withdraw}
use zksync_python.Provider.{State, AccountState}
use zksync_python.Prelude.{true, ◌⊎◌}
use zksync_python.Python.Text.{Text, eqb_text}
use zksync_python.Tests.Wallet.{wallet, provider, known, a_hash}

abbrev by_signature : Option EthAuthData
by_signature = some (auth_ecdsa (record { batch_hash = replicate 32 0 }))

set_signing_key_run :
    set_signing_key wallet
      (by_text (text "ETH"))
      by_signature
      (some (decimal_of_int (pos 1)))
      (some (pos 12))
      (pos 0)
      far
      (known, 0)
    ≡ (ok a_hash, (known, 1))
unfolding encoded_message type_field tx_type account_id_field order_message swap_order_bytes
    hash_orders contents serialize_account_id serialize_address remove_address_prefix
    serialize_token_id serialize_nonce serialize_timestamp serialize_ratio_part
    serialize_content_hash int_to_bytes to_bytes fromhex hex digits digit_loop fixed_digits
    packed_amount_checked closest_packable_amount pack_amount packed_fee_checked
    closest_packable_transaction_fee pack_fee float_to_integer sum_bits buffer_to_bits_be
    integer_to_float find_exponent choose_mantissa float_bytes num_to_bits byte_of_bits
    bytes_of_bits bits_into_bytes_in_be_order reverse_bits all_bytes bytes_of_ints sign_tx sign
    tx_eth_signature tx_signature web3_sign web3_sign_tx encode encode_char pubkey_hash
    pubkey_hash_str human_readable_message transfer_text withdraw_text forced_exit_text
    mint_nft_text withdraw_nft_text swap_text order_text change_pub_key_text remove_sync
    decimal_str_amount decimal_amount with_point rstrip_zeros last has_point is_eth from_decimal
    str_ℕ str_int decimal_of_int fix scaleb rescaled format_fixed int_of_decimal round_half_even
    fraction gcd_loop address get_account_id resolve_token send_signed_transaction send_txs_batch
    nonce_or_asked build_transfer build_swap transfer transfer_nft swap swap_amounts fee_or_asked
    get_order get_limit_order unit_ratio ◌>>=◌ find find_first find_by_address find_by_symbol
    find_by_id get_eth_tx_bytes encode_message get_pubkey_hash build_change_pub_key get_auth_data
    set_signing_key
set_signing_key_run = refl

set_signing_key_submits_example :
    (t : ChangePubKey) × (eth : TxEthSignature) × (token : Token) × (n units : ℤ) × (id : Option ℤ)
    × (s1 s2 s3 s4 : Env wallet) × IsNonce wallet (some (pos 12)) n (known, 0) s1
    × (resolve_token wallet (by_text (text "ETH")) s1 ≡ (ok token, s2))
    × IsFee wallet
        (some (decimal_of_int (pos 1)))
        (auth_fee_type by_signature)
        (address wallet)
        token
        units
        s2
        s3
    × (get_account_id wallet s3 ≡ (ok id, s4))
    × (provider.submit_tx (Types.change_pub_key t) (one (some eth)) false s4.1 ≡ (ok a_hash, 1))
    × IsAuthorised wallet by_signature t eth
    × (t.token ≡ token)
    × (t.fee ≡ units)
    × (t.nonce ≡ n)
    × (t.valid_from ≡ pos 0)
    × (t.valid_until ≡ far)
    × (t.account_id ≡ id)
set_signing_key_submits_example =
    set_signing_key_submits wallet (by_text (text "ETH")) by_signature
      (some (decimal_of_int (pos 1))) (some (pos 12)) (pos 0) far (known, 0) (known, 1) a_hash
      set_signing_key_run

abbrev key_text : Text
key_text = text "sync:0808080808080808080808080808080808080808"

-- The account has the wallet's key.
abbrev keyed : Context
keyed = record wallet {
  provider = record provider {
    get_state = λ who n. (
      ok (record {
        address = who;
        id = some (pos 44);
        depositing = none;
        committed = some (record { nonce = pos 12; pub_key_hash = key_text; balances = [] });
        verified = none;
      }),
      suc n,
    );
  };
}

is_signing_key_set_run : is_signing_key_set keyed (known, 0) ≡ (ok true, (known, 1))
unfolding encoded_message type_field tx_type account_id_field order_message swap_order_bytes
    hash_orders contents serialize_account_id serialize_address remove_address_prefix
    serialize_token_id serialize_nonce serialize_timestamp serialize_ratio_part
    serialize_content_hash int_to_bytes to_bytes fromhex hex digits digit_loop fixed_digits
    packed_amount_checked closest_packable_amount pack_amount packed_fee_checked
    closest_packable_transaction_fee pack_fee float_to_integer sum_bits buffer_to_bits_be
    integer_to_float find_exponent choose_mantissa float_bytes num_to_bits byte_of_bits
    bytes_of_bits bits_into_bytes_in_be_order reverse_bits all_bytes bytes_of_ints sign_tx sign
    tx_eth_signature tx_signature web3_sign web3_sign_tx encode encode_char pubkey_hash
    pubkey_hash_str human_readable_message transfer_text withdraw_text forced_exit_text
    mint_nft_text withdraw_nft_text swap_text order_text change_pub_key_text remove_sync
    decimal_str_amount decimal_amount with_point rstrip_zeros last has_point is_eth from_decimal
    str_ℕ str_int decimal_of_int fix scaleb rescaled format_fixed int_of_decimal round_half_even
    fraction gcd_loop address get_account_id resolve_token send_signed_transaction send_txs_batch
    nonce_or_asked build_transfer build_swap transfer transfer_nft swap swap_amounts fee_or_asked
    get_order get_limit_order unit_ratio ◌>>=◌ find find_first find_by_address find_by_symbol
    find_by_id get_pubkey_hash is_signing_key_set get_account_state
is_signing_key_set_run = refl

is_signing_key_set_answers_example :
    (account : AccountState) × (hash : Text) × (keyed.provider.get_state (address keyed) 0
      ≡ (ok account, 1))
    × (pubkey_hash_str keyed.zk_signer ≡ ok hash)
    × (((account.id ≡ none) × (true ≡ false))
        ⊎ ((id : ℤ) × (state : State) × (account.id ≡ some id)
            × (account.committed ≡ some state)
            × (true ≡ eqb_text state.pub_key_hash hash)))
is_signing_key_set_answers_example =
    is_signing_key_set_answers keyed (known, 0) (known, 1) true is_signing_key_set_run

withdraw_run :
    withdraw wallet recipient
      (decimal_of_int (pos 3))
      (by_text (text "ETH"))
      none
      true
      (pos 0)
      far
      (known, 0)
    ≡ (ok a_hash, (known, 3))
unfolding encoded_message type_field tx_type account_id_field order_message swap_order_bytes
    hash_orders contents serialize_account_id serialize_address remove_address_prefix
    serialize_token_id serialize_nonce serialize_timestamp serialize_ratio_part
    serialize_content_hash int_to_bytes to_bytes fromhex hex digits digit_loop fixed_digits
    packed_amount_checked closest_packable_amount pack_amount packed_fee_checked
    closest_packable_transaction_fee pack_fee float_to_integer sum_bits buffer_to_bits_be
    integer_to_float find_exponent choose_mantissa float_bytes num_to_bits byte_of_bits
    bytes_of_bits bits_into_bytes_in_be_order reverse_bits all_bytes bytes_of_ints sign_tx sign
    tx_eth_signature tx_signature web3_sign web3_sign_tx encode encode_char pubkey_hash
    pubkey_hash_str human_readable_message transfer_text withdraw_text forced_exit_text
    mint_nft_text withdraw_nft_text swap_text order_text change_pub_key_text remove_sync
    decimal_str_amount decimal_amount with_point rstrip_zeros last has_point is_eth from_decimal
    str_ℕ str_int decimal_of_int fix scaleb rescaled format_fixed int_of_decimal round_half_even
    fraction gcd_loop address get_account_id resolve_token send_signed_transaction send_txs_batch
    nonce_or_asked build_transfer build_swap transfer transfer_nft swap swap_amounts fee_or_asked
    get_order get_limit_order unit_ratio ◌>>=◌ find find_first find_by_address find_by_symbol
    find_by_id build_withdraw withdraw
withdraw_run = refl

withdraw_submits_example :
    (t : Withdraw) × (signed : TxEthSignature) × (token : Token) × (nonce units : ℤ) × (s1 s2
      s3 : Env wallet)
    × (world : ℕ) × (provider.get_account_nonce (address wallet) 0 ≡ (ok nonce, s1.1))
    × (known ≡ s1.0)
    × (resolve_token wallet (by_text (text "ETH")) s1 ≡ (ok token, s2))
    × (IsFee wallet none FeeTxType.fast_withdraw recipient token units s2 s3)
    × (provider.submit_tx (Types.withdraw t) (one (some signed)) true world ≡ (ok a_hash, 3))
    × IsSignedWithdraw wallet recipient
        (from_decimal (plain token) (decimal_of_int (pos 3)))
        token
        units
        nonce
        (pos 0)
        far
        t
        signed
withdraw_submits_example =
    withdraw_submits wallet recipient (decimal_of_int (pos 3)) (by_text (text "ETH")) none true
      (pos 0) far (known, 0) (known, 3) a_hash withdraw_run
