-- ===== src/Tests/Http.antt =====
-- The provider and the wallet over HTTP, with a server that answers the first post with an account and
-- each other one with a hash, and counts the posts.
use zksync_python.Prelude.{
  ℤ, Option, Json, null, bool, int, str, array, object, field, end, ◌≡◌, ◌^◌, ◌*◌, ◌-◌, refl, ℕ,
  suc, pos, false, [], ◌∷◌, none, some, ok, err, replicate, ◌==◌, if◌then◌else◌,
  account_does_not_exist, ◌↔◌, arith,
}
use zksync_python.Python.Text.{text, lower}
use zksync_python.Python.Decimal.{
  decimal_of_int, str_ℕ, str_int, fix, scaleb, rescaled, format_fixed, int_of_decimal,
  round_half_even,
}
use zksync_python.Python.Fraction.{fraction, gcd_loop}
use zksync_python.Encoding.{
  encoded_message, type_field, tx_type, account_id_field, order_message, swap_order_bytes,
}
use zksync_python.Library.{hash_orders, contents}
use zksync_python.Python.Hex.{to_bytes, fromhex, hex}
use zksync_python.Python.Digits.{digits, digit_loop, fixed_digits}
use zksync_python.Serializers.Fields.{
  serialize_account_id, serialize_address, remove_address_prefix, serialize_token_id,
  serialize_nonce, serialize_timestamp, serialize_ratio_part, serialize_content_hash, int_to_bytes,
}
use zksync_python.Serializers.{
  packed_amount_checked, closest_packable_amount, pack_amount, packed_fee_checked,
  closest_packable_transaction_fee, pack_fee, float_to_integer, sum_bits, buffer_to_bits_be,
  integer_to_float, find_exponent, choose_mantissa, float_bytes, num_to_bits, byte_of_bits,
  bytes_of_bits, bits_into_bytes_in_be_order, reverse_bits, all_bytes, bytes_of_ints,
}
use zksync_python.Types
use zksync_python.Types.{
  Token, Nft, plain, nft, Transfer, Swap, Order, TxEthSignature, TxSignature, RatioType,
  tx_eth_signature, tx_signature, ethereum_signature,
}
use zksync_python.Tokens.{
  by_text, eth, find, find_first, find_by_address, find_by_symbol, find_by_id, from_decimal,
  decimal_amount, decimal_str_amount, with_point, rstrip_zeros, last, has_point, is_eth,
}
use zksync_python.Messages.{
  human_readable_message, transfer_text, withdraw_text, forced_exit_text, mint_nft_text,
  withdraw_nft_text, swap_text, order_text, change_pub_key_text, remove_sync,
}
use zksync_python.Library.{sign}
use zksync_python.Signers.{
  ethereum_signer_web3, sign_tx, web3_sign, web3_sign_tx, encode, encode_char, pubkey_hash,
  pubkey_hash_str,
}
use zksync_python.Wallet.{
  Context, ◌>>=◌, address, get_account_id, resolve_token, send_signed_transaction, send_txs_batch,
}
use zksync_python.Wallet.Steps.{IsFee}
use zksync_python.Wallet.Sending.{draft}
use zksync_python.Dicts.{int_or_null}
use zksync_python.Provider.{FeeTxType, one}
use zksync_python.Wallet.{Env}
use zksync_python.Signers.{tx}
use zksync_python.Provider.V01.{v01_submit_tx}
use zksync_python.Wallet.Build.{nonce_or_asked, build_transfer, build_swap}
use zksync_python.Wallet.Send.{transfer, transfer_nft, swap, swap_amounts, fee_or_asked}
use zksync_python.Wallet.Orders.{get_order, get_limit_order, unit_ratio}
use zksync_python.Tests.Data.{native, sender, recipient, a_transfer, far}
use zksync_python.Python.Hex.{Bytes}
use zksync_python.Json.{item, lookup}
use zksync_python.Dicts.{dict, transfer_dict, transfer_object, signature_dict, eth_signature_dict}
use zksync_python.Dicts.Reader.{read_message}
use zksync_python.Dicts.Reading.{read_message-dict}
use zksync_python.Encoding.Total.{IsSendable}
use zksync_python.Network.{mainnet}
use zksync_python.Transport.{
  HttpClient, HttpResponse, create_request, raise_response, read_response, read_result,
  result_or_error, http_request, http_transport,
}
use zksync_python.Transport.Answers.{IsResult, http_request_answers}
use zksync_python.Provider.V01.{
  Models, keywords, get_nonce, account_of, v01_submit_tx, v01_get_state, v01_get_account_nonce,
}
use zksync_python.Wallet.Posting.{http_wallet, transfer_posts}
use zksync_python.Wallet.Refusing.{transfer_unknown_account}
use zksync_python.Wallet.Completing.{unsigned, transfer_completes}
use zksync_python.Tests.Wallet.{account, signer, known, a_hash}
use zksync_python.Types.{EncodedTx}

abbrev answer : Json → HttpResponse
answer result = record { status_code = 200; json = ok (object ((text "result", result) ∷ [])) }

abbrev client : HttpClient
client = record {
  World = ℕ;
  post = λ url body n. (ok (answer (if n == 0 then object [] else a_hash)), suc n);
}

abbrev models : Models
models = record {
  to_checksum_address = λ json. ok sender;
  token = λ address id symbol decimals. ok eth;
  account_state = λ fields. ok (record {
    address = sender;
    id = some (pos 44);
    depositing = none;
    committed = some (record { nonce = pos 12; pub_key_hash = []; balances = [] });
    verified = none;
  });
  fee = λ fields. ok (record {
    fee_type = null;
    gas_tx_amount = pos 0;
    gas_price_wei = pos 0;
    gas_fee = pos 0;
    zkp_fee = pos 0;
    total_fee = pos 0;
  });
  contract_address = λ fields. ok (record { main_contract = sender; gov_contract = sender });
  eth_op_info = λ fields. ok (record {
    executed = false;
    block = record { block_number = pos 0; committed = false; verified = false };
  });
}

answered_run : http_request client mainnet (text "tx_submit") null 3 ≡ (ok a_hash, 4)
unfolding http_request read_response read_result result_or_error raise_response lookup item
answered_run = refl

http_request_answers_example :
    (http_request client mainnet (text "tx_submit") null 3 ≡ (ok a_hash, 4)) ↔ (
      (response : HttpResponse) × (client.post mainnet.zksync_url
          (create_request (text "tx_submit") null)
          3
        ≡ (ok response, 4))
      × IsResult response a_hash)
http_request_answers_example =
    http_request_answers client mainnet (text "tx_submit") null a_hash 3 4

abbrev signed_transfer : Transfer
signed_transfer = record a_transfer {
  signature = some (tx_signature (replicate 32 8) (replicate 64 9));
}

abbrev transfer_json : Json
transfer_json =
    transfer_object signed_transfer
      (signature_dict (tx_signature (replicate 32 8) (replicate 64 9)))

dict_run : dict (Types.transfer signed_transfer) ≡ ok transfer_json
unfolding dict transfer_dict
dict_run = refl

read_message-dict_example :
    read_message (ok native) transfer_json
    ≡ encoded_message (ok native) (Types.transfer signed_transfer)
read_message-dict_example =
    read_message-dict (ok native) (Types.transfer signed_transfer) transfer_json dict_run

nonce_run : v01_get_account_nonce (http_transport client mainnet) models sender 0 ≡ (ok (pos 12), 1)
unfolding v01_get_account_nonce v01_get_state account_of keywords get_nonce http_request
    read_response read_result result_or_error raise_response lookup item
nonce_run = refl

abbrev posting : Context
posting = http_wallet client mainnet models (ethereum_signer_web3 account) signer

transfer_http_run :
    transfer posting recipient
      (decimal_of_int (pos 3))
      (by_text (text "ETH"))
      (some (decimal_of_int (pos 1)))
      (pos 0)
      far
      (known, 0)
    ≡ (ok a_hash, (known, 2))
unfolding encoded_message type_field tx_type account_id_field order_message swap_order_bytes
    hash_orders contents serialize_account_id serialize_address remove_address_prefix
    serialize_token_id serialize_nonce serialize_timestamp serialize_ratio_part
    serialize_content_hash int_to_bytes to_bytes fromhex hex digits digit_loop fixed_digits
    packed_amount_checked closest_packable_amount pack_amount packed_fee_checked
    closest_packable_transaction_fee pack_fee float_to_integer sum_bits buffer_to_bits_be
    integer_to_float find_exponent choose_mantissa float_bytes num_to_bits byte_of_bits
    bytes_of_bits bits_into_bytes_in_be_order reverse_bits all_bytes bytes_of_ints sign_tx sign
    tx_eth_signature tx_signature web3_sign web3_sign_tx encode encode_char pubkey_hash
    pubkey_hash_str human_readable_message transfer_text withdraw_text forced_exit_text
    mint_nft_text withdraw_nft_text swap_text order_text change_pub_key_text remove_sync
    decimal_str_amount decimal_amount with_point rstrip_zeros last has_point is_eth from_decimal
    str_ℕ str_int decimal_of_int fix scaleb rescaled format_fixed int_of_decimal round_half_even
    fraction gcd_loop address get_account_id resolve_token send_signed_transaction send_txs_batch
    nonce_or_asked build_transfer build_swap transfer transfer_nft swap swap_amounts fee_or_asked
    get_order get_limit_order unit_ratio ◌>>=◌ find find_first find_by_address find_by_symbol
    find_by_id dict transfer_dict v01_submit_tx v01_get_account_nonce v01_get_state account_of
    keywords get_nonce http_request read_response read_result result_or_error raise_response lookup
    item create_request
transfer_http_run = refl

transfer_posts_example :
    (json : Json) × (eth_signed : TxEthSignature) × (token : Token) × (nonce units : ℤ)
    × (id : Option ℤ) × (bytes signature : Bytes) × (s1 s2 s3 s4 : Env posting)
    × (response : HttpResponse) × (posting.provider.get_account_nonce sender 0 ≡ (ok nonce, s1.1))
    × (known ≡ s1.0)
    × (resolve_token posting (by_text (text "ETH")) s1 ≡ (ok token, s2))
    × IsFee posting (some (decimal_of_int (pos 1))) FeeTxType.transfer recipient token units s2 s3
    × (get_account_id posting s3 ≡ (ok id, s4))
    × (client.post mainnet.zksync_url
          (create_request
            (text "tx_submit")
            (array (json ∷ eth_signature_dict eth_signed ∷ bool false ∷ [])))
          s4.1
        ≡ (ok response, 2))
    × IsResult response a_hash
    × (item json (text "type") ≡ ok (str (text "Transfer")))
    × (item json (text "accountId") ≡ ok (int_or_null id))
    × (item json (text "from") ≡ ok (str sender))
    × (item json (text "to") ≡ ok (str (lower recipient)))
    × (item json (text "token") ≡ ok (int token.id))
    × (item json (text "amount") ≡ ok (int (from_decimal (plain token) (decimal_of_int (pos 3)))))
    × (item json (text "fee") ≡ ok (int units))
    × (item json (text "nonce") ≡ ok (int nonce))
    × (item json (text "validFrom") ≡ ok (int (pos 0)))
    × (item json (text "validUntil") ≡ ok (int far))
    × (web3_sign_tx account (
          tx (
            Types.transfer (
              draft posting recipient
                (from_decimal (plain token) (decimal_of_int (pos 3)))
                token
                units
                nonce
                (pos 0)
                far
                id)))
        ≡ ok eth_signed)
    × (read_message (ok native) json ≡ ok bytes)
    × (sign native (replicate 32 9) bytes ≡ ok signature)
    × (item json (text "signature") ≡ ok (signature_dict (tx_signature (replicate 32 8) signature)))
transfer_posts_example =
    transfer_posts client mainnet models (ethereum_signer_web3 account) signer recipient
      (decimal_of_int (pos 3)) (by_text (text "ETH")) (some (decimal_of_int (pos 1))) (pos 0) far
      (known, 0) (known, 2) a_hash transfer_http_run

-- A server that knows no account.
abbrev stranger : HttpClient
stranger = record { World = ℕ; post = λ url body n. (ok (answer null), suc n) }

null-IsResult : IsResult (answer null) null
unfolding lookup
null-IsResult = (field (text "result") null end, refl, refl, refl, refl)

transfer_unknown_account_example :
    transfer
      (http_wallet stranger mainnet models (ethereum_signer_web3 account) signer)
      recipient
      (decimal_of_int (pos 3))
      (by_text (text "ETH"))
      none
      (pos 0)
      far
      (known, 0)
    ≡ (err (account_does_not_exist sender), (known, 1))
transfer_unknown_account_example =
    transfer_unknown_account stranger mainnet models (ethereum_signer_web3 account) signer recipient
      (decimal_of_int (pos 3)) (by_text (text "ETH")) none (pos 0) far known 0 1 (answer null) refl
      null-IsResult

abbrev three_ether : Transfer
three_ether =
    unsigned posting.provider account signer recipient
      (from_decimal (plain eth) (decimal_of_int (pos 3))) eth
      (from_decimal (plain eth) (decimal_of_int (pos 1))) (pos 12) (pos 0) far (some (pos 44))

three_ether-IsSendable : IsSendable three_ether
unfolding encoded_message type_field tx_type account_id_field order_message swap_order_bytes
    hash_orders contents serialize_account_id serialize_address remove_address_prefix
    serialize_token_id serialize_nonce serialize_timestamp serialize_ratio_part
    serialize_content_hash int_to_bytes to_bytes fromhex hex digits digit_loop fixed_digits
    packed_amount_checked closest_packable_amount pack_amount packed_fee_checked
    closest_packable_transaction_fee pack_fee float_to_integer sum_bits buffer_to_bits_be
    integer_to_float find_exponent choose_mantissa float_bytes num_to_bits byte_of_bits
    bytes_of_bits bits_into_bytes_in_be_order reverse_bits all_bytes bytes_of_ints sign_tx sign
    tx_eth_signature tx_signature web3_sign web3_sign_tx encode encode_char pubkey_hash
    pubkey_hash_str human_readable_message transfer_text withdraw_text forced_exit_text
    mint_nft_text withdraw_nft_text swap_text order_text change_pub_key_text remove_sync
    decimal_str_amount decimal_amount with_point rstrip_zeros last has_point is_eth from_decimal
    str_ℕ str_int decimal_of_int fix scaleb rescaled format_fixed int_of_decimal round_half_even
    fraction gcd_loop address get_account_id resolve_token send_signed_transaction send_txs_batch
    nonce_or_asked build_transfer build_swap transfer transfer_nft swap swap_amounts fee_or_asked
    get_order get_limit_order unit_ratio ◌>>=◌ find find_first find_by_address find_by_symbol
    find_by_id
three_ether-IsSendable = record {
  id = 44;
  is_id = refl;
  id_fits = omega arith;
  sender = (_, refl);
  recipient = (_, refl);
  token = 0;
  is_token = refl;
  token_fits = omega arith;
  amount = 3 * 10 ^ 18;
  is_amount = refl;
  amount_fits = (3, 18, omega arith, omega arith, refl);
  fee = 10 ^ 18;
  is_fee = refl;
  fee_fits = (1, 18, omega arith, omega arith, refl);
  nonce = 12;
  is_nonce = refl;
  nonce_fits = omega arith;
  start = 0;
  is_start = refl;
  start_fits = omega arith;
  stop = 2 ^ 32 - 1;
  is_stop = refl;
  stop_fits = omega arith;
}

eth_found : find known.tokens (by_text (text "ETH")) ≡ some eth
unfolding encoded_message type_field tx_type account_id_field order_message swap_order_bytes
    hash_orders contents serialize_account_id serialize_address remove_address_prefix
    serialize_token_id serialize_nonce serialize_timestamp serialize_ratio_part
    serialize_content_hash int_to_bytes to_bytes fromhex hex digits digit_loop fixed_digits
    packed_amount_checked closest_packable_amount pack_amount packed_fee_checked
    closest_packable_transaction_fee pack_fee float_to_integer sum_bits buffer_to_bits_be
    integer_to_float find_exponent choose_mantissa float_bytes num_to_bits byte_of_bits
    bytes_of_bits bits_into_bytes_in_be_order reverse_bits all_bytes bytes_of_ints sign_tx sign
    tx_eth_signature tx_signature web3_sign web3_sign_tx encode encode_char pubkey_hash
    pubkey_hash_str human_readable_message transfer_text withdraw_text forced_exit_text
    mint_nft_text withdraw_nft_text swap_text order_text change_pub_key_text remove_sync
    decimal_str_amount decimal_amount with_point rstrip_zeros last has_point is_eth from_decimal
    str_ℕ str_int decimal_of_int fix scaleb rescaled format_fixed int_of_decimal round_half_even
    fraction gcd_loop address get_account_id resolve_token send_signed_transaction send_txs_batch
    nonce_or_asked build_transfer build_swap transfer transfer_nft swap swap_amounts fee_or_asked
    get_order get_limit_order unit_ratio ◌>>=◌ find find_first find_by_address find_by_symbol
    find_by_id
eth_found = refl

abbrev signed_by : TxSignature → Transfer
signed_by zk = record three_ether { signature = some zk }

-- The server gives a hash for the transfer, whatever its signatures are.
accepted_run :
    (zk : TxSignature) (eth_signed : TxEthSignature)
    → v01_submit_tx
        (http_transport client mainnet)
        models
        (Types.transfer (signed_by zk))
        (one (some eth_signed))
        false
        1
      ≡ (ok a_hash, 2)
unfolding v01_submit_tx dict transfer_dict http_request read_response read_result result_or_error
    raise_response lookup item
accepted_run zk eth_signed = refl

transfer_completes_example :
    (hash : Json) × (sent : ℕ) × (zk : TxSignature) × (eth_signed : TxEthSignature) × (sign_tx
        signer
        (tx (Types.transfer three_ether))
      ≡ ok zk)
    × (web3_sign_tx account (tx (Types.transfer three_ether)) ≡ ok eth_signed)
    × (transfer posting recipient
          (decimal_of_int (pos 3))
          (by_text (text "ETH"))
          (some (decimal_of_int (pos 1)))
          (pos 0)
          far
          (known, 0)
        ≡ (ok hash, (known, sent)))
    × (v01_submit_tx
          (http_transport client mainnet)
          models
          (Types.transfer (signed_by zk))
          (one (some eth_signed))
          false
          1
        ≡ (ok hash, sent))
transfer_completes_example =
    transfer_completes posting.provider account signer recipient (decimal_of_int (pos 3))
      (by_text (text "ETH")) (decimal_of_int (pos 1)) (pos 0) far eth (pos 44) (pos 12) known 0 1
      refl eth_found (omega arith) refl nonce_run
      (λ zk eth_signed _ _. (a_hash, 2, accepted_run zk eth_signed)) three_ether-IsSendable
