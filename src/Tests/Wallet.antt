-- ===== src/Tests/Wallet.antt =====
-- The wallet with a server that knows one account and two tokens, and counts the calls.
use zksync_python.Prelude.{
  Json, null, str, array, ◌≡◌, ◌≢◌, refl, ℕ, suc, ℤ, pos, ◌+ℤ◌, false, [], ◌∷◌, ◌++◌, Option, none,
  some, ok, replicate,
}
use zksync_python.Python.Text.{text, lower}
use zksync_python.Python.Decimal.{
  Decimal, decimal_of_int, str_ℕ, str_int, fix, scaleb, rescaled, format_fixed, int_of_decimal,
  round_half_even,
}
use zksync_python.Python.Fraction.{Fraction, fraction, gcd_loop}
use zksync_python.Encoding.{
  encoded_message, type_field, tx_type, account_id_field, order_message, swap_order_bytes,
}
use zksync_python.Library.{hash_orders, contents}
use zksync_python.Python.Hex.{to_bytes, fromhex, hex}
use zksync_python.Python.Digits.{digits, digit_loop, fixed_digits}
use zksync_python.Serializers.Fields.{
  serialize_account_id, serialize_address, remove_address_prefix, serialize_token_id,
  serialize_nonce, serialize_timestamp, serialize_ratio_part, serialize_content_hash, int_to_bytes,
}
use zksync_python.Serializers.{
  packed_amount_checked, closest_packable_amount, pack_amount, packed_fee_checked,
  closest_packable_transaction_fee, pack_fee, float_to_integer, sum_bits, buffer_to_bits_be,
  integer_to_float, find_exponent, choose_mantissa, float_bytes, num_to_bits, byte_of_bits,
  bytes_of_bits, bits_into_bytes_in_be_order, reverse_bits, all_bytes, bytes_of_ints,
}
use zksync_python.Types
use zksync_python.Types.{
  Token, Nft, plain, nft, Transfer, Swap, Order, TxEthSignature, TxSignature, RatioType,
  tx_eth_signature, tx_signature, ethereum_signature,
}
use zksync_python.Tokens.{
  by_text, eth, find, find_first, find_by_address, find_by_symbol, find_by_id, from_decimal,
  decimal_amount, decimal_str_amount, with_point, rstrip_zeros, last, has_point, is_eth,
}
use zksync_python.Tokens.Lookup.{IsNamed, find-IsNamed}
use zksync_python.Messages.{
  human_readable_message, transfer_text, withdraw_text, forced_exit_text, mint_nft_text,
  withdraw_nft_text, swap_text, order_text, change_pub_key_text, remove_sync,
}
use zksync_python.Library.{sign}
use zksync_python.Provider.{Provider, FeeTxType, one, many}
use zksync_python.Signers.{
  Account, ethereum_signer_web3, ZkSyncSigner, tx, order, sign_tx, web3_sign, web3_sign_tx, encode,
  encode_char, pubkey_hash, pubkey_hash_str,
}
use zksync_python.Wallet.{
  Context, Env, WalletState, new_wallet, ◌>>=◌, address, get_account_id, resolve_token,
  send_signed_transaction, send_txs_batch, default_valid_until,
}
use zksync_python.Wallet.Steps.{IsNonce, IsFee, IsBatchFee}
use zksync_python.Wallet.Build.{nonce_or_asked, build_transfer, build_swap}
use zksync_python.Wallet.Send.{transfer, transfer_nft, swap, swap_amounts, fee_or_asked}
use zksync_python.Wallet.Orders.{get_order, get_limit_order, unit_ratio, recipient_or_self}
use zksync_python.Wallet.Sending.{
  IsSigned, IsSignedTransfer, transfer_submits, transfer_nft_submits,
}
use zksync_python.Wallet.Swaps.{swap_of_orders}
use zksync_python.Wallet.Ordering.{IsUnitRatio, get_order_signed, get_limit_order-nonce}
use zksync_python.Tests.Data.{native, sender, recipient, an_order, another_order, far}

abbrev pub dai : Token
dai = record { address = recipient; id = pos 1; symbol = text "DAI"; decimals = 18 }

abbrev pub a_hash : Json
a_hash = str (text "sync-tx:01")

abbrev hashes : Json
hashes = array (a_hash ∷ str (text "sync-tx:02") ∷ [])

-- Each call counts.
abbrev pub provider : Provider
provider = record {
  World = ℕ;
  submit_tx = λ t signatures fast n. (ok (a_hash), suc n);
  get_tokens = λ n. (ok (eth ∷ dai ∷ []), suc n);
  submit_txs_batch = λ ts signatures n. (ok hashes, suc n);
  get_state = λ who n. (
    ok (record {
      address = who;
      id = some (pos 44);
      depositing = none;
      committed = none;
      verified = none;
    }),
    suc n,
  );
  get_account_nonce = λ who n. (ok (pos 12), suc n);
  get_transactions_batch_fee = λ types whos name n. (ok (pos 1000000), suc n);
  get_transaction_fee = λ type who name n. (
    ok (record {
      fee_type = null;
      gas_tx_amount = pos 0;
      gas_price_wei = pos 0;
      gas_fee = pos 0;
      zkp_fee = pos 0;
      total_fee = pos 1000000;
    }),
    suc n,
  );
}

abbrev pub account : Account
account = record { address = sender; sign_message = λ message. replicate 2 7 }

abbrev pub signer : ZkSyncSigner
signer = record {
  library = native;
  environment_library = ok native;
  private_key = replicate 32 9;
  public_key = replicate 32 8;
}

abbrev pub wallet : Context
wallet = record {
  provider = provider;
  eth_signer = ethereum_signer_web3 account;
  zk_signer = signer;
}

-- After the first calls.
abbrev pub known : WalletState
known = record { account_id = some (pos 44); tokens = eth ∷ dai ∷ [] }

nothing_known : find [] (by_text (text "XYZ")) ≡ none
unfolding find find_first find_by_address find_by_symbol find_by_id
nothing_known = refl

find-IsNamed_example :
    IsNamed (eth ∷ dai ∷ []) (by_text (text "DAI")) (find (eth ∷ dai ∷ []) (by_text (text "DAI")))
find-IsNamed_example = find-IsNamed (eth ∷ dai ∷ []) (by_text (text "DAI"))

-- What a run returned and the state behind it, where they are too long to write.
abbrev zk_signature : TxSignature
zk_signature = tx_signature (replicate 32 8) (replicate 32 9 ++ replicate 32 0)

abbrev eth_signature : TxEthSignature
eth_signature = tx_eth_signature ethereum_signature (replicate 2 7)

abbrev built_transfer : Transfer
built_transfer = record {
  account_id = some (pos 44);
  from_address = sender;
  to_address = lower recipient;
  token = plain eth;
  amount = pos 1000000000000;
  fee = pos 1000000;
  nonce = pos 12;
  valid_from = pos 0;
  valid_until = far;
  signature = some zk_signature;
}

build_transfer_run :
    build_transfer wallet recipient
      (pos 1000000000000)
      (plain eth)
      (pos 1000000)
      (some (pos 12))
      (pos 0)
      far
      (known, 3)
    ≡ (ok (built_transfer, eth_signature), (known, 3))
unfolding encoded_message type_field tx_type account_id_field order_message swap_order_bytes
    hash_orders contents serialize_account_id serialize_address remove_address_prefix
    serialize_token_id serialize_nonce serialize_timestamp serialize_ratio_part
    serialize_content_hash int_to_bytes to_bytes fromhex hex digits digit_loop fixed_digits
    packed_amount_checked closest_packable_amount pack_amount packed_fee_checked
    closest_packable_transaction_fee pack_fee float_to_integer sum_bits buffer_to_bits_be
    integer_to_float find_exponent choose_mantissa float_bytes num_to_bits byte_of_bits
    bytes_of_bits bits_into_bytes_in_be_order reverse_bits all_bytes bytes_of_ints sign_tx sign
    tx_eth_signature tx_signature web3_sign web3_sign_tx encode encode_char pubkey_hash
    pubkey_hash_str human_readable_message transfer_text withdraw_text forced_exit_text
    mint_nft_text withdraw_nft_text swap_text order_text change_pub_key_text remove_sync
    decimal_str_amount decimal_amount with_point rstrip_zeros last has_point is_eth from_decimal
    str_ℕ str_int decimal_of_int fix scaleb rescaled format_fixed int_of_decimal round_half_even
    fraction gcd_loop address get_account_id resolve_token send_signed_transaction send_txs_batch
    nonce_or_asked build_transfer build_swap transfer transfer_nft swap swap_amounts fee_or_asked
    get_order get_limit_order unit_ratio ◌>>=◌ find find_first find_by_address find_by_symbol
    find_by_id
build_transfer_run = refl

transfer_run :
    transfer wallet recipient
      (decimal_of_int (pos 3))
      (by_text (text "DAI"))
      none
      (pos 0)
      far
      (new_wallet, 0)
    ≡ (ok a_hash, (known, 5))
unfolding encoded_message type_field tx_type account_id_field order_message swap_order_bytes
    hash_orders contents serialize_account_id serialize_address remove_address_prefix
    serialize_token_id serialize_nonce serialize_timestamp serialize_ratio_part
    serialize_content_hash int_to_bytes to_bytes fromhex hex digits digit_loop fixed_digits
    packed_amount_checked closest_packable_amount pack_amount packed_fee_checked
    closest_packable_transaction_fee pack_fee float_to_integer sum_bits buffer_to_bits_be
    integer_to_float find_exponent choose_mantissa float_bytes num_to_bits byte_of_bits
    bytes_of_bits bits_into_bytes_in_be_order reverse_bits all_bytes bytes_of_ints sign_tx sign
    tx_eth_signature tx_signature web3_sign web3_sign_tx encode encode_char pubkey_hash
    pubkey_hash_str human_readable_message transfer_text withdraw_text forced_exit_text
    mint_nft_text withdraw_nft_text swap_text order_text change_pub_key_text remove_sync
    decimal_str_amount decimal_amount with_point rstrip_zeros last has_point is_eth from_decimal
    str_ℕ str_int decimal_of_int fix scaleb rescaled format_fixed int_of_decimal round_half_even
    fraction gcd_loop address get_account_id resolve_token send_signed_transaction send_txs_batch
    nonce_or_asked build_transfer build_swap transfer transfer_nft swap swap_amounts fee_or_asked
    get_order get_limit_order unit_ratio ◌>>=◌ find find_first find_by_address find_by_symbol
    find_by_id
transfer_run = refl

transfer_submits_example :
    (t : Transfer) × (eth : TxEthSignature) × (token : Token) × (nonce units : ℤ) × (id : Option ℤ)
    × (s1 s2 s3 s4 : Env wallet) × (provider.get_account_nonce (address wallet) 0
        ≡ (ok nonce, s1.1))
    × (new_wallet ≡ s1.0)
    × (resolve_token wallet (by_text (text "DAI")) s1 ≡ (ok token, s2))
    × (IsFee wallet none FeeTxType.transfer recipient token units s2 s3)
    × (get_account_id wallet s3 ≡ (ok id, s4))
    × (provider.submit_tx (Types.transfer t) (one (some eth)) false s4.1 ≡ (ok a_hash, 5))
    × (t.account_id ≡ id)
    × (t.from_address ≡ address wallet)
    × (t.to_address ≡ lower recipient)
    × (t.token ≡ plain token)
    × (t.amount ≡ from_decimal (plain token) (decimal_of_int (pos 3)))
    × (t.fee ≡ units)
    × (t.nonce ≡ nonce)
    × (t.valid_from ≡ pos 0)
    × (t.valid_until ≡ far)
    × IsSigned wallet t eth
transfer_submits_example =
    transfer_submits wallet recipient (decimal_of_int (pos 3)) (by_text (text "DAI")) none (pos 0)
      far (new_wallet, 0) (known, 5) a_hash transfer_run

abbrev an_nft : Nft
an_nft = record {
  token = record { address = recipient; id = pos 65536; symbol = text "NFT-65536"; decimals = 0 };
  creator_id = pos 44;
  content_hash = [];
  creator_address = sender;
  serial_id = pos 0;
}

transfer_nft_run :
    transfer_nft wallet recipient an_nft (by_text (text "ETH")) none (pos 0) far (new_wallet, 0)
    ≡ (ok hashes, (known, 5))
unfolding encoded_message type_field tx_type account_id_field order_message swap_order_bytes
    hash_orders contents serialize_account_id serialize_address remove_address_prefix
    serialize_token_id serialize_nonce serialize_timestamp serialize_ratio_part
    serialize_content_hash int_to_bytes to_bytes fromhex hex digits digit_loop fixed_digits
    packed_amount_checked closest_packable_amount pack_amount packed_fee_checked
    closest_packable_transaction_fee pack_fee float_to_integer sum_bits buffer_to_bits_be
    integer_to_float find_exponent choose_mantissa float_bytes num_to_bits byte_of_bits
    bytes_of_bits bits_into_bytes_in_be_order reverse_bits all_bytes bytes_of_ints sign_tx sign
    tx_eth_signature tx_signature web3_sign web3_sign_tx encode encode_char pubkey_hash
    pubkey_hash_str human_readable_message transfer_text withdraw_text forced_exit_text
    mint_nft_text withdraw_nft_text swap_text order_text change_pub_key_text remove_sync
    decimal_str_amount decimal_amount with_point rstrip_zeros last has_point is_eth from_decimal
    str_ℕ str_int decimal_of_int fix scaleb rescaled format_fixed int_of_decimal round_half_even
    fraction gcd_loop address get_account_id resolve_token send_signed_transaction send_txs_batch
    nonce_or_asked build_transfer build_swap transfer transfer_nft swap swap_amounts fee_or_asked
    get_order get_limit_order unit_ratio ◌>>=◌ find find_first find_by_address find_by_symbol
    find_by_id
transfer_nft_run = refl

transfer_nft_submits_example :
    (first second : Transfer) × (eth1 eth2 : TxEthSignature) × (token : Token) × (nonce units : ℤ)
    × (s1 s2 s3 : Env wallet) × (world : ℕ) × (provider.get_account_nonce (address wallet) 0
        ≡ (ok nonce, s1.1))
    × (new_wallet ≡ s1.0)
    × (resolve_token wallet (by_text (text "ETH")) s1 ≡ (ok token, s2))
    × (IsBatchFee wallet none recipient token units s2 s3)
    × (provider.submit_txs_batch
          (record { tx = Types.transfer first; signature = eth1 }
            ∷ record { tx = Types.transfer second; signature = eth2 }
            ∷ [])
          none
          world
        ≡ (ok hashes, 5))
    × IsSignedTransfer wallet
        (lower recipient)
        (nft an_nft)
        (pos 1)
        (pos 0)
        nonce
        (pos 0)
        far
        first
        eth1
    × IsSignedTransfer wallet
        (lower (address wallet))
        (plain token)
        (pos 0)
        units
        (nonce +ℤ pos 1)
        (pos 0)
        far
        second
        eth2
transfer_nft_submits_example =
    transfer_nft_submits wallet recipient an_nft (by_text (text "ETH")) none (pos 0) far
      (new_wallet, 0) (known, 5) hashes transfer_nft_run

abbrev orders : Order × Order
orders = (
  record an_order { eth_signature = some eth_signature },
  record another_order { eth_signature = some eth_signature },
)

swap_run :
    swap wallet orders (by_text (text "ETH")) none none (new_wallet, 0) ≡ (ok a_hash, (known, 5))
unfolding encoded_message type_field tx_type account_id_field order_message swap_order_bytes
    hash_orders contents serialize_account_id serialize_address remove_address_prefix
    serialize_token_id serialize_nonce serialize_timestamp serialize_ratio_part
    serialize_content_hash int_to_bytes to_bytes fromhex hex digits digit_loop fixed_digits
    packed_amount_checked closest_packable_amount pack_amount packed_fee_checked
    closest_packable_transaction_fee pack_fee float_to_integer sum_bits buffer_to_bits_be
    integer_to_float find_exponent choose_mantissa float_bytes num_to_bits byte_of_bits
    bytes_of_bits bits_into_bytes_in_be_order reverse_bits all_bytes bytes_of_ints sign_tx sign
    tx_eth_signature tx_signature web3_sign web3_sign_tx encode encode_char pubkey_hash
    pubkey_hash_str human_readable_message transfer_text withdraw_text forced_exit_text
    mint_nft_text withdraw_nft_text swap_text order_text change_pub_key_text remove_sync
    decimal_str_amount decimal_amount with_point rstrip_zeros last has_point is_eth from_decimal
    str_ℕ str_int decimal_of_int fix scaleb rescaled format_fixed int_of_decimal round_half_even
    fraction gcd_loop address get_account_id resolve_token send_signed_transaction send_txs_batch
    nonce_or_asked build_transfer build_swap transfer transfer_nft swap swap_amounts fee_or_asked
    get_order get_limit_order unit_ratio ◌>>=◌ find find_first find_by_address find_by_symbol
    find_by_id
swap_run = refl

swap_of_orders_example :
    (orders.0.amount ≢ pos 0)
    × (orders.1.amount ≢ pos 0)
    × (t : Swap) × (zk : TxSignature) × (eth first second : TxEthSignature) × (token : Token)
    × (nonce units : ℤ) × (s1 s2 s3 : Env wallet) × (world : ℕ) × (provider.get_account_nonce
          (address wallet)
          0
        ≡ (ok nonce, s1.1))
    × (new_wallet ≡ s1.0)
    × (resolve_token wallet (by_text (text "ETH")) s1 ≡ (ok token, s2))
    × (IsFee wallet none FeeTxType.swap (address wallet) token units s2 s3)
    × (provider.submit_tx
          (Types.swap t)
          (many (some eth ∷ some first ∷ some second ∷ []))
          false
          world
        ≡ (ok a_hash, 5))
    × (t.submitter_address ≡ address wallet)
    × (t.fee_token ≡ token)
    × (t.fee ≡ units)
    × (t.nonce ≡ nonce)
    × (t.orders ≡ orders)
    × (t.amounts ≡ (orders.0.amount, orders.1.amount))
    × (orders.0.eth_signature ≡ some first)
    × (orders.1.eth_signature ≡ some second)
    × (t.signature ≡ some zk)
    × (sign_tx signer (tx (Types.swap t)) ≡ ok zk)
    × (web3_sign_tx account (tx (Types.swap (record t { signature = none }))) ≡ ok eth)
swap_of_orders_example =
    swap_of_orders wallet orders (by_text (text "ETH")) none (new_wallet, 0) (known, 5) a_hash
      swap_run

abbrev halves : Fraction
halves = record { numerator = pos 1; denominator = pos 2 }

abbrev ordered : ℤ → ℤ → ℤ → Decimal → Order
ordered nonce valid_from valid_until amount = record {
  account_id = some (pos 44);
  recipient = sender;
  nonce = nonce;
  token_sell = eth;
  token_buy = dai;
  amount = from_decimal (plain eth) amount;
  ratio = halves;
  valid_from = valid_from;
  valid_until = valid_until;
  signature = some zk_signature;
  eth_signature_field = none;
  eth_signature = some eth_signature;
}

get_order_run :
    get_order wallet
      (by_text (text "ETH"))
      (by_text (text "DAI"))
      halves
      RatioType.token
      (decimal_of_int (pos 2))
      none
      (some (pos 12))
      (pos 0)
      far
      (new_wallet, 0)
    ≡ (ok (ordered (pos 12) (pos 0) far (decimal_of_int (pos 2))), (known, 2))
unfolding encoded_message type_field tx_type account_id_field order_message swap_order_bytes
    hash_orders contents serialize_account_id serialize_address remove_address_prefix
    serialize_token_id serialize_nonce serialize_timestamp serialize_ratio_part
    serialize_content_hash int_to_bytes to_bytes fromhex hex digits digit_loop fixed_digits
    packed_amount_checked closest_packable_amount pack_amount packed_fee_checked
    closest_packable_transaction_fee pack_fee float_to_integer sum_bits buffer_to_bits_be
    integer_to_float find_exponent choose_mantissa float_bytes num_to_bits byte_of_bits
    bytes_of_bits bits_into_bytes_in_be_order reverse_bits all_bytes bytes_of_ints sign_tx sign
    tx_eth_signature tx_signature web3_sign web3_sign_tx encode encode_char pubkey_hash
    pubkey_hash_str human_readable_message transfer_text withdraw_text forced_exit_text
    mint_nft_text withdraw_nft_text swap_text order_text change_pub_key_text remove_sync
    decimal_str_amount decimal_amount with_point rstrip_zeros last has_point is_eth from_decimal
    str_ℕ str_int decimal_of_int fix scaleb rescaled format_fixed int_of_decimal round_half_even
    fraction gcd_loop address get_account_id resolve_token send_signed_transaction send_txs_batch
    nonce_or_asked build_transfer build_swap transfer transfer_nft swap swap_amounts fee_or_asked
    get_order get_limit_order unit_ratio ◌>>=◌ find find_first find_by_address find_by_symbol
    find_by_id
get_order_run = refl

get_order_signed_example :
    (token_sell token_buy : Token) × (units : Fraction) × (zk : TxSignature)
    × (eth1 : TxEthSignature) × (id : Option ℤ) × (n : ℤ) × (s1 s2 s3 : Env wallet) × IsNonce wallet
        (some (pos 12))
        n
        (new_wallet, 0)
        s1
    × (resolve_token wallet (by_text (text "ETH")) s1 ≡ (ok token_sell, s2))
    × (resolve_token wallet (by_text (text "DAI")) s2 ≡ (ok token_buy, s3))
    × IsUnitRatio RatioType.token token_sell token_buy halves units
    × (get_account_id wallet s3 ≡ (ok id, (known, 2)))
    × (ordered (pos 12) (pos 0) far (decimal_of_int (pos 2)) ≡ record {
      account_id = id;
      recipient = recipient_or_self wallet none;
      nonce = n;
      token_sell = token_sell;
      token_buy = token_buy;
      amount = from_decimal (plain token_sell) (decimal_of_int (pos 2));
      ratio = units;
      valid_from = pos 0;
      valid_until = far;
      signature = some zk;
      eth_signature_field = none;
      eth_signature = some eth1;
    })
    × (sign_tx signer (order (ordered (pos 12) (pos 0) far (decimal_of_int (pos 2)))) ≡ ok zk)
    × (web3_sign_tx account (
          order (record (ordered (pos 12) (pos 0) far (decimal_of_int (pos 2))) {
            eth_signature = none;
            signature = none;
          }))
        ≡ ok eth1)
get_order_signed_example =
    get_order_signed wallet (by_text (text "ETH")) (by_text (text "DAI")) halves RatioType.token
      (decimal_of_int (pos 2)) none (some (pos 12)) (pos 0) far (new_wallet, 0) (known, 2)
      (ordered (pos 12) (pos 0) far (decimal_of_int (pos 2))) get_order_run

get_limit_order_run :
    get_limit_order wallet
      (by_text (text "ETH"))
      (by_text (text "DAI"))
      halves
      RatioType.token
      none
      (pos 7)
      (pos 1000)
      (new_wallet, 0)
    ≡ (ok (ordered (pos 7) (pos 1000) far (decimal_of_int (pos 0))), (known, 2))
unfolding encoded_message type_field tx_type account_id_field order_message swap_order_bytes
    hash_orders contents serialize_account_id serialize_address remove_address_prefix
    serialize_token_id serialize_nonce serialize_timestamp serialize_ratio_part
    serialize_content_hash int_to_bytes to_bytes fromhex hex digits digit_loop fixed_digits
    packed_amount_checked closest_packable_amount pack_amount packed_fee_checked
    closest_packable_transaction_fee pack_fee float_to_integer sum_bits buffer_to_bits_be
    integer_to_float find_exponent choose_mantissa float_bytes num_to_bits byte_of_bits
    bytes_of_bits bits_into_bytes_in_be_order reverse_bits all_bytes bytes_of_ints sign_tx sign
    tx_eth_signature tx_signature web3_sign web3_sign_tx encode encode_char pubkey_hash
    pubkey_hash_str human_readable_message transfer_text withdraw_text forced_exit_text
    mint_nft_text withdraw_nft_text swap_text order_text change_pub_key_text remove_sync
    decimal_str_amount decimal_amount with_point rstrip_zeros last has_point is_eth from_decimal
    str_ℕ str_int decimal_of_int fix scaleb rescaled format_fixed int_of_decimal round_half_even
    fraction gcd_loop address get_account_id resolve_token send_signed_transaction send_txs_batch
    nonce_or_asked build_transfer build_swap transfer transfer_nft swap swap_amounts fee_or_asked
    get_order get_limit_order unit_ratio ◌>>=◌ find find_first find_by_address find_by_symbol
    find_by_id
get_limit_order_run = refl

get_limit_order-nonce_example :
    (pos 7 ≡ pos 7) × (pos 1000 ≡ pos 1000) × (far ≡ default_valid_until)
get_limit_order-nonce_example =
    get_limit_order-nonce wallet (by_text (text "ETH")) (by_text (text "DAI")) halves
      RatioType.token none (pos 7) (pos 1000) (new_wallet, 0) (known, 2)
      (ordered (pos 7) (pos 1000) far (decimal_of_int (pos 0))) get_limit_order_run
