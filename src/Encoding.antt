-- ===== src/Encoding.antt =====
-- zksync_sdk/types/transactions.py: the bytes of a transaction that the zkSync key signs.
pub mod Layout
pub mod Widths
pub mod Lengths
pub mod Kinds
pub mod Determines
pub mod Orders
pub mod Swaps
pub mod Total
use zksync_python.Prelude.{
  ℕ, ℤ, pos, ◌-ℤ◌, Option, none, some, List, [], ◌∷◌, ◌++◌, Result, ok, err, ◌>>=◌, or_raise,
  type_error, attribute_error,
}
use zksync_python.Python.Hex.{Bytes}
use zksync_python.Library.{NativeCrypto, hash_orders}
use zksync_python.Serializers.{packed_amount_checked, packed_fee_checked}
use zksync_python.Serializers.Fields.{
  int_to_bytes, serialize_account_id, serialize_address, serialize_content_hash, serialize_nonce,
  serialize_ratio_part, serialize_timestamp, serialize_token_id,
}
use zksync_python.Types.{
  base, ChangePubKey, ChangePubKeyEcdsa, ChangePubKeyCreate2, EthAuthData, auth_ecdsa, auth_create2,
  auth_dict, Transfer, Withdraw, ForcedExit, Order, Swap, MintNft, WithdrawNft, EncodedTx,
  change_pub_key, transfer, withdraw, forced_exit, swap, mint_nft, withdraw_nft,
}

abbrev pub transaction_version : ℤ
transaction_version = pos 1

-- `b"".join([...])`: the fields in order, the first exception first.
abbrev pub join : List (Result Bytes) → Result Bytes
join [] = ok []
join (field ∷ fields) = do bytes ← field; rest ← join fields; ok (bytes ++ rest)

-- `serialize_account_id(self.account_id)`, where comparing None with 0 raises a TypeError.
unfoldable pub account_id_field : Option ℤ → Result Bytes
account_id_field account_id = or_raise account_id type_error >>= serialize_account_id

unfoldable pub tx_type : EncodedTx → ℤ
tx_type (change_pub_key tx) = pos 7
tx_type (transfer tx) = pos 5
tx_type (withdraw tx) = pos 3
tx_type (forced_exit tx) = pos 8
tx_type (swap tx) = pos 11
tx_type (mint_nft tx) = pos 9
tx_type (withdraw_nft tx) = pos 10

-- `int_to_bytes(0xff - self.tx_type(), 1)`
unfoldable pub type_field : EncodedTx → Result Bytes
type_field tx = int_to_bytes (pos 0xff -ℤ tx_type tx) 1

-- The lists that the `encoded_message` methods join.
abbrev pub change_pub_key_fields : ChangePubKey → List (Result Bytes)
change_pub_key_fields tx =
    type_field (change_pub_key tx)
    ∷ int_to_bytes transaction_version 1
    ∷ account_id_field tx.account_id
    ∷ serialize_address tx.account
    ∷ serialize_address tx.new_pk_hash
    ∷ serialize_token_id tx.token.id
    ∷ packed_fee_checked tx.fee
    ∷ serialize_nonce tx.nonce
    ∷ serialize_timestamp tx.valid_from
    ∷ serialize_timestamp tx.valid_until
    ∷ []

abbrev pub transfer_fields : Transfer → List (Result Bytes)
transfer_fields tx =
    type_field (transfer tx)
    ∷ int_to_bytes transaction_version 1
    ∷ account_id_field tx.account_id
    ∷ serialize_address tx.from_address
    ∷ serialize_address tx.to_address
    ∷ serialize_token_id (base tx.token).id
    ∷ packed_amount_checked tx.amount
    ∷ packed_fee_checked tx.fee
    ∷ serialize_nonce tx.nonce
    ∷ serialize_timestamp tx.valid_from
    ∷ serialize_timestamp tx.valid_until
    ∷ []

abbrev pub withdraw_fields : Withdraw → List (Result Bytes)
withdraw_fields tx =
    type_field (withdraw tx)
    ∷ int_to_bytes transaction_version 1
    ∷ account_id_field tx.account_id
    ∷ serialize_address tx.from_address
    ∷ serialize_address tx.to_address
    ∷ serialize_token_id tx.token.id
    ∷ int_to_bytes tx.amount 16
    ∷ packed_fee_checked tx.fee
    ∷ serialize_nonce tx.nonce
    ∷ serialize_timestamp tx.valid_from
    ∷ serialize_timestamp tx.valid_until
    ∷ []

abbrev pub forced_exit_fields : ForcedExit → List (Result Bytes)
forced_exit_fields tx =
    type_field (forced_exit tx)
    ∷ int_to_bytes transaction_version 1
    ∷ account_id_field tx.initiator_account_id
    ∷ serialize_address tx.target
    ∷ serialize_token_id tx.token.id
    ∷ packed_fee_checked tx.fee
    ∷ serialize_nonce tx.nonce
    ∷ serialize_timestamp tx.valid_from
    ∷ serialize_timestamp tx.valid_until
    ∷ []

-- `msg_type` is `b'o'[0]`.
abbrev pub order_fields : Order → List (Result Bytes)
order_fields order =
    int_to_bytes (pos b'o') 1
    ∷ int_to_bytes transaction_version 1
    ∷ account_id_field order.account_id
    ∷ serialize_address order.recipient
    ∷ serialize_nonce order.nonce
    ∷ serialize_token_id order.token_sell.id
    ∷ serialize_token_id order.token_buy.id
    ∷ serialize_ratio_part order.ratio.numerator
    ∷ serialize_ratio_part order.ratio.denominator
    ∷ packed_amount_checked order.amount
    ∷ serialize_timestamp order.valid_from
    ∷ serialize_timestamp order.valid_until
    ∷ []

-- `Order.encoded_message`
unfoldable pub order_message : Order → Result Bytes
order_message order = join (order_fields order)

-- `order_bytes` in `Swap.encoded_message`
unfoldable pub swap_order_bytes : Swap → Result Bytes
swap_order_bytes tx = join (order_message tx.orders.0 ∷ order_message tx.orders.1 ∷ [])

-- `ZkSyncLibrary().hash_orders(order_bytes)`, where `lib` is what `ZkSyncLibrary()` gives: the
-- library of the environment is loaded anew, which may fail.
module _ (lib : Result NativeCrypto) where
  abbrev pub hash_orders_loaded : Bytes → Result Bytes
  hash_orders_loaded order_bytes = lib >>= λ loaded. hash_orders loaded order_bytes

  abbrev pub swap_fields : Swap → Bytes → List (Result Bytes)
  swap_fields tx order_bytes =
      type_field (swap tx)
      ∷ int_to_bytes transaction_version 1
      ∷ account_id_field tx.submitter_id
      ∷ serialize_address tx.submitter_address
      ∷ serialize_nonce tx.nonce
      ∷ hash_orders_loaded order_bytes
      ∷ serialize_token_id tx.fee_token.id
      ∷ packed_fee_checked tx.fee
      ∷ packed_amount_checked tx.amounts.0
      ∷ packed_amount_checked tx.amounts.1
      ∷ []

abbrev pub mint_nft_fields : MintNft → List (Result Bytes)
mint_nft_fields tx =
    type_field (mint_nft tx)
    ∷ int_to_bytes transaction_version 1
    ∷ account_id_field tx.creator_id
    ∷ serialize_address tx.creator_address
    ∷ serialize_content_hash tx.content_hash
    ∷ serialize_address tx.recipient
    ∷ serialize_token_id tx.fee_token.id
    ∷ packed_fee_checked tx.fee
    ∷ serialize_nonce tx.nonce
    ∷ []

abbrev pub withdraw_nft_fields : WithdrawNft → List (Result Bytes)
withdraw_nft_fields tx =
    type_field (withdraw_nft tx)
    ∷ int_to_bytes transaction_version 1
    ∷ account_id_field tx.account_id
    ∷ serialize_address tx.from_address
    ∷ serialize_address tx.to_address
    ∷ serialize_token_id tx.token_id
    ∷ serialize_token_id tx.fee_token.id
    ∷ packed_fee_checked tx.fee
    ∷ serialize_nonce tx.nonce
    ∷ serialize_timestamp tx.valid_from
    ∷ serialize_timestamp tx.valid_until
    ∷ []

unfoldable pub encoded_message : Result NativeCrypto → EncodedTx → Result Bytes
encoded_message lib (change_pub_key tx) = join (change_pub_key_fields tx)
encoded_message lib (transfer tx) = join (transfer_fields tx)
encoded_message lib (withdraw tx) = join (withdraw_fields tx)
encoded_message lib (forced_exit tx) = join (forced_exit_fields tx)
encoded_message lib (swap tx) = do
  order_bytes ← swap_order_bytes tx
  join (swap_fields lib tx order_bytes)
encoded_message lib (mint_nft tx) = join (mint_nft_fields tx)
encoded_message lib (withdraw_nft tx) = join (withdraw_nft_fields tx)

-- `encode_message` of the value in `eth_auth_data`; a dictionary has no such method.
unfoldable pub encode_message : EthAuthData → Result Bytes
encode_message (auth_ecdsa data_) = ok data_.batch_hash
encode_message (auth_create2 data_) = ok data_.salt_arg
encode_message (auth_dict data_) = err attribute_error

abbrev pub encode_auth : Option EthAuthData → Result Bytes
encode_auth none = ok []
encode_auth (some auth) = encode_message auth

-- `ChangePubKey.get_eth_tx_bytes`
unfoldable pub get_eth_tx_bytes : ChangePubKey → Result Bytes
get_eth_tx_bytes tx = do
  start ← join (
      serialize_address tx.new_pk_hash
      ∷ serialize_nonce tx.nonce
      ∷ account_id_field tx.account_id
      ∷ [])
  auth ← encode_auth tx.eth_auth_data
  ok (start ++ auth)
