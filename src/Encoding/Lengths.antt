-- ===== src/Encoding/Lengths.antt =====
-- How long the messages are, and that the hash of a swap's orders gets the length it asserts.
use zksync_python.Prelude.{Result, ◌≡◌, [], ◌∷◌, length, ok, >>=-eq-ok}
use zksync_python.Python.Hex.{Bytes}
use zksync_python.Library.{NativeCrypto, order_len, hash_orders, contents, orders_hash_len}
use zksync_python.Types.{
  Order, Swap, EncodedTx, change_pub_key, transfer, withdraw, forced_exit, swap, mint_nft,
  withdraw_nft,
}
use zksync_python.Encoding.{
  join, change_pub_key_fields, transfer_fields, withdraw_fields, forced_exit_fields, order_fields,
  swap_fields, withdraw_nft_fields, order_message, swap_order_bytes, encoded_message,
}
use zksync_python.Encoding.Layout.{length-join}
use zksync_python.Encoding.Widths.{
  IsNarrow, change_pub_key_widths, transfer_widths, withdraw_widths, forced_exit_widths,
  order_widths, swap_widths, withdraw_nft_widths, change_pub_key_fields-HasWidths,
  transfer_fields-HasWidths, withdraw_fields-HasWidths, forced_exit_fields-HasWidths,
  order_fields-HasWidths, swap_fields-HasWidths, withdraw_nft_fields-HasWidths,
}

-- The message's length by the kind of transaction. The content hash of a MintNFT is of any length,
-- so the length of that message is not fixed.
abbrev pub HasLength : EncodedTx → Bytes → Type 0
HasLength (change_pub_key tx) bytes = length bytes ≡ 72
HasLength (transfer tx) bytes = length bytes ≡ 77
HasLength (withdraw tx) bytes = length bytes ≡ 88
HasLength (forced_exit tx) bytes = length bytes ≡ 52
HasLength (swap tx) bytes = length bytes ≡ 77
HasLength (mint_nft tx) bytes = Unit
HasLength (withdraw_nft tx) bytes = length bytes ≡ 76

-- Whenever a transaction other than a MintNFT is encoded, the message has the length of its kind:
-- 72 bytes for a ChangePubKey, 77 for a Transfer, 88 for a Withdraw, 52 for a ForcedExit, 77 for a
-- Swap and 76 for a WithdrawNFT.
pub encoded_message-HasLength :
    (lib : Result NativeCrypto) (tx : EncodedTx) (bytes : Bytes)
    → encoded_message lib tx ≡ ok bytes
    → HasLength tx bytes
unfolding encoded_message
encoded_message-HasLength lib (change_pub_key tx) bytes h =
    length-join change_pub_key_widths (change_pub_key_fields tx) bytes
      (change_pub_key_fields-HasWidths tx) h
encoded_message-HasLength lib (transfer tx) bytes h =
    length-join transfer_widths (transfer_fields tx) bytes (transfer_fields-HasWidths tx) h
encoded_message-HasLength lib (withdraw tx) bytes h =
    length-join withdraw_widths (withdraw_fields tx) bytes (withdraw_fields-HasWidths tx) h
encoded_message-HasLength lib (forced_exit tx) bytes h =
    length-join forced_exit_widths (forced_exit_fields tx) bytes (forced_exit_fields-HasWidths tx) h
encoded_message-HasLength lib (swap tx) bytes h =
    let (order_bytes, _, run) =
      >>=-eq-ok (swap_order_bytes tx) (λ order_bytes. join (swap_fields lib tx order_bytes)) h in
    length-join swap_widths (swap_fields lib tx order_bytes) bytes
      (swap_fields-HasWidths lib tx order_bytes) run
encoded_message-HasLength lib (mint_nft tx) bytes h = tt
encoded_message-HasLength lib (withdraw_nft tx) bytes h =
    length-join withdraw_nft_widths (withdraw_nft_fields tx) bytes
      (withdraw_nft_fields-HasWidths tx) h

-- An order with a numerator and a denominator from 0 to 2^120 - 1 is encoded in exactly the
-- ORDER_LEN bytes that the native library expects, if it is encoded at all.
length-order_message :
    (order : Order) (bytes : Bytes)
    → IsNarrow order.ratio
    → order_message order ≡ ok bytes
    → length bytes ≡ order_len
unfolding order_message
length-order_message order bytes narrow h =
    length-join order_widths (order_fields order) bytes (order_fields-HasWidths order narrow) h

-- With such ratios in both orders the bytes that a Swap hands to `hash_orders` pass its assertion on
-- their length.
pub hash_orders-swap_order_bytes :
    (lib : NativeCrypto) (tx : Swap) (order_bytes : Bytes)
    → IsNarrow tx.orders.0.ratio
    → IsNarrow tx.orders.1.ratio
    → swap_order_bytes tx ≡ ok order_bytes
    → hash_orders lib order_bytes
      ≡ ok (contents orders_hash_len (lib.rescue_hash_orders order_bytes))
unfolding swap_order_bytes hash_orders
hash_orders-swap_order_bytes lib tx order_bytes n0 n1 h =
    let sized : length order_bytes ≡ 178 =
      length-join (89 ∷ 89 ∷ []) (order_message tx.orders.0 ∷ order_message tx.orders.1 ∷ [])
        order_bytes
        (
          (λ bytes. length-order_message tx.orders.0 bytes n0),
          ((λ bytes. length-order_message tx.orders.1 bytes n1), tt),
        )
        h in
    rw sized
