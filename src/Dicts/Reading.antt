-- ===== src/Dicts/Reading.antt =====
-- The JSON that is submitted says what was signed.
use zksync_python.Prelude.{
  ℤ, ◌≡◌, refl, sym, ap, ◌∙◌, Option, none, some, Result, ok, err, ◌>>=◌, ok-injective, Json,
}
use zksync_python.Library.{NativeCrypto}
use zksync_python.Types.{
  ChangePubKey, Transfer, Withdraw, ForcedExit, Order, Swap, MintNft, WithdrawNft, EncodedTx,
  TxSignature, change_pub_key, transfer, withdraw, forced_exit, swap, mint_nft, withdraw_nft,
}
use zksync_python.Encoding.{
  account_id_field, encoded_message, type_field, tx_type, order_message, swap_order_bytes,
}
use zksync_python.Dicts.{
  dict, change_pub_key_dict, transfer_dict, withdraw_dict, forced_exit_dict, order_dict, swap_dict,
  mint_nft_dict, withdraw_nft_dict, signature_dict, signed_dict, int_or_null, auth_json,
  change_pub_key_object, transfer_object, withdraw_object, forced_exit_object, mint_nft_object,
  withdraw_nft_object,
}
use zksync_python.Dicts.Reader.{as_id, read_order, read_message}
use zksync_python.Json.{item, lookup}

-- An account id is written as it is, or as null.
id_read : (id : Option ℤ) → (as_id (int_or_null id) >>= account_id_field) ≡ account_id_field id
id_read none = refl
id_read (some z) = refl

-- A dictionary that is made has the signature in it, whatever that is.
signed-eq-ok :
    (signature : Option TxSignature) (make : Json → Json) (json : Json)
    → (signed_dict signature >>= λ s. ok (make s)) ≡ ok json
    → (s : Json) × (make s ≡ json)
signed-eq-ok none make json h = cc
signed-eq-ok (some s) make json h = (signature_dict s, ok-injective h)

-- The same with the authorisation of a change of key, which may be no JSON.
authorised-eq-ok :
    (auth : Result Json) (signature : Option TxSignature) (make : Json → Json → Json) (json : Json)
    → (signed_dict signature >>= λ s. auth >>= λ a. ok (make s a)) ≡ ok json
    → (s a : Json) × (make s a ≡ json)
authorised-eq-ok auth none make json h = cc
authorised-eq-ok (err e) (some s) make json h = cc
authorised-eq-ok (ok a) (some s) make json h = (signature_dict s, a, ok-injective h)

pub read_order-order_dict : (order : Order) → read_order (order_dict order) ≡ order_message order
unfolding read_order order_dict order_message item lookup
read_order-order_dict order = rw (id_read order.account_id) refl

module _ (lib : Result NativeCrypto) where
  read-change_pub_key_object :
      (tx : ChangePubKey) (s a : Json)
      → read_message lib (change_pub_key_object tx s a) ≡ encoded_message lib (change_pub_key tx)
  unfolding read_message encoded_message type_field tx_type
  read-change_pub_key_object tx s a = rw (id_read tx.account_id) refl

  read-transfer_object :
      (tx : Transfer) (s : Json)
      → read_message lib (transfer_object tx s) ≡ encoded_message lib (transfer tx)
  unfolding read_message encoded_message type_field tx_type
  read-transfer_object tx s = rw (id_read tx.account_id) refl

  read-withdraw_object :
      (tx : Withdraw) (s : Json)
      → read_message lib (withdraw_object tx s) ≡ encoded_message lib (withdraw tx)
  unfolding read_message encoded_message type_field tx_type
  read-withdraw_object tx s = rw (id_read tx.account_id) refl

  read-forced_exit_object :
      (tx : ForcedExit) (s : Json)
      → read_message lib (forced_exit_object tx s) ≡ encoded_message lib (forced_exit tx)
  unfolding read_message encoded_message type_field tx_type
  read-forced_exit_object tx s = rw (id_read tx.initiator_account_id) refl

  read-mint_nft_object :
      (tx : MintNft) (s : Json)
      → read_message lib (mint_nft_object tx s) ≡ encoded_message lib (mint_nft tx)
  unfolding read_message encoded_message type_field tx_type
  read-mint_nft_object tx s = rw (id_read tx.creator_id) refl

  read-withdraw_nft_object :
      (tx : WithdrawNft) (s : Json)
      → read_message lib (withdraw_nft_object tx s) ≡ encoded_message lib (withdraw_nft tx)
  unfolding read_message encoded_message type_field tx_type
  read-withdraw_nft_object tx s = rw (id_read tx.account_id) refl

  read-swap_dict : (tx : Swap) → read_message lib (swap_dict tx) ≡ encoded_message lib (swap tx)
  unfolding read_message encoded_message type_field tx_type swap_dict swap_order_bytes
  read-swap_dict tx =
      rw
        (
          read_order-order_dict tx.orders.0,
          read_order-order_dict tx.orders.1,
          id_read tx.submitter_id,
        )
        refl

  -- Whenever `dict` makes the JSON of a transaction of any kind, a reader who looks the fields up by
  -- name in that JSON, and knows nothing else, gets the outcome of `encoded_message`: the bytes that
  -- were signed, or the same exception.
  pub read_message-dict :
      (tx : EncodedTx) (json : Json)
      → dict tx ≡ ok json
      → read_message lib json ≡ encoded_message lib tx
  unfolding dict change_pub_key_dict transfer_dict withdraw_dict forced_exit_dict mint_nft_dict
      withdraw_nft_dict
  read_message-dict (change_pub_key tx) json h =
      let (s, a, same) =
        authorised-eq-ok (auth_json tx.eth_auth_data) tx.signature (change_pub_key_object tx) json
          h in
      ap (read_message lib) (sym same) ∙ read-change_pub_key_object tx s a
  read_message-dict (transfer tx) json h =
      let (s, same) = signed-eq-ok tx.signature (transfer_object tx) json h in
      ap (read_message lib) (sym same) ∙ read-transfer_object tx s
  read_message-dict (withdraw tx) json h =
      let (s, same) = signed-eq-ok tx.signature (withdraw_object tx) json h in
      ap (read_message lib) (sym same) ∙ read-withdraw_object tx s
  read_message-dict (forced_exit tx) json h =
      let (s, same) = signed-eq-ok tx.signature (forced_exit_object tx) json h in
      ap (read_message lib) (sym same) ∙ read-forced_exit_object tx s
  read_message-dict (mint_nft tx) json h =
      let (s, same) = signed-eq-ok tx.signature (mint_nft_object tx) json h in
      ap (read_message lib) (sym same) ∙ read-mint_nft_object tx s
  read_message-dict (withdraw_nft tx) json h =
      let (s, same) = signed-eq-ok tx.signature (withdraw_nft_object tx) json h in
      ap (read_message lib) (sym same) ∙ read-withdraw_nft_object tx s
  read_message-dict (swap tx) json h =
      ap (read_message lib) (sym (ok-injective h)) ∙ read-swap_dict tx
