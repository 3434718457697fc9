-- ===== src/Dicts.antt =====
-- zksync_sdk/types/transactions.py and types/signatures.py: the `dict` methods, which make the JSON
-- that is submitted. `self.signature.dict()` raises an AttributeError where nothing was signed.
pub mod Reader
pub mod Reading
use zksync_python.Prelude.{
  ℤ, Bool, true, false, List, [], ◌∷◌, ◌++◌, Option, none, some, Result, ok, err, ◌>>=◌, or_raise,
  type_error, attribute_error, Json, null, bool, int, str, array, object,
}
use zksync_python.Python.Text.{Text, text}
use zksync_python.Types.{
  base, SignatureType, ethereum_signature, eip1271_signature, TxEthSignature, TxSignature, AuthDict,
  onchain_dict, ecdsa_dict, create2_dict, EthAuthData, auth_ecdsa, auth_create2, auth_dict,
  ChangePubKey, Transfer, Withdraw, ForcedExit, Order, Swap, MintNft, WithdrawNft, EncodedTx,
  change_pub_key, transfer, withdraw, forced_exit, swap, mint_nft, withdraw_nft,
  TransactionWithSignature,
}

-- `SignatureType.value`
abbrev pub signature_type_value : SignatureType → Text
signature_type_value ethereum_signature = text "EthereumSignature"
signature_type_value eip1271_signature = text "EIP1271Signature"

abbrev pub eth_signature_dict : TxEthSignature → Json
eth_signature_dict s =
    object
      ((text "type", str (signature_type_value s.type)) ∷ (text "signature", str s.signature) ∷ [])

abbrev pub signature_dict : TxSignature → Json
signature_dict s =
    object ((text "pubKey", str s.public_key) ∷ (text "signature", str s.signature) ∷ [])

-- `self.signature.dict()`
abbrev pub signed_dict : Option TxSignature → Result Json
signed_dict signature = do s ← or_raise signature attribute_error; ok (signature_dict s)

-- `self.signature.dict() if self.signature else None`
abbrev pub signature_or_null : Option TxSignature → Json
signature_or_null none = null
signature_or_null (some s) = signature_dict s

abbrev pub eth_signature_or_null : Option TxEthSignature → Json
eth_signature_or_null none = null
eth_signature_or_null (some s) = eth_signature_dict s

abbrev pub int_or_null : Option ℤ → Json
int_or_null none = null
int_or_null (some z) = int z

abbrev pub auth_dict_json : AuthDict → Json
auth_dict_json onchain_dict = object ((text "type", str (text "Onchain")) ∷ [])
auth_dict_json (ecdsa_dict eth_signature batch_hash) = object (
    (text "type", str (text "ECDSA"))
    ∷ (text "ethSignature", str eth_signature)
    ∷ (text "batchHash", str batch_hash)
    ∷ [])
auth_dict_json (create2_dict salt_arg code_hash) = object (
    (text "type", str (text "CREATE2"))
    ∷ (text "saltArg", str salt_arg)
    ∷ (text "codeHash", str code_hash)
    ∷ [])

-- The value of `eth_auth_data` as it stands. An object of one of the two classes is no JSON: the
-- TypeError, which Python raises as soon as the request is written, stands here for it.
abbrev pub auth_json : Option EthAuthData → Result Json
auth_json none = ok null
auth_json (some (auth_dict d)) = ok (auth_dict_json d)
auth_json (some (auth_ecdsa auth)) = err type_error
auth_json (some (auth_create2 auth)) = err type_error

abbrev pub change_pub_key_object : ChangePubKey → Json → Json → Json
change_pub_key_object tx signature auth = object (
    (text "type", str (text "ChangePubKey"))
    ∷ (text "accountId", int_or_null tx.account_id)
    ∷ (text "account", str tx.account)
    ∷ (text "newPkHash", str tx.new_pk_hash)
    ∷ (text "fee_token", int tx.token.id)
    ∷ (text "fee", int tx.fee)
    ∷ (text "nonce", int tx.nonce)
    ∷ (text "ethAuthData", auth)
    ∷ (text "signature", signature)
    ∷ (text "validFrom", int tx.valid_from)
    ∷ (text "validUntil", int tx.valid_until)
    ∷ [])

unfoldable pub change_pub_key_dict : ChangePubKey → Result Json
change_pub_key_dict tx = do
  signature ← signed_dict tx.signature
  auth ← auth_json tx.eth_auth_data
  ok (change_pub_key_object tx signature auth)

abbrev pub transfer_object : Transfer → Json → Json
transfer_object tx signature = object (
    (text "type", str (text "Transfer"))
    ∷ (text "accountId", int_or_null tx.account_id)
    ∷ (text "from", str tx.from_address)
    ∷ (text "to", str tx.to_address)
    ∷ (text "token", int (base tx.token).id)
    ∷ (text "fee", int tx.fee)
    ∷ (text "nonce", int tx.nonce)
    ∷ (text "signature", signature)
    ∷ (text "amount", int tx.amount)
    ∷ (text "validFrom", int tx.valid_from)
    ∷ (text "validUntil", int tx.valid_until)
    ∷ [])

unfoldable pub transfer_dict : Transfer → Result Json
transfer_dict tx = do signature ← signed_dict tx.signature; ok (transfer_object tx signature)

abbrev pub withdraw_object : Withdraw → Json → Json
withdraw_object tx signature = object (
    (text "type", str (text "Withdraw"))
    ∷ (text "accountId", int_or_null tx.account_id)
    ∷ (text "from", str tx.from_address)
    ∷ (text "to", str tx.to_address)
    ∷ (text "token", int tx.token.id)
    ∷ (text "fee", int tx.fee)
    ∷ (text "nonce", int tx.nonce)
    ∷ (text "signature", signature)
    ∷ (text "amount", int tx.amount)
    ∷ (text "validFrom", int tx.valid_from)
    ∷ (text "validUntil", int tx.valid_until)
    ∷ [])

unfoldable pub withdraw_dict : Withdraw → Result Json
withdraw_dict tx = do signature ← signed_dict tx.signature; ok (withdraw_object tx signature)

abbrev pub forced_exit_object : ForcedExit → Json → Json
forced_exit_object tx signature = object (
    (text "type", str (text "ForcedExit"))
    ∷ (text "initiatorAccountId", int_or_null tx.initiator_account_id)
    ∷ (text "target", str tx.target)
    ∷ (text "token", int tx.token.id)
    ∷ (text "fee", int tx.fee)
    ∷ (text "nonce", int tx.nonce)
    ∷ (text "signature", signature)
    ∷ (text "validFrom", int tx.valid_from)
    ∷ (text "validUntil", int tx.valid_until)
    ∷ [])

unfoldable pub forced_exit_dict : ForcedExit → Result Json
forced_exit_dict tx = do signature ← signed_dict tx.signature; ok (forced_exit_object tx signature)

-- `Order.dict`
unfoldable pub order_dict : Order → Json
order_dict order = object (
    (text "accountId", int_or_null order.account_id)
    ∷ (text "recipient", str order.recipient)
    ∷ (text "nonce", int order.nonce)
    ∷ (text "tokenSell", int order.token_sell.id)
    ∷ (text "tokenBuy", int order.token_buy.id)
    ∷ (text "amount", int order.amount)
    ∷ (text "ratio", array (int order.ratio.numerator ∷ int order.ratio.denominator ∷ []))
    ∷ (text "validFrom", int order.valid_from)
    ∷ (text "validUntil", int order.valid_until)
    ∷ (text "signature", signature_or_null order.signature)
    ∷ (text "ethSignature", eth_signature_or_null order.eth_signature_field)
    ∷ [])

unfoldable pub swap_dict : Swap → Json
unfolding order_dict
swap_dict tx = object (
    (text "type", str (text "Swap"))
    ∷ (text "submitterId", int_or_null tx.submitter_id)
    ∷ (text "submitterAddress", str tx.submitter_address)
    ∷ (text "feeToken", int tx.fee_token.id)
    ∷ (text "fee", int tx.fee)
    ∷ (text "nonce", int tx.nonce)
    ∷ (text "signature", signature_or_null tx.signature)
    ∷ (text "amounts", array (int tx.amounts.0 ∷ int tx.amounts.1 ∷ []))
    ∷ (text "orders", array (order_dict tx.orders.0 ∷ order_dict tx.orders.1 ∷ []))
    ∷ [])

abbrev pub mint_nft_object : MintNft → Json → Json
mint_nft_object tx signature = object (
    (text "type", str (text "MintNFT"))
    ∷ (text "creatorId", int_or_null tx.creator_id)
    ∷ (text "creatorAddress", str tx.creator_address)
    ∷ (text "contentHash", str tx.content_hash)
    ∷ (text "recipient", str tx.recipient)
    ∷ (text "feeToken", int tx.fee_token.id)
    ∷ (text "fee", int tx.fee)
    ∷ (text "nonce", int tx.nonce)
    ∷ (text "signature", signature)
    ∷ [])

unfoldable pub mint_nft_dict : MintNft → Result Json
mint_nft_dict tx = do signature ← signed_dict tx.signature; ok (mint_nft_object tx signature)

abbrev pub withdraw_nft_object : WithdrawNft → Json → Json
withdraw_nft_object tx signature = object (
    (text "type", str (text "WithdrawNFT"))
    ∷ (text "accountId", int_or_null tx.account_id)
    ∷ (text "from", str tx.from_address)
    ∷ (text "to", str tx.to_address)
    ∷ (text "feeToken", int tx.fee_token.id)
    ∷ (text "fee", int tx.fee)
    ∷ (text "nonce", int tx.nonce)
    ∷ (text "validFrom", int tx.valid_from)
    ∷ (text "validUntil", int tx.valid_until)
    ∷ (text "token", int tx.token_id)
    ∷ (text "signature", signature)
    ∷ [])

unfoldable pub withdraw_nft_dict : WithdrawNft → Result Json
withdraw_nft_dict tx = do
  signature ← signed_dict tx.signature
  ok (withdraw_nft_object tx signature)

-- `EncodedTx.dict`
unfoldable pub dict : EncodedTx → Result Json
dict (change_pub_key tx) = change_pub_key_dict tx
dict (transfer tx) = transfer_dict tx
dict (withdraw tx) = withdraw_dict tx
dict (forced_exit tx) = forced_exit_dict tx
dict (swap tx) = ok (swap_dict tx)
dict (mint_nft tx) = mint_nft_dict tx
dict (withdraw_nft tx) = withdraw_nft_dict tx

-- `TransactionWithSignature.dict`
unfoldable pub signed_tx_dict : TransactionWithSignature → Result Json
signed_tx_dict t = do
  tx ← dict t.tx
  ok (object ((text "tx", tx) ∷ (text "signature", eth_signature_dict t.signature) ∷ []))
