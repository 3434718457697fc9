-- ===== src/Types.antt =====
-- zksync_sdk/types: tokens, signatures, and the transactions with their fields. A field that the
-- constructor leaves at None is an Option. So is an account id, since the wallet passes None for an
-- account that the server does not know.
use zksync_python.Prelude.{ℕ, ℤ, Option}
use zksync_python.Python.Text.{Text}
use zksync_python.Python.Hex.{Bytes, bytes_hex}
use zksync_python.Python.Fraction.{Fraction}

pub data ChangePubKeyTypes : Type 0 where
  onchain ecdsa create2 : ChangePubKeyTypes

pub data RatioType : Type 0 where
  wei token : RatioType

-- A token's number of decimals is not negative.
pub record Token : Type 0 where
  pub address : Text
  pub id : ℤ
  pub symbol : Text
  pub decimals : ℕ

-- The subclass of `Token` in types/responses.py.
pub record Nft : Type 0 where
  pub token : Token
  pub creator_id : ℤ
  pub content_hash : Text
  pub creator_address : Text
  pub serial_id : ℤ

-- A value where the code expects a `Token`.
pub data AnyToken : Type 0 where
  plain : Token → AnyToken
  nft : Nft → AnyToken

abbrev pub base : AnyToken → Token
base (plain t) = t
base (nft n) = n.token

pub data SignatureType : Type 0 where
  ethereum_signature eip1271_signature : SignatureType

pub record TxEthSignature : Type 0 where
  pub type : SignatureType
  pub signature : Text

-- `TxEthSignature(type, signature)`
unfoldable pub tx_eth_signature : SignatureType → Bytes → TxEthSignature
tx_eth_signature type signature = record { type = type; signature = bytes_hex signature }

pub record TxSignature : Type 0 where
  pub public_key : Text
  pub signature : Text

-- `TxSignature(public_key, signature)`
unfoldable pub tx_signature : Bytes → Bytes → TxSignature
tx_signature public_key signature = record {
  public_key = bytes_hex public_key;
  signature = bytes_hex signature;
}

pub record ChangePubKeyEcdsa : Type 0 where
  pub batch_hash : Bytes

pub record ChangePubKeyCreate2 : Type 0 where
  pub creator_address : Text
  pub salt_arg : Bytes
  pub code_hash : Bytes

-- The dictionaries that `get_auth_data` returns.
pub data AuthDict : Type 0 where
  onchain_dict : AuthDict
  ecdsa_dict : (eth_signature batch_hash : Text) → AuthDict
  create2_dict : (salt_arg code_hash : Text) → AuthDict

-- What `eth_auth_data` holds: one of the two classes, or such a dictionary after signing.
pub data EthAuthData : Type 0 where
  auth_ecdsa : ChangePubKeyEcdsa → EthAuthData
  auth_create2 : ChangePubKeyCreate2 → EthAuthData
  auth_dict : AuthDict → EthAuthData

pub record ChangePubKey : Type 0 where
  pub account_id : Option ℤ
  pub account : Text
  pub new_pk_hash : Text
  pub token : Token
  pub fee : ℤ
  pub nonce : ℤ
  pub valid_from : ℤ
  pub valid_until : ℤ
  pub eth_auth_data : Option EthAuthData
  pub eth_signature : Option TxEthSignature
  pub signature : Option TxSignature

pub record Transfer : Type 0 where
  pub account_id : Option ℤ
  pub from_address : Text
  pub to_address : Text
  pub token : AnyToken
  pub amount : ℤ
  pub fee : ℤ
  pub nonce : ℤ
  pub valid_from : ℤ
  pub valid_until : ℤ
  pub signature : Option TxSignature

pub record Withdraw : Type 0 where
  pub account_id : Option ℤ
  pub from_address : Text
  pub to_address : Text
  pub amount : ℤ
  pub fee : ℤ
  pub nonce : ℤ
  pub valid_from : ℤ
  pub valid_until : ℤ
  pub token : Token
  pub signature : Option TxSignature

pub record ForcedExit : Type 0 where
  pub initiator_account_id : Option ℤ
  pub target : Text
  pub token : Token
  pub fee : ℤ
  pub nonce : ℤ
  pub valid_from : ℤ
  pub valid_until : ℤ
  pub signature : Option TxSignature

-- `eth_signature` is no field of the class: the wallet sets the attribute beside `ethSignature`.
pub record Order : Type 0 where
  pub account_id : Option ℤ
  pub recipient : Text
  pub nonce : ℤ
  pub token_sell : Token
  pub token_buy : Token
  pub amount : ℤ
  pub ratio : Fraction
  pub valid_from : ℤ
  pub valid_until : ℤ
  pub signature : Option TxSignature
  pub eth_signature_field : Option TxEthSignature
  pub eth_signature : Option TxEthSignature

pub record Swap : Type 0 where
  pub submitter_id : Option ℤ
  pub submitter_address : Text
  pub amounts : ℤ × ℤ
  pub orders : Order × Order
  pub fee_token : Token
  pub fee : ℤ
  pub nonce : ℤ
  pub signature : Option TxSignature

pub record MintNft : Type 0 where
  pub creator_id : Option ℤ
  pub creator_address : Text
  pub content_hash : Text
  pub recipient : Text
  pub fee : ℤ
  pub fee_token : Token
  pub nonce : ℤ
  pub signature : Option TxSignature

pub record WithdrawNft : Type 0 where
  pub account_id : Option ℤ
  pub from_address : Text
  pub to_address : Text
  pub fee_token : Token
  pub fee : ℤ
  pub nonce : ℤ
  pub valid_from : ℤ
  pub valid_until : ℤ
  pub token_id : ℤ
  pub signature : Option TxSignature

-- The subclasses of `EncodedTx`.
pub data EncodedTx : Type 0 where
  change_pub_key : ChangePubKey → EncodedTx
  transfer : Transfer → EncodedTx
  withdraw : Withdraw → EncodedTx
  forced_exit : ForcedExit → EncodedTx
  swap : Swap → EncodedTx
  mint_nft : MintNft → EncodedTx
  withdraw_nft : WithdrawNft → EncodedTx

pub record TransactionWithSignature : Type 0 where
  pub tx : EncodedTx
  pub signature : TxEthSignature
