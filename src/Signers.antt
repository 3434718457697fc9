-- ===== src/Signers.antt =====
-- zksync_sdk/zksync_signer.py and zksync_sdk/ethereum_signer: the two keys of a wallet. The Ethereum
-- account is an object of the eth_account package: its address and its signatures are parameters.
use zksync_python.Prelude.{ℕ, ◌+◌, ◌/◌, ◌%◌, [], ◌∷◌, ◌++◌, ltb, if◌then◌else◌, Result, ok, ◌>>=◌}
use zksync_python.Python.Text.{Text, text}
use zksync_python.Python.Hex.{Bytes, bytes_hex}
use zksync_python.Python.Decimal.{str_ℕ}
use zksync_python.Library.{
  NativeCrypto, private_key_from_seed, get_public_key, get_pubkey_hash, sign,
}
use zksync_python.Types.{
  Order, EncodedTx, TxEthSignature, tx_eth_signature, ethereum_signature, TxSignature, tx_signature,
}
use zksync_python.Encoding.{encoded_message, order_message}
use zksync_python.Messages.{human_readable_message, order_text}

-- What `sign_tx` is called with: a transaction, or an order, which has the same two methods.
pub data Signable : Type 0 where
  tx : EncodedTx → Signable
  order : Order → Signable

abbrev pub signable_bytes : Result NativeCrypto → Signable → Result Bytes
signable_bytes lib (tx t) = encoded_message lib t
signable_bytes lib (order o) = order_message o

abbrev pub signable_text : Signable → Result Text
signable_text (tx t) = human_readable_message t
signable_text (order o) = order_text o

-- `s.encode()`, in UTF-8
unfoldable pub encode_char : ℕ → Bytes
encode_char c =
    if ltb c 0x80
    then c ∷ []
    else if ltb c 0x800
    then (0xc0 + c / 0x40) ∷ (0x80 + c % 0x40) ∷ []
    else if ltb c 0x10000
    then (0xe0 + c / 0x1000) ∷ (0x80 + c / 0x40 % 0x40) ∷ (0x80 + c % 0x40) ∷ []
    else (0xf0 + c / 0x40000)
      ∷ (0x80 + c / 0x1000 % 0x40)
      ∷ (0x80 + c / 0x40 % 0x40)
      ∷ (0x80 + c % 0x40)
      ∷ []

unfoldable pub encode : Text → Bytes
encode [] = []
encode (c ∷ s) = encode_char c ++ encode s

-- `sign_message` stands for `account.sign_message(encode_defunct(message)).signature`.
pub record Account : Type 0 where
  pub address : Text
  pub sign_message : Bytes → Bytes

-- `EthereumSignerInterface`
pub record EthereumSigner : Type 0 where
  pub address : Text
  pub sign_tx : Signable → Result TxEthSignature
  pub sign : Bytes → TxEthSignature

unfoldable pub web3_sign : Account → Bytes → TxEthSignature
web3_sign account message = tx_eth_signature ethereum_signature (account.sign_message message)

unfoldable pub web3_sign_tx : Account → Signable → Result TxEthSignature
web3_sign_tx account t = do message ← signable_text t; ok (web3_sign account (encode message))

-- `EthereumSignerWeb3(account)`
abbrev pub ethereum_signer_web3 : Account → EthereumSigner
ethereum_signer_web3 account = record {
  address = account.address;
  sign_tx = web3_sign_tx account;
  sign = web3_sign account;
}

-- `ChainId` by its value.
pub data ChainId : Type 0 where
  mainnet rinkeby ropsten localhost : ChainId

abbrev pub chain_number : ChainId → ℕ
chain_number mainnet = 1
chain_number rinkeby = 4
chain_number ropsten = 3
chain_number localhost = 9

-- `environment_library` is no field of the class: it is what `ZkSyncLibrary()` gives wherever
-- `Swap.encoded_message` calls it.
pub record ZkSyncSigner : Type 0 where
  pub library : NativeCrypto
  pub environment_library : Result NativeCrypto
  pub private_key : Bytes
  pub public_key : Bytes

abbrev pub access_message : Text
access_message = text "Access zkSync account.\n\nOnly sign this message for a trusted client!"

unfoldable pub chain_message : Text → ChainId → Text
chain_message message mainnet = message
chain_message message chain_id =
    message ++ (text "\nChain ID: " ++ (str_ℕ (chain_number chain_id) ++ text "."))

unfoldable pub derive_private_key : NativeCrypto → Text → Account → ChainId → Bytes
derive_private_key lib message account chain_id =
    private_key_from_seed lib (account.sign_message (encode (chain_message message chain_id)))

-- The constructors, where `environment` is what `ZkSyncLibrary()` will give.
module _ (environment : Result NativeCrypto) where
  -- `ZkSyncSigner(library, private_key)`
  unfoldable pub zksync_signer : NativeCrypto → Bytes → Result ZkSyncSigner
  zksync_signer lib private_key = do
    public_key ← get_public_key lib private_key
    ok (record {
      library = lib;
      environment_library = environment;
      private_key = private_key;
      public_key = public_key;
    })

  unfoldable pub from_account : Account → NativeCrypto → ChainId → Result ZkSyncSigner
  from_account account lib chain_id =
      zksync_signer lib (derive_private_key lib access_message account chain_id)

  unfoldable pub from_seed : NativeCrypto → Bytes → Result ZkSyncSigner
  from_seed lib seed = zksync_signer lib (private_key_from_seed lib seed)

unfoldable pub pubkey_hash : ZkSyncSigner → Result Bytes
pubkey_hash signer = get_pubkey_hash signer.library signer.public_key

unfoldable pub pubkey_hash_str : ZkSyncSigner → Result Text
pubkey_hash_str signer = do hash ← pubkey_hash signer; ok (text "sync:" ++ bytes_hex hash)

-- `ZkSyncSigner.sign_tx`
unfoldable pub sign_tx : ZkSyncSigner → Signable → Result TxSignature
sign_tx signer message = do
  bytes ← signable_bytes signer.environment_library message
  signature ← sign signer.library signer.private_key bytes
  ok (tx_signature signer.public_key signature)
