-- ===== src/Provider.antt =====
-- zksync_sdk/zksync_provider/types.py and interface.py with the responses of types/responses.py that
-- the wallet reads. The server behind the interface is a `World` of which nothing is known.
pub mod V01
use zksync_python.Prelude.{ℤ, Bool, List, Option, Result, Json}
use zksync_python.Python.Text.{Text}
use zksync_python.Types.{Token, TxEthSignature, EncodedTx, TransactionWithSignature}
use zksync_python.Tokens.{TokenLike}

pub data FeeTxType : Type 0 where
  withdraw transfer swap fast_withdraw : FeeTxType
  change_pub_key_onchain change_pub_key_ecdsa change_pub_key_create2 : FeeTxType
  mint_nft withdraw_nft : FeeTxType

-- A dictionary of balances by token symbol.
pub record State : Type 0 where
  pub nonce : ℤ
  pub pub_key_hash : Text
  pub balances : List (Text × ℤ)

pub record Balance : Type 0 where
  pub amount : ℤ
  pub expected_accept_block : ℤ

-- `Depositing` is its one field, a dictionary of balances by token symbol.
pub record AccountState : Type 0 where
  pub address : Text
  pub id : Option ℤ
  pub depositing : Option (List (Text × Balance))
  pub committed : Option State
  pub verified : Option State

pub record Fee : Type 0 where
  pub fee_type : Json
  pub gas_tx_amount : ℤ
  pub gas_price_wei : ℤ
  pub gas_fee : ℤ
  pub zkp_fee : ℤ
  pub total_fee : ℤ

-- The `signature` argument of `submit_tx`.
pub data Signatures : Type 0 where
  one : Option TxEthSignature → Signatures
  many : List (Option TxEthSignature) → Signatures

-- The `signatures` argument of `submit_txs_batch`, where it is not None.
pub data BatchSignatures : Type 0 where
  single : TxEthSignature → BatchSignatures
  several : List TxEthSignature → BatchSignatures

pub record ContractAddress : Type 0 where
  pub main_contract : Text
  pub gov_contract : Text

pub record BlockInfo : Type 0 where
  pub block_number : ℤ
  pub committed : Bool
  pub verified : Bool

pub record EthOpInfo : Type 0 where
  pub executed : Bool
  pub block : BlockInfo

-- The methods of `ZkSyncProviderInterface` that the wallet calls. Each asks the server.
pub record Provider : Type 1 where
  pub World : Type 0
  pub submit_tx : EncodedTx → Signatures → Bool → World → Result Json × World
  pub get_tokens : World → Result (List Token) × World
  pub submit_txs_batch :
      List TransactionWithSignature → Option BatchSignatures → World → Result Json × World
  pub get_state : Text → World → Result AccountState × World
  pub get_account_nonce : Text → World → Result ℤ × World
  pub get_transactions_batch_fee : List FeeTxType → List Text → TokenLike → World → Result ℤ × World
  pub get_transaction_fee : FeeTxType → Text → TokenLike → World → Result Fee × World
