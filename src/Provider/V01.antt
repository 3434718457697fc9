-- ===== src/Provider/V01.antt =====
-- zksync_sdk/zksync_provider/v01.py: the provider that asks the server by JSON-RPC. The constructors
-- of the pydantic models of types/responses.py and the checksum of web3 are parameters.
pub mod Accounts
use zksync_python.Prelude.{
  ℤ, Bool, List, [], ◌∷◌, map, Option, none, some, Result, ok, err, ◌>>=◌, or_raise, type_error,
  attribute_error, account_does_not_exist, Json, null, bool, int, str, arr, obj, Fields, array,
  object,
}
use zksync_python.Python.Text.{Text, text}
use zksync_python.Python.IntText.{int_of_json}
use zksync_python.Python.DecimalText.{DecimalValue, decimal_of_json}
use zksync_python.Types.{Token, TxEthSignature, EncodedTx, TransactionWithSignature}
use zksync_python.Tokens.{TokenLike, by_text, by_id}
use zksync_python.Json.{item, values}
use zksync_python.Dicts.{dict, eth_signature_dict, eth_signature_or_null, signed_tx_dict}
use zksync_python.Transport.{Transport, answered}
use zksync_python.Provider.{
  Provider, FeeTxType, State, AccountState, Fee, Signatures, one, many, BatchSignatures, single,
  several, ContractAddress, EthOpInfo,
}

-- `AccountState(**data)` and the others, with the fields under their aliases.
pub record Models : Type 0 where
  pub to_checksum_address : Json → Result Text
  pub token : Text → Json → Json → Json → Result Token
  pub account_state : Fields → Result AccountState
  pub fee : Fields → Result Fee
  pub contract_address : Fields → Result ContractAddress
  pub eth_op_info : Fields → Result EthOpInfo

-- `FeeTxType.value`
abbrev pub fee_type_value : FeeTxType → Json
fee_type_value FeeTxType.withdraw = str (text "Withdraw")
fee_type_value FeeTxType.transfer = str (text "Transfer")
fee_type_value FeeTxType.swap = str (text "Swap")
fee_type_value FeeTxType.fast_withdraw = str (text "FastWithdraw")
fee_type_value FeeTxType.change_pub_key_onchain =
    object ((text "ChangePubKey", str (text "Onchain")) ∷ [])
fee_type_value FeeTxType.change_pub_key_ecdsa =
    object ((text "ChangePubKey", str (text "ECDSA")) ∷ [])
fee_type_value FeeTxType.change_pub_key_create2 =
    object ((text "ChangePubKey", str (text "CREATE2")) ∷ [])
fee_type_value FeeTxType.mint_nft = str (text "MintNFT")
fee_type_value FeeTxType.withdraw_nft = str (text "WithdrawNFT")

abbrev pub token_like_json : TokenLike → Json
token_like_json (by_text name) = str name
token_like_json (by_id token_id) = int token_id

abbrev pub signatures_json : Signatures → Json
signatures_json (one signature) = eth_signature_or_null signature
signatures_json (many signatures) = array (map eth_signature_or_null signatures)

abbrev pub batch_signatures_json : Option BatchSignatures → Json
batch_signatures_json none = array []
batch_signatures_json (some (single signature)) = array (eth_signature_dict signature ∷ [])
batch_signatures_json (some (several signatures)) = array (map eth_signature_dict signatures)

-- `[f(x) for x in xs]` for a function that may raise
unfoldable pub collect : {A B : Type 0} → (A → Result B) → List A → Result (List B)
collect f [] = ok []
collect f (x ∷ xs) = do y ← f x; ys ← collect f xs; ok (y ∷ ys)

-- `F(**data)`, which wants a dictionary
unfoldable pub keywords : {A : Type 0} → (Fields → Result A) → Json → Result A
keywords make (obj fields) = make fields
keywords make null = err type_error
keywords make (bool b) = err type_error
keywords make (int z) = err type_error
keywords make (str s) = err type_error
keywords make (arr xs) = err type_error

-- `AccountState.get_nonce`
unfoldable pub get_nonce : AccountState → Result ℤ
get_nonce account = do committed ← or_raise account.committed attribute_error; ok committed.nonce

module _ (t : Transport) (m : Models) where
  -- A request whose parameters may raise while they are made: then nothing is sent.
  abbrev pub request_with : Text → Result Json → t.World → Result Json × t.World
  request_with method (ok params) world = t.request method params world
  request_with method (err e) world = (err e, world)

  unfoldable pub v01_submit_tx : EncodedTx → Signatures → Bool → t.World → Result Json × t.World
  v01_submit_tx tx signature fast_processing =
      request_with (text "tx_submit")
        (do tx ← dict tx; ok (array (tx ∷ signatures_json signature ∷ bool fast_processing ∷ [])))

  abbrev pub token_of : Json → Result Token
  token_of json = do
    address ← item json (text "address")
    checksum ← m.to_checksum_address address
    token_id ← item json (text "id")
    symbol ← item json (text "symbol")
    decimals ← item json (text "decimals")
    m.token checksum token_id symbol decimals

  abbrev pub tokens_of : Json → Result (List Token)
  tokens_of json = do tokens ← values json; collect token_of tokens

  unfoldable pub v01_get_tokens : t.World → Result (List Token) × t.World
  v01_get_tokens = answered (t.request (text "tokens") null) tokens_of

  unfoldable pub v01_submit_txs_batch :
      List TransactionWithSignature → Option BatchSignatures → t.World → Result Json × t.World
  v01_submit_txs_batch transactions signatures = request_with (text "submit_txs_batch") (do
    transactions ← collect signed_tx_dict transactions
    ok (array (array transactions ∷ batch_signatures_json signatures ∷ [])))

  unfoldable pub v01_get_contract_address : t.World → Result ContractAddress × t.World
  v01_get_contract_address =
      answered (t.request (text "contract_address") null) (keywords m.contract_address)

  -- None is an account that the server does not know.
  unfoldable pub account_of : Text → Json → Result AccountState
  account_of address null = err (account_does_not_exist address)
  account_of address json = keywords m.account_state json

  unfoldable pub v01_get_state : Text → t.World → Result AccountState × t.World
  v01_get_state address =
      answered (t.request (text "account_info") (array (str address ∷ []))) (account_of address)

  unfoldable pub v01_get_confirmations_for_eth_op_amount : t.World → Result Json × t.World
  v01_get_confirmations_for_eth_op_amount =
      t.request (text "get_confirmations_for_eth_op_amount") null

  unfoldable pub v01_get_account_nonce : Text → t.World → Result ℤ × t.World
  v01_get_account_nonce address = answered (v01_get_state address) get_nonce

  unfoldable pub v01_get_tx_receipt : Text → t.World → Result Json × t.World
  v01_get_tx_receipt address = t.request (text "tx_info") (array (str address ∷ []))

  unfoldable pub v01_get_eth_tx_for_withdrawal : Text → t.World → Result Json × t.World
  v01_get_eth_tx_for_withdrawal withdrawal_hash =
      t.request (text "get_eth_tx_for_withdrawal") (array (str withdrawal_hash ∷ []))

  unfoldable pub v01_get_priority_op_status : ℤ → t.World → Result EthOpInfo × t.World
  v01_get_priority_op_status serial_id =
      answered (t.request (text "ethop_info") (array (int serial_id ∷ []))) (keywords m.eth_op_info)

  unfoldable pub v01_get_transactions_batch_fee :
      List FeeTxType → List Text → TokenLike → t.World → Result ℤ × t.World
  v01_get_transactions_batch_fee tx_types addresses name =
      answered
        (t.request (text "get_txs_batch_fee_in_wei") (
          array (
            array (map fee_type_value tx_types)
            ∷ array (map str addresses)
            ∷ token_like_json name
            ∷ [])))
        (λ json. item json (text "totalFee") >>= int_of_json)

  unfoldable pub v01_get_transaction_fee :
      FeeTxType → Text → TokenLike → t.World → Result Fee × t.World
  v01_get_transaction_fee tx_type address name =
      answered
        (t.request (text "get_tx_fee")
          (array (fee_type_value tx_type ∷ str address ∷ token_like_json name ∷ [])))
        (keywords m.fee)

  unfoldable pub v01_get_token_price : Token → t.World → Result DecimalValue × t.World
  v01_get_token_price token =
      answered (t.request (text "get_token_price") (array (str token.symbol ∷ []))) decimal_of_json

  -- `ZkSyncProviderV01(provider)`
  abbrev pub v01 : Provider
  v01 = record {
    World = t.World;
    submit_tx = v01_submit_tx;
    get_tokens = v01_get_tokens;
    submit_txs_batch = v01_submit_txs_batch;
    get_state = v01_get_state;
    get_account_nonce = v01_get_account_nonce;
    get_transactions_batch_fee = v01_get_transactions_batch_fee;
    get_transaction_fee = v01_get_transaction_fee;
  }
