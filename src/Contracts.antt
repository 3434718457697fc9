-- ===== src/Contracts.antt =====
-- zksync_sdk/zksync.py: the two smart contracts, called by way of the web3 package, which is a
-- parameter together with the chain, the resources of the package and the Ethereum account.
pub mod Abi
pub mod Deposits
pub mod Calls
pub mod Approvals
use zksync_python.Prelude.{
  Json, int, str, Fields, end, field, ℤ, ◌-◌, ◌^◌, pos, Bool, not, List, [], ◌∷◌, Option, none,
  some, Result, ok, err, ltb_ℤ, type_error, if◌then◌else◌,
}
use zksync_python.Python.Text.{Text, text, eqb_text}
use zksync_python.Python.Hex.{Bytes}
use zksync_python.Python.Effects.{Effect, ◌>>=◌, returned, computed}

-- An argument or a result of a method of a contract.
pub data Value : Type 0 where
  text_value : Text → Value
  int_value : ℤ → Value
  bytes_value : Bytes → Value

-- `BaseAccount`: its address, and the bytes `sign_transaction(transaction).rawTransaction`.
pub record BaseAccount : Type 0 where
  pub address : Text
  pub sign_transaction : Fields → Result Bytes

-- The `World` is the chain with the files of the package. `build_transaction` stands for
-- `getattr(contract.functions, name)(*args).buildTransaction(params)`, and `call` for
-- `.call()` on a method and for the methods of `contract.caller`.
pub record Web3 : Type 1 where
  pub World : Type 0
  pub read_text : Text → World → Result Text × World
  pub loads : Text → Result Json
  pub Handle : Type 0
  pub contract : Text → Json → Result Handle
  pub build_transaction : Handle → Text → List Value → Fields → World → Result Fields × World
  pub get_transaction_count : Text → World → Result ℤ × World
  pub send_raw_transaction : Bytes → World → Result Json × World
  pub wait_for_transaction_receipt : Json → World → Result Json × World
  pub call : Handle → Text → List Value → World → Result Value × World

-- `d.update({key: value})`, which keeps the place of a key that is there
unfoldable pub update : Text → Json → Fields → Fields
update key value end = field key value end
update key value (field name old rest) =
    let later = update key value rest in
    if eqb_text name key then field name value rest else field name old later

-- `MAX_ERC20_APPROVE_AMOUNT`, `ERC20_APPROVE_THRESHOLD`
abbrev pub max_erc20_approve_amount : ℤ
max_erc20_approve_amount = pos (2 ^ 256 - 1)

abbrev pub erc20_approve_threshold : ℤ
erc20_approve_threshold = pos (2 ^ 255)

-- `allowance >= threshold`
unfoldable pub at_least : Value → Option ℤ → Result Bool
at_least (int_value allowance) (some threshold) = ok (not (ltb_ℤ allowance threshold))
at_least (int_value allowance) none = err type_error
at_least (text_value s) threshold = err type_error
at_least (bytes_value s) threshold = err type_error

-- The `params` of `_call_method`
unfoldable pub call_params : Option ℤ → Text → Fields
call_params (some amount) address =
    field (text "value") (int amount) (field (text "from") (str address) end)
call_params none address = field (text "from") (str address) end

-- `Contract`: the handle that `__init__` gets from the address and the ABI, and the account.
pub record Contract (web3 : Web3) : Type 0 where
  pub handle : web3.Handle
  pub contract_address : Text
  pub account : BaseAccount

module _ (web3 : Web3) where
  unfoldable pub call_method : Contract web3 → Text → List Value → Option ℤ → Effect web3.World Json
  call_method contract name args amount = do
    transaction ←
        web3.build_transaction contract.handle name args
          (call_params amount contract.account.address)
    count ← web3.get_transaction_count contract.account.address
    raw ←
        computed (contract.account.sign_transaction (update (text "nonce") (int count) transaction))
    hash ← web3.send_raw_transaction raw
    web3.wait_for_transaction_receipt hash

  -- The methods of `ZkSync`
  unfoldable pub deposit_eth : Contract web3 → Text → ℤ → Effect web3.World Json
  deposit_eth zksync address amount =
      call_method zksync (text "depositETH") (text_value address ∷ []) (some amount)

  unfoldable pub deposit_erc20 : Contract web3 → Text → Text → ℤ → Effect web3.World Json
  deposit_erc20 zksync token_address address amount =
      call_method zksync (text "depositERC20")
        (text_value token_address ∷ int_value amount ∷ text_value address ∷ []) none

  unfoldable pub zksync_full_exit : Contract web3 → ℤ → Text → Effect web3.World Json
  zksync_full_exit zksync account_id token_address =
      call_method zksync (text "requestFullExit")
        (int_value account_id ∷ text_value token_address ∷ []) none

  unfoldable pub set_auth_pub_key_hash : Contract web3 → Bytes → ℤ → Effect web3.World Json
  set_auth_pub_key_hash zksync pub_key_hash nonce =
      call_method zksync (text "setAuthPubkeyHash")
        (bytes_value pub_key_hash ∷ int_value nonce ∷ []) none

  unfoldable pub auth_facts : Contract web3 → Text → ℤ → Effect web3.World Value
  auth_facts zksync sender_address nonce =
      web3.call zksync.handle (text "authFacts") (text_value sender_address ∷ int_value nonce ∷ [])

  -- The methods of `ERC20Contract`
  unfoldable pub erc20_approve_deposit : Contract web3 → Text → ℤ → Effect web3.World Json
  erc20_approve_deposit erc20 zksync_address amount =
      call_method erc20 (text "approve") (text_value zksync_address ∷ int_value amount ∷ []) none

  unfoldable pub erc20_is_deposit_approved :
      Contract web3 → Text → Option ℤ → Effect web3.World Bool
  erc20_is_deposit_approved erc20 zksync_address threshold = do
    allowance ←
        web3.call erc20.handle (text "allowance")
          (text_value erc20.account.address ∷ text_value zksync_address ∷ [])
    computed (at_least allowance threshold)
