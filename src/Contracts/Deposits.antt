-- ===== src/Contracts/Deposits.antt =====
-- zksync_sdk/ethereum_provider.py: what an application does on the chain.
use zksync_python.Prelude.{
  Json, ℤ, Bool, true, not, Option, none, some, Result, ok, err, attribute_error, replicate,
  if◌then◌else◌,
}
use zksync_python.Python.Text.{Text, eqb_text}
use zksync_python.Python.Hex.{Bytes}
use zksync_python.Python.Decimal.{Decimal}
use zksync_python.Python.Effects.{Effect, ◌>>=◌, returned, computed}
use zksync_python.Types.{Token, plain}
use zksync_python.Tokens.{from_decimal, is_eth}
use zksync_python.Contracts.{
  Web3, BaseAccount, Contract, Value, text_value, int_value, bytes_value, deposit_eth,
  deposit_erc20, zksync_full_exit, set_auth_pub_key_hash, auth_facts, erc20_approve_deposit,
  erc20_is_deposit_approved,
}
use zksync_python.Contracts.Abi.{Cached, outside, zksync_abi, erc20_abi}

-- `DEFAULT_AUTH_FACTS`
abbrev pub default_auth_facts : Bytes
default_auth_facts = replicate 32 0

-- `value != DEFAULT_AUTH_FACTS`
unfoldable pub differs_from_default : Value → Bool
differs_from_default (bytes_value b) = not (eqb_text b default_auth_facts)
differs_from_default (text_value s) = true
differs_from_default (int_value z) = true

-- `token.from_decimal(amount)`, where None has no method `scaleb`
unfoldable pub units_of : Token → Option Decimal → Result ℤ
units_of token (some amount) = ok (from_decimal (plain token) amount)
units_of token none = err attribute_error

module _ (web3 : Web3) where
  -- `ZkSync(web3, zksync_contract_address, account)`
  unfoldable pub zksync_contract : Text → BaseAccount → Effect (Cached web3) (Contract web3)
  zksync_contract address account = do
    abi ← zksync_abi web3
    handle ← computed (web3.contract address abi)
    returned (record { handle = handle; contract_address = address; account = account })

  -- `ERC20Contract(web3, zksync_address, contract_address, account)`, whose `zksync_address` is an
  -- argument of its methods here
  unfoldable pub erc20_contract : Text → BaseAccount → Effect (Cached web3) (Contract web3)
  erc20_contract address account = do
    abi ← erc20_abi web3
    handle ← computed (web3.contract address abi)
    returned (record { handle = handle; contract_address = address; account = account })

  -- The methods of `EthereumProvider(web3, zksync)`
  module _ (zksync : Contract web3) where
    unfoldable pub approve_deposit : Token → Option Decimal → Effect (Cached web3) Json
    approve_deposit token limit = do
      contract ← erc20_contract token.address zksync.account
      amount ← computed (units_of token limit)
      outside web3 (erc20_approve_deposit web3 contract zksync.contract_address amount)

    unfoldable pub deposit : Token → Decimal → Text → Effect web3.World Json
    deposit token amount address =
        if is_eth token
        then deposit_eth web3 zksync address (from_decimal (plain token) amount)
        else deposit_erc20 web3 zksync token.address address (from_decimal (plain token) amount)

    unfoldable pub full_exit : Token → ℤ → Effect web3.World Json
    full_exit token account_id = zksync_full_exit web3 zksync account_id token.address

    unfoldable pub set_auth_pubkey_hash : Bytes → ℤ → Effect web3.World Json
    set_auth_pubkey_hash pubkey_hash nonce = set_auth_pub_key_hash web3 zksync pubkey_hash nonce

    unfoldable pub is_deposit_approved : Token → Option ℤ → Effect (Cached web3) Bool
    is_deposit_approved token threshold = do
      contract ← erc20_contract token.address zksync.account
      outside web3 (erc20_is_deposit_approved web3 contract zksync.contract_address threshold)

    unfoldable pub is_onchain_auth_pubkey_hash_set : ℤ → Effect web3.World Bool
    is_onchain_auth_pubkey_hash_set nonce = do
      facts ← auth_facts web3 zksync zksync.account.address nonce
      returned (differs_from_default facts)
