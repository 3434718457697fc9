-- ===== src/Wallet.antt =====
-- zksync_sdk/wallet.py: the state of a wallet, how a method runs, and the methods that look things
-- up. A method is a function of the wallet's state and the server's. Both come back after an
-- exception too, since what was written stays written.
pub mod Build
pub mod Send
pub mod Orders
pub mod Runs
pub mod Steps
pub mod Account
pub mod Signed
pub mod Sending
pub mod Ordering
pub mod Posting
pub mod Completing
pub mod Withdrawing
pub mod Signing
pub mod Exits
pub mod Swaps
pub mod Nfts
pub mod Authorising
pub mod Keys
pub mod Refusing
pub mod Keeping
pub mod Lookups
pub mod Reachable
pub mod Memory
use zksync_python.Prelude.{
  Json, ℕ, ◌^◌, ◌-◌, ℤ, pos, Bool, true, false, ◌&&◌, List, [], ◌∷◌, Option, none, some,
  if◌then◌else◌, Error, Result, ok, err, token_not_found, attribute_error,
}
use zksync_python.Python.Text.{Text, eqb_text}
use zksync_python.Types.{Token, EncodedTx, TransactionWithSignature, TxEthSignature}
use zksync_python.Tokens.{TokenLike, find}
unfoldable pub use zksync_python.Python.Effects.{◌>>=◌, ◌>>◌}
use zksync_python.Provider.{Provider, State, AccountState, Signatures, BatchSignatures}
use zksync_python.Signers.{EthereumSigner, ZkSyncSigner, pubkey_hash_str}

abbrev pub default_valid_from : ℤ
default_valid_from = pos 0

abbrev pub default_valid_until : ℤ
default_valid_until = pos (2 ^ 32 - 1)

-- The two attributes of a wallet that change.
pub record WalletState : Type 0 where
  pub account_id : Option ℤ
  pub tokens : List Token

-- The wallet that `__init__` makes.
abbrev pub new_wallet : WalletState
new_wallet = record { account_id = none; tokens = [] }

-- The attributes that stay: the signers and the provider.
pub record Context : Type 1 where
  pub provider : Provider
  pub eth_signer : EthereumSigner
  pub zk_signer : ZkSyncSigner

abbrev pub Env : Context → Type 0
Env c = WalletState × c.provider.World

abbrev pub Action : Context → Type 0 → Type 0
Action c A = Env c → Result A × Env c

module _ (c : Context) where
  abbrev pub pure : {A : Type 0} → A → Action c A
  pure a s = (ok a, s)

  abbrev pub raise : {A : Type 0} → Error → Action c A
  raise e s = (err e, s)

  -- A computation that may raise and touches no state.
  abbrev pub lift : {A : Type 0} → Result A → Action c A
  lift r s = (r, s)

  -- `await self.zk_provider.…`
  abbrev pub request : {A : Type 0} → (c.provider.World → Result A × c.provider.World) → Action c A
  request call (w, world) = let (r, world') = call world in (r, (w, world'))

  abbrev pub get : Action c WalletState
  get (w, world) = (ok w, (w, world))

  abbrev pub modify : (WalletState → WalletState) → Action c (Unit {0})
  modify f (w, world) = (ok tt, (f w, world))

  unfoldable pub address : Text
  address = c.eth_signer.address

  abbrev pub remember_id : Option ℤ → Action c (Option ℤ)
  remember_id none = get >>= λ w. pure w.account_id
  remember_id (some id) =
      modify (λ w. record w { account_id = some id }) >> (get >>= λ w. pure w.account_id)

  abbrev pub cached_or_asked : Option ℤ → Action c (Option ℤ)
  cached_or_asked (some id) = pure (some id)
  cached_or_asked none = request (c.provider.get_state address) >>= λ state. remember_id state.id

  unfoldable pub get_account_id : Action c (Option ℤ)
  unfolding address
  get_account_id = get >>= λ w. cached_or_asked w.account_id

  unfoldable pub send_signed_transaction : EncodedTx → Signatures → Bool → Action c Json
  send_signed_transaction tx eth_signature fast_processing =
      request (c.provider.submit_tx tx eth_signature fast_processing)

  unfoldable pub send_txs_batch :
      List TransactionWithSignature → Option BatchSignatures → Action c Json
  send_txs_batch transactions signatures =
      request (c.provider.submit_txs_batch transactions signatures)

  abbrev pub found_or_raise : Option Token → Action c Token
  found_or_raise none = raise token_not_found
  found_or_raise (some token) = pure token

  abbrev pub found_or_asked : TokenLike → Option Token → Action c Token
  found_or_asked name (some token) = pure token
  found_or_asked name none = request c.provider.get_tokens >>= λ tokens.
      modify (λ w. record w { tokens = tokens }) >> found_or_raise (find tokens name)

  unfoldable pub resolve_token : TokenLike → Action c Token
  resolve_token name = get >>= λ w. found_or_asked name (find w.tokens name)

  unfoldable pub get_account_state : Action c AccountState
  unfolding address
  get_account_state = request (c.provider.get_state address)

  -- An attribute of None raises an AttributeError.
  abbrev pub present : {A : Type 0} → Option A → Action c A
  present none = raise attribute_error
  present (some a) = pure a

  abbrev pub balance_of : Text → List (Text × ℤ) → ℤ
  balance_of symbol [] = pos 0
  balance_of symbol ((name, amount) ∷ balances) =
      let rest = balance_of symbol balances in if eqb_text name symbol then amount else rest

  -- `type == "committed"` is the Boolean argument.
  unfoldable pub get_balance : TokenLike → Bool → Action c ℤ
  get_balance name committed = do
    account_state ← get_account_state
    token ← resolve_token name
    state ← present (if committed then account_state.committed else account_state.verified)
    pure (balance_of token.symbol state.balances)

  abbrev pub key_matches : Option ℤ → Option State → Text → Action c Bool
  key_matches none committed hash = pure false
  key_matches (some id) committed hash =
      present committed >>= λ state. pure (eqb_text state.pub_key_hash hash)

  unfoldable pub is_signing_key_set : Action c Bool
  is_signing_key_set = do
    account_state ← get_account_state
    hash ← lift (pubkey_hash_str c.zk_signer)
    key_matches account_state.id account_state.committed hash
