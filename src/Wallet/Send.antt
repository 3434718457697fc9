-- ===== src/Wallet/Send.antt =====
-- zksync_sdk/wallet.py: the methods that look up what is missing, build a transaction and submit it.
-- An amount is a Decimal in units of the token; `none` stands for an argument left out.
use zksync_python.Prelude.{
  Json, ℤ, pos, ◌+ℤ◌, Bool, false, ◌||◌, [], ◌∷◌, Option, none, some, if◌then◌else◌, eqb_ℤ,
  amounts_missing,
}
use zksync_python.Python.Text.{Text}
use zksync_python.Python.Decimal.{Decimal}
use zksync_python.Types.{
  Token, Nft, plain, nft, TxEthSignature, EthAuthData, auth_ecdsa, auth_create2, auth_dict, Order,
  TransactionWithSignature,
}
use zksync_python.Types
use zksync_python.Tokens.{TokenLike, by_text, by_id, from_decimal}
use zksync_python.Provider.{FeeTxType, one, many}
use zksync_python.Wallet.{
  Context, Action, ◌>>=◌, pure, raise, request, present, address, resolve_token,
  send_signed_transaction, send_txs_batch,
}
use zksync_python.Wallet.Build.{
  build_change_pub_key, build_forced_exit, build_mint_nft, build_withdraw_nft, build_transfer,
  build_withdraw, build_swap,
}

-- The type of fee that `set_signing_key` asks for, by the class of `eth_auth_data`.
unfoldable pub auth_fee_type : Option EthAuthData → FeeTxType
auth_fee_type none = FeeTxType.change_pub_key_onchain
auth_fee_type (some (auth_ecdsa auth)) = FeeTxType.change_pub_key_ecdsa
auth_fee_type (some (auth_create2 auth)) = FeeTxType.change_pub_key_create2
auth_fee_type (some (auth_dict d)) = FeeTxType.change_pub_key_onchain

module _ (c : Context) where
  -- The fee in the token's lowest units: given, or what the server asks for such a transaction.
  unfoldable pub fee_or_asked : Option Decimal → FeeTxType → Text → Token → Action c ℤ
  fee_or_asked (some fee) tx_type to token = pure c (from_decimal (plain token) fee)
  fee_or_asked none tx_type to token = do
    fee ← request c (c.provider.get_transaction_fee tx_type to (by_id token.id))
    pure c fee.total_fee

  abbrev asked_nonce : Action c ℤ
  asked_nonce = request c (c.provider.get_account_nonce (address c))

  abbrev pub given_or_asked_nonce : Option ℤ → Action c ℤ
  given_or_asked_nonce none = asked_nonce
  given_or_asked_nonce (some nonce) = pure c nonce

  unfoldable pub set_signing_key :
      TokenLike → Option EthAuthData → Option Decimal → Option ℤ → ℤ → ℤ → Action c Json
  set_signing_key fee_token eth_auth_data fee nonce valid_from valid_until = do
    nonce ← given_or_asked_nonce nonce
    token ← resolve_token c fee_token
    fee ← fee_or_asked fee (auth_fee_type eth_auth_data) (address c) token
    built ← build_change_pub_key c token eth_auth_data fee (some nonce) valid_from valid_until
    send_signed_transaction c (Types.change_pub_key built.0) (one (some built.1)) false

  -- The fee is that of a withdrawal.
  unfoldable pub forced_exit : Text → TokenLike → Option Decimal → ℤ → ℤ → Action c Json
  forced_exit target name fee valid_from valid_until = do
    nonce ← asked_nonce
    token ← resolve_token c name
    fee ← fee_or_asked fee FeeTxType.withdraw target token
    built ← build_forced_exit c target token fee (some nonce) valid_from valid_until
    send_signed_transaction c (Types.forced_exit built.0) (one (some built.1)) false

  unfoldable pub mint_nft : Text → Text → TokenLike → Option Decimal → Action c Json
  mint_nft content_hash recipient name fee = do
    token ← resolve_token c name
    nonce ← asked_nonce
    fee ← fee_or_asked fee FeeTxType.mint_nft recipient token
    built ← build_mint_nft c content_hash recipient token fee (some nonce)
    send_signed_transaction c (Types.mint_nft built.0) (one (some built.1)) false

  unfoldable pub withdraw_nft : Text → Nft → TokenLike → Option Decimal → ℤ → ℤ → Action c Json
  withdraw_nft to_address nft_token fee_token fee valid_from valid_until = do
    nonce ← asked_nonce
    token ← resolve_token c fee_token
    fee ← fee_or_asked fee FeeTxType.withdraw_nft to_address token
    built ← build_withdraw_nft c to_address nft_token token fee (some nonce) valid_from valid_until
    send_signed_transaction c (Types.withdraw_nft built.0) (one (some built.1)) false

  unfoldable pub transfer : Text → Decimal → TokenLike → Option Decimal → ℤ → ℤ → Action c Json
  transfer to amount name fee valid_from valid_until = do
    nonce ← asked_nonce
    token ← resolve_token c name
    fee ← fee_or_asked fee FeeTxType.transfer to token
    built ←
        build_transfer c to (from_decimal (plain token) amount) (plain token) fee (some nonce)
          valid_from valid_until
    send_signed_transaction c (Types.transfer built.0) (one (some built.1)) false

  -- The fee of a batch comes as a number.
  abbrev pub batch_fee_or_asked : Option Decimal → Text → Token → Action c ℤ
  batch_fee_or_asked (some fee) to token = pure c (from_decimal (plain token) fee)
  batch_fee_or_asked none to token = request c (
      c.provider.get_transactions_batch_fee (FeeTxType.transfer ∷ FeeTxType.transfer ∷ [])
        (to ∷ address c ∷ []) (by_text token.symbol))

  unfoldable pub transfer_nft : Text → Nft → TokenLike → Option Decimal → ℤ → ℤ → Action c Json
  transfer_nft to item fee_token fee valid_from valid_until = do
    nonce ← asked_nonce
    token ← resolve_token c fee_token
    fee ← batch_fee_or_asked fee to token
    nft_tx ← build_transfer c to (pos 1) (nft item) (pos 0) (some nonce) valid_from valid_until
    fee_tx ←
        build_transfer c (address c) (pos 0) (plain token) fee (some (nonce +ℤ pos 1)) valid_from
          valid_until
    let first : TransactionWithSignature = record {
      tx = Types.transfer nft_tx.0;
      signature = nft_tx.1;
    }
    let second : TransactionWithSignature = record {
      tx = Types.transfer fee_tx.0;
      signature = fee_tx.1;
    }
    send_txs_batch c (first ∷ second ∷ []) none

  -- The amounts of a swap: given in units of the tokens that are sold, or those of the orders.
  unfoldable pub swap_amounts : Order × Order → Option (Decimal × Decimal) → Action c (ℤ × ℤ)
  swap_amounts orders (some amounts) = pure c (
    from_decimal (plain orders.0.token_sell) amounts.0,
    from_decimal (plain orders.1.token_sell) amounts.1,
  )
  swap_amounts orders none =
      if eqb_ℤ orders.0.amount (pos 0) || eqb_ℤ orders.1.amount (pos 0)
      then raise c amounts_missing
      else pure c (orders.0.amount, orders.1.amount)

  unfoldable pub swap :
      Order × Order → TokenLike → Option (Decimal × Decimal) → Option Decimal → Action c Json
  swap orders fee_token amounts fee = do
    nonce ← asked_nonce
    token ← resolve_token c fee_token
    fee ← fee_or_asked fee FeeTxType.swap (address c) token
    amounts ← swap_amounts orders amounts
    built ← build_swap c orders token amounts fee (some nonce)
    first ← present c built.0.orders.0.eth_signature
    second ← present c built.0.orders.1.eth_signature
    send_signed_transaction c (Types.swap built.0)
        (many (some built.1 ∷ some first ∷ some second ∷ [])) false

  unfoldable pub withdraw :
      Text → Decimal → TokenLike → Option Decimal → Bool → ℤ → ℤ → Action c Json
  withdraw eth_address amount name fee fast valid_from valid_until = do
    nonce ← asked_nonce
    token ← resolve_token c name
    fee ←
        fee_or_asked fee (if fast then FeeTxType.fast_withdraw else FeeTxType.withdraw) eth_address
          token
    built ←
        build_withdraw c eth_address (from_decimal (plain token) amount) token fee (some nonce)
          valid_from valid_until
    send_signed_transaction c (Types.withdraw built.0) (one (some built.1)) fast
