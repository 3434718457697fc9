-- ===== src/Wallet/Reachable.antt =====
-- The wallets that calls of its methods lead to.
use zksync_python.Prelude.{ℤ, Bool, List, Option}
use zksync_python.Python.Text.{Text}
use zksync_python.Python.Decimal.{Decimal}
use zksync_python.Python.Fraction.{Fraction}
use zksync_python.Types.{
  Token, Nft, AnyToken, EthAuthData, Order, RatioType, EncodedTx, TransactionWithSignature,
}
use zksync_python.Tokens.{TokenLike}
use zksync_python.Provider.{Signatures, BatchSignatures}
use zksync_python.Wallet
use zksync_python.Wallet.{Context, Env, WalletState, new_wallet, address}
use zksync_python.Wallet.Lookups.{IsKept, get_account_id-Keeps, resolve_token-Keeps}
use zksync_python.Wallet.Build
use zksync_python.Wallet.Send
use zksync_python.Wallet.Orders
use zksync_python.Wallet.Keeping.{
  KeepsWallet, request-Keeps, send-Keeps, batch-Keeps, set_signing_key-Keeps, forced_exit-Keeps,
  mint_nft-Keeps, withdraw_nft-Keeps, transfer-Keeps, transfer_nft-Keeps, swap-Keeps,
  withdraw-Keeps, get_order-Keeps, get_limit_order-Keeps, get_balance-Keeps,
  is_signing_key_set-Keeps, build_change_pub_key-Keeps, build_forced_exit-Keeps,
  build_mint_nft-Keeps, build_withdraw_nft-Keeps, build_transfer-Keeps, build_withdraw-Keeps,
  build_swap-Keeps,
}

-- A call of a method of the wallet with its arguments.
pub data Call : Type 0 where
  get_account_id : Call
  resolve_token : TokenLike → Call
  get_account_state : Call
  send_signed_transaction : EncodedTx → Signatures → Bool → Call
  send_txs_batch : List TransactionWithSignature → Option BatchSignatures → Call
  set_signing_key : TokenLike → Option EthAuthData → Option Decimal → Option ℤ → ℤ → ℤ → Call
  forced_exit : Text → TokenLike → Option Decimal → ℤ → ℤ → Call
  mint_nft : Text → Text → TokenLike → Option Decimal → Call
  withdraw_nft : Text → Nft → TokenLike → Option Decimal → ℤ → ℤ → Call
  transfer : Text → Decimal → TokenLike → Option Decimal → ℤ → ℤ → Call
  transfer_nft : Text → Nft → TokenLike → Option Decimal → ℤ → ℤ → Call
  swap : (Order × Order) → TokenLike → Option (Decimal × Decimal) → Option Decimal → Call
  withdraw : Text → Decimal → TokenLike → Option Decimal → Bool → ℤ → ℤ → Call
  get_order :
      TokenLike → TokenLike → Fraction → RatioType → Decimal → Option Text → Option ℤ → ℤ → ℤ → Call
  get_limit_order : TokenLike → TokenLike → Fraction → RatioType → Option Text → ℤ → ℤ → Call
  get_balance : TokenLike → Bool → Call
  is_signing_key_set : Call
  build_change_pub_key : Token → Option EthAuthData → ℤ → Option ℤ → ℤ → ℤ → Call
  build_forced_exit : Text → Token → ℤ → Option ℤ → ℤ → ℤ → Call
  build_mint_nft : Text → Text → Token → ℤ → Option ℤ → Call
  build_withdraw_nft : Text → Nft → Token → ℤ → Option ℤ → ℤ → ℤ → Call
  build_transfer : Text → ℤ → AnyToken → ℤ → Option ℤ → ℤ → ℤ → Call
  build_withdraw : Text → ℤ → Token → ℤ → Option ℤ → ℤ → ℤ → Call
  build_swap : (Order × Order) → Token → (ℤ × ℤ) → ℤ → Option ℤ → Call

module _ (c : Context) where
  -- What is left of the wallet and the server, also where the method raises.
  abbrev pub perform : Call → Env c → Env c
  perform Call.get_account_id s = (Wallet.get_account_id c s).1
  perform (Call.resolve_token name) s = (Wallet.resolve_token c name s).1
  perform Call.get_account_state s = (Wallet.get_account_state c s).1
  perform (Call.send_signed_transaction t signatures fast) s =
      (Wallet.send_signed_transaction c t signatures fast s).1
  perform (Call.send_txs_batch ts signatures) s = (Wallet.send_txs_batch c ts signatures s).1
  perform (Call.set_signing_key name auth fee nonce from until) s =
      (Send.set_signing_key c name auth fee nonce from until s).1
  perform (Call.forced_exit target name fee from until) s =
      (Send.forced_exit c target name fee from until s).1
  perform (Call.mint_nft hash to name fee) s = (Send.mint_nft c hash to name fee s).1
  perform (Call.withdraw_nft to item name fee from until) s =
      (Send.withdraw_nft c to item name fee from until s).1
  perform (Call.transfer to amount name fee from until) s =
      (Send.transfer c to amount name fee from until s).1
  perform (Call.transfer_nft to item name fee from until) s =
      (Send.transfer_nft c to item name fee from until s).1
  perform (Call.swap orders name amounts fee) s = (Send.swap c orders name amounts fee s).1
  perform (Call.withdraw to amount name fee fast from until) s =
      (Send.withdraw c to amount name fee fast from until s).1
  perform (Call.get_order sell buy ratio type amount to nonce from until) s =
      (Orders.get_order c sell buy ratio type amount to nonce from until s).1
  perform (Call.get_limit_order sell buy ratio type to from until) s =
      (Orders.get_limit_order c sell buy ratio type to from until s).1
  perform (Call.get_balance name committed) s = (Wallet.get_balance c name committed s).1
  perform Call.is_signing_key_set s = (Wallet.is_signing_key_set c s).1
  perform (Call.build_change_pub_key token auth fee nonce from until) s =
      (Build.build_change_pub_key c token auth fee nonce from until s).1
  perform (Call.build_forced_exit target token fee nonce from until) s =
      (Build.build_forced_exit c target token fee nonce from until s).1
  perform (Call.build_mint_nft hash to token fee nonce) s =
      (Build.build_mint_nft c hash to token fee nonce s).1
  perform (Call.build_withdraw_nft to item token fee nonce from until) s =
      (Build.build_withdraw_nft c to item token fee nonce from until s).1
  perform (Call.build_transfer to amount token fee nonce from until) s =
      (Build.build_transfer c to amount token fee nonce from until s).1
  perform (Call.build_withdraw to amount token fee nonce from until) s =
      (Build.build_withdraw c to amount token fee nonce from until s).1
  perform (Call.build_swap orders token amounts fee nonce) s =
      (Build.build_swap c orders token amounts fee nonce s).1

  -- Calls of methods, one after another, and whatever happens to the server between them.
  pub data Reached (s : Env c) : Env c → Type 0 where
    here : Reached s s
    called : {s1 : Env c} (call : Call) → Reached s s1 → Reached s (perform call s1)
    elapsed : {s1 : Env c} (world : c.provider.World) → Reached s s1 → Reached s (s1.0, world)

  module _ (Q : WalletState → Type 0) (kept : IsKept c Q) where
    id_kept : KeepsWallet c Q (Wallet.get_account_id c)
    id_kept = get_account_id-Keeps c Q kept

    token_kept : (name : TokenLike) → KeepsWallet c Q (Wallet.resolve_token c name)
    token_kept = resolve_token-Keeps c Q kept

    perform-Keeps : (call : Call) (s : Env c) → Q s.0 → Q (perform call s).0
    unfolding Wallet.get_account_state
    perform-Keeps Call.get_account_id = (id_kept).after_it
    perform-Keeps (Call.resolve_token name) = (token_kept name).after_it
    perform-Keeps Call.get_account_state =
        (request-Keeps c Q (c.provider.get_state (address c))).after_it
    perform-Keeps (Call.send_signed_transaction t signatures fast) =
        (send-Keeps c Q id_kept token_kept t signatures fast).after_it
    perform-Keeps (Call.send_txs_batch ts signatures) =
        (batch-Keeps c Q id_kept token_kept ts signatures).after_it
    perform-Keeps (Call.set_signing_key name auth fee nonce from until) =
        (set_signing_key-Keeps c Q id_kept token_kept name auth fee nonce from until).after_it
    perform-Keeps (Call.forced_exit target name fee from until) =
        (forced_exit-Keeps c Q id_kept token_kept target name fee from until).after_it
    perform-Keeps (Call.mint_nft hash to name fee) =
        (mint_nft-Keeps c Q id_kept token_kept hash to name fee).after_it
    perform-Keeps (Call.withdraw_nft to item name fee from until) =
        (withdraw_nft-Keeps c Q id_kept token_kept to item name fee from until).after_it
    perform-Keeps (Call.transfer to amount name fee from until) =
        (transfer-Keeps c Q id_kept token_kept to amount name fee from until).after_it
    perform-Keeps (Call.transfer_nft to item name fee from until) =
        (transfer_nft-Keeps c Q id_kept token_kept to item name fee from until).after_it
    perform-Keeps (Call.swap orders name amounts fee) =
        (swap-Keeps c Q id_kept token_kept orders name amounts fee).after_it
    perform-Keeps (Call.withdraw to amount name fee fast from until) =
        (withdraw-Keeps c Q id_kept token_kept to amount name fee fast from until).after_it
    perform-Keeps (Call.get_order sell buy ratio type amount to nonce from until) =
        (get_order-Keeps c Q id_kept token_kept sell buy ratio type amount to nonce from
          until).after_it
    perform-Keeps (Call.get_limit_order sell buy ratio type to from until) =
        (get_limit_order-Keeps c Q id_kept token_kept sell buy ratio type to from until).after_it
    perform-Keeps (Call.get_balance name committed) =
        (get_balance-Keeps c Q id_kept token_kept name committed).after_it
    perform-Keeps Call.is_signing_key_set =
        (is_signing_key_set-Keeps c Q id_kept token_kept).after_it
    perform-Keeps (Call.build_change_pub_key token auth fee nonce from until) =
        (build_change_pub_key-Keeps c Q id_kept token_kept token auth fee nonce from until).after_it
    perform-Keeps (Call.build_forced_exit target token fee nonce from until) =
        (build_forced_exit-Keeps c Q id_kept token_kept target token fee nonce from until).after_it
    perform-Keeps (Call.build_mint_nft hash to token fee nonce) =
        (build_mint_nft-Keeps c Q id_kept token_kept hash to token fee nonce).after_it
    perform-Keeps (Call.build_withdraw_nft to item token fee nonce from until) =
        (build_withdraw_nft-Keeps c Q id_kept token_kept to item token fee nonce from
          until).after_it
    perform-Keeps (Call.build_transfer to amount token fee nonce from until) =
        (build_transfer-Keeps c Q id_kept token_kept to amount token fee nonce from until).after_it
    perform-Keeps (Call.build_withdraw to amount token fee nonce from until) =
        (build_withdraw-Keeps c Q id_kept token_kept to amount token fee nonce from until).after_it
    perform-Keeps (Call.build_swap orders token amounts fee nonce) =
        (build_swap-Keeps c Q id_kept token_kept orders token amounts fee nonce).after_it

    -- What a change keeps, every later wallet has.
    pub Reached-Keeps : {s s' : Env c} → Reached s s' → Q s.0 → Q s'.0
    Reached-Keeps here h = h
    Reached-Keeps (called {s1} call before) h = perform-Keeps call s1 (Reached-Keeps before h)
    Reached-Keeps (elapsed world before) h = Reached-Keeps before h
