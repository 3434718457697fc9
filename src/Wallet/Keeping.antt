-- ===== src/Wallet/Keeping.antt =====
-- What the two lookups leave true of a wallet, every method leaves true.
use zksync_python.Prelude.{
  Error, Result, err, Bool, ℤ, Option, none, some, List, Bool-cases, inl, inr, eqb_ℤ, pos, ◌||◌,
}
use zksync_python.Python.Text.{Text}
use zksync_python.Python.Decimal.{Decimal}
use zksync_python.Python.Fraction.{Fraction}
use zksync_python.Python.Effects.Keeps.{Keeps, returned-Keeps, computed-Keeps, >>=-Keeps}
use zksync_python.Types.{
  Token, Nft, AnyToken, EthAuthData, Order, RatioType, EncodedTx, TransactionWithSignature,
}
use zksync_python.Tokens.{TokenLike}
use zksync_python.Provider.{FeeTxType, State, Signatures, BatchSignatures}
use zksync_python.Wallet.{
  ◌>>=◌, Context, Env, WalletState, Action, pure, raise, lift, request, present, key_matches,
  get_account_id, resolve_token, get_account_state, send_signed_transaction, send_txs_batch,
  get_balance, is_signing_key_set,
}
use zksync_python.Wallet.Build.{
  nonce_or_asked, build_change_pub_key, build_forced_exit, build_mint_nft, build_withdraw_nft,
  build_transfer, build_withdraw, build_swap,
}
use zksync_python.Wallet.Send.{
  fee_or_asked, set_signing_key, forced_exit, mint_nft, withdraw_nft, transfer, transfer_nft,
  swap_amounts, swap, withdraw,
}
use zksync_python.Wallet.Orders.{get_order, get_limit_order}

module _ (c : Context) (Q : WalletState → Type 0) where
  abbrev pub KeepsWallet : {A : Type 0} → Action c A → Type 0
  KeepsWallet m = Keeps (λ (s : Env c). Q s.0) m

  -- A request touches the server alone.
  pub request-Keeps :
      {A : Type 0} (call : c.provider.World → Result A × c.provider.World)
      → KeepsWallet (request c call)
  request-Keeps call = record { after_it = λ s h. h }

  pure-Keeps : {A : Type 0} (a : A) → KeepsWallet (pure c a)
  pure-Keeps = returned-Keeps

  raise-Keeps : {A : Type 0} (e : Error) → KeepsWallet (raise c {A = A} e)
  raise-Keeps e = computed-Keeps (err e)

  lift-Keeps : {A : Type 0} (r : Result A) → KeepsWallet (lift c r)
  lift-Keeps = computed-Keeps

  bind-Keeps :
      {A B : Type 0} (m : Action c A) (f : A → Action c B)
      → KeepsWallet m
      → ((a : A) → KeepsWallet (f a))
      → KeepsWallet (m >>= f)
  bind-Keeps m f first later = >>=-Keeps m f first later

  module _ (id_kept : KeepsWallet (get_account_id c))
      (token_kept : (name : TokenLike) → KeepsWallet (resolve_token c name)) where
    number-Keeps : (number : Option ℤ) → KeepsWallet (nonce_or_asked c number)
    unfolding nonce_or_asked
    number-Keeps none = request-Keeps _
    number-Keeps (some n) = returned-Keeps n

    ruleset building = (bind-Keeps, pure-Keeps, lift-Keeps, number-Keeps)

    pub build_change_pub_key-Keeps :
        (token : Token) (auth : Option EthAuthData) (fee : ℤ) (number : Option ℤ) (from until : ℤ)
        → KeepsWallet (build_change_pub_key c token auth fee number from until)
    unfolding build_change_pub_key
    build_change_pub_key-Keeps token auth fee number from until = search (building) depth 12

    pub build_forced_exit-Keeps :
        (target : Text) (token : Token) (fee : ℤ) (number : Option ℤ) (from until : ℤ)
        → KeepsWallet (build_forced_exit c target token fee number from until)
    unfolding build_forced_exit
    build_forced_exit-Keeps target token fee number from until = search (building) depth 12

    pub build_mint_nft-Keeps :
        (hash to : Text) (token : Token) (fee : ℤ) (number : Option ℤ)
        → KeepsWallet (build_mint_nft c hash to token fee number)
    unfolding build_mint_nft
    build_mint_nft-Keeps hash to token fee number = search (building) depth 12

    pub build_withdraw_nft-Keeps :
        (to : Text) (item : Nft) (token : Token) (fee : ℤ) (number : Option ℤ) (from until : ℤ)
        → KeepsWallet (build_withdraw_nft c to item token fee number from until)
    unfolding build_withdraw_nft
    build_withdraw_nft-Keeps to item token fee number from until = search (building) depth 12

    pub build_transfer-Keeps :
        (to : Text) (amount : ℤ) (token : AnyToken) (fee : ℤ) (number : Option ℤ) (from until : ℤ)
        → KeepsWallet (build_transfer c to amount token fee number from until)
    unfolding build_transfer
    build_transfer-Keeps to amount token fee number from until = search (building) depth 12

    pub build_withdraw-Keeps :
        (to : Text) (amount : ℤ) (token : Token) (fee : ℤ) (number : Option ℤ) (from until : ℤ)
        → KeepsWallet (build_withdraw c to amount token fee number from until)
    unfolding build_withdraw
    build_withdraw-Keeps to amount token fee number from until = search (building) depth 12

    pub build_swap-Keeps :
        (orders : Order × Order) (token : Token) (amounts : ℤ × ℤ) (fee : ℤ) (number : Option ℤ)
        → KeepsWallet (build_swap c orders token amounts fee number)
    unfolding build_swap
    build_swap-Keeps orders token amounts fee number = search (building) depth 12

    fee-Keeps :
        (fee : Option Decimal) (type : FeeTxType) (to : Text) (token : Token)
        → KeepsWallet (fee_or_asked c fee type to token)
    unfolding fee_or_asked
    fee-Keeps none type to token = search (bind-Keeps, pure-Keeps, request-Keeps)
    fee-Keeps (some fee) type to token = pure-Keeps _

    pub send-Keeps :
        (t : EncodedTx) (signatures : Signatures) (fast : Bool)
        → KeepsWallet (send_signed_transaction c t signatures fast)
    unfolding send_signed_transaction
    send-Keeps t signatures fast = request-Keeps _

    pub batch-Keeps :
        (ts : List TransactionWithSignature) (signatures : Option BatchSignatures)
        → KeepsWallet (send_txs_batch c ts signatures)
    unfolding send_txs_batch
    batch-Keeps ts signatures = request-Keeps _

    present-Keeps : {A : Type 0} (o : Option A) → KeepsWallet (present c o)
    present-Keeps none = raise-Keeps _
    present-Keeps (some a) = pure-Keeps a

    swap_amounts-Keeps :
        (orders : Order × Order) (amounts : Option (Decimal × Decimal))
        → KeepsWallet (swap_amounts c orders amounts)
    unfolding swap_amounts
    swap_amounts-Keeps orders (some amounts) = pure-Keeps _
    swap_amounts-Keeps orders none =
        elim (Bool-cases (eqb_ℤ orders.0.amount (pos 0) || eqb_ℤ orders.1.amount (pos 0))) [
          | inl missing ↦ rw missing (raise-Keeps _)
          | inr there ↦ rw there (pure-Keeps _)
        ]

    key-Keeps :
        (id : Option ℤ) (committed : Option State) (hash : Text)
        → KeepsWallet (key_matches c id committed hash)
    key-Keeps none committed hash = pure-Keeps _
    key-Keeps (some id) committed hash = search (bind-Keeps, pure-Keeps, present-Keeps)

    ruleset sending =
        (bind-Keeps, pure-Keeps, lift-Keeps, request-Keeps, number-Keeps, fee-Keeps, send-Keeps)

    pub set_signing_key-Keeps :
        (name : TokenLike) (auth : Option EthAuthData) (fee : Option Decimal) (number : Option ℤ)
        (from until : ℤ)
        → KeepsWallet (set_signing_key c name auth fee number from until)
    unfolding set_signing_key
    set_signing_key-Keeps name auth fee none from until =
        search (sending, build_change_pub_key-Keeps) depth 12
    set_signing_key-Keeps name auth fee (some number) from until =
        search (sending, build_change_pub_key-Keeps) depth 12

    pub forced_exit-Keeps :
        (target : Text) (name : TokenLike) (fee : Option Decimal) (from until : ℤ)
        → KeepsWallet (forced_exit c target name fee from until)
    unfolding forced_exit
    forced_exit-Keeps target name fee from until =
        search (sending, build_forced_exit-Keeps) depth 12

    pub mint_nft-Keeps :
        (hash to : Text) (name : TokenLike) (fee : Option Decimal)
        → KeepsWallet (mint_nft c hash to name fee)
    unfolding mint_nft
    mint_nft-Keeps hash to name fee = search (sending, build_mint_nft-Keeps) depth 12

    pub withdraw_nft-Keeps :
        (to : Text) (item : Nft) (name : TokenLike) (fee : Option Decimal) (from until : ℤ)
        → KeepsWallet (withdraw_nft c to item name fee from until)
    unfolding withdraw_nft
    withdraw_nft-Keeps to item name fee from until =
        search (sending, build_withdraw_nft-Keeps) depth 12

    pub transfer-Keeps :
        (to : Text) (amount : Decimal) (name : TokenLike) (fee : Option Decimal) (from until : ℤ)
        → KeepsWallet (transfer c to amount name fee from until)
    unfolding transfer
    transfer-Keeps to amount name fee from until = search (sending, build_transfer-Keeps) depth 12

    pub transfer_nft-Keeps :
        (to : Text) (item : Nft) (name : TokenLike) (fee : Option Decimal) (from until : ℤ)
        → KeepsWallet (transfer_nft c to item name fee from until)
    unfolding transfer_nft
    transfer_nft-Keeps to item name none from until =
        search (sending, build_transfer-Keeps, batch-Keeps) depth 12
    transfer_nft-Keeps to item name (some fee) from until =
        search (sending, build_transfer-Keeps, batch-Keeps) depth 12

    pub swap-Keeps :
        (orders : Order × Order) (name : TokenLike) (amounts : Option (Decimal × Decimal))
        (fee : Option Decimal)
        → KeepsWallet (swap c orders name amounts fee)
    unfolding swap
    swap-Keeps orders name amounts fee =
        search (sending, build_swap-Keeps, swap_amounts-Keeps, present-Keeps) depth 12

    pub withdraw-Keeps :
        (to : Text) (amount : Decimal) (name : TokenLike) (fee : Option Decimal) (fast : Bool)
        (from until : ℤ)
        → KeepsWallet (withdraw c to amount name fee fast from until)
    unfolding withdraw
    withdraw-Keeps to amount name fee fast from until =
        search (sending, build_withdraw-Keeps) depth 12

    pub get_order-Keeps :
        (sell buy : TokenLike) (ratio : Fraction) (type : RatioType) (amount : Decimal)
        (to : Option Text) (number : Option ℤ) (from until : ℤ)
        → KeepsWallet (get_order c sell buy ratio type amount to number from until)
    unfolding get_order
    get_order-Keeps sell buy ratio type amount to number from until = search (sending) depth 12

    pub get_limit_order-Keeps :
        (sell buy : TokenLike) (ratio : Fraction) (type : RatioType) (to : Option Text)
        (from until : ℤ)
        → KeepsWallet (get_limit_order c sell buy ratio type to from until)
    unfolding get_limit_order
    get_limit_order-Keeps sell buy ratio type to from until = get_order-Keeps _ _ _ _ _ _ _ _ _

    pub get_balance-Keeps :
        (name : TokenLike) (committed : Bool) → KeepsWallet (get_balance c name committed)
    unfolding get_balance get_account_state
    get_balance-Keeps name committed = search (bind-Keeps, pure-Keeps, request-Keeps, present-Keeps)

    pub is_signing_key_set-Keeps : KeepsWallet (is_signing_key_set c)
    unfolding is_signing_key_set get_account_state
    is_signing_key_set-Keeps = search (bind-Keeps, lift-Keeps, request-Keeps, key-Keeps)
