-- ===== src/Wallet/Steps.antt =====
-- Where a method of the wallet has the nonce and the fee from.
use zksync_python.Prelude.{
  ℤ, [], ◌∷◌, ◌≡◌, refl, sym, ap, ◌∙◌, ◌⊎◌, inl, inr, Option, none, some, ok,
}
use zksync_python.Python.Text.{Text}
use zksync_python.Python.Decimal.{Decimal}
use zksync_python.Types.{Token, plain}
use zksync_python.Tokens.{by_id, by_text, from_decimal}
use zksync_python.Provider.{Fee, FeeTxType}
use zksync_python.Wallet.{Context, Env, address}
use zksync_python.Wallet.Build.{nonce_or_asked}
use zksync_python.Wallet.Send.{fee_or_asked, batch_fee_or_asked, given_or_asked_nonce}
use zksync_python.Wallet.Runs.{after, pure-eq-ok, request-eq-ok}

module _ (c : Context) where
  -- The nonce that was given, or the one that the server names for the wallet's address. The wallet
  -- stays as it is.
  abbrev pub IsNonce : Option ℤ → ℤ → Env c → Env c → Type 0
  IsNonce given nonce s s' =
      ((given ≡ some nonce) × (s ≡ s'))
      ⊎ ((given ≡ none)
          × (c.provider.get_account_nonce (address c) s.1 ≡ (ok nonce, s'.1))
          × (s.0 ≡ s'.0))

  pub nonce_or_asked-IsNonce :
      (given : Option ℤ) {nonce : ℤ} {s s' : Env c}
      → nonce_or_asked c given s ≡ (ok nonce, s')
      → IsNonce given nonce s s'
  unfolding nonce_or_asked
  nonce_or_asked-IsNonce (some n) h =
      let (same, unmoved) = pure-eq-ok c n h in inl (cc same, unmoved)
  nonce_or_asked-IsNonce none h =
      let (named, unmoved) = request-eq-ok c (c.provider.get_account_nonce (address c)) h in
      inr (refl, named, unmoved)

  pub given_or_asked_nonce-IsNonce :
      (given : Option ℤ) {nonce : ℤ} {s s' : Env c}
      → given_or_asked_nonce c given s ≡ (ok nonce, s')
      → IsNonce given nonce s s'
  given_or_asked_nonce-IsNonce (some n) h =
      let (same, unmoved) = pure-eq-ok c n h in inl (cc same, unmoved)
  given_or_asked_nonce-IsNonce none h =
      let (named, unmoved) = request-eq-ok c (c.provider.get_account_nonce (address c)) h in
      inr (refl, named, unmoved)

  -- The fee that was given, in the lowest unit of the token, or the total fee that the server names
  -- for this type of transaction, this address and the token's id. The wallet stays as it is.
  abbrev pub IsFee : Option Decimal → FeeTxType → Text → Token → ℤ → Env c → Env c → Type 0
  IsFee given type to token units s s' =
      ((amount : Decimal) × (given ≡ some amount)
        × (units ≡ from_decimal (plain token) amount)
        × (s ≡ s'))
      ⊎ ((fee : Fee) × (given ≡ none)
          × (c.provider.get_transaction_fee type to (by_id token.id) s.1 ≡ (ok fee, s'.1))
          × (units ≡ fee.total_fee)
          × (s.0 ≡ s'.0))

  pub fee_or_asked-IsFee :
      (given : Option Decimal) (type : FeeTxType) (to : Text) (token : Token) {units : ℤ}
      {s s' : Env c}
      → fee_or_asked c given type to token s ≡ (ok units, s')
      → IsFee given type to token units s s'
  unfolding fee_or_asked
  fee_or_asked-IsFee (some amount) type to token h =
      let (same, unmoved) = pure-eq-ok c (from_decimal (plain token) amount) h in
      inl (amount, refl, sym same, unmoved)
  fee_or_asked-IsFee none type to token h = after _ _ h (λ fee s1 asked h.
      let (named, unmoved) =
        request-eq-ok c (c.provider.get_transaction_fee type to (by_id token.id)) asked in
      let (same, there) = pure-eq-ok c fee.total_fee h in
      inr (
        fee,
        refl,
        named ∙ ap (λ (e : Env c). (ok fee, e.1)) there,
        sym same,
        unmoved ∙ ap (λ (e : Env c). e.0) there,
      ))

  -- The fee that was given, in the lowest unit of the token, or the one that the server names for a
  -- batch of two transfers, to this address and to the wallet's own, in the token of this symbol.
  abbrev pub IsBatchFee : Option Decimal → Text → Token → ℤ → Env c → Env c → Type 0
  IsBatchFee given to token units s s' =
      ((amount : Decimal) × (given ≡ some amount)
        × (units ≡ from_decimal (plain token) amount)
        × (s ≡ s'))
      ⊎ ((given ≡ none)
          × (c.provider.get_transactions_batch_fee (FeeTxType.transfer ∷ FeeTxType.transfer ∷ [])
                (to ∷ address c ∷ []) (by_text token.symbol) s.1
              ≡ (ok units, s'.1))
          × (s.0 ≡ s'.0))

  pub batch_fee_or_asked-IsBatchFee :
      (given : Option Decimal) (to : Text) (token : Token) {units : ℤ} {s s' : Env c}
      → batch_fee_or_asked c given to token s ≡ (ok units, s')
      → IsBatchFee given to token units s s'
  batch_fee_or_asked-IsBatchFee (some amount) to token h =
      let (same, unmoved) = pure-eq-ok c (from_decimal (plain token) amount) h in
      inl (amount, refl, sym same, unmoved)
  batch_fee_or_asked-IsBatchFee none to token h =
      let (named, unmoved) =
        request-eq-ok c
          (c.provider.get_transactions_batch_fee (FeeTxType.transfer ∷ FeeTxType.transfer ∷ [])
            (to ∷ address c ∷ []) (by_text token.symbol))
          h in
      inr (refl, named, unmoved)
