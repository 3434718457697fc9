-- ===== src/Wallet/Swaps.antt =====
-- What `swap` submits.
use zksync_python.Prelude.{
  Json, ℤ, pos, ◌≡◌, ◌≢◌, sym, ap, ◌∙◌, [], ◌∷◌, Option, none, some, ok, ok-injective,
  amounts_missing, false, eqb_ℤ, Bool-cases, inl, inr,
}
use zksync_python.Python.Decimal.{Decimal}
use zksync_python.Types.{
  Token, AnyToken, plain, nft, Nft, TxEthSignature, TxSignature, Transfer, Order,
  TransactionWithSignature, EncodedTx, Swap,
}
use zksync_python.Types
use zksync_python.Tokens.{TokenLike}
use zksync_python.Provider.{many, FeeTxType}
use zksync_python.Signers.{tx, sign_tx}
use zksync_python.Wallet.{Context, Env, address, resolve_token, present, raise}
use zksync_python.Wallet.Send.{swap, swap_amounts}
use zksync_python.Wallet.Signed.{build_swap_signed}
use zksync_python.Wallet.Runs.{after, request-eq-ok}
use zksync_python.Wallet.Sending.{submitted}
use zksync_python.Wallet.Steps.{IsFee, fee_or_asked-IsFee}

module _ (c : Context) where
  amounts_of_orders :
      (orders : Order × Order) (s s' : Env c) (amounts : ℤ × ℤ)
      → swap_amounts c orders none s ≡ (ok amounts, s')
      → (amounts ≡ (orders.0.amount, orders.1.amount))
        × (orders.0.amount ≢ pos 0)
        × (orders.1.amount ≢ pos 0)
  unfolding swap_amounts
  amounts_of_orders orders s s' amounts h = elim (Bool-cases (eqb_ℤ orders.0.amount (pos 0))) [
    | inl zero0 ↦ absurd (raised (rw zero0 at h))
    | inr some0 ↦ elim (Bool-cases (eqb_ℤ orders.1.amount (pos 0))) [
      | inl zero1 ↦ absurd (raised (rw (some0, zero1) at h))
      | inr some1 ↦ (
        ok-injective (ap (λ p. p.0) (sym (rw (some0, some1) at h))),
        (λ same. cc (ap (λ z. eqb_ℤ z (pos 0)) same, some0)),
        (λ same. cc (ap (λ z. eqb_ℤ z (pos 0)) same, some1)),
      )
    ]
  ]
    where
      raised : raise c amounts_missing s ≡ (ok amounts, s') → ⊥
      raised h = cc

  found :
      {A : Type 0} (o : Option A) (s s' : Env c) (a : A) → present c o s ≡ (ok a, s') → o ≡ some a
  found none s s' a h = cc
  found (some b) s s' a h = ap some (ok-injective (ap (λ p. p.0) h))

  -- Where `swap` returns a hash and no amounts were given, no amount of the two orders is zero, and
  -- the server gave the hash in answer to a swap of these orders with just their amounts, which is
  -- signed by the wallet's zkSync key and comes with three Ethereum signatures: its own and the
  -- signatures that the two orders carry. Its nonce is the one that the server named first, the token
  -- of its fee is the one that `resolve_token` returned for the name, and the fee is the one that was
  -- given or that the server names for a swap.
  pub swap_of_orders :
      (orders : Order × Order) (fee_token : TokenLike) (fee : Option Decimal) (s s' : Env c)
      (hash : Json)
      → swap c orders fee_token none fee s ≡ (ok hash, s')
      → (orders.0.amount ≢ pos 0)
        × (orders.1.amount ≢ pos 0)
        × (t : Swap) × (zk : TxSignature) × (eth first second : TxEthSignature) × (token : Token)
        × (nonce units : ℤ) × (s1 s2 s3 : Env c) × (world : c.provider.World)
        × (c.provider.get_account_nonce (address c) s.1 ≡ (ok nonce, s1.1))
        × (s.0 ≡ s1.0)
        × (resolve_token c fee_token s1 ≡ (ok token, s2))
        × (IsFee c fee FeeTxType.swap (address c) token units s2 s3)
        × (c.provider.submit_tx
              (Types.swap t)
              (many (some eth ∷ some first ∷ some second ∷ []))
              false
              world
            ≡ (ok hash, s'.1))
        × (t.submitter_address ≡ address c)
        × (t.fee_token ≡ token)
        × (t.fee ≡ units)
        × (t.nonce ≡ nonce)
        × (t.orders ≡ orders)
        × (t.amounts ≡ (orders.0.amount, orders.1.amount))
        × (orders.0.eth_signature ≡ some first)
        × (orders.1.eth_signature ≡ some second)
        × (t.signature ≡ some zk)
        × (sign_tx c.zk_signer (tx (Types.swap t)) ≡ ok zk)
        × (c.eth_signer.sign_tx (tx (Types.swap (record t { signature = none }))) ≡ ok eth)
  unfolding swap
  swap_of_orders orders fee_token fee s s' hash h = after _ _ h (λ nonce s1 asked h.
      after _ _ h (λ token s2 resolved h. after _ _ h (λ units s3 priced h.
        after _ _ h (λ amounts s4 chosen h. after _ _ h (λ built s5 signed h.
          after _ _ h (λ first s6 first_there h. after _ _ h (λ second s7 second_there h.
            let (same_amounts, nonzero0, nonzero1) =
              amounts_of_orders orders s3 s4 amounts chosen in
            let (id, zk, same, by_zk, by_eth) =
              build_swap_signed c orders token amounts units nonce s4 s5 built.0 built.1 signed in
            let sent =
              submitted c (Types.swap built.0) (many (some built.1 ∷ some first ∷ some second ∷ []))
                false s7 s' hash h in
            let (numbered, unmoved) =
              request-eq-ok c (c.provider.get_account_nonce (address c)) asked in
            let kept : built.0.orders ≡ orders = ap (λ t. t.orders) same in
            (
              nonzero0,
              nonzero1,
              built.0,
              zk,
              built.1,
              first,
              second,
              token,
              nonce,
              units,
              s1,
              s2,
              s3,
              s7.1,
              numbered,
              unmoved,
              resolved,
              fee_or_asked-IsFee c fee FeeTxType.swap (address c) token priced,
              sent,
              ap (λ t. t.submitter_address) same,
              ap (λ t. t.fee_token) same,
              ap (λ t. t.fee) same,
              ap (λ t. t.nonce) same,
              kept,
              ap (λ t. t.amounts) same ∙ same_amounts,
              ap (λ (o : Order × Order). o.0.eth_signature) (sym kept)
                  ∙ found built.0.orders.0.eth_signature s5 s6 first first_there,
              ap (λ (o : Order × Order). o.1.eth_signature) (sym kept)
                  ∙ found built.0.orders.1.eth_signature s6 s7 second second_there,
              ap (λ t. t.signature) same,
              by_zk,
              by_eth,
            ))))))))
