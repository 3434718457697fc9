-- ===== src/Wallet/Withdrawing.antt =====
-- What `withdraw` submits.
use zksync_python.Prelude.{
  Json, ℤ, Bool, if◌then◌else◌, ◌≡◌, refl, sym, ap, ◌∙◌, Option, none, some, ok,
}
use zksync_python.Python.Text.{Text}
use zksync_python.Python.Decimal.{Decimal}
use zksync_python.Types.{Token, plain, TxEthSignature, TxSignature, Withdraw}
use zksync_python.Types
use zksync_python.Encoding.{encoded_message, type_field, tx_type}
use zksync_python.Tokens.{TokenLike, from_decimal}
use zksync_python.Provider.{one, FeeTxType}
use zksync_python.Signers.{tx, sign_tx}
use zksync_python.Wallet.{Context, Env, address, resolve_token}
use zksync_python.Wallet.Build.{build_withdraw}
use zksync_python.Wallet.Send.{withdraw}
use zksync_python.Wallet.Runs.{after, request-eq-ok}
use zksync_python.Wallet.Signing.{signed-eq-ok, given_nonce}
use zksync_python.Wallet.Sending.{submitted}
use zksync_python.Wallet.Steps.{IsFee, fee_or_asked-IsFee}

module _ (c : Context) where
  -- The withdrawal from the wallet's address with these fields and the wallet's zkSync signature of
  -- itself, and the Ethereum signature of what it was before.
  abbrev pub IsSignedWithdraw :
      Text → ℤ → Token → ℤ → ℤ → ℤ → ℤ → Withdraw → TxEthSignature → Type 0
  IsSignedWithdraw to amount token fee nonce valid_from valid_until t eth =
      (id : Option ℤ) × (zk : TxSignature) × (t ≡ record {
        account_id = id;
        from_address = address c;
        to_address = to;
        token = token;
        amount = amount;
        fee = fee;
        nonce = nonce;
        valid_from = valid_from;
        valid_until = valid_until;
        signature = some zk;
      })
      × (sign_tx c.zk_signer (tx (Types.withdraw t)) ≡ ok zk)
      × (c.eth_signer.sign_tx (tx (Types.withdraw (record t { signature = none }))) ≡ ok eth)

  -- The signature is no part of the message.
  withdraw_message :
      (t : Withdraw) (signature : Option TxSignature)
      → sign_tx c.zk_signer (tx (Types.withdraw (record t { signature = signature })))
        ≡ sign_tx c.zk_signer (tx (Types.withdraw t))
  unfolding sign_tx encoded_message type_field tx_type
  withdraw_message t signature = refl

  build_withdraw_signed :
      (to : Text) (amount : ℤ) (token : Token) (fee nonce valid_from valid_until : ℤ) (s s' : Env c)
      (built : Withdraw × TxEthSignature)
      → build_withdraw c to amount token fee (some nonce) valid_from valid_until s ≡ (ok built, s')
      → IsSignedWithdraw to amount token fee nonce valid_from valid_until built.0 built.1
  unfolding build_withdraw
  build_withdraw_signed to amount token fee nonce valid_from valid_until s s' built h =
      after _ _ h (λ n s1 given h. after _ _ h (λ id s2 _ h.
        let draft : Withdraw = record {
          account_id = id;
          from_address = address c;
          to_address = to;
          token = token;
          amount = amount;
          fee = fee;
          nonce = n;
          valid_from = valid_from;
          valid_until = valid_until;
          signature = none;
        } in
        let (zk, same, by_zk, by_eth) =
          signed-eq-ok c (Types.withdraw draft) (λ zk. record draft { signature = some zk }) s2 s'
            built h in
        let (n_same, _) = given_nonce c nonce given in
        (
          id,
          zk,
          same ∙ ap (λ m. record draft { nonce = m; signature = some zk }) (sym n_same),
          ap (λ (t : Withdraw). sign_tx c.zk_signer (tx (Types.withdraw t))) same
              ∙ withdraw_message draft (some zk)
              ∙ by_zk,
          ap
                (λ (t : Withdraw).
                  c.eth_signer.sign_tx (tx (Types.withdraw (record t { signature = none }))))
                same
              ∙ by_eth,
        )))

  -- Where `withdraw` returns a hash, the server gave it in answer to a withdrawal, as a fast one if
  -- that was asked for, signed by both keys: from the wallet's address to the one that was given, of
  -- the token that `resolve_token` returned for the name, with the amount in its lowest unit, the
  -- nonce that the server named first, the fee that was given or that the server names for a
  -- withdrawal or a fast withdrawal, and the two times.
  pub withdraw_submits :
      (to : Text) (amount : Decimal) (name : TokenLike) (fee : Option Decimal) (fast : Bool)
      (valid_from valid_until : ℤ) (s s' : Env c) (hash : Json)
      → withdraw c to amount name fee fast valid_from valid_until s ≡ (ok hash, s')
      → (t : Withdraw) × (eth : TxEthSignature) × (token : Token) × (nonce units : ℤ) × (s1 s2
          s3 : Env c)
        × (world : c.provider.World) × (c.provider.get_account_nonce (address c) s.1
            ≡ (ok nonce, s1.1))
        × (s.0 ≡ s1.0)
        × (resolve_token c name s1 ≡ (ok token, s2))
        × (IsFee c fee
            (if fast then FeeTxType.fast_withdraw else FeeTxType.withdraw)
            to
            token
            units
            s2
            s3)
        × (c.provider.submit_tx (Types.withdraw t) (one (some eth)) fast world ≡ (ok hash, s'.1))
        × IsSignedWithdraw to
            (from_decimal (plain token) amount)
            token
            units
            nonce
            valid_from
            valid_until
            t
            eth
  unfolding withdraw
  withdraw_submits to amount name fee fast valid_from valid_until s s' hash h =
      after _ _ h (λ nonce s1 asked h. after _ _ h (λ token s2 resolved h.
        after _ _ h (λ units s3 priced h. after _ _ h (λ built s4 signed h.
          let (numbered, unmoved) =
            request-eq-ok c (c.provider.get_account_nonce (address c)) asked in
          let sent = submitted c (Types.withdraw built.0) (one (some built.1)) fast s4 s' hash h in
          let is_signed =
            build_withdraw_signed to (from_decimal (plain token) amount) token units nonce
              valid_from valid_until s3 s4 built signed in
          (
            built.0,
            built.1,
            token,
            nonce,
            units,
            s1,
            s2,
            s3,
            s4.1,
            numbered,
            unmoved,
            resolved,
            fee_or_asked-IsFee c fee (if fast then FeeTxType.fast_withdraw else FeeTxType.withdraw)
                to token priced,
            sent,
            is_signed,
          )))))
