-- ===== src/Wallet/Exits.antt =====
-- What `forced_exit` submits.
use zksync_python.Prelude.{Json, ℤ, false, ◌≡◌, refl, sym, ap, ◌∙◌, Option, none, some, ok}
use zksync_python.Python.Text.{Text}
use zksync_python.Python.Decimal.{Decimal}
use zksync_python.Types.{Token, TxEthSignature, TxSignature, ForcedExit}
use zksync_python.Types
use zksync_python.Encoding.{encoded_message, type_field, tx_type}
use zksync_python.Tokens.{TokenLike}
use zksync_python.Provider.{one, FeeTxType}
use zksync_python.Signers.{tx, sign_tx}
use zksync_python.Wallet.{Context, Env, address, resolve_token}
use zksync_python.Wallet.Build.{build_forced_exit}
use zksync_python.Wallet.Send.{forced_exit}
use zksync_python.Wallet.Runs.{after, request-eq-ok}
use zksync_python.Wallet.Signing.{signed-eq-ok, given_nonce}
use zksync_python.Wallet.Sending.{submitted}
use zksync_python.Wallet.Steps.{IsFee, fee_or_asked-IsFee}

module _ (c : Context) where
  -- The exit with these fields and the wallet's zkSync signature of itself, and the Ethereum
  -- signature of what it was before.
  abbrev pub IsSignedExit : Text → Token → ℤ → ℤ → ℤ → ℤ → ForcedExit → TxEthSignature → Type 0
  IsSignedExit target token fee nonce valid_from valid_until t eth =
      (id : Option ℤ) × (zk : TxSignature) × (t ≡ record {
        initiator_account_id = id;
        target = target;
        token = token;
        fee = fee;
        nonce = nonce;
        valid_from = valid_from;
        valid_until = valid_until;
        signature = some zk;
      })
      × (sign_tx c.zk_signer (tx (Types.forced_exit t)) ≡ ok zk)
      × (c.eth_signer.sign_tx (tx (Types.forced_exit (record t { signature = none }))) ≡ ok eth)

  -- The signature is no part of the message.
  exit_message :
      (t : ForcedExit) (signature : Option TxSignature)
      → sign_tx c.zk_signer (tx (Types.forced_exit (record t { signature = signature })))
        ≡ sign_tx c.zk_signer (tx (Types.forced_exit t))
  unfolding sign_tx encoded_message type_field tx_type
  exit_message t signature = refl

  build_forced_exit_signed :
      (target : Text) (token : Token) (fee nonce valid_from valid_until : ℤ) (s s' : Env c)
      (built : ForcedExit × TxEthSignature)
      → build_forced_exit c target token fee (some nonce) valid_from valid_until s ≡ (ok built, s')
      → IsSignedExit target token fee nonce valid_from valid_until built.0 built.1
  unfolding build_forced_exit
  build_forced_exit_signed target token fee nonce valid_from valid_until s s' built h =
      after _ _ h (λ n s1 given h. after _ _ h (λ id s2 _ h.
        let draft : ForcedExit = record {
          initiator_account_id = id;
          target = target;
          token = token;
          fee = fee;
          nonce = n;
          valid_from = valid_from;
          valid_until = valid_until;
          signature = none;
        } in
        let (zk, same, by_zk, by_eth) =
          signed-eq-ok c (Types.forced_exit draft) (λ zk. record draft { signature = some zk }) s2
            s' built h in
        let (n_same, _) = given_nonce c nonce given in
        (
          id,
          zk,
          same ∙ ap (λ m. record draft { nonce = m; signature = some zk }) (sym n_same),
          ap (λ (t : ForcedExit). sign_tx c.zk_signer (tx (Types.forced_exit t))) same
              ∙ exit_message draft (some zk)
              ∙ by_zk,
          ap
                (λ (t : ForcedExit).
                  c.eth_signer.sign_tx (tx (Types.forced_exit (record t { signature = none }))))
                same
              ∙ by_eth,
        )))

  -- Where `forced_exit` returns a hash, the server gave it in answer to an exit of the target address,
  -- signed by both keys, with the nonce that the server named, the token that `resolve_token`
  -- returned for the name and the two times. The fee is the one that was given, or the one that the
  -- server names for a withdrawal to the target.
  pub forced_exit_submits :
      (target : Text) (name : TokenLike) (fee : Option Decimal) (valid_from valid_until : ℤ)
      (s s' : Env c) (hash : Json)
      → forced_exit c target name fee valid_from valid_until s ≡ (ok hash, s')
      → (t : ForcedExit) × (eth : TxEthSignature) × (token : Token) × (nonce units : ℤ) × (s1 s2
          s3 : Env c)
        × (world : c.provider.World) × (c.provider.get_account_nonce (address c) s.1
            ≡ (ok nonce, s1.1))
        × (s.0 ≡ s1.0)
        × (resolve_token c name s1 ≡ (ok token, s2))
        × (IsFee c fee FeeTxType.withdraw target token units s2 s3)
        × (c.provider.submit_tx (Types.forced_exit t) (one (some eth)) false world
            ≡ (ok hash, s'.1))
        × IsSignedExit target token units nonce valid_from valid_until t eth
  unfolding forced_exit
  forced_exit_submits target name fee valid_from valid_until s s' hash h =
      after _ _ h (λ nonce s1 asked h. after _ _ h (λ token s2 resolved h.
        after _ _ h (λ units s3 priced h. after _ _ h (λ built s4 signed h.
          let (numbered, unmoved) =
            request-eq-ok c (c.provider.get_account_nonce (address c)) asked in
          (
            built.0,
            built.1,
            token,
            nonce,
            units,
            s1,
            s2,
            s3,
            s4.1,
            numbered,
            unmoved,
            resolved,
            fee_or_asked-IsFee c fee FeeTxType.withdraw target token priced,
            submitted c (Types.forced_exit built.0) (one (some built.1)) false s4 s' hash h,
            build_forced_exit_signed target token units nonce valid_from valid_until s3 s4 built
                signed,
          )))))
