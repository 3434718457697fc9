-- ===== src/Wallet/Signing.antt =====
-- How a build method that succeeds has signed.
use zksync_python.Prelude.{ℤ, ◌≡◌, sym, ap, ◌∙◌, ok, some}
use zksync_python.Types.{EncodedTx, TxSignature, TxEthSignature}
use zksync_python.Signers.{tx, sign_tx}
use zksync_python.Wallet.{Context, Env, pure, lift, ◌>>=◌}
use zksync_python.Wallet.Build.{nonce_or_asked}
use zksync_python.Wallet.Runs.{after, lift-eq-ok, pure-eq-ok}

module _ (c : Context) where
  -- The end of a build method: both signatures are of the same draft.
  pub signed-eq-ok :
      {T : Type 0} (draft : EncodedTx) (finish : TxSignature → T) (s s' : Env c)
      (built : T × TxEthSignature)
      → (lift c (c.eth_signer.sign_tx (tx draft)) >>= λ eth.
            lift c (sign_tx c.zk_signer (tx draft)) >>= λ zk. pure c (finish zk, eth))
          s
        ≡ (ok built, s')
      → (zk : TxSignature) × (built.0 ≡ finish zk)
        × (sign_tx c.zk_signer (tx draft) ≡ ok zk)
        × (c.eth_signer.sign_tx (tx draft) ≡ ok built.1)
  signed-eq-ok draft finish s s' built h = after _ _ h (λ eth s1 by_eth h.
      after _ _ h (λ zk s2 by_zk h.
        let (eth_ok, _) = lift-eq-ok c _ by_eth in
        let (zk_ok, _) = lift-eq-ok c _ by_zk in
        let (same, _) = pure-eq-ok c _ h in
        (zk, sym (ap (λ b. b.0) same), zk_ok, eth_ok ∙ ap (λ b. ok b.1) same)))

  -- A nonce that is given is not asked for.
  pub given_nonce :
      (nonce : ℤ) {s s' : Env c} {n : ℤ}
      → nonce_or_asked c (some nonce) s ≡ (ok n, s')
      → (nonce ≡ n) × (s ≡ s')
  unfolding nonce_or_asked
  given_nonce nonce h = pure-eq-ok c nonce h
