-- ===== src/Wallet/Signed.antt =====
-- What the `build_…` methods return: the arguments in their fields, signed by both keys.
use zksync_python.Prelude.{ℤ, ◌≡◌, refl, sym, ap, ◌∙◌, Option, none, some, ok}
use zksync_python.Python.Text.{Text, lower}
use zksync_python.Types.{AnyToken, Token, TxEthSignature, TxSignature, Transfer, Order, Swap}
use zksync_python.Types
use zksync_python.Encoding.{encoded_message, type_field, tx_type, swap_order_bytes}
use zksync_python.Signers.{tx, sign_tx}
use zksync_python.Wallet.{Context, Env, address, get_account_id}
use zksync_python.Wallet.Build.{nonce_or_asked, build_transfer, build_swap}
use zksync_python.Wallet.Runs.{after, lift-eq-ok, pure-eq-ok}

module _ (c : Context) where
  -- The signature is no part of the message.
  transfer_message :
      (t : Transfer) (signature : Option TxSignature)
      → sign_tx c.zk_signer (tx (Types.transfer (record t { signature = signature })))
        ≡ sign_tx c.zk_signer (tx (Types.transfer t))
  unfolding sign_tx encoded_message type_field tx_type
  transfer_message t signature = refl

  -- The transfer that `build_transfer` returns for a given nonce has the arguments in its fields, the
  -- recipient in lower case, the wallet's address as the sender and the id that `get_account_id`
  -- returns. Its signature is that of the wallet's zkSync key for the transfer as it is returned, and
  -- the other one is the Ethereum key's for the transfer before it was signed. Only the lookup of the
  -- id touches the wallet or the server.
  pub build_transfer_signed :
      (to : Text) (amount : ℤ) (token : AnyToken) (fee nonce valid_from valid_until : ℤ)
      (s s' : Env c) (t : Transfer) (eth : TxEthSignature)
      → build_transfer c to amount token fee (some nonce) valid_from valid_until s
        ≡ (ok (t, eth), s')
      → (id : Option ℤ) × (zk : TxSignature) × (get_account_id c s ≡ (ok id, s'))
        × (t ≡ record {
          account_id = id;
          from_address = address c;
          to_address = lower to;
          token = token;
          amount = amount;
          fee = fee;
          nonce = nonce;
          valid_from = valid_from;
          valid_until = valid_until;
          signature = some zk;
        })
        × (sign_tx c.zk_signer (tx (Types.transfer t)) ≡ ok zk)
        × (c.eth_signer.sign_tx (tx (Types.transfer (record t { signature = none }))) ≡ ok eth)
  unfolding build_transfer nonce_or_asked
  build_transfer_signed to amount token fee nonce valid_from valid_until s s' t eth h =
      after _ _ h (λ n s1 given h. after _ _ h (λ id s2 found h. after _ _ h (λ e s3 by_eth h.
        after _ _ h (λ zk s4 by_zk h.
          let (n_same, s1_same) = pure-eq-ok c nonce given in
          let (eth_ok, s3_same) = lift-eq-ok c _ by_eth in
          let (zk_ok, s4_same) = lift-eq-ok c _ by_zk in
          let (same, s'_same) = pure-eq-ok c _ h in
          let signed : ℤ → Transfer = λ m. record {
            account_id = id;
            from_address = address c;
            to_address = lower to;
            token = token;
            amount = amount;
            fee = fee;
            nonce = m;
            valid_from = valid_from;
            valid_until = valid_until;
            signature = some zk;
          } in
          let is_signed : signed n ≡ t = ap (λ p. p.0) same in
          (
            id,
            zk,
            ap (get_account_id c) s1_same
                ∙ found
                ∙ ap (λ (e : Env c). (ok id, e)) (s3_same ∙ s4_same ∙ s'_same),
            sym is_signed ∙ ap signed (sym n_same),
            ap (λ u. sign_tx c.zk_signer (tx (Types.transfer u))) (sym is_signed)
                ∙ transfer_message (record (signed n) { signature = none }) (some zk)
                ∙ zk_ok,
            ap (λ u. c.eth_signer.sign_tx (tx (Types.transfer (record u { signature = none }))))
                  (sym is_signed)
                ∙ eth_ok
                ∙ ap (λ p. ok p.1) same,
          )))))

  swap_message :
      (t : Swap) (signature : Option TxSignature)
      → sign_tx c.zk_signer (tx (Types.swap (record t { signature = signature })))
        ≡ sign_tx c.zk_signer (tx (Types.swap t))
  unfolding sign_tx encoded_message type_field tx_type swap_order_bytes
  swap_message t signature = refl

  -- The same for a swap, except for what the lookup of the id may change.
  pub build_swap_signed :
      (orders : Order × Order) (fee_token : Token) (amounts : ℤ × ℤ) (fee nonce : ℤ) (s s' : Env c)
      (t : Swap) (eth : TxEthSignature)
      → build_swap c orders fee_token amounts fee (some nonce) s ≡ (ok (t, eth), s')
      → (id : Option ℤ) × (zk : TxSignature) × (t ≡ record {
        submitter_id = id;
        submitter_address = address c;
        amounts = amounts;
        orders = orders;
        fee_token = fee_token;
        fee = fee;
        nonce = nonce;
        signature = some zk;
      })
        × (sign_tx c.zk_signer (tx (Types.swap t)) ≡ ok zk)
        × (c.eth_signer.sign_tx (tx (Types.swap (record t { signature = none }))) ≡ ok eth)
  unfolding build_swap nonce_or_asked
  build_swap_signed orders fee_token amounts fee nonce s s' t eth h = after _ _ h (λ n s1 given h.
      after _ _ h (λ id s2 found h. after _ _ h (λ e s3 by_eth h. after _ _ h (λ zk s4 by_zk h.
        let (n_same, _) = pure-eq-ok c nonce given in
        let (eth_ok, _) = lift-eq-ok c _ by_eth in
        let (zk_ok, _) = lift-eq-ok c _ by_zk in
        let (same, _) = pure-eq-ok c _ h in
        let signed : ℤ → Swap = λ m. record {
          submitter_id = id;
          submitter_address = address c;
          amounts = amounts;
          orders = orders;
          fee_token = fee_token;
          fee = fee;
          nonce = m;
          signature = some zk;
        } in
        let is_signed : signed n ≡ t = ap (λ p. p.0) same in
        (
          id,
          zk,
          sym is_signed ∙ ap signed (sym n_same),
          ap (λ u. sign_tx c.zk_signer (tx (Types.swap u))) (sym is_signed)
              ∙ swap_message (record (signed n) { signature = none }) (some zk)
              ∙ zk_ok,
          ap (λ u. c.eth_signer.sign_tx (tx (Types.swap (record u { signature = none }))))
                (sym is_signed)
              ∙ eth_ok
              ∙ ap (λ p. ok p.1) same,
        )))))
