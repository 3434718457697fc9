-- ===== src/Wallet/Nfts.antt =====
-- What `mint_nft` and `withdraw_nft` submit.
use zksync_python.Prelude.{Json, ℤ, false, ◌≡◌, refl, sym, ap, ◌∙◌, Option, none, some, ok}
use zksync_python.Python.Text.{Text}
use zksync_python.Python.Decimal.{Decimal}
use zksync_python.Types.{Token, Nft, TxEthSignature, TxSignature, MintNft, WithdrawNft}
use zksync_python.Types
use zksync_python.Encoding.{encoded_message, type_field, tx_type}
use zksync_python.Tokens.{TokenLike}
use zksync_python.Provider.{one, FeeTxType}
use zksync_python.Signers.{tx, sign_tx}
use zksync_python.Wallet.{Context, Env, address, resolve_token}
use zksync_python.Wallet.Build.{build_mint_nft, build_withdraw_nft}
use zksync_python.Wallet.Send.{mint_nft, withdraw_nft}
use zksync_python.Wallet.Runs.{after, request-eq-ok}
use zksync_python.Wallet.Signing.{signed-eq-ok, given_nonce}
use zksync_python.Wallet.Sending.{submitted}
use zksync_python.Wallet.Steps.{IsFee, fee_or_asked-IsFee}

module _ (c : Context) where
  -- The minting with these fields and the wallet's zkSync signature of itself, and the Ethereum
  -- signature of what it was before.
  abbrev pub IsSignedMint : Text → Text → Token → ℤ → ℤ → MintNft → TxEthSignature → Type 0
  IsSignedMint content_hash recipient token fee nonce t eth =
      (id : Option ℤ) × (zk : TxSignature) × (t ≡ record {
        creator_id = id;
        creator_address = address c;
        content_hash = content_hash;
        recipient = recipient;
        fee = fee;
        fee_token = token;
        nonce = nonce;
        signature = some zk;
      })
      × (sign_tx c.zk_signer (tx (Types.mint_nft t)) ≡ ok zk)
      × (c.eth_signer.sign_tx (tx (Types.mint_nft (record t { signature = none }))) ≡ ok eth)

  -- The signature is no part of the message.
  mint_nft_message :
      (t : MintNft) (signature : Option TxSignature)
      → sign_tx c.zk_signer (tx (Types.mint_nft (record t { signature = signature })))
        ≡ sign_tx c.zk_signer (tx (Types.mint_nft t))
  unfolding sign_tx encoded_message type_field tx_type
  mint_nft_message t signature = refl

  build_mint_nft_signed :
      (content_hash : Text) (recipient : Text) (token : Token) (fee : ℤ) (nonce : ℤ) (s s' : Env c)
      (built : MintNft × TxEthSignature)
      → build_mint_nft c content_hash recipient token fee (some nonce) s ≡ (ok built, s')
      → IsSignedMint content_hash recipient token fee nonce built.0 built.1
  unfolding build_mint_nft
  build_mint_nft_signed content_hash recipient token fee nonce s s' built h =
      after _ _ h (λ n s1 given h. after _ _ h (λ id s2 _ h.
        let draft : MintNft = record {
          creator_id = id;
          creator_address = address c;
          content_hash = content_hash;
          recipient = recipient;
          fee = fee;
          fee_token = token;
          nonce = n;
          signature = none;
        } in
        let (zk, same, by_zk, by_eth) =
          signed-eq-ok c (Types.mint_nft draft) (λ zk. record draft { signature = some zk }) s2 s'
            built h in
        let (n_same, _) = given_nonce c nonce given in
        (
          id,
          zk,
          same ∙ ap (λ m. record draft { nonce = m; signature = some zk }) (sym n_same),
          ap (λ (t : MintNft). sign_tx c.zk_signer (tx (Types.mint_nft t))) same
              ∙ mint_nft_message draft (some zk)
              ∙ by_zk,
          ap
                (λ (t : MintNft).
                  c.eth_signer.sign_tx (tx (Types.mint_nft (record t { signature = none }))))
                same
              ∙ by_eth,
        )))

  -- Where `mint_nft` returns a hash, the server gave it in answer to the minting of this content for
  -- this recipient by the wallet's address, signed by both keys, with the token that `resolve_token`
  -- returned for the name, the nonce that the server named after that, and the fee that was given or
  -- that the server names for a minting.
  pub mint_nft_submits :
      (content_hash recipient : Text) (name : TokenLike) (fee : Option Decimal) (s s' : Env c)
      (hash : Json)
      → mint_nft c content_hash recipient name fee s ≡ (ok hash, s')
      → (t : MintNft) × (eth : TxEthSignature) × (token : Token) × (nonce units : ℤ) × (s1 s2
          s3 : Env c)
        × (world : c.provider.World) × (resolve_token c name s ≡ (ok token, s1))
        × (c.provider.get_account_nonce (address c) s1.1 ≡ (ok nonce, s2.1))
        × (s1.0 ≡ s2.0)
        × (IsFee c fee FeeTxType.mint_nft recipient token units s2 s3)
        × (c.provider.submit_tx (Types.mint_nft t) (one (some eth)) false world ≡ (ok hash, s'.1))
        × IsSignedMint content_hash recipient token units nonce t eth
  unfolding mint_nft
  mint_nft_submits content_hash recipient name fee s s' hash h = after _ _ h (λ token s1 resolved h.
      after _ _ h (λ nonce s2 asked h. after _ _ h (λ units s3 priced h.
        after _ _ h (λ built s4 signed h.
          let (numbered, unmoved) =
            request-eq-ok c (c.provider.get_account_nonce (address c)) asked in
          let sent = submitted c (Types.mint_nft built.0) (one (some built.1)) false s4 s' hash h in
          let is_signed =
            build_mint_nft_signed content_hash recipient token units nonce s3 s4 built signed in
          (
            built.0,
            built.1,
            token,
            nonce,
            units,
            s1,
            s2,
            s3,
            s4.1,
            resolved,
            numbered,
            unmoved,
            fee_or_asked-IsFee c fee FeeTxType.mint_nft recipient token priced,
            sent,
            is_signed,
          )))))

  -- The withdrawal of the NFT with these fields and the wallet's zkSync signature of itself, and the Ethereum
  -- signature of what it was before.
  abbrev pub IsSignedWithdrawNft :
      Text → Nft → Token → ℤ → ℤ → ℤ → ℤ → WithdrawNft → TxEthSignature → Type 0
  IsSignedWithdrawNft to item token fee nonce valid_from valid_until t eth =
      (id : Option ℤ) × (zk : TxSignature) × (t ≡ record {
        account_id = id;
        from_address = address c;
        to_address = to;
        fee_token = token;
        fee = fee;
        nonce = nonce;
        valid_from = valid_from;
        valid_until = valid_until;
        token_id = item.token.id;
        signature = some zk;
      })
      × (sign_tx c.zk_signer (tx (Types.withdraw_nft t)) ≡ ok zk)
      × (c.eth_signer.sign_tx (tx (Types.withdraw_nft (record t { signature = none }))) ≡ ok eth)

  -- The signature is no part of the message.
  withdraw_nft_message :
      (t : WithdrawNft) (signature : Option TxSignature)
      → sign_tx c.zk_signer (tx (Types.withdraw_nft (record t { signature = signature })))
        ≡ sign_tx c.zk_signer (tx (Types.withdraw_nft t))
  unfolding sign_tx encoded_message type_field tx_type
  withdraw_nft_message t signature = refl

  build_withdraw_nft_signed :
      (to : Text) (item : Nft) (token : Token) (fee : ℤ) (nonce : ℤ) (valid_from : ℤ)
      (valid_until : ℤ) (s s' : Env c) (built : WithdrawNft × TxEthSignature)
      → build_withdraw_nft c to item token fee (some nonce) valid_from valid_until s
        ≡ (ok built, s')
      → IsSignedWithdrawNft to item token fee nonce valid_from valid_until built.0 built.1
  unfolding build_withdraw_nft
  build_withdraw_nft_signed to item token fee nonce valid_from valid_until s s' built h =
      after _ _ h (λ n s1 given h. after _ _ h (λ id s2 _ h.
        let draft : WithdrawNft = record {
          account_id = id;
          from_address = address c;
          to_address = to;
          fee_token = token;
          fee = fee;
          nonce = n;
          valid_from = valid_from;
          valid_until = valid_until;
          token_id = item.token.id;
          signature = none;
        } in
        let (zk, same, by_zk, by_eth) =
          signed-eq-ok c (Types.withdraw_nft draft) (λ zk. record draft { signature = some zk }) s2
            s' built h in
        let (n_same, _) = given_nonce c nonce given in
        (
          id,
          zk,
          same ∙ ap (λ m. record draft { nonce = m; signature = some zk }) (sym n_same),
          ap (λ (t : WithdrawNft). sign_tx c.zk_signer (tx (Types.withdraw_nft t))) same
              ∙ withdraw_nft_message draft (some zk)
              ∙ by_zk,
          ap
                (λ (t : WithdrawNft).
                  c.eth_signer.sign_tx (tx (Types.withdraw_nft (record t { signature = none }))))
                same
              ∙ by_eth,
        )))

  -- Where `withdraw_nft` returns a hash, the server gave it in answer to the withdrawal of this NFT,
  -- named by its id, from the wallet's address to the one that was given, signed by both keys, with
  -- the nonce that the server named, the fee's token that `resolve_token` returned for the name, the
  -- fee that was given or that the server names for a withdrawal of an NFT, and the two times.
  pub withdraw_nft_submits :
      (to : Text) (item : Nft) (name : TokenLike) (fee : Option Decimal)
      (valid_from valid_until : ℤ) (s s' : Env c) (hash : Json)
      → withdraw_nft c to item name fee valid_from valid_until s ≡ (ok hash, s')
      → (t : WithdrawNft) × (eth : TxEthSignature) × (token : Token) × (nonce units : ℤ) × (s1 s2
          s3 : Env c)
        × (world : c.provider.World) × (c.provider.get_account_nonce (address c) s.1
            ≡ (ok nonce, s1.1))
        × (s.0 ≡ s1.0)
        × (resolve_token c name s1 ≡ (ok token, s2))
        × (IsFee c fee FeeTxType.withdraw_nft to token units s2 s3)
        × (c.provider.submit_tx (Types.withdraw_nft t) (one (some eth)) false world
            ≡ (ok hash, s'.1))
        × IsSignedWithdrawNft to item token units nonce valid_from valid_until t eth
  unfolding withdraw_nft
  withdraw_nft_submits to item name fee valid_from valid_until s s' hash h =
      after _ _ h (λ nonce s1 asked h. after _ _ h (λ token s2 resolved h.
        after _ _ h (λ units s3 priced h. after _ _ h (λ built s4 signed h.
          let (numbered, unmoved) =
            request-eq-ok c (c.provider.get_account_nonce (address c)) asked in
          let sent =
            submitted c (Types.withdraw_nft built.0) (one (some built.1)) false s4 s' hash h in
          let is_signed =
            build_withdraw_nft_signed to item token units nonce valid_from valid_until s3 s4 built
              signed in
          (
            built.0,
            built.1,
            token,
            nonce,
            units,
            s1,
            s2,
            s3,
            s4.1,
            numbered,
            unmoved,
            resolved,
            fee_or_asked-IsFee c fee FeeTxType.withdraw_nft to token priced,
            sent,
            is_signed,
          )))))
