-- ===== src/Wallet/Sending.antt =====
-- What `transfer` and `transfer_nft` submit to the server.
use zksync_python.Prelude.{
  Json, ℤ, pos, ◌+ℤ◌, ◌≡◌, ap, List, [], ◌∷◌, Option, none, some, ok, false, Bool,
}
use zksync_python.Python.Text.{Text, lower}
use zksync_python.Python.Decimal.{Decimal}
use zksync_python.Types.{
  Token, AnyToken, plain, nft, Nft, TxEthSignature, TxSignature, Transfer, Order,
  TransactionWithSignature, EncodedTx, Swap,
}
use zksync_python.Types
use zksync_python.Tokens.{TokenLike, from_decimal}
use zksync_python.Provider.{one, Signatures, BatchSignatures, FeeTxType}
use zksync_python.Signers.{tx, sign_tx}
use zksync_python.Wallet.{
  Context, Env, address, get_account_id, resolve_token, send_signed_transaction, send_txs_batch,
}
use zksync_python.Wallet.Send.{transfer, transfer_nft}
use zksync_python.Wallet.Signed.{build_transfer_signed}
use zksync_python.Wallet.Runs.{after, request-eq-ok}
use zksync_python.Wallet.Steps.{
  IsFee, fee_or_asked-IsFee, IsBatchFee, batch_fee_or_asked-IsBatchFee,
}

module _ (c : Context) where
  pub submitted :
      (t : EncodedTx) (signatures : Signatures) (fast : Bool) (s s' : Env c) (hash : Json)
      → send_signed_transaction c t signatures fast s ≡ (ok hash, s')
      → c.provider.submit_tx t signatures fast s.1 ≡ (ok hash, s'.1)
  unfolding send_signed_transaction
  submitted t signatures fast s s' hash h =
      let (sent, _) = request-eq-ok c (c.provider.submit_tx t signatures fast) h in sent

  submitted_batch :
      (ts : List TransactionWithSignature) (signatures : Option BatchSignatures) (s s' : Env c)
      (hashes : Json)
      → send_txs_batch c ts signatures s ≡ (ok hashes, s')
      → c.provider.submit_txs_batch ts signatures s.1 ≡ (ok hashes, s'.1)
  unfolding send_txs_batch
  submitted_batch ts signatures s s' hashes h =
      let (sent, _) = request-eq-ok c (c.provider.submit_txs_batch ts signatures) h in sent

  -- The transfer carries the wallet's zkSync signature of itself, and comes with the Ethereum
  -- signature of what it was before.
  abbrev pub IsSigned : Transfer → TxEthSignature → Type 0
  IsSigned t eth =
      ((zk : TxSignature) × (t.signature ≡ some zk)
        × (sign_tx c.zk_signer (tx (Types.transfer t)) ≡ ok zk))
      × (c.eth_signer.sign_tx (tx (Types.transfer (record t { signature = none }))) ≡ ok eth)

  -- The transfer that is made of these values, before it is signed by the zkSync key.
  abbrev pub draft : Text → ℤ → Token → ℤ → ℤ → ℤ → ℤ → Option ℤ → Transfer
  draft to amount token fee nonce valid_from valid_until id = record {
    account_id = id;
    from_address = address c;
    to_address = lower to;
    token = plain token;
    amount = amount;
    fee = fee;
    nonce = nonce;
    valid_from = valid_from;
    valid_until = valid_until;
    signature = none;
  }

  -- Every step of a transfer that returns a hash.
  pub transfer_steps :
      (to : Text) (amount : Decimal) (name : TokenLike) (fee : Option Decimal)
      (valid_from valid_until : ℤ) (s s' : Env c) (hash : Json)
      → transfer c to amount name fee valid_from valid_until s ≡ (ok hash, s')
      → (t : Transfer) × (eth : TxEthSignature) × (zk : TxSignature) × (token : Token) × (nonce
          units : ℤ)
        × (id : Option ℤ) × (s1 s2 s3 s4 : Env c) × (c.provider.get_account_nonce (address c) s.1
            ≡ (ok nonce, s1.1))
        × (s.0 ≡ s1.0)
        × (resolve_token c name s1 ≡ (ok token, s2))
        × IsFee c fee FeeTxType.transfer to token units s2 s3
        × (get_account_id c s3 ≡ (ok id, s4))
        × (c.provider.submit_tx (Types.transfer t) (one (some eth)) false s4.1 ≡ (ok hash, s'.1))
        × (t
            ≡ record (draft to
                (from_decimal (plain token) amount)
                token
                units
                nonce
                valid_from
                valid_until
                id) { signature = some zk })
        × (sign_tx c.zk_signer (tx (Types.transfer t)) ≡ ok zk)
        × (c.eth_signer.sign_tx (tx (Types.transfer (record t { signature = none }))) ≡ ok eth)
  unfolding transfer
  transfer_steps to amount name fee valid_from valid_until s s' hash h =
      after _ _ h (λ nonce s1 asked h. after _ _ h (λ token s2 resolved h.
        after _ _ h (λ units s3 priced h. after _ _ h (λ built s4 signed h.
          let (id, zk, known, same, by_zk, by_eth) =
            build_transfer_signed c to (from_decimal (plain token) amount) (plain token) units nonce
              valid_from valid_until s3 s4 built.0 built.1 signed in
          let (numbered, unmoved) =
            request-eq-ok c (c.provider.get_account_nonce (address c)) asked in
          let sent = submitted (Types.transfer built.0) (one (some built.1)) false s4 s' hash h in
          (
            built.0,
            built.1,
            zk,
            token,
            nonce,
            units,
            id,
            s1,
            s2,
            s3,
            s4,
            numbered,
            unmoved,
            resolved,
            fee_or_asked-IsFee c fee FeeTxType.transfer to token priced,
            known,
            sent,
            same,
            by_zk,
            by_eth,
          )))))

  -- Where `transfer` returns a hash, the server gave it in answer to a transfer from the wallet's
  -- address to the recipient in lower case, signed by both keys, of the given amount in the lowest
  -- unit of the token that `resolve_token` returned for the name, with the nonce that the server named
  -- first, the fee that was given or the total fee that the server named for a transfer, the id that
  -- `get_account_id` returned last, and the two times.
  pub transfer_submits :
      (to : Text) (amount : Decimal) (name : TokenLike) (fee : Option Decimal)
      (valid_from valid_until : ℤ) (s s' : Env c) (hash : Json)
      → transfer c to amount name fee valid_from valid_until s ≡ (ok hash, s')
      → (t : Transfer) × (eth : TxEthSignature) × (token : Token) × (nonce units : ℤ) × (id : Option
          ℤ)
        × (s1 s2 s3 s4 : Env c) × (c.provider.get_account_nonce (address c) s.1 ≡ (ok nonce, s1.1))
        × (s.0 ≡ s1.0)
        × (resolve_token c name s1 ≡ (ok token, s2))
        × IsFee c fee FeeTxType.transfer to token units s2 s3
        × (get_account_id c s3 ≡ (ok id, s4))
        × (c.provider.submit_tx (Types.transfer t) (one (some eth)) false s4.1 ≡ (ok hash, s'.1))
        × (t.account_id ≡ id)
        × (t.from_address ≡ address c)
        × (t.to_address ≡ lower to)
        × (t.token ≡ plain token)
        × (t.amount ≡ from_decimal (plain token) amount)
        × (t.fee ≡ units)
        × (t.nonce ≡ nonce)
        × (t.valid_from ≡ valid_from)
        × (t.valid_until ≡ valid_until)
        × IsSigned t eth
  transfer_submits to amount name fee valid_from valid_until s s' hash h =
      let (
        t, eth, zk, token, nonce, units, id, s1, s2, s3, s4, numbered, unmoved, resolved, priced,
        known, sent, same, by_zk, by_eth,
      ) =
        transfer_steps to amount name fee valid_from valid_until s s' hash h in
      (
        t,
        eth,
        token,
        nonce,
        units,
        id,
        s1,
        s2,
        s3,
        s4,
        numbered,
        unmoved,
        resolved,
        priced,
        known,
        sent,
        ap (λ t. t.account_id) same,
        ap (λ t. t.from_address) same,
        ap (λ t. t.to_address) same,
        ap (λ t. t.token) same,
        ap (λ t. t.amount) same,
        ap (λ t. t.fee) same,
        ap (λ t. t.nonce) same,
        ap (λ t. t.valid_from) same,
        ap (λ t. t.valid_until) same,
        ((zk, ap (λ t. t.signature) same, by_zk), by_eth),
      )

  -- The transfer from the wallet's address with these fields and the wallet's zkSync signature of
  -- itself, and the Ethereum signature of what it was before.
  abbrev pub IsSignedTransfer :
      Text → AnyToken → ℤ → ℤ → ℤ → ℤ → ℤ → Transfer → TxEthSignature → Type 0
  IsSignedTransfer to token amount fee nonce valid_from valid_until t eth =
      (id : Option ℤ) × (zk : TxSignature) × (t ≡ record {
        account_id = id;
        from_address = address c;
        to_address = to;
        token = token;
        amount = amount;
        fee = fee;
        nonce = nonce;
        valid_from = valid_from;
        valid_until = valid_until;
        signature = some zk;
      })
      × (sign_tx c.zk_signer (tx (Types.transfer t)) ≡ ok zk)
      × (c.eth_signer.sign_tx (tx (Types.transfer (record t { signature = none }))) ≡ ok eth)

  -- Where `transfer_nft` returns hashes, the server gave them in answer to a batch of two transfers
  -- of the wallet, each signed by both keys: one of the NFT to the recipient in lower case, with no
  -- fee and the nonce that the server named first, and behind it, with the next nonce, one of nothing
  -- to the wallet itself, in the token that `resolve_token` returned for the fee's token. Its fee is
  -- the one that was given, or the one that the server names for such a batch.
  pub transfer_nft_submits :
      (to : Text) (item : Nft) (fee_token : TokenLike) (fee : Option Decimal)
      (valid_from valid_until : ℤ) (s s' : Env c) (hashes : Json)
      → transfer_nft c to item fee_token fee valid_from valid_until s ≡ (ok hashes, s')
      → (first second : Transfer) × (eth1 eth2 : TxEthSignature) × (token : Token) × (nonce
          units : ℤ)
        × (s1 s2 s3 : Env c) × (world : c.provider.World) × (c.provider.get_account_nonce
              (address c)
              s.1
            ≡ (ok nonce, s1.1))
        × (s.0 ≡ s1.0)
        × (resolve_token c fee_token s1 ≡ (ok token, s2))
        × (IsBatchFee c fee to token units s2 s3)
        × (c.provider.submit_txs_batch
              (record { tx = Types.transfer first; signature = eth1 }
                ∷ record { tx = Types.transfer second; signature = eth2 }
                ∷ [])
              none
              world
            ≡ (ok hashes, s'.1))
        × IsSignedTransfer
            (lower to)
            (nft item)
            (pos 1)
            (pos 0)
            nonce
            valid_from
            valid_until
            first
            eth1
        × IsSignedTransfer
            (lower (address c))
            (plain token)
            (pos 0)
            units
            (nonce +ℤ pos 1)
            valid_from
            valid_until
            second
            eth2
  unfolding transfer_nft
  transfer_nft_submits to item fee_token fee valid_from valid_until s s' hashes h =
      after _ _ h (λ nonce s1 asked h. after _ _ h (λ token s2 resolved h.
        after _ _ h (λ units s3 priced h. after _ _ h (λ nft_tx s4 signed1 h.
          after _ _ h (λ fee_tx s5 signed2 h.
            let (id1, zk1, _, same1, by_zk1, by_eth1) =
              build_transfer_signed c to (pos 1) (nft item) (pos 0) nonce valid_from valid_until s3
                s4 nft_tx.0 nft_tx.1 signed1 in
            let (id2, zk2, _, same2, by_zk2, by_eth2) =
              build_transfer_signed c (address c) (pos 0) (plain token) units (nonce +ℤ pos 1)
                valid_from valid_until s4 s5 fee_tx.0 fee_tx.1 signed2 in
            let (numbered, unmoved) =
              request-eq-ok c (c.provider.get_account_nonce (address c)) asked in
            let sent = submitted_batch _ none s5 s' hashes h in
            (
              nft_tx.0,
              fee_tx.0,
              nft_tx.1,
              fee_tx.1,
              token,
              nonce,
              units,
              s1,
              s2,
              s3,
              s5.1,
              numbered,
              unmoved,
              resolved,
              batch_fee_or_asked-IsBatchFee c fee to token priced,
              sent,
              (id1, zk1, same1, by_zk1, by_eth1),
              (id2, zk2, same2, by_zk2, by_eth2),
            ))))))
