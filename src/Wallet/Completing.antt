-- ===== src/Wallet/Completing.antt =====
-- A transfer that nothing prevents is submitted.
use zksync_python.Prelude.{
  Json, ℤ, ◌<◌, ◌≡◌, refl, ap, ◌∙◌, false, length, ==_iff, Option, none, some, ok,
}
use zksync_python.Python.Text.{Text, lower}
use zksync_python.Python.Decimal.{Decimal}
use zksync_python.Library.{sign}
use zksync_python.Types.{
  Token, plain, Transfer, TxEthSignature, TxSignature, tx_signature, EncodedTx,
}
use zksync_python.Types
use zksync_python.Encoding.Total.{IsSendable, encoded_message-IsOk}
use zksync_python.Messages.Total.{human_readable_message-ok}
use zksync_python.Tokens.{TokenLike, find, from_decimal}
use zksync_python.Provider.{Provider, one}
use zksync_python.Signers.{
  Account, ethereum_signer_web3, ZkSyncSigner, tx, sign_tx, web3_sign_tx, web3_sign, encode,
}
use zksync_python.Wallet.{
  Context, WalletState, address, get_account_id, resolve_token, send_signed_transaction,
}
use zksync_python.Wallet.Build.{build_transfer, nonce_or_asked}
use zksync_python.Wallet.Send.{transfer, fee_or_asked}
use zksync_python.Wallet.Runs.{bind-ok, request_ran}

-- The native library signs what has a message, with a key of the right length.
sign_tx-ok :
    (signer : ZkSyncSigner) (t : Transfer)
    → length signer.private_key ≡ 32
    → IsSendable t
    → (zk : TxSignature) × (sign_tx signer (tx (Types.transfer t)) ≡ ok zk)
unfolding sign_tx sign
sign_tx-ok signer t key sendable =
    let (bytes, encoded) = encoded_message-IsOk signer.environment_library t sendable in
    rw (encoded, (==_iff (length signer.private_key) 32).1 key) (_, refl)

web3_sign_tx-ok :
    (account : Account) (t : Transfer)
    → 0 < (Types.base t.token).decimals
    → (eth : TxEthSignature) × (web3_sign_tx account (tx (Types.transfer t)) ≡ ok eth)
unfolding web3_sign_tx
web3_sign_tx-ok account t h =
    let (message, written) = human_readable_message-ok t h in
    (web3_sign account (encode message), rw written refl)

module _ (provider : Provider) (account : Account) (signer : ZkSyncSigner) where
  -- A wallet with an `EthereumSignerWeb3`.
  abbrev pub web3_wallet : Context
  web3_wallet = record {
    provider = provider;
    eth_signer = ethereum_signer_web3 account;
    zk_signer = signer;
  }

  abbrev pub unsigned : Text → ℤ → Token → ℤ → ℤ → ℤ → ℤ → Option ℤ → Transfer
  unsigned to amount token fee nonce valid_from valid_until id = record {
    account_id = id;
    from_address = account.address;
    to_address = lower to;
    token = plain token;
    amount = amount;
    fee = fee;
    nonce = nonce;
    valid_from = valid_from;
    valid_until = valid_until;
    signature = none;
  }

  get_account_id-ok :
      (id : ℤ) (w : WalletState) (world : provider.World)
      → w.account_id ≡ some id
      → get_account_id web3_wallet (w, world) ≡ (ok (some id), (w, world))
  unfolding get_account_id
  get_account_id-ok id w world h = bind-ok _ _ refl ∙ rw h refl

  resolve_token-ok :
      (name : TokenLike) (token : Token) (w : WalletState) (world : provider.World)
      → find w.tokens name ≡ some token
      → resolve_token web3_wallet name (w, world) ≡ (ok token, (w, world))
  unfolding resolve_token
  resolve_token-ok name token w world h = bind-ok _ _ refl ∙ rw h refl

  build_transfer-ok :
      (to : Text) (amount : ℤ) (token : Token) (fee nonce valid_from valid_until id : ℤ)
      (w : WalletState) (world : provider.World)
      → w.account_id ≡ some id
      → 0 < token.decimals
      → length signer.private_key ≡ 32
      → IsSendable (unsigned to amount token fee nonce valid_from valid_until (some id))
      → let t = unsigned to amount token fee nonce valid_from valid_until (some id) in
        (zk : TxSignature) × (eth : TxEthSignature) × (sign_tx signer (tx (Types.transfer t))
          ≡ ok zk)
        × (web3_sign_tx account (tx (Types.transfer t)) ≡ ok eth)
        × (build_transfer web3_wallet to amount
              (plain token)
              fee
              (some nonce)
              valid_from
              valid_until
              (w, world)
            ≡ (ok (record t { signature = some zk }, eth), (w, world)))
  unfolding build_transfer nonce_or_asked address
  build_transfer-ok to amount token fee nonce valid_from valid_until id w world known decimals key
        sendable =
      let t = unsigned to amount token fee nonce valid_from valid_until (some id) in
      let (eth, by_eth) = web3_sign_tx-ok account t decimals in
      let (zk, by_zk) = sign_tx-ok signer t key sendable in
      (
        zk,
        eth,
        by_zk,
        by_eth,
        bind-ok _ _ refl
            ∙ bind-ok _ _ (get_account_id-ok id w world known)
            ∙ bind-ok _ _ (ap (λ r. (r, (w, world))) by_eth)
            ∙ bind-ok _ _ (ap (λ r. (r, (w, world))) by_zk),
      )

  -- The transfer of these values, in the lowest unit of the token.
  abbrev pub made_of : Text → Decimal → Token → Decimal → ℤ → ℤ → ℤ → ℤ → Transfer
  made_of to amount token fee nonce valid_from valid_until id =
      unsigned to (from_decimal (plain token) amount) token (from_decimal (plain token) fee) nonce
        valid_from valid_until (some id)

  -- A transfer with a given fee is submitted and its hash returned, with two calls of the server and
  -- the wallet as it was, where: the wallet knows its account id and the token, which has decimals,
  -- the private key has 32 bytes, the server tells the nonce and then accepts the transfer of these
  -- values with the signatures that the two keys make for it, the addresses and numbers of the
  -- transfer are in their ranges and its amount and fee are numbers of the packed formats. What is
  -- submitted is that transfer with these signatures.
  pub transfer_completes :
      (to : Text) (amount : Decimal) (name : TokenLike) (fee : Decimal) (valid_from valid_until : ℤ)
      (token : Token) (id nonce : ℤ) (w : WalletState) (world asked : provider.World)
      → w.account_id ≡ some id
      → find w.tokens name ≡ some token
      → 0 < token.decimals
      → length signer.private_key ≡ 32
      → provider.get_account_nonce account.address world ≡ (ok nonce, asked)
      → ((zk : TxSignature) (eth : TxEthSignature)
          → sign_tx signer
              (tx (Types.transfer (made_of to amount token fee nonce valid_from valid_until id)))
            ≡ ok zk
          → web3_sign_tx account
              (tx (Types.transfer (made_of to amount token fee nonce valid_from valid_until id)))
            ≡ ok eth
          → (hash : Json) × (sent : provider.World) × (provider.submit_tx
                (Types.transfer
                  (record (made_of to amount token fee nonce valid_from valid_until id) {
                    signature = some zk;
                  }))
                (one (some eth))
                false
                asked
              ≡ (ok hash, sent)))
      → IsSendable (made_of to amount token fee nonce valid_from valid_until id)
      → (hash : Json) × (sent : provider.World) × (zk : TxSignature) × (eth : TxEthSignature)
        × (sign_tx signer
              (tx (Types.transfer (made_of to amount token fee nonce valid_from valid_until id)))
            ≡ ok zk)
        × (web3_sign_tx account
              (tx (Types.transfer (made_of to amount token fee nonce valid_from valid_until id)))
            ≡ ok eth)
        × (transfer web3_wallet to amount name (some fee) valid_from valid_until (w, world)
            ≡ (ok hash, (w, sent)))
        × (provider.submit_tx
              (Types.transfer
                (record (made_of to amount token fee nonce valid_from valid_until id) {
                  signature = some zk;
                }))
              (one (some eth))
              false
              asked
            ≡ (ok hash, sent))
  unfolding transfer fee_or_asked address send_signed_transaction
  transfer_completes to amount name fee valid_from valid_until token id nonce w world asked known
        found decimals key told accepts sendable =
      let (zk, eth, by_zk, by_eth, built) =
        build_transfer-ok to (from_decimal (plain token) amount) token
          (from_decimal (plain token) fee) nonce valid_from valid_until id w asked known decimals
          key sendable in
      let (hash, sent, accepted) = accepts zk eth by_zk by_eth in
      (
        hash,
        sent,
        zk,
        eth,
        by_zk,
        by_eth,
        bind-ok _ _ (request_ran web3_wallet (provider.get_account_nonce account.address) w told)
            ∙ bind-ok _ _ (resolve_token-ok name token w asked found)
            ∙ bind-ok _ _ refl
            ∙ bind-ok _ _ built
            ∙ request_ran web3_wallet
                (provider.submit_tx
                  (Types.transfer
                    (record (made_of to amount token fee nonce valid_from valid_until id) {
                      signature = some zk;
                    }))
                  (one (some eth)) false)
                w accepted,
        accepted,
      )
