-- ===== src/Wallet/Posting.antt =====
-- The wallet on top of the provider `ZkSyncProviderV01`, and that on top of HTTP.
use zksync_python.Prelude.{
  ℤ, ◌≡◌, refl, sym, ap, ◌∙◌, false, [], ◌∷◌, Option, none, some, ok, ◌>>=◌ as bind, >>=-eq-ok,
  ok-injective, Json, bool, int, str, array,
}
use zksync_python.Python.Text.{Text, text, lower}
use zksync_python.Python.Hex.{Bytes}
use zksync_python.Python.Decimal.{Decimal}
use zksync_python.Library.{sign}
use zksync_python.Types.{
  Token, plain, Transfer, TxSignature, TxEthSignature, tx_signature, EncodedTx,
}
use zksync_python.Types
use zksync_python.Encoding.{encoded_message}
use zksync_python.Tokens.{TokenLike, from_decimal}
use zksync_python.Json.{item, lookup}
use zksync_python.Dicts.{
  int_or_null, dict, transfer_dict, transfer_object, signature_dict, eth_signature_dict,
}
use zksync_python.Dicts.Reader.{read_message}
use zksync_python.Dicts.Reading.{read_message-dict}
use zksync_python.Network.{Network}
use zksync_python.Transport.{HttpClient, HttpResponse, create_request, http_transport, http_request}
use zksync_python.Transport.Answers.{IsResult, http_request_answers}
use zksync_python.Provider.{one}
use zksync_python.Provider.V01.{Models, v01, v01_submit_tx, request_with}
use zksync_python.Signers.{EthereumSigner, ZkSyncSigner, tx, sign_tx}
use zksync_python.Wallet.{Context, Env, address, get_account_id, resolve_token}
use zksync_python.Wallet.Send.{transfer}
use zksync_python.Wallet.Sending.{draft, transfer_steps}
use zksync_python.Wallet.Steps.{IsFee}
use zksync_python.Provider.{FeeTxType}

-- A signature is made for the bytes of the message.
sign_tx-eq-ok :
    (signer : ZkSyncSigner) (t : EncodedTx) (zk : TxSignature)
    → sign_tx signer (tx t) ≡ ok zk
    → (bytes signature : Bytes) × (encoded_message signer.environment_library t ≡ ok bytes)
      × (sign signer.library signer.private_key bytes ≡ ok signature)
      × (zk ≡ tx_signature signer.public_key signature)
unfolding sign_tx
sign_tx-eq-ok signer t zk h =
    let (bytes, encoded, rest) =
      >>=-eq-ok (encoded_message signer.environment_library t)
        (λ bytes.
          bind (sign signer.library signer.private_key bytes)
            (λ s. ok (tx_signature signer.public_key s)))
        h in
    let (signature, signed, same) =
      >>=-eq-ok (sign signer.library signer.private_key bytes)
        (λ s. ok (tx_signature signer.public_key s)) rest in
    (bytes, signature, encoded, signed, sym (ok-injective same))

dict-transfer :
    (t : Transfer) (zk : TxSignature)
    → t.signature ≡ some zk
    → dict (Types.transfer t) ≡ ok (transfer_object t (signature_dict zk))
unfolding dict transfer_dict
dict-transfer t zk signed = rw signed refl

module _ (client : HttpClient) (network : Network) (m : Models) (eth_signer : EthereumSigner)
    (zk_signer : ZkSyncSigner) where
  -- A wallet as an application makes it.
  abbrev pub http_wallet : Context
  http_wallet = record {
    provider = v01 (http_transport client network) m;
    eth_signer = eth_signer;
    zk_signer = zk_signer;
  }

  posted :
      (t : Transfer) (eth : TxEthSignature) (zk : TxSignature) (hash : Json)
      (world world' : client.World)
      → t.signature ≡ some zk
      → v01_submit_tx
          (http_transport client network)
          m
          (Types.transfer t)
          (one (some eth))
          false
          world
        ≡ (ok hash, world')
      → http_request client network
          (text "tx_submit")
          (array (transfer_object t (signature_dict zk) ∷ eth_signature_dict eth ∷ bool false ∷ []))
          world
        ≡ (ok hash, world')
  unfolding v01_submit_tx
  posted t eth zk hash world world' signed h =
      ap
        (λ d.
          request_with (http_transport client network) m (text "tx_submit")
            (bind d (λ j. ok (array (j ∷ eth_signature_dict eth ∷ bool false ∷ [])))) world)
        (sym (dict-transfer t zk signed))
      ∙ h

  -- Where `transfer` returns a hash, the last thing that happened was one post to the network's URL:
  -- the request "tx_submit" with the JSON of a transfer and its Ethereum signature, whose answer holds
  -- the hash as its result. The JSON names the account id that `get_account_id` returned right before
  -- that, the wallet's address, the recipient in lower case, the id of the token that `resolve_token`
  -- returned for the name, the amount in the lowest unit of that token, the fee that was given or the
  -- total fee that the server named, the nonce that the server named first, and the two times. The
  -- Ethereum signature is that of the transfer of these values, and from the JSON alone a reader gets
  -- the very bytes that the native library signed with the wallet's key for the signature in it.
  pub transfer_posts :
      (to : Text) (amount : Decimal) (name : TokenLike) (fee : Option Decimal)
      (valid_from valid_until : ℤ) (s s' : Env http_wallet) (hash : Json)
      → transfer http_wallet to amount name fee valid_from valid_until s ≡ (ok hash, s')
      → (json : Json) × (eth : TxEthSignature) × (token : Token) × (nonce units : ℤ) × (id : Option
          ℤ)
        × (bytes signature : Bytes) × (s1 s2 s3 s4 : Env http_wallet) × (response : HttpResponse)
        × (http_wallet.provider.get_account_nonce eth_signer.address s.1 ≡ (ok nonce, s1.1))
        × (s.0 ≡ s1.0)
        × (resolve_token http_wallet name s1 ≡ (ok token, s2))
        × IsFee http_wallet fee FeeTxType.transfer to token units s2 s3
        × (get_account_id http_wallet s3 ≡ (ok id, s4))
        × (client.post network.zksync_url
              (create_request
                (text "tx_submit")
                (array (json ∷ eth_signature_dict eth ∷ bool false ∷ [])))
              s4.1
            ≡ (ok response, s'.1))
        × IsResult response hash
        × (item json (text "type") ≡ ok (str (text "Transfer")))
        × (item json (text "accountId") ≡ ok (int_or_null id))
        × (item json (text "from") ≡ ok (str eth_signer.address))
        × (item json (text "to") ≡ ok (str (lower to)))
        × (item json (text "token") ≡ ok (int token.id))
        × (item json (text "amount") ≡ ok (int (from_decimal (plain token) amount)))
        × (item json (text "fee") ≡ ok (int units))
        × (item json (text "nonce") ≡ ok (int nonce))
        × (item json (text "validFrom") ≡ ok (int valid_from))
        × (item json (text "validUntil") ≡ ok (int valid_until))
        × (eth_signer.sign_tx (
              tx (
                Types.transfer (
                  draft http_wallet to
                    (from_decimal (plain token) amount)
                    token
                    units
                    nonce
                    valid_from
                    valid_until
                    id)))
            ≡ ok eth)
        × (read_message zk_signer.environment_library json ≡ ok bytes)
        × (sign zk_signer.library zk_signer.private_key bytes ≡ ok signature)
        × (item json (text "signature")
            ≡ ok (signature_dict (tx_signature zk_signer.public_key signature)))
  unfolding item lookup address
  transfer_posts to amount name fee valid_from valid_until s s' hash h =
      let (
        t, eth, zk, token, nonce, units, id, s1, s2, s3, s4, numbered, unmoved, resolved, priced,
        known, sent, made_of, by_zk, by_eth,
      ) =
        transfer_steps http_wallet to amount name fee valid_from valid_until s s' hash h in
      let signed = ap (λ t. t.signature) made_of in
      let (bytes, signature, encoded, made, same) =
        sign_tx-eq-ok zk_signer (Types.transfer t) zk by_zk in
      let json = transfer_object t (signature_dict zk) in
      let (response, answered, result) =
        (http_request_answers client network (text "tx_submit")
            (array (json ∷ eth_signature_dict eth ∷ bool false ∷ [])) hash s4.1 s'.1).0
          (posted t eth zk hash s4.1 s'.1 signed sent) in
      (
        json,
        eth,
        token,
        nonce,
        units,
        id,
        bytes,
        signature,
        s1,
        s2,
        s3,
        s4,
        response,
        numbered,
        unmoved,
        resolved,
        priced,
        known,
        answered,
        result,
        refl,
        ap (λ (t : Transfer). ok (int_or_null t.account_id)) made_of,
        ap (λ (t : Transfer). ok (str t.from_address)) made_of,
        ap (λ (t : Transfer). ok (str t.to_address)) made_of,
        ap (λ (t : Transfer). ok (int (Types.base t.token).id)) made_of,
        ap (λ (t : Transfer). ok (int t.amount)) made_of,
        ap (λ (t : Transfer). ok (int t.fee)) made_of,
        ap (λ (t : Transfer). ok (int t.nonce)) made_of,
        ap (λ (t : Transfer). ok (int t.valid_from)) made_of,
        ap (λ (t : Transfer). ok (int t.valid_until)) made_of,
        ap
              (λ (t : Transfer).
                eth_signer.sign_tx (tx (Types.transfer (record t { signature = none }))))
              (sym made_of)
            ∙ by_eth,
        read_message-dict zk_signer.environment_library (Types.transfer t) json
              (dict-transfer t zk signed)
            ∙ encoded,
        made,
        ap (λ z. ok (signature_dict z)) same,
      )
