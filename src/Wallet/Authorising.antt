-- ===== src/Wallet/Authorising.antt =====
-- The change of key that `build_change_pub_key` makes, and how it is authorised.
use zksync_python.Serializers.Fields.{serialize_address, serialize_nonce, serialize_account_id}
use zksync_python.Dicts.{dict, change_pub_key_dict}
use zksync_python.Json.{item, lookup}
use zksync_python.Encoding.Layout.{join_cons}
use zksync_python.Prelude.{
  str, [], ◌∷◌, ◌++◌, ok-injective, >>=-eq-ok, append_assoc, append-nil, ◌>>=◌ as bind, Json, ℤ,
  subst, ◌≡◌, refl, sym, ap, ◌∙◌, Option, none, some, ok,
}
use zksync_python.Python.Text.{text, Text}
use zksync_python.Python.Hex.{bytes_hex, Bytes}
use zksync_python.Types.{
  auth_ecdsa, auth_create2, auth_dict, Token, TxEthSignature, TxSignature, EthAuthData,
  ChangePubKey,
}
use zksync_python.Types
use zksync_python.Encoding.{
  join, account_id_field, encode_auth, encode_message, encoded_message, type_field, tx_type,
  get_eth_tx_bytes,
}
use zksync_python.Signers.{tx, sign_tx, pubkey_hash_str}
use zksync_python.Wallet.{get_account_id, Context, Env, address}
use zksync_python.Wallet.Build.{nonce_or_asked, build_change_pub_key, get_auth_data}
use zksync_python.Wallet.Runs.{after, lift-eq-ok, pure-eq-ok}

module _ (c : Context) where
  -- The account, the key and the nonce of the change, 20 and twice 4 bytes, and then what the
  -- authorisation adds: nothing, the hash of the batch, or the salt of CREATE2.
  abbrev Adds : Option EthAuthData → Bytes → Type 0
  Adds none extra = extra ≡ []
  Adds (some (auth_ecdsa a)) extra = extra ≡ a.batch_hash
  Adds (some (auth_create2 a)) extra = extra ≡ a.salt_arg
  Adds (some (auth_dict d)) extra = ⊥

  abbrev IsChangeMessage : Option EthAuthData → Text → ℤ → Option ℤ → Bytes → Type 0
  IsChangeMessage auth hash nonce id message =
      (number : ℤ) × (hash_bytes nonce_bytes id_bytes extra : Bytes) × (id ≡ some number)
      × (serialize_address hash ≡ ok hash_bytes)
      × (serialize_nonce nonce ≡ ok nonce_bytes)
      × (serialize_account_id number ≡ ok id_bytes)
      × Adds auth extra
      × (message ≡ hash_bytes ++ (nonce_bytes ++ (id_bytes ++ extra)))

  -- What the JSON of the change holds as its authorisation: for an ECDSA one the Ethereum signature
  -- and the hash of the batch, for a CREATE2 one its salt and its code's hash, and else that the
  -- change is authorised on chain.
  abbrev Authorises : Option EthAuthData → Text → Json → Type 0
  Authorises none signature json = item json (text "type") ≡ ok (str (text "Onchain"))
  Authorises (some (auth_ecdsa a)) signature json =
      (item json (text "type") ≡ ok (str (text "ECDSA")))
      × (item json (text "ethSignature") ≡ ok (str signature))
      × (item json (text "batchHash") ≡ ok (str (text "0x" ++ bytes_hex a.batch_hash)))
  Authorises (some (auth_create2 a)) signature json =
      (item json (text "type") ≡ ok (str (text "CREATE2")))
      × (item json (text "saltArg") ≡ ok (str (text "0x" ++ bytes_hex a.salt_arg)))
      × (item json (text "codeHash") ≡ ok (str (text "0x" ++ bytes_hex a.code_hash)))
  Authorises (some (auth_dict d)) signature json = ⊥

  -- The key is that of the wallet's zkSync signer; the Ethereum signer signed the bytes of the change;
  -- the JSON of the change has the authorisation that was asked for, an ECDSA one with that
  -- signature; and the zkSync signer signed the change as it is.
  pub record IsAuthorised (auth : Option EthAuthData) (t : ChangePubKey) (eth : TxEthSignature)
      : Type 0 where
    pub message : Bytes
    pub zk : TxSignature
    pub json : Json
    pub auth_json : Json
    pub own_account : t.account ≡ address c
    pub own_key : pubkey_hash_str c.zk_signer ≡ ok t.new_pk_hash
    pub has_message : IsChangeMessage auth t.new_pk_hash t.nonce t.account_id message
    pub eth_signed : eth ≡ c.eth_signer.sign message
    pub has_json : dict (Types.change_pub_key t) ≡ ok json
    pub has_auth : item json (text "ethAuthData") ≡ ok auth_json
    pub authorised : Authorises auth eth.signature auth_json
    pub has_signature : t.signature ≡ some zk
    pub zk_signed : sign_tx c.zk_signer (tx (Types.change_pub_key t)) ≡ ok zk

  adds : (auth : Option EthAuthData) (extra : Bytes) → encode_auth auth ≡ ok extra → Adds auth extra
  unfolding encode_message
  adds none extra h = sym (ok-injective h)
  adds (some (auth_ecdsa a)) extra h = sym (ok-injective h)
  adds (some (auth_create2 a)) extra h = sym (ok-injective h)
  adds (some (auth_dict d)) extra h = cc

  id_of :
      (id : Option ℤ) (bytes : Bytes)
      → account_id_field id ≡ ok bytes
      → (number : ℤ) × (id ≡ some number) × (serialize_account_id number ≡ ok bytes)
  unfolding account_id_field
  id_of none bytes h = cc
  id_of (some number) bytes h = (number, refl, h)

  message_parts :
      (u : ChangePubKey) (message : Bytes)
      → get_eth_tx_bytes u ≡ ok message
      → IsChangeMessage u.eth_auth_data u.new_pk_hash u.nonce u.account_id message
  unfolding get_eth_tx_bytes
  message_parts u message h =
      let (start, joined, h) =
        >>=-eq-ok
          (join (
            serialize_address u.new_pk_hash
            ∷ serialize_nonce u.nonce
            ∷ account_id_field u.account_id
            ∷ []))
          (λ start. bind (encode_auth u.eth_auth_data) (λ auth. ok (start ++ auth))) h in
      let (extra, encoded, h) =
        >>=-eq-ok (encode_auth u.eth_auth_data) (λ auth. ok (start ++ auth)) h in
      let (hash, rest, by_hash, joined, start_same) =
        join_cons (serialize_address u.new_pk_hash)
          (serialize_nonce u.nonce ∷ account_id_field u.account_id ∷ []) start joined in
      let (nonce, rest', by_nonce, joined, rest_same) =
        join_cons (serialize_nonce u.nonce) (account_id_field u.account_id ∷ []) rest joined in
      let (id, nil, by_id, joined, rest'_same) =
        join_cons (account_id_field u.account_id) [] rest' joined in
      let (number, is_number, by_number) = id_of u.account_id id by_id in
      let none_left : nil ≡ [] = sym (ok-injective joined) in
      let spelt : start ≡ hash ++ (nonce ++ (id ++ [])) =
        start_same
        ∙ ap (λ r. hash ++ r)
            (rest_same ∙ ap (λ r. nonce ++ r) (rest'_same ∙ ap (λ r. id ++ r) none_left)) in
      (
        number,
        hash,
        nonce,
        id,
        extra,
        is_number,
        by_hash,
        by_nonce,
        by_number,
        adds u.eth_auth_data extra encoded,
        sym (ok-injective h) ∙ ap (λ r. r ++ extra) spelt ∙ parts_behind hash nonce id extra,
      )
    where
      parts_behind :
          (hash nonce id extra : Bytes)
          → (hash ++ (nonce ++ (id ++ []))) ++ extra ≡ hash ++ (nonce ++ (id ++ extra))
      parts_behind hash nonce id extra = simp (append_assoc, append-nil)

  -- A change that `build_change_pub_key` has authorised and signed has a JSON with the authorisation.
  auth_of :
      (auth : Option EthAuthData) (u : ChangePubKey) (zk : TxSignature) (signature : Text)
      (extra : Bytes)
      → Adds auth extra
      → (json auth_json : Json) × (dict (
            Types.change_pub_key
              (record u { eth_auth_data = get_auth_data auth signature; signature = some zk }))
          ≡ ok json)
        × (item json (text "ethAuthData") ≡ ok auth_json)
        × Authorises auth signature auth_json
  unfolding dict change_pub_key_dict get_auth_data item lookup
  auth_of none u zk signature extra h = (_, _, refl, refl, refl)
  auth_of (some (auth_ecdsa a)) u zk signature extra h = (_, _, refl, refl, (refl, refl, refl))
  auth_of (some (auth_create2 a)) u zk signature extra h = (_, _, refl, refl, (refl, refl, refl))
  auth_of (some (auth_dict d)) u zk signature extra h = absurd h

  -- The signature is no part of the message.
  change_pub_key_message :
      (t : ChangePubKey) (signature : Option TxSignature)
      → sign_tx c.zk_signer (tx (Types.change_pub_key (record t { signature = signature })))
        ≡ sign_tx c.zk_signer (tx (Types.change_pub_key t))
  unfolding sign_tx encoded_message type_field tx_type
  change_pub_key_message t signature = refl

  abbrev unsigned_change :
      Token → Option EthAuthData → ℤ → ℤ → ℤ → ℤ → Option ℤ → Text → ChangePubKey
  unsigned_change token auth fee nonce valid_from valid_until id hash = record {
    account_id = id;
    account = address c;
    new_pk_hash = hash;
    token = token;
    fee = fee;
    nonce = nonce;
    valid_from = valid_from;
    valid_until = valid_until;
    eth_auth_data = auth;
    eth_signature = none;
    signature = none;
  }

  abbrev IsBuilt :
      Token → Option EthAuthData → ℤ → ℤ → ℤ → ℤ → Option ℤ → ChangePubKey × TxEthSignature → Type 0
  IsBuilt token auth fee nonce valid_from valid_until id built =
      IsAuthorised auth built.0 built.1
      × (built.0.token ≡ token)
      × (built.0.fee ≡ fee)
      × (built.0.nonce ≡ nonce)
      × (built.0.valid_from ≡ valid_from)
      × (built.0.valid_until ≡ valid_until)
      × (built.0.account_id ≡ id)

  pub build_change_pub_key_signed :
      (token : Token) (auth : Option EthAuthData) (fee nonce valid_from valid_until : ℤ)
      (s s' : Env c) (built : ChangePubKey × TxEthSignature)
      → build_change_pub_key c token auth fee (some nonce) valid_from valid_until s ≡ (ok built, s')
      → (id : Option ℤ) × (get_account_id c s ≡ (ok id, s'))
        × IsBuilt token auth fee nonce valid_from valid_until id built
  unfolding build_change_pub_key nonce_or_asked
  build_change_pub_key_signed token auth fee nonce valid_from valid_until s s' built h =
      after _ _ h (λ n s1 given h. after _ _ h (λ id s2 found h. after _ _ h (λ hash s3 keyed h.
        after _ _ h (λ message s4 written h. after _ _ h (λ zk s5 by_zk h.
          let (n_same, s1_same) = pure-eq-ok c nonce given in
          let (key, s3_same) = lift-eq-ok c _ keyed in
          let (has_message, s4_same) = lift-eq-ok c _ written in
          let (zk_ok, s5_same) = lift-eq-ok c _ by_zk in
          let (same, s'_same) = pure-eq-ok c _ h in
          let unsigned = unsigned_change token auth fee n valid_from valid_until id hash in
          let eth = c.eth_signer.sign message in
          let authorised : ChangePubKey = record unsigned {
            eth_auth_data = get_auth_data auth eth.signature;
          } in
          let parts = message_parts unsigned message has_message in
          let (_, _, _, _, extra, _, _, _, _, added, _) = parts in
          let (json, auth_json, has_json, has_auth, authorises) =
            auth_of auth unsigned zk eth.signature extra added in
          let made : IsAuthorised auth (record authorised { signature = some zk }) eth = record {
            message = message;
            zk = zk;
            json = json;
            auth_json = auth_json;
            own_account = refl;
            own_key = key;
            has_message = parts;
            eth_signed = refl;
            has_json = has_json;
            has_auth = has_auth;
            authorised = authorises;
            has_signature = refl;
            zk_signed = change_pub_key_message authorised (some zk) ∙ zk_ok;
          } in
          let is_built : IsBuilt token auth fee nonce valid_from valid_until id
              (record authorised { signature = some zk }, eth) =
            (made, refl, refl, sym n_same, refl, refl, refl) in
          (
            id,
            ap (get_account_id c) s1_same
                ∙ found
                ∙ ap (λ (e : Env c). (ok id, e)) (s3_same ∙ s4_same ∙ s5_same ∙ s'_same),
            subst (IsBuilt token auth fee nonce valid_from valid_until id) same is_built,
          ))))))
