-- ===== src/Wallet/Keys.antt =====
-- What `set_signing_key` submits, and what `is_signing_key_set` returns.
use zksync_python.Prelude.{
  Json, ℤ, ◌≡◌, refl, sym, ap, ◌∙◌, false, Option, none, some, ok, Bool, ◌⊎◌, inl, inr,
}
use zksync_python.Python.Text.{Text, eqb_text}
use zksync_python.Python.Decimal.{Decimal}
use zksync_python.Types.{
  auth_ecdsa, auth_create2, auth_dict, Token, TxEthSignature, TxSignature, EthAuthData,
  ChangePubKey,
}
use zksync_python.Types
use zksync_python.Tokens.{TokenLike}
use zksync_python.Provider.{one, State, AccountState}
use zksync_python.Signers.{pubkey_hash_str}
use zksync_python.Wallet.{
  get_account_id, Context, Env, address, resolve_token, send_signed_transaction, get_account_state,
  is_signing_key_set, key_matches,
}
use zksync_python.Wallet.Send.{set_signing_key, auth_fee_type}
use zksync_python.Wallet.Runs.{after, lift-eq-ok, pure-eq-ok, request-eq-ok}
use zksync_python.Wallet.Steps.{IsNonce, given_or_asked_nonce-IsNonce, IsFee, fee_or_asked-IsFee}
use zksync_python.Wallet.Authorising.{IsAuthorised, build_change_pub_key_signed}

module _ (c : Context) where
  -- Where `set_signing_key` returns a hash, the server gave it in answer to a change of key, with the
  -- nonce that was given or that the server named, the times, the token that `resolve_token` returned
  -- for the name, the fee that was given or the total fee that the server named for this kind of
  -- authorisation, and the account id that `get_account_id` returned last: for the wallet's account,
  -- to the hash of its zkSync signer's public key, signed by that signer as it was submitted. The
  -- Ethereum signature that came with it is that of the hash, the nonce and the id behind one another
  -- and of the authorisation's own bytes; the JSON of the change has the authorisation that was asked
  -- for, and an ECDSA one holds that signature.
  pub set_signing_key_submits :
      (fee_token : TokenLike) (auth : Option EthAuthData) (fee : Option Decimal) (nonce : Option ℤ)
      (valid_from valid_until : ℤ) (s s' : Env c) (hash : Json)
      → set_signing_key c fee_token auth fee nonce valid_from valid_until s ≡ (ok hash, s')
      → (t : ChangePubKey) × (eth : TxEthSignature) × (token : Token) × (n units : ℤ) × (id : Option
          ℤ)
        × (s1 s2 s3 s4 : Env c) × IsNonce c nonce n s s1
        × (resolve_token c fee_token s1 ≡ (ok token, s2))
        × IsFee c fee (auth_fee_type auth) (address c) token units s2 s3
        × (get_account_id c s3 ≡ (ok id, s4))
        × (c.provider.submit_tx (Types.change_pub_key t) (one (some eth)) false s4.1
            ≡ (ok hash, s'.1))
        × IsAuthorised c auth t eth
        × (t.token ≡ token)
        × (t.fee ≡ units)
        × (t.nonce ≡ n)
        × (t.valid_from ≡ valid_from)
        × (t.valid_until ≡ valid_until)
        × (t.account_id ≡ id)
  unfolding set_signing_key send_signed_transaction
  set_signing_key_submits fee_token auth fee nonce valid_from valid_until s s' hash h =
      after _ _ h (λ n s1 given h. after _ _ h (λ token s2 resolved h.
        after _ _ h (λ units s3 priced h. after _ _ h (λ built s4 signed h.
          let (id, known, is_built) =
            build_change_pub_key_signed c token auth units n valid_from valid_until s3 s4 built
              signed in
          let (authorised, token_same, fee_same, nonce_same, from_same, until_same, id_same) =
            is_built in
          let (sent, _) =
            request-eq-ok c
              (c.provider.submit_tx (Types.change_pub_key built.0) (one (some built.1)) false) h in
          (
            built.0,
            built.1,
            token,
            n,
            units,
            id,
            s1,
            s2,
            s3,
            s4,
            given_or_asked_nonce-IsNonce c nonce given,
            resolved,
            fee_or_asked-IsFee c fee (auth_fee_type auth) (address c) token priced,
            known,
            sent,
            authorised,
            token_same,
            fee_same,
            nonce_same,
            from_same,
            until_same,
            id_same,
          )))))

  -- Where `is_signing_key_set` returns an answer, the server told the state of the wallet's account;
  -- the answer is no if the account has no id, and else whether the hash of the wallet's public key
  -- is that of the account's committed state, which there is then.
  pub is_signing_key_set_answers :
      (s s' : Env c) (b : Bool)
      → is_signing_key_set c s ≡ (ok b, s')
      → (account : AccountState) × (hash : Text) × (c.provider.get_state (address c) s.1
          ≡ (ok account, s'.1))
        × (pubkey_hash_str c.zk_signer ≡ ok hash)
        × (((account.id ≡ none) × (b ≡ false))
            ⊎ ((id : ℤ) × (state : State) × (account.id ≡ some id)
                × (account.committed ≡ some state)
                × (b ≡ eqb_text state.pub_key_hash hash)))
  unfolding is_signing_key_set get_account_state
  is_signing_key_set_answers s s' b h = after _ _ h (λ account s1 asked h.
      after _ _ h (λ hash s2 keyed h.
        let (got, _) = request-eq-ok c (c.provider.get_state (address c)) asked in
        let (key, s1_same) = lift-eq-ok c _ keyed in
        let (answer, s2_same) = matches account.id account.committed hash s2 h in
        (account, hash, rw (s1_same ∙ s2_same) at got, key, answer)))
    where
      matches :
          (id : Option ℤ) (committed : Option State) (hash : Text) (s2 : Env c)
          → key_matches c id committed hash s2 ≡ (ok b, s')
          → (((id ≡ none) × (b ≡ false))
              ⊎ ((n : ℤ) × (state : State) × (id ≡ some n)
                  × (committed ≡ some state)
                  × (b ≡ eqb_text state.pub_key_hash hash)))
            × (s2 ≡ s')
      matches none committed hash s2 h =
          let (same, unchanged) = pure-eq-ok c false h in (inl (refl, sym same), unchanged)
      matches (some n) none hash s2 h = after _ _ h (λ state s3 present h. cc)
      matches (some n) (some state) hash s2 h = after _ _ h (λ found s3 present h.
          let (is_state, unchanged) = pure-eq-ok c state present in
          let (same, unchanged') = pure-eq-ok c _ h in
          (
            inr (
              n,
              state,
              refl,
              refl,
              sym same ∙ ap (λ st. eqb_text st.pub_key_hash hash) (sym is_state),
            ),
            unchanged ∙ unchanged',
          ))
