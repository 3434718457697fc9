-- ===== src/Wallet/Account.antt =====
-- What the lookups of a wallet remember.
use zksync_python.Prelude.{
  ℤ, ◌≡◌, refl, sym, ap, ◌∙◌, List, Option, none, some, ok, ok-injective, or_raise, token_not_found,
}
use zksync_python.Types.{Token}
use zksync_python.Tokens.{TokenLike, find}
use zksync_python.Wallet.{
  Context, Env, WalletState, ◌>>=◌, ◌>>◌, address, remember_id, cached_or_asked, get_account_id,
  found_or_asked, found_or_raise, resolve_token, request, modify,
}
use zksync_python.Wallet.Runs.{bind-eq-ok, bind-ok, request_ran}

module _ (c : Context) where
  remembered :
      (id : Option ℤ) (s s' : Env c) (found : ℤ)
      → remember_id c id s ≡ (ok (some found), s')
      → s'.0.account_id ≡ some found
  unfolding ◌>>=◌
  remembered none s s' found h =
      ap (λ w. w.account_id) (sym (ap (λ p. p.1.0) h)) ∙ ok-injective (ap (λ p. p.0) h)
  remembered (some id) s s' found h =
      ap (λ w. w.account_id) (sym (ap (λ p. p.1.0) h)) ∙ ok-injective (ap (λ p. p.0) h)

  pub account_id-known :
      (s s' : Env c) (id : ℤ) → get_account_id c s ≡ (ok (some id), s') → s'.0.account_id ≡ some id
  unfolding get_account_id ◌>>=◌
  account_id-known s s' id h = known_after s.0.account_id refl h
    where
      known_after :
          (known : Option ℤ)
          → s.0.account_id ≡ known
          → cached_or_asked c known s ≡ (ok (some id), s')
          → s'.0.account_id ≡ some id
      known_after (some known) same h =
          ap (λ p. p.1.0.account_id) (sym h) ∙ same ∙ ok-injective (ap (λ p. p.0) h)
      known_after none same h =
          let (state, s1, asked, run) =
            bind-eq-ok (request c (c.provider.get_state (address c)))
              (λ state. remember_id c state.id) h in
          remembered state.id s1 s' id run

  -- After `get_account_id` has returned an id, a call right after it returns the same id and neither
  -- asks the server nor changes the wallet.
  get_account_id_cached :
      (s s' : Env c) (id : ℤ)
      → get_account_id c s ≡ (ok (some id), s')
      → get_account_id c s' ≡ (ok (some id), s')
  unfolding get_account_id ◌>>=◌
  get_account_id_cached s s' id h = rw (account_id-known s s' id h) refl

  found_from :
      (o : Option Token) (s s' : Env c) (token : Token)
      → found_or_raise c o s ≡ (ok token, s')
      → (o ≡ some token) × (s ≡ s')
  found_from none s s' token h = cc
  found_from (some t) s s' token h = (ap some (ok-injective (ap (λ p. p.0) h)), ap (λ p. p.1) h)

  -- Once `resolve_token` has returned a token for a name, the wallet's list holds that token under
  -- that name, and a call right after it returns the token again and neither asks the server nor
  -- changes the wallet. The account id is left alone.
  pub resolve_token_cached :
      (name : TokenLike) (s s' : Env c) (token : Token)
      → resolve_token c name s ≡ (ok token, s')
      → (find s'.0.tokens name ≡ some token)
        × (resolve_token c name s' ≡ (ok token, s'))
        × (s'.0.account_id ≡ s.0.account_id)
  unfolding resolve_token ◌>>=◌ find
  resolve_token_cached name s s' token h =
      let (held, kept) = held_after (find s.0.tokens name) refl h in (held, rw held refl, kept)
    where
      held_after :
          (found : Option Token)
          → find s.0.tokens name ≡ found
          → found_or_asked c name found s ≡ (ok token, s')
          → (find s'.0.tokens name ≡ some token) × (s'.0.account_id ≡ s.0.account_id)
      held_after (some t) same h = (
        ap (λ p. find p.1.0.tokens name) (sym h) ∙ same ∙ ap some (ok-injective (ap (λ p. p.0) h)),
        ap (λ p. p.1.0.account_id) (sym h),
      )
      held_after none same h =
          let (tokens, s1, asked, run) =
            bind-eq-ok (request c c.provider.get_tokens)
              (λ tokens.
                modify c (λ w. record w { tokens = tokens }) >> found_or_raise c (find tokens name))
              h in
          let (found, moved) =
            found_from (find tokens name) (record s1.0 { tokens = tokens }, s1.1) s' token run in
          (
            ap (λ (e : Env c). find e.0.tokens name) (sym moved) ∙ found,
            ap (λ (e : Env c). e.0.account_id) (sym moved) ∙ ap (λ p. p.1.0.account_id) (sym asked),
          )

  -- Where the wallet's list lacks the name, `resolve_token` asks the server for the tokens, keeps its
  -- list whatever it holds, and looks the name up there: it returns the token found, or raises
  -- TokenNotFoundError.
  resolve_token_refreshes :
      (name : TokenLike) (w : WalletState) (world world' : c.provider.World) (tokens : List Token)
      → find w.tokens name ≡ none
      → c.provider.get_tokens world ≡ (ok tokens, world')
      → resolve_token c name (w, world)
        ≡ (or_raise (find tokens name) token_not_found, (record w { tokens = tokens }, world'))
  unfolding resolve_token ◌>>=◌ find
  resolve_token_refreshes name w world world' tokens missing asked =
      ap (λ found. found_or_asked c name found (w, world)) missing
      ∙ bind-ok (request c c.provider.get_tokens)
          (λ tokens.
            modify c (λ w. record w { tokens = tokens }) >> found_or_raise c (find tokens name))
          (request_ran c c.provider.get_tokens w asked)
      ∙ looked_up (find tokens name)
    where
      looked_up :
          (found : Option Token) {s : Env c}
          → found_or_raise c found s ≡ (or_raise found token_not_found, s)
      looked_up none = refl
      looked_up (some token) = refl
