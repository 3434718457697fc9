-- ===== src/Wallet/Memory.antt =====
-- What a wallet remembers, over all its methods.
use zksync_python.Prelude.{List, subst, ℤ, [], none, some, ok, ◌≡◌, refl, ap, ◌∙◌, ◌⊎◌, inl, inr}
use zksync_python.Provider.{AccountState}
use zksync_python.Tokens.{
  TokenLike, by_text, by_id, find, find_first, find_by_address, find_by_symbol, find_by_id,
}
use zksync_python.Types.{Token}
use zksync_python.Wallet.{
  Context, Env, WalletState, new_wallet, address, get_account_id, resolve_token, ◌>>=◌,
  cached_or_asked, found_or_asked,
}
use zksync_python.Wallet.Account.{account_id-known, resolve_token_cached}
use zksync_python.Wallet.Lookups.{IsKept}
use zksync_python.Wallet.Reachable.{Call, Reached, called, Reached-Keeps}

module _ (c : Context) where
  -- The id is one that the server has told for the wallet's own address, and the list of tokens is
  -- one that it has told; or nothing was told yet.
  pub record IsTold (w : WalletState) : Type 0 where
    pub id_told :
        (w.account_id ≡ none)
        ⊎ ((id : ℤ) × (account : AccountState) × (world world' : c.provider.World) × (w.account_id
              ≡ some id)
            × (c.provider.get_state (address c) world ≡ (ok account, world'))
            × (account.id ≡ some id))
    pub tokens_told :
        (w.tokens ≡ [])
        ⊎ ((world world' : c.provider.World) × (c.provider.get_tokens world
              ≡ (ok w.tokens, world')))

  IsTold-IsKept : IsKept c IsTold
  IsTold-IsKept = record {
    by_id = λ w id world world' account _ told same h. record {
      id_told = inr (id, account, world, world', refl, told, same);
      tokens_told = h.tokens_told;
    };
    by_tokens = λ w tokens world world' told h. record {
      id_told = h.id_told;
      tokens_told = inr (world, world', told);
    };
  }

  -- A new wallet after any calls of its methods, with any arguments and in any order, whether they
  -- return or raise, and with anything happening to the server in between: the account id that it
  -- holds, if any, is one that the server told for the wallet's own address, and the tokens that it
  -- holds, if any, are a list that the server told.
  pub Reached-IsTold :
      {world : c.provider.World} {s : Env c} → Reached c (new_wallet, world) s → IsTold s.0
  Reached-IsTold reached =
      Reached-Keeps c IsTold IsTold-IsKept reached
        (record { id_told = inl refl; tokens_told = inl refl })

  known-IsKept : (id : ℤ) → IsKept c (λ w. w.account_id ≡ some id)
  known-IsKept id = record {
    by_id = λ w other world world' account unknown told same h. cc;
    by_tokens = λ w tokens world world' told h. h;
  }

  -- Once `get_account_id` has returned an id, it returns that id after any further calls of the
  -- wallet's methods and whatever happens to the server, and neither asks the server then nor changes
  -- the wallet.
  pub get_account_id_kept :
      (id : ℤ) (s s' later : Env c)
      → get_account_id c s ≡ (ok (some id), s')
      → Reached c s' later
      → get_account_id c later ≡ (ok (some id), later)
  unfolding get_account_id ◌>>=◌
  get_account_id_kept id s s' later h after_it =
      let known =
        Reached-Keeps c (λ w. w.account_id ≡ some id) (known-IsKept id) after_it
          (account_id-known c s s' id h) in
      ap (λ held. cached_or_asked c held later) known

  find-nil : (name : TokenLike) → find [] name ≡ none
  unfolding find find_first find_by_address find_by_symbol find_by_id
  find-nil (by_text name) = refl
  find-nil (by_id id) = refl

  token-IsKept :
      (name : TokenLike) (token : Token)
      → ((world world' : c.provider.World) (tokens : List Token)
          → c.provider.get_tokens world ≡ (ok tokens, world')
          → find tokens name ≡ some token)
      → IsKept c (λ w. find w.tokens name ≡ some token)
  token-IsKept name token listed = record {
    by_id = λ w id world world' account unknown told same h. h;
    by_tokens = λ w tokens world world' told h. listed world world' tokens told;
  }

  -- Where all the lists of tokens that the server may tell agree on what a name stands for, a token
  -- that `resolve_token` has returned for that name, in a wallet that was new before any calls, is
  -- returned after any further calls of the wallet's methods and whatever else happens to the server,
  -- and the call neither asks the server nor changes the wallet.
  pub resolve_token_kept :
      (name : TokenLike) (token : Token) (world : c.provider.World) (s s' later : Env c)
      → ((world1 world1' world2 world2' : c.provider.World) (tokens1 tokens2 : List Token)
          → c.provider.get_tokens world1 ≡ (ok tokens1, world1')
          → c.provider.get_tokens world2 ≡ (ok tokens2, world2')
          → find tokens1 name ≡ find tokens2 name)
      → Reached c (new_wallet, world) s
      → resolve_token c name s ≡ (ok token, s')
      → Reached c s' later
      → resolve_token c name later ≡ (ok token, later)
  unfolding resolve_token ◌>>=◌
  resolve_token_kept name token world s s' later agree before h after_it =
      let (held, _, _) = resolve_token_cached c name s s' token h in
      let reached : Reached c (new_wallet, world) s' =
        subst (Reached c (new_wallet, world)) (ap (λ run. run.1) h)
          (called (Call.resolve_token name) before) in
      let known =
        Reached-Keeps c (λ w. find w.tokens name ≡ some token)
          (token-IsKept name token (listed held (Reached-IsTold reached).tokens_told)) after_it
          held in
      ap (λ found. found_or_asked c name found later) known
    where
      listed :
          find s'.0.tokens name ≡ some token
          → (s'.0.tokens ≡ [])
            ⊎ ((w w' : c.provider.World) × (c.provider.get_tokens w ≡ (ok s'.0.tokens, w')))
          → (w w' : c.provider.World) (tokens : List Token)
          → c.provider.get_tokens w ≡ (ok tokens, w')
          → find tokens name ≡ some token
      listed held (inl empty) w w' tokens told =
          absurd (cc (ap (λ ts. find ts name) empty, find-nil name, held))
      listed held (inr (v, v', told_first)) w w' tokens told =
          agree w w' v v' tokens s'.0.tokens told told_first ∙ held
