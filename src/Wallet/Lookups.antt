-- ===== src/Wallet/Lookups.antt =====
-- What the two lookups of a wallet leave true, where what they remember is taken up.
use zksync_python.Prelude.{ℤ, List, Option, none, some, Result, ok, err, ◌≡◌, refl}
use zksync_python.Types.{Token}
use zksync_python.Tokens.{TokenLike, find}
use zksync_python.Provider.{AccountState}
use zksync_python.Wallet.{
  Context, Env, WalletState, address, ◌>>=◌, cached_or_asked, remember_id, found_or_asked,
  found_or_raise, get_account_id, resolve_token,
}
use zksync_python.Wallet.Keeping.{KeepsWallet}

module _ (c : Context) (Q : WalletState → Type 0) where
  -- A wallet changes where it remembers its id, and where it keeps a list of tokens.
  pub record IsKept : Type 0 where
    pub by_id :
        (w : WalletState) (id : ℤ) (world world' : c.provider.World) (account : AccountState)
        → w.account_id ≡ none
        → c.provider.get_state (address c) world ≡ (ok account, world')
        → account.id ≡ some id
        → Q w
        → Q (record w { account_id = some id })
    pub by_tokens :
        (w : WalletState) (tokens : List Token) (world world' : c.provider.World)
        → c.provider.get_tokens world ≡ (ok tokens, world')
        → Q w
        → Q (record w { tokens = tokens })

  module _ (kept : IsKept) where
    pub get_account_id-Keeps : KeepsWallet c Q (get_account_id c)
    unfolding get_account_id ◌>>=◌
    get_account_id-Keeps = record { after_it = λ s h. asked s s.0.account_id refl h }
      where
        answered :
            (s : Env c) (account : AccountState) (world : c.provider.World) (id : Option ℤ)
            → s.0.account_id ≡ none
            → c.provider.get_state (address c) s.1 ≡ (ok account, world)
            → account.id ≡ id
            → Q s.0
            → Q (remember_id c id (s.0, world)).1.0
        answered s account world none unknown told same h = h
        answered s account world (some id) unknown told same h =
            kept.by_id s.0 id s.1 world account unknown told same h

        received :
            (s : Env c) (run : Result AccountState × c.provider.World)
            → s.0.account_id ≡ none
            → c.provider.get_state (address c) s.1 ≡ run
            → Q s.0
            → Q
                (elim run.0 as (λ _. Result (Option ℤ) × Env c) [
                  | ok account ↦ remember_id c account.id (s.0, run.1)
                  | err e ↦ (err e, (s.0, run.1))
                ]).1.0
        received s (ok account, world) unknown told h =
            answered s account world account.id unknown told refl h
        received s (err e, world) unknown told h = h

        asked :
            (s : Env c) (known : Option ℤ)
            → s.0.account_id ≡ known
            → Q s.0
            → Q (cached_or_asked c known s).1.0
        asked s (some id) same h = h
        asked s none same h = received s (c.provider.get_state (address c) s.1) same refl h

    pub resolve_token-Keeps : (name : TokenLike) → KeepsWallet c Q (resolve_token c name)
    unfolding resolve_token ◌>>=◌
    resolve_token-Keeps name = record { after_it = λ s h. asked s (find s.0.tokens name) h }
      where
        looked_up : (found : Option Token) (s : Env c) → Q s.0 → Q (found_or_raise c found s).1.0
        looked_up none s h = h
        looked_up (some token) s h = h

        received :
            (s : Env c) (run : Result (List Token) × c.provider.World)
            → c.provider.get_tokens s.1 ≡ run
            → Q s.0
            → Q
                (elim run.0 as (λ _. Result Token × Env c) [
                  | ok tokens ↦
                      found_or_raise c (find tokens name) (record s.0 { tokens = tokens }, run.1)
                  | err e ↦ (err e, (s.0, run.1))
                ]).1.0
        received s (ok tokens, world) told h =
            looked_up (find tokens name) _ (kept.by_tokens s.0 tokens s.1 world told h)
        received s (err e, world) told h = h

        asked : (s : Env c) (found : Option Token) → Q s.0 → Q (found_or_asked c name found s).1.0
        asked s (some token) h = h
        asked s none h = received s (c.provider.get_tokens s.1) refl h
