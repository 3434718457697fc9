-- ===== src/Tests/Memory.antt =====
-- What a wallet remembers after calls of its methods, with the server of Tests.Wallet.
use zksync_python.Prelude.{List, [], ◌∷◌, sym, ap, ◌∙◌, ok-injective, ◌≡◌, refl, pos, some, ok}
use zksync_python.Python.Text.{text}
use zksync_python.Types.{Token}
use zksync_python.Tokens.{
  eth, by_text, find, find_first, find_by_address, find_by_symbol, find_by_id,
}
use zksync_python.Wallet.{new_wallet, ◌>>=◌, address, get_account_id, resolve_token, WalletState}
use zksync_python.Wallet.Reachable.{Call, perform, Reached, here, called, elapsed}
use zksync_python.Wallet.Memory.{IsTold, Reached-IsTold, get_account_id_kept, resolve_token_kept}
use zksync_python.Tests.Wallet.{wallet, known, dai}

abbrev asked : WalletState
asked = record new_wallet { account_id = some (pos 44) }

-- The id is asked for, and later a token, while the server answers others too.
abbrev reached_later :
    Reached wallet
      (new_wallet, 0)
      (perform wallet
        (Call.resolve_token (by_text (text "DAI")))
        ((perform wallet Call.get_account_id (new_wallet, 0)).0, 30))
reached_later =
    called (Call.resolve_token (by_text (text "DAI")))
      (elapsed 30 (called Call.get_account_id here))

Reached-IsTold_example : IsTold wallet known
unfolding resolve_token get_account_id ◌>>=◌ address find find_first find_by_address find_by_symbol
    find_by_id
Reached-IsTold_example = Reached-IsTold wallet reached_later

get_account_id_kept_example : get_account_id wallet (known, 31) ≡ (ok (some (pos 44)), (known, 31))
unfolding resolve_token get_account_id ◌>>=◌ address find find_first find_by_address find_by_symbol
    find_by_id
get_account_id_kept_example =
    get_account_id_kept wallet (pos 44) (new_wallet, 0) (asked, 1) (known, 31) refl
      (called (Call.resolve_token (by_text (text "DAI"))) (elapsed 30 here))

-- Every list that this server tells is the same.
told_tokens :
    (world world' : wallet.provider.World) (tokens : List Token)
    → wallet.provider.get_tokens world ≡ (ok tokens, world')
    → eth ∷ dai ∷ [] ≡ tokens
told_tokens world world' tokens h = ok-injective (ap (λ run. run.0) h)

resolve_token_kept_example :
    resolve_token wallet (by_text (text "DAI")) (known, 31) ≡ (ok dai, (known, 31))
unfolding resolve_token get_account_id ◌>>=◌ address find find_first find_by_address find_by_symbol
    find_by_id
resolve_token_kept_example =
    resolve_token_kept wallet (by_text (text "DAI")) dai 0 (new_wallet, 0)
      (record new_wallet { tokens = eth ∷ dai ∷ [] }, 1) (known, 31)
      (λ w1 w1' w2 w2' ts us h k.
        ap (λ tokens. find tokens (by_text (text "DAI")))
          (sym (told_tokens w1 w1' ts h) ∙ told_tokens w2 w2' us k))
      here refl (elapsed 31 (called Call.get_account_id here))
