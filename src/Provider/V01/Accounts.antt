-- ===== src/Provider/V01/Accounts.antt =====
-- What `ZkSyncProviderV01` makes of the server's answers about an account.
use zksync_python.Prelude.{
  ℤ, ◌≡◌, refl, sym, ap, ◌∙◌, [], ◌∷◌, some, Result, ok, err, ◌>>=◌, Option-cases, inl, inr,
  ok-injective, account_does_not_exist, Json, null, bool, int, str, arr, obj, Fields, array,
}
use zksync_python.Python.Text.{Text, text}
use zksync_python.Transport.{Transport}
use zksync_python.Transport.Answers.{answered-eq-ok}
use zksync_python.Provider.{State, AccountState}
use zksync_python.Provider.V01.{
  Models, keywords, get_nonce, account_of, v01_get_state, v01_get_account_nonce,
}

keywords-eq-ok :
    {A : Type 0} (make : Fields → Result A) (json : Json) (a : A)
    → keywords make json ≡ ok a
    → (fields : Fields) × (json ≡ obj fields) × (make fields ≡ ok a)
unfolding keywords
keywords-eq-ok make (obj fields) a h = (fields, refl, h)
keywords-eq-ok make null a h = cc
keywords-eq-ok make (bool b) a h = cc
keywords-eq-ok make (int z) a h = cc
keywords-eq-ok make (str s) a h = cc
keywords-eq-ok make (arr xs) a h = cc

account_of-eq-ok :
    (t : Transport) (m : Models) (address : Text) (json : Json) (account : AccountState)
    → account_of t m address json ≡ ok account
    → (fields : Fields) × (json ≡ obj fields) × (m.account_state fields ≡ ok account)
unfolding account_of
account_of-eq-ok t m address null account h = cc
account_of-eq-ok t m address (obj fields) account h =
    keywords-eq-ok m.account_state (obj fields) account h
account_of-eq-ok t m address (bool b) account h = keywords-eq-ok m.account_state (bool b) account h
account_of-eq-ok t m address (int z) account h = keywords-eq-ok m.account_state (int z) account h
account_of-eq-ok t m address (str s) account h = keywords-eq-ok m.account_state (str s) account h
account_of-eq-ok t m address (arr xs) account h = keywords-eq-ok m.account_state (arr xs) account h

get_nonce-eq-ok :
    (account : AccountState) (nonce : ℤ)
    → get_nonce account ≡ ok nonce
    → (state : State) × (account.committed ≡ some state) × (nonce ≡ state.nonce)
unfolding get_nonce
get_nonce-eq-ok account nonce h = elim (Option-cases account.committed) [
  | inl absent ↦ cc (rw absent at h)
  | inr (state, present) ↦ (state, present, sym (ok-injective (rw present at h)))
]

module _ (t : Transport) (m : Models) where
  -- The nonce that `get_account_nonce` returns comes from one request "account_info" for the address:
  -- its result is a dictionary, of which the model makes an account state, and that has a committed
  -- state with this nonce. So neither an unknown account, whose result is null, nor one without a
  -- committed state has a nonce.
  get_account_nonce_committed :
      (address : Text) (nonce : ℤ) (world world' : t.World)
      → v01_get_account_nonce t m address world ≡ (ok nonce, world')
      → (fields : Fields) × (account : AccountState) × (state : State) × (t.request
            (text "account_info")
            (array (str address ∷ []))
            world
          ≡ (ok (obj fields), world'))
        × (m.account_state fields ≡ ok account)
        × (account.committed ≡ some state)
        × (nonce ≡ state.nonce)
  unfolding v01_get_account_nonce v01_get_state
  get_account_nonce_committed address nonce world world' h =
      let (account, got, read) = answered-eq-ok (v01_get_state t m address) get_nonce h in
      let (json, requested, made) =
        answered-eq-ok (t.request (text "account_info") (array (str address ∷ [])))
          (account_of t m address) got in
      let (fields, same, modelled) = account_of-eq-ok t m address json account made in
      let (state, committed, is_nonce) = get_nonce-eq-ok account nonce read in
      (fields, account, state, requested ∙ rw same refl, modelled, committed, is_nonce)

  pub get_account_nonce_unknown :
      (address : Text) (world world' : t.World)
      → t.request (text "account_info") (array (str address ∷ [])) world ≡ (ok null, world')
      → v01_get_account_nonce t m address world ≡ (err (account_does_not_exist address), world')
  unfolding v01_get_account_nonce v01_get_state account_of
  get_account_nonce_unknown address world world' h =
      ap
        (λ (run : Result Json × t.World). ((run.0 >>= account_of t m address) >>= get_nonce, run.1))
        h
