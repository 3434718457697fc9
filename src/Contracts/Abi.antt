-- ===== src/Contracts/Abi.antt =====
-- zksync_sdk/contract_utils.py: the ABIs of the two contracts, each read once from a file of the
-- package and kept in a global variable.
use zksync_python.Prelude.{
  Json, null, bool, int, str, arr, obj, ◌≢◌, ◌≡◌, refl, sym, ap, ◌∙◌, Option, none, some, Result,
  ok, ok-injective,
}
use zksync_python.Python.Text.{Text, text}
use zksync_python.Python.Effects.{Effect, ◌>>=◌, returned, computed}
use zksync_python.Python.Effects.Runs.{after, bind-keeps}
use zksync_python.Json.{item}
use zksync_python.Contracts.{Web3}

pub record AbiCaches : Type 0 where
  pub zksync_abi_cache : Option Json
  pub ierc20_abi_cache : Option Json

-- Which of the two.
pub data Abi : Type 0 where
  zksync ierc20 : Abi

abbrev pub cache_of : Abi → AbiCaches → Option Json
cache_of zksync caches = caches.zksync_abi_cache
cache_of ierc20 caches = caches.ierc20_abi_cache

-- The variables start as None, and a null of JSON is None: then the file is read again.
abbrev not_none : Json → Option Json
not_none null = none
not_none (bool b) = some (bool b)
not_none (int z) = some (int z)
not_none (str s) = some (str s)
not_none (arr xs) = some (arr xs)
not_none (obj fields) = some (obj fields)

not_none-some : (abi : Json) → abi ≢ null → not_none abi ≡ some abi
not_none-some null h = absurd (h refl)
not_none-some (bool b) h = refl
not_none-some (int z) h = refl
not_none-some (str s) h = refl
not_none-some (arr xs) h = refl
not_none-some (obj fields) h = refl

module _ (web3 : Web3) where
  -- The global variables and the world.
  abbrev pub Cached : Type 0
  Cached = AbiCaches × web3.World

  abbrev pub outside : {A : Type 0} → Effect web3.World A → Effect Cached A
  outside call (caches, world) = let (r, world') = call world in (r, (caches, world'))

  -- `json.loads(pkg_resources.read_text(contract_abi, name))['abi']`
  unfoldable pub read_abi : Text → Effect Cached Json
  read_abi name = do
    abi_text ← outside (web3.read_text name)
    json ← computed (web3.loads abi_text)
    computed (item json (text "abi"))

  abbrev store_zksync : Json → Effect Cached Json
  store_zksync abi (caches, world) =
      (ok abi, (record caches { zksync_abi_cache = not_none abi }, world))

  abbrev store_erc20 : Json → Effect Cached Json
  store_erc20 abi (caches, world) =
      (ok abi, (record caches { ierc20_abi_cache = not_none abi }, world))

  abbrev zksync_kept_or_read : Option Json → Effect Cached Json
  zksync_kept_or_read (some abi) = returned abi
  zksync_kept_or_read none = read_abi (text "ZkSync.json") >>= store_zksync

  abbrev erc20_kept_or_read : Option Json → Effect Cached Json
  erc20_kept_or_read (some abi) = returned abi
  erc20_kept_or_read none = read_abi (text "IERC20.json") >>= store_erc20

  unfoldable pub zksync_abi : Effect Cached Json
  zksync_abi (caches, world) = zksync_kept_or_read caches.zksync_abi_cache (caches, world)

  unfoldable pub erc20_abi : Effect Cached Json
  erc20_abi (caches, world) = erc20_kept_or_read caches.ierc20_abi_cache (caches, world)

  abbrev pub abi_of : Abi → Effect Cached Json
  abi_of zksync = zksync_abi
  abi_of ierc20 = erc20_abi

  -- A state and one that comes after it: further calls of the two functions, also failing ones, and
  -- all that happens elsewhere.
  pub data Later : Cached → Cached → Type 0 where
    now : {s : Cached} → Later s s
    asked : {s s1 : Cached} (which : Abi) → Later s s1 → Later s (abi_of which s1).1
    elapsed : {s s1 : Cached} (world : web3.World) → Later s s1 → Later s (s1.0, world)

  read_abi_keeps : (name : Text) (s : Cached) → (read_abi name s).1.0 ≡ s.0
  unfolding read_abi
  read_abi_keeps name =
      bind-keeps (λ (s : Cached). s.0) _ _ (λ s. refl)
        (λ abi_text. bind-keeps (λ (s : Cached). s.0) _ _ (λ s. refl) (λ json s. refl))

  zksync_read_keeps :
      (kept : Option Json) (s : Cached)
      → (zksync_kept_or_read kept s).1.0.ierc20_abi_cache ≡ s.0.ierc20_abi_cache
  zksync_read_keeps (some abi) s = refl
  zksync_read_keeps none s0 =
      bind-keeps (λ (s : Cached). s.0.ierc20_abi_cache) _ _
        (λ s. ap (λ caches. caches.ierc20_abi_cache) (read_abi_keeps (text "ZkSync.json") s))
        (λ abi s. refl) s0

  erc20_read_keeps :
      (kept : Option Json) (s : Cached)
      → (erc20_kept_or_read kept s).1.0.zksync_abi_cache ≡ s.0.zksync_abi_cache
  erc20_read_keeps (some abi) s = refl
  erc20_read_keeps none s0 =
      bind-keeps (λ (s : Cached). s.0.zksync_abi_cache) _ _
        (λ s. ap (λ caches. caches.zksync_abi_cache) (read_abi_keeps (text "IERC20.json") s))
        (λ abi s. refl) s0

  -- A call of the other function leaves a cache alone.
  zksync_abi_keeps : (s : Cached) → (zksync_abi s).1.0.ierc20_abi_cache ≡ s.0.ierc20_abi_cache
  unfolding zksync_abi
  zksync_abi_keeps (caches, world) = zksync_read_keeps caches.zksync_abi_cache (caches, world)

  erc20_abi_keeps : (s : Cached) → (erc20_abi s).1.0.zksync_abi_cache ≡ s.0.zksync_abi_cache
  unfolding erc20_abi
  erc20_abi_keeps (caches, world) = erc20_read_keeps caches.ierc20_abi_cache (caches, world)

  abi_of-cached :
      (which : Abi) (abi : Json) (s : Cached)
      → cache_of which s.0 ≡ some abi
      → abi_of which s ≡ (ok abi, s)
  unfolding zksync_abi erc20_abi
  abi_of-cached zksync abi (caches, world) h =
      ap (λ kept. zksync_kept_or_read kept (caches, world)) h
  abi_of-cached ierc20 abi (caches, world) h =
      ap (λ kept. erc20_kept_or_read kept (caches, world)) h

  asked_keeps :
      (which other : Abi) (abi : Json) (s : Cached)
      → cache_of which s.0 ≡ some abi
      → cache_of which (abi_of other s).1.0 ≡ some abi
  asked_keeps zksync zksync abi s h =
      ap (λ run. cache_of zksync run.1.0) (abi_of-cached zksync abi s h) ∙ h
  asked_keeps zksync ierc20 abi s h = erc20_abi_keeps s ∙ h
  asked_keeps ierc20 zksync abi s h = zksync_abi_keeps s ∙ h
  asked_keeps ierc20 ierc20 abi s h =
      ap (λ run. cache_of ierc20 run.1.0) (abi_of-cached ierc20 abi s h) ∙ h

  Later-cache_of :
      (which : Abi) (abi : Json) (s s' : Cached)
      → Later s s'
      → cache_of which s.0 ≡ some abi
      → cache_of which s'.0 ≡ some abi
  Later-cache_of which abi s s' now h = h
  Later-cache_of which abi s s' (asked {s1 = before} other later) h =
      asked_keeps which other abi before (Later-cache_of which abi s before later h)
  Later-cache_of which abi s s' (elapsed {s1 = before} world later) h =
      Later-cache_of which abi s before later h

  returned_kept :
      (view : Cached → Option Json) (kept abi : Json) (s s' : Cached)
      → ◌≡◌ {A = Result Json × Cached} (ok kept, s) (ok abi, s')
      → view s ≡ some kept
      → view s' ≡ some abi
  returned_kept view kept abi s s' h was =
      ap (λ run. view run.1) (sym h) ∙ was ∙ ap some (ok-injective (ap (λ run. run.0) h))

  -- What was returned is kept, if it is no null.
  abi_of-stores :
      (which : Abi) (abi : Json) (s s' : Cached)
      → abi ≢ null
      → abi_of which s ≡ (ok abi, s')
      → cache_of which s'.0 ≡ some abi
  unfolding zksync_abi erc20_abi
  abi_of-stores zksync abi (caches, world) s' present h = stored caches.zksync_abi_cache refl h
    where
      stored :
          (kept : Option Json)
          → caches.zksync_abi_cache ≡ kept
          → zksync_kept_or_read kept (caches, world) ≡ (ok abi, s')
          → s'.0.zksync_abi_cache ≡ some abi
      stored (some kept) was h =
          returned_kept (λ s. s.0.zksync_abi_cache) kept abi (caches, world) s' h was
      stored none was h = after _ _ h (λ read s1 _ h.
          let same : read ≡ abi = ok-injective (ap (λ run. run.0) h) in
          returned_kept (λ s. s.0.zksync_abi_cache) read abi _ s' h
            (not_none-some read (λ none_read. present (sym same ∙ none_read))))
  abi_of-stores ierc20 abi (caches, world) s' present h = stored caches.ierc20_abi_cache refl h
    where
      stored :
          (kept : Option Json)
          → caches.ierc20_abi_cache ≡ kept
          → erc20_kept_or_read kept (caches, world) ≡ (ok abi, s')
          → s'.0.ierc20_abi_cache ≡ some abi
      stored (some kept) was h =
          returned_kept (λ s. s.0.ierc20_abi_cache) kept abi (caches, world) s' h was
      stored none was h = after _ _ h (λ read s1 _ h.
          let same : read ≡ abi = ok-injective (ap (λ run. run.0) h) in
          returned_kept (λ s. s.0.ierc20_abi_cache) read abi _ s' h
            (not_none-some read (λ none_read. present (sym same ∙ none_read))))

  -- Once `zksync_abi` or `erc20_abi` has returned an ABI, which is no null of JSON, each later call of that function, after
  -- whatever calls of the two in between and whatever happens outside, returns the same ABI, reads no
  -- file and changes nothing.
  pub abi_kept :
      (which : Abi) (abi : Json) (s s' later : Cached)
      → abi ≢ null
      → abi_of which s ≡ (ok abi, s')
      → Later s' later
      → abi_of which later ≡ (ok abi, later)
  abi_kept which abi s s' later present h after_it =
      abi_of-cached which abi later
        (Later-cache_of which abi s' later after_it (abi_of-stores which abi s s' present h))
