-- ===== src/Library.antt =====
-- zksync_sdk/lib.py: the calls of the native zks-crypto library. The C functions themselves are no
-- part of the package: they are the fields of `NativeCrypto`.
use zksync_python.Prelude.{
  ℕ, ◌*◌, ◌≡◌, not, ◌++◌, length, take, replicate, ◌==◌, Option, none, some, Result, ok, ◌>>◌,
  raise_if, assertion_error, arith, length-append, length-replicate, length-take,
}
use zksync_python.Python.Text.{Text, text}
use zksync_python.Python.Hex.{Bytes}

abbrev pub private_key_len : ℕ
private_key_len = 32

abbrev pub public_key_len : ℕ
public_key_len = 32

abbrev pub pubkey_hash_len : ℕ
pubkey_hash_len = 20

abbrev pub packed_signature_len : ℕ
packed_signature_len = 64

abbrev pub order_len : ℕ
order_len = 89

abbrev pub orders_hash_len : ℕ
orders_hash_len = 31

-- What each C function writes to its output structure.
pub record NativeCrypto : Type 0 where
  pub zks_crypto_private_key_from_seed : Bytes → Bytes
  pub zks_crypto_private_key_to_public_key : Bytes → Bytes
  pub zks_crypto_public_key_to_pubkey_hash : Bytes → Bytes
  pub zks_crypto_sign_musig : Bytes → Bytes → Bytes
  pub rescue_hash_orders : Bytes → Bytes

-- `bytes(structure.contents.data)`: an array of `size` bytes, zero where nothing was written.
unfoldable pub contents : ℕ → Bytes → Bytes
contents size written = take size (written ++ replicate size 0)

pub length-contents : (size : ℕ) (written : Bytes) → length (contents size written) ≡ size
unfolding contents
length-contents size written = omega (
  arith,
  length-take size (written ++ replicate size 0),
  length-append written (replicate size 0),
  length-replicate {A = ℕ} size 0,
)

module _ (lib : NativeCrypto) where
  unfoldable pub private_key_from_seed : Bytes → Bytes
  private_key_from_seed seed = contents private_key_len (lib.zks_crypto_private_key_from_seed seed)

  unfoldable pub get_public_key : Bytes → Result Bytes
  get_public_key private_key = do
    raise_if (not (length private_key == private_key_len)) assertion_error
    ok (contents public_key_len (lib.zks_crypto_private_key_to_public_key private_key))

  unfoldable pub get_pubkey_hash : Bytes → Result Bytes
  get_pubkey_hash public_key = do
    raise_if (not (length public_key == public_key_len)) assertion_error
    ok (contents pubkey_hash_len (lib.zks_crypto_public_key_to_pubkey_hash public_key))

  unfoldable pub sign : Bytes → Bytes → Result Bytes
  sign private_key message = do
    raise_if (not (length private_key == private_key_len)) assertion_error
    ok (contents packed_signature_len (lib.zks_crypto_sign_musig private_key message))

  unfoldable pub hash_orders : Bytes → Result Bytes
  hash_orders orders = do
    raise_if (not (length orders == order_len * 2)) assertion_error
    ok (contents orders_hash_len (lib.rescue_hash_orders orders))

  pub length-hash_orders :
      (orders bytes : Bytes) → hash_orders orders ≡ ok bytes → length bytes ≡ orders_hash_len
  unfolding hash_orders
  length-hash_orders orders bytes h =
      ground (arith, length-contents orders_hash_len (lib.rescue_hash_orders orders))

-- `ZkSyncLibrary(library_path)`: `os.getenv` and `cdll.LoadLibrary` are parameters.
unfoldable pub zksync_library :
    (Text → Option Text) → (Option Text → Result NativeCrypto) → Option Text → Result NativeCrypto
zksync_library getenv load_library (some library_path) = load_library (some library_path)
zksync_library getenv load_library none = load_library (getenv (text "ZK_SYNC_LIBRARY_PATH"))
