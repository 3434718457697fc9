-- ===== src/Serializers/Fields.antt =====
-- zksync_sdk/serializers.py, the fields of a transaction: integers, addresses, hashes and the parts
-- of a ratio.
pub mod Numbers
pub mod Texts
use zksync_python.Prelude.{
  ℕ, ◌-◌, ◌*◌, ◌^◌, Bool, not, List, [], ◌∷◌, ◌++◌, Option, none, some, length, drop, replicate,
  ◌==◌, if◌then◌else◌, ℤ, pos, ltb_ℤ, Result, ok, err, ◌>>=◌, ◌>>◌, raise_if, or_raise, wrong_value,
  type_error,
}
use zksync_python.Python.Text.{Text, text, starts_with}
use zksync_python.Python.Hex.{Bytes, to_bytes, fromhex, hex, zfill}

abbrev pub max_number_of_accounts : ℕ
max_number_of_accounts = 2 ^ 24

abbrev pub max_number_of_tokens : ℕ
max_number_of_tokens = 2 ^ 32 - 1

unfoldable pub int_to_bytes : ℤ → ℕ → Result Bytes
int_to_bytes val length = to_bytes val length

unfoldable pub serialize_nonce : ℤ → Result Bytes
serialize_nonce nonce = do raise_if (ltb_ℤ nonce (pos 0)) wrong_value; int_to_bytes nonce 4

unfoldable pub serialize_timestamp : ℤ → Result Bytes
serialize_timestamp timestamp = do
  raise_if (ltb_ℤ timestamp (pos 0)) wrong_value
  bytes ← int_to_bytes timestamp 4
  ok (replicate 4 0 ++ bytes)

unfoldable pub serialize_token_id : ℤ → Result Bytes
serialize_token_id token_id = do
  raise_if (ltb_ℤ token_id (pos 0)) wrong_value
  raise_if (ltb_ℤ (pos max_number_of_tokens) token_id) wrong_value
  int_to_bytes token_id 4

unfoldable pub serialize_account_id : ℤ → Result Bytes
serialize_account_id account_id = do
  raise_if (ltb_ℤ account_id (pos 0)) wrong_value
  raise_if (ltb_ℤ (pos max_number_of_accounts) account_id) wrong_value
  int_to_bytes account_id 4

-- `none` where the function falls through and returns None.
unfoldable pub remove_address_prefix : Text → Option Text
remove_address_prefix address =
    if starts_with (text "0x") address
    then some (drop 2 address)
    else if starts_with (text "sync:") address
    then some (drop 5 address)
    else none

-- `bytes.fromhex(None)` raises a TypeError.
unfoldable pub serialize_address : Text → Result Bytes
serialize_address address = do
  digits ← or_raise (remove_address_prefix address) type_error
  address_bytes ← fromhex digits
  raise_if (not (length address_bytes == 20)) wrong_value
  ok address_bytes

unfoldable pub serialize_content_hash : Text → Result Bytes
serialize_content_hash content_hash =
    fromhex (if starts_with (text "0x") content_hash then drop 2 content_hash else content_hash)

unfoldable pub serialize_ratio_part : ℤ → Result Bytes
serialize_ratio_part part = fromhex (zfill (drop 2 (hex part)) (15 * 2))
