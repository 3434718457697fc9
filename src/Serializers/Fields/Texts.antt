-- ===== src/Serializers/Fields/Texts.antt =====
-- Addresses, hashes and ratio parts.
use zksync_python.Prelude.{
  ℕ, ◌^◌, ◌<◌, ◌≡◌, sym, ◌∙◌, ◌++◌, length, arith, false, not, All, Option, none, some, pos, Result,
  ok, err, ◌>>=◌, ◌>>◌, raise_if, or_raise, ◌==◌, wrong_value, type_error,
}
use zksync_python.Python.Text.{Text, text, starts_with, lower}
use zksync_python.Python.Hex.{Bytes, fromhex, bytes_hex, fromhex-bytes_hex, fromhex-lower, hex}
use zksync_python.Python.Bytes.{to_bytes_fits, fromhex-zfill}
use zksync_python.Serializers.Fields.{
  int_to_bytes, remove_address_prefix, serialize_address, serialize_ratio_part,
}

-- The end of `serialize_address`, behind the prefix.
abbrev address_body : Text → Result Bytes
address_body digits = do
  address_bytes ← fromhex digits
  raise_if (not (length address_bytes == 20)) wrong_value
  ok address_bytes

body_sized :
    (r : Result Bytes) (bytes : Bytes)
    → (r >>= λ bs. raise_if (not (length bs == 20)) wrong_value >> ok bs) ≡ ok bytes
    → length bytes ≡ 20
body_sized (err e) bytes h = cc
body_sized (ok bs) bytes h = ground arith

prefixed_sized :
    (o : Option Text) (bytes : Bytes)
    → (or_raise o type_error >>= address_body) ≡ ok bytes
    → length bytes ≡ 20
prefixed_sized none bytes h = cc
prefixed_sized (some digits) bytes h = body_sized (fromhex digits) bytes h

-- An address that is accepted has 20 bytes.
pub serialize_address_sized :
    (address : Text) (bytes : Bytes) → serialize_address address ≡ ok bytes → length bytes ≡ 20
unfolding serialize_address
serialize_address_sized address bytes h = prefixed_sized (remove_address_prefix address) bytes h

-- Every 20 bytes, in hexadecimal behind "0x" or "sync:", are read back as they were.
serialize_address-bytes_hex :
    (bytes : Bytes)
    → All (λ b. b < 256) bytes
    → length bytes ≡ 20
    → (serialize_address (text "0x" ++ bytes_hex bytes) ≡ ok bytes)
      × (serialize_address (text "sync:" ++ bytes_hex bytes) ≡ ok bytes)
unfolding serialize_address remove_address_prefix
serialize_address-bytes_hex bytes h n =
    let read = fromhex-bytes_hex bytes h in (rw (read, n), rw (read, n))

-- The letters' case does not change what an address with a prefix stands for.
serialize_address-lower :
    (digits : Text)
    → (serialize_address (lower (text "0x" ++ digits)) ≡ serialize_address (text "0x" ++ digits))
      × (serialize_address (lower (text "sync:" ++ digits))
          ≡ serialize_address (text "sync:" ++ digits))
unfolding serialize_address remove_address_prefix
serialize_address-lower digits = (rw (fromhex-lower digits), rw (fromhex-lower digits))

-- Without one of the two prefixes `None` reaches `bytes.fromhex`, which raises a TypeError.
serialize_address_no_prefix :
    (address : Text)
    → starts_with (text "0x") address ≡ false
    → starts_with (text "sync:") address ≡ false
    → serialize_address address ≡ err type_error
unfolding serialize_address remove_address_prefix
serialize_address_no_prefix address h k = rw (h, k)

-- A ratio part below 2^120 is written as its 15 big-endian bytes.
pub serialize_ratio_part-int_to_bytes :
    (n : ℕ) → n < 256 ^ 15 → serialize_ratio_part (pos n) ≡ int_to_bytes (pos n) 15
unfolding serialize_ratio_part int_to_bytes hex
serialize_ratio_part-int_to_bytes n h =
    fromhex-zfill 15 n (omega arith) (omega arith) h ∙ sym (to_bytes_fits n 15 h)
