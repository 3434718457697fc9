-- ===== src/Serializers/Fields/Numbers.antt =====
-- The number fields: their width, when they are accepted, and that the bytes determine the number.
use zksync_python.Prelude.{
  ℕ, ◌^◌, ◌≡◌, refl, sym, ap, ◌∙◌, [], ◌++◌, length, drop, replicate, arith, true, false, Bool, pos,
  negsuc, Result, ok, err, ◌>>=◌, ◌>>◌, raise_if, ltb, leb, if◌then◌else◌, wrong_value,
  overflow_error,
}
use zksync_python.Python.Hex.{Bytes, to_bytes}
use zksync_python.Python.Bytes.{to_bytes_sound, to_bytes-injective}
use zksync_python.Python.Digits.{fixed_digits}
use zksync_python.Serializers.Fields.{
  int_to_bytes, serialize_nonce, serialize_timestamp, serialize_token_id, serialize_account_id,
}

-- A field of `width` bytes: what is accepted has that width and is determined by its bytes.
pub record IsField {ℓ} {A : Type ℓ} (serialize : A → Result Bytes) (width : ℕ) : Type ℓ where
  pub sized : (a : A) (bytes : Bytes) → serialize a ≡ ok bytes → length bytes ≡ width
  pub injective :
      (a b : A) (bytes : Bytes) → serialize a ≡ ok bytes → serialize b ≡ ok bytes → a ≡ b

pub int_to_bytes-IsField : (width : ℕ) → IsField (λ z. int_to_bytes z width) width
unfolding int_to_bytes
int_to_bytes-IsField width = record {
  sized = λ z bytes h. let (_, _, _, len, _, _) = to_bytes_sound z width bytes h in len;
  injective = λ y z bytes hy hz. to_bytes-injective y z width bytes hy hz;
}

-- A guard in front of a field only narrows what is accepted.
guard-ok :
    (test : Bool) (r : Result Bytes) (bytes : Bytes)
    → (raise_if test wrong_value >> r) ≡ ok bytes
    → (test ≡ false) × (r ≡ ok bytes)
guard-ok true r bytes h = cc
guard-ok false r bytes h = (refl, h)

guard-IsField {ℓ} :
    {A : Type ℓ} (test : A → Bool) (serialize : A → Result Bytes) (width : ℕ)
    → IsField serialize width
    → IsField (λ a. raise_if (test a) wrong_value >> serialize a) width
guard-IsField test serialize width f = record {
  sized = λ a bytes h. f.sized a bytes (guard-ok (test a) (serialize a) bytes h).1;
  injective = λ a b bytes ha hb.
      f.injective a b bytes (guard-ok (test a) (serialize a) bytes ha).1
        (guard-ok (test b) (serialize b) bytes hb).1;
}

pub serialize_nonce-IsField : IsField serialize_nonce 4
unfolding serialize_nonce
serialize_nonce-IsField = guard-IsField _ _ 4 (int_to_bytes-IsField 4)

pub serialize_token_id-IsField : IsField serialize_token_id 4
unfolding serialize_token_id
serialize_token_id-IsField = guard-IsField _ _ 4 (guard-IsField _ _ 4 (int_to_bytes-IsField 4))

pub serialize_account_id-IsField : IsField serialize_account_id 4
unfolding serialize_account_id
serialize_account_id-IsField = guard-IsField _ _ 4 (guard-IsField _ _ 4 (int_to_bytes-IsField 4))

timestamp_bytes :
    (r : Result Bytes) (bytes : Bytes)
    → (r >>= λ low. ok (replicate 4 0 ++ low)) ≡ ok bytes
    → (low : Bytes) × (r ≡ ok low) × (bytes ≡ replicate 4 0 ++ low)
timestamp_bytes (ok low) bytes h = (low, refl, cc)
timestamp_bytes (err e) bytes h = cc

pub serialize_timestamp-IsField : IsField serialize_timestamp 8
unfolding serialize_timestamp
serialize_timestamp-IsField = guard-IsField _ _ 8 (record {
  sized = λ z bytes h.
      let (low, run, same) = timestamp_bytes (int_to_bytes z 4) bytes h in
      omega (arith, ap (length {A = ℕ}) same, (int_to_bytes-IsField 4).sized z low run);
  injective = λ y z bytes hy hz.
      let (low, run, same) = timestamp_bytes (int_to_bytes y 4) bytes hy in
      let (low', run', same') = timestamp_bytes (int_to_bytes z 4) bytes hz in
      let tails : low ≡ low' = ap (drop 4) (sym same ∙ same') in
      (int_to_bytes-IsField 4).injective y z low' (rw tails at run) run';
})

-- The nonce, the timestamps, the token id and the account id are accepted exactly from 0 to
-- 2^32 - 1, except that the account id ends at 2^24. A negative number raises WrongValueError.
-- Above its end a token id and an account id raise WrongValueError too, a nonce or a timestamp
-- the OverflowError of `int.to_bytes`. The bytes are the number's big-endian digits, behind four
-- zeros for a timestamp.
pub number_fields_lem :
    (n : ℕ)
    → let bytes = fixed_digits 256 4 n [] in
      (serialize_nonce (negsuc n) ≡ err wrong_value)
      × (serialize_timestamp (negsuc n) ≡ err wrong_value)
      × (serialize_token_id (negsuc n) ≡ err wrong_value)
      × (serialize_account_id (negsuc n) ≡ err wrong_value)
      × (serialize_nonce (pos n) ≡ (if ltb n (2 ^ 32) then ok bytes else err overflow_error))
      × (serialize_timestamp (pos n)
          ≡ (if ltb n (2 ^ 32) then ok (replicate 4 0 ++ bytes) else err overflow_error))
      × (serialize_token_id (pos n) ≡ (if ltb n (2 ^ 32) then ok bytes else err wrong_value))
      × (serialize_account_id (pos n) ≡ (if leb n (2 ^ 24) then ok bytes else err wrong_value))
unfolding serialize_nonce serialize_timestamp serialize_token_id serialize_account_id int_to_bytes
    to_bytes
number_fields_lem n =
    (refl, refl, refl, refl, ground arith, ground arith, ground arith, ground arith)
