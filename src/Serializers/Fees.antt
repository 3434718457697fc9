-- ===== src/Serializers/Fees.antt =====
-- `pack_fee`, `closest_packable_transaction_fee` and `packed_fee_checked`
use zksync_python.Prelude.{
  ℕ, ◌≤◌, ◌<◌, ◌≡◌, refl, sym, ap, ◌∙◌, ℤ, pos, ok, err, ok-injective, List, length, wrong_integer,
  value_not_packed, ◌⊎◌,
}
use zksync_python.Serializers.{
  float_to_integer, pack_fee, closest_packable_transaction_fee, packed_fee_checked,
}
use zksync_python.Serializers.Format
use zksync_python.Serializers.Format.{Rounds}

-- The numbers that the format of fees can hold, and the greatest of them.
abbrev pub IsFee : ℕ → Type 0
IsFee = Format.IsPackable 5 11

abbrev pub max_fee : ℕ
max_fee = Format.max_packable 5 11

rounded : (n : ℕ) → n ≤ max_fee → (r : ℕ) × (bytes : List ℕ) × Rounds 5 11 2 refl n r bytes
rounded = Format.pack-Rounds 5 11 2 refl

closest-Rounds :
    (n r : ℕ) (bytes : List ℕ)
    → Rounds 5 11 2 refl n r bytes
    → closest_packable_transaction_fee (pos n) ≡ ok r
unfolding closest_packable_transaction_fee pack_fee
closest-Rounds n r bytes rounds = rw rounds.packs rounds.reads

closest_too_large :
    (n : ℕ) → max_fee < n → closest_packable_transaction_fee (pos n) ≡ err wrong_integer
unfolding closest_packable_transaction_fee pack_fee
closest_too_large n h = rw (Format.pack_too_large 5 11 2 refl n h)

closest_packable_transaction_fee_rounds :
    (n : ℕ)
    → n ≤ max_fee
    → (r : ℕ) × (closest_packable_transaction_fee (pos n) ≡ ok r)
      × IsFee r
      × (r ≤ n)
      × ((r' : ℕ) → IsFee r' → r' ≤ n → r' ≤ r)
closest_packable_transaction_fee_rounds n h =
    let (r, bytes, rounds) = rounded n h in
    (r, closest-Rounds n r bytes rounds, rounds.packable, rounds.below, rounds.greatest)

-- For every fee from 0 to the greatest that the format holds, `closest_packable_transaction_fee` returns
-- a number of the format that does not exceed it, and no number of the format that does not exceed
-- it either is greater than the one returned.
closest_packable_transaction_fee-greatest :
    (n r' : ℕ)
    → n ≤ max_fee
    → IsFee r'
    → r' ≤ n
    → (r : ℕ) × (closest_packable_transaction_fee (pos n) ≡ ok r) × IsFee r × (r ≤ n) × (r' ≤ r)
closest_packable_transaction_fee-greatest n r' h packable le =
    let (r, found, packable_r, below, greatest) = closest_packable_transaction_fee_rounds n h in
    (r, found, packable_r, below, greatest r' packable le)

-- `packed_fee_checked` accepts every number that the format holds, and returns 2 bytes from
-- which `float_to_integer` reads that number.
pub packed_fee_checked_packable :
    (n : ℕ)
    → IsFee n
    → (bytes : List ℕ) × (packed_fee_checked (pos n) ≡ ok bytes)
      × (float_to_integer bytes 5 11 10 ≡ ok n)
      × (length bytes ≡ 2)
unfolding packed_fee_checked closest_packable_transaction_fee pack_fee
packed_fee_checked_packable = Format.checked_packable 5 11 2 refl

-- An integer that `packed_fee_checked` accepts is a number that the format holds, and
-- the 2 bytes that it returns read back as that integer.
pub packed_fee_checked_sound :
    (z : ℤ) (bytes : List ℕ)
    → packed_fee_checked z ≡ ok bytes
    → (n : ℕ) × (z ≡ pos n) × IsFee n × (float_to_integer bytes 5 11 10 ≡ ok n) × (length bytes ≡ 2)
unfolding packed_fee_checked closest_packable_transaction_fee pack_fee
packed_fee_checked_sound = Format.checked_sound 5 11 2 refl

-- `packed_fee_checked` does exactly one of three things with an integer: above the greatest number of
-- the format it raises WrongIntegerError; a number that the format holds it turns into bytes; and for
-- any other integer, negative ones included, it raises ValueNotPackedError.
pub packed_fee_checked_cases :
    (z : ℤ)
    → ((n : ℕ) × (z ≡ pos n) × (max_fee < n) × (packed_fee_checked z ≡ err wrong_integer))
      ⊎ (((n : ℕ) × (z ≡ pos n) × IsFee n × (bytes : List ℕ) × (packed_fee_checked z ≡ ok bytes))
          ⊎ (¬ ((n : ℕ) × (z ≡ pos n) × IsFee n) × (packed_fee_checked z ≡ err value_not_packed)))
unfolding packed_fee_checked closest_packable_transaction_fee pack_fee
packed_fee_checked_cases = Format.checked_cases 5 11 2 refl

-- Two integers that `packed_fee_checked` gives the same bytes are equal.
pub packed_fee_checked-injective :
    (y z : ℤ) (bytes : List ℕ)
    → packed_fee_checked y ≡ ok bytes
    → packed_fee_checked z ≡ ok bytes
    → y ≡ z
packed_fee_checked-injective y z bytes hy hz =
    let (m, same_y, _, read_y, _) = packed_fee_checked_sound y bytes hy in
    let (n, same_z, _, read_z, _) = packed_fee_checked_sound z bytes hz in
    same_y ∙ ap pos (ok-injective (sym read_y ∙ read_z)) ∙ sym same_z
