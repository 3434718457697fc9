-- ===== src/Serializers/Amounts.antt =====
-- `pack_amount`, `closest_packable_amount` and `packed_amount_checked`
use zksync_python.Prelude.{
  ℕ, ◌≤◌, ◌<◌, ◌≡◌, refl, sym, ap, ◌∙◌, arith, ℤ, pos, ok, err, ok-injective, List, length,
  wrong_integer, value_not_packed, ◌⊎◌,
}
use native.Mathlib.Decide.{dec_le}
use zksync_python.Serializers.{
  float_to_integer, pack_amount, closest_packable_amount, packed_amount_checked,
}
use zksync_python.Serializers.Format
use zksync_python.Serializers.Format.{Rounds}

-- The numbers that the format of amounts can hold, and the greatest of them.
abbrev pub IsAmount : ℕ → Type 0
IsAmount = Format.IsPackable 5 35

abbrev pub max_amount : ℕ
max_amount = Format.max_packable 5 35

rounded : (n : ℕ) → n ≤ max_amount → (r : ℕ) × (bytes : List ℕ) × Rounds 5 35 5 refl n r bytes
rounded = Format.pack-Rounds 5 35 5 refl

closest-Rounds :
    (n r : ℕ) (bytes : List ℕ)
    → Rounds 5 35 5 refl n r bytes
    → closest_packable_amount (pos n) ≡ ok r
unfolding closest_packable_amount pack_amount
closest-Rounds n r bytes rounds = rw rounds.packs rounds.reads

closest_too_large : (n : ℕ) → max_amount < n → closest_packable_amount (pos n) ≡ err wrong_integer
unfolding closest_packable_amount pack_amount
closest_too_large n h = rw (Format.pack_too_large 5 35 5 refl n h)

closest_packable_amount_rounds :
    (n : ℕ)
    → n ≤ max_amount
    → (r : ℕ) × (closest_packable_amount (pos n) ≡ ok r)
      × IsAmount r
      × (r ≤ n)
      × ((r' : ℕ) → IsAmount r' → r' ≤ n → r' ≤ r)
closest_packable_amount_rounds n h =
    let (r, bytes, rounds) = rounded n h in
    (r, closest-Rounds n r bytes rounds, rounds.packable, rounds.below, rounds.greatest)

-- For every amount from 0 to the greatest that the format holds, `closest_packable_amount` returns
-- a number of the format that does not exceed it, and no number of the format that does not exceed
-- it either is greater than the one returned.
pub closest_packable_amount-greatest :
    (n r' : ℕ)
    → n ≤ max_amount
    → IsAmount r'
    → r' ≤ n
    → (r : ℕ) × (closest_packable_amount (pos n) ≡ ok r) × IsAmount r × (r ≤ n) × (r' ≤ r)
closest_packable_amount-greatest n r' h packable le =
    let (r, found, packable_r, below, greatest) = closest_packable_amount_rounds n h in
    (r, found, packable_r, below, greatest r' packable le)

-- Where `closest_packable_amount` returns a number, it returns that number again for its own
-- result.
closest_packable_amount_idem :
    (n r : ℕ) → closest_packable_amount (pos n) ≡ ok r → closest_packable_amount (pos r) ≡ ok r
closest_packable_amount_idem n r h = elim (dec_le n max_amount) [
  | no gt ↦ cc (closest_too_large n (omega arith))
  | yes le ↦
      let (s, found, packable, below, greatest) = closest_packable_amount_rounds n le in
      let same : s ≡ r = ok-injective (sym found ∙ h) in
      let (t, again, packable_t, below_t, greatest_t) =
        closest_packable_amount_rounds r (omega arith) in
      let fixed : t ≡ r = omega (arith, greatest_t s packable (omega arith)) in rw fixed at again
]

-- Of two numbers in range the larger is not rounded to less than the smaller.
closest_packable_amount_mono :
    (a b r s : ℕ)
    → a ≤ b
    → b ≤ max_amount
    → closest_packable_amount (pos a) ≡ ok r
    → closest_packable_amount (pos b) ≡ ok s
    → r ≤ s
closest_packable_amount_mono a b r s le fits ha hb =
    let (r', found_a, packable_a, below_a, _) = closest_packable_amount_rounds a (omega arith) in
    let (s', found_b, _, _, greatest_b) = closest_packable_amount_rounds b fits in
    let same_a : r' ≡ r = ok-injective (sym found_a ∙ ha) in
    let same_b : s' ≡ s = ok-injective (sym found_b ∙ hb) in
    omega (arith, greatest_b r' packable_a (omega arith))

-- `packed_amount_checked` accepts every number that the format holds, and returns 5 bytes from
-- which `float_to_integer` reads that number.
pub packed_amount_checked_packable :
    (n : ℕ)
    → IsAmount n
    → (bytes : List ℕ) × (packed_amount_checked (pos n) ≡ ok bytes)
      × (float_to_integer bytes 5 35 10 ≡ ok n)
      × (length bytes ≡ 5)
unfolding packed_amount_checked closest_packable_amount pack_amount
packed_amount_checked_packable = Format.checked_packable 5 35 5 refl

-- An integer that `packed_amount_checked` accepts is a number that the format holds, and
-- the 5 bytes that it returns read back as that integer.
pub packed_amount_checked_sound :
    (z : ℤ) (bytes : List ℕ)
    → packed_amount_checked z ≡ ok bytes
    → (n : ℕ) × (z ≡ pos n)
      × IsAmount n
      × (float_to_integer bytes 5 35 10 ≡ ok n)
      × (length bytes ≡ 5)
unfolding packed_amount_checked closest_packable_amount pack_amount
packed_amount_checked_sound = Format.checked_sound 5 35 5 refl

-- `packed_amount_checked` does exactly one of three things with an integer: above the greatest number of
-- the format it raises WrongIntegerError; a number that the format holds it turns into bytes; and for
-- any other integer, negative ones included, it raises ValueNotPackedError.
pub packed_amount_checked_cases :
    (z : ℤ)
    → ((n : ℕ) × (z ≡ pos n) × (max_amount < n) × (packed_amount_checked z ≡ err wrong_integer))
      ⊎ (((n : ℕ) × (z ≡ pos n)
            × IsAmount n
            × (bytes : List ℕ) × (packed_amount_checked z ≡ ok bytes))
          ⊎ (¬ ((n : ℕ) × (z ≡ pos n) × IsAmount n)
              × (packed_amount_checked z ≡ err value_not_packed)))
unfolding packed_amount_checked closest_packable_amount pack_amount
packed_amount_checked_cases = Format.checked_cases 5 35 5 refl

-- Two integers that `packed_amount_checked` gives the same bytes are equal.
pub packed_amount_checked-injective :
    (y z : ℤ) (bytes : List ℕ)
    → packed_amount_checked y ≡ ok bytes
    → packed_amount_checked z ≡ ok bytes
    → y ≡ z
packed_amount_checked-injective y z bytes hy hz =
    let (m, same_y, _, read_y, _) = packed_amount_checked_sound y bytes hy in
    let (n, same_z, _, read_z, _) = packed_amount_checked_sound z bytes hz in
    same_y ∙ ap pos (ok-injective (sym read_y ∙ read_z)) ∙ sym same_z
