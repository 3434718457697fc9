-- ===== src/Serializers/Reversal.antt =====
-- `reverse_bit`, which nothing calls.
use zksync_python.Prelude.{
  ℕ, zero, suc, ◌<◌, ◌≡◌, refl, ap, ◌∙◌, Bool, true, ◌&&◌, reverse, pos, ◌==◌, ==_iff, Bool-cases,
  inl, inr, arith,
}
use zksync_python.Python.Text.{eqb_text, eqb_text_sound}
use zksync_python.Serializers.{reverse_bit, num_to_bits}

abbrev all_below : ℕ → (ℕ → Bool) → Bool
all_below zero test = true
all_below (suc n) test = test n && all_below n test

all_below_sound :
    (n : ℕ) (test : ℕ → Bool) → all_below n test ≡ true → (k : ℕ) → k < n → test k ≡ true
all_below_sound zero test h k lt = ground arith
all_below_sound (suc n) test h k lt = elim (Bool-cases (k == n)) [
  | inl same ↦ let first : test n ≡ true = ground arith in ap test ((==_iff k n).0 same) ∙ first
  | inr other ↦ all_below_sound n test (ground arith) k (ground arith)
]

every_byte :
    all_below 256
      (λ b. eqb_text (num_to_bits (pos (reverse_bit b)) 8) (reverse (num_to_bits (pos b) 8)))
    ≡ true
unfolding reverse_bit num_to_bits
every_byte = refl

-- The bits of `reverse_bit` of a byte are those of the byte in the reverse order.
num_to_bits-reverse_bit :
    (b : ℕ) → b < 256 → num_to_bits (pos (reverse_bit b)) 8 ≡ reverse (num_to_bits (pos b) 8)
num_to_bits-reverse_bit b h = eqb_text_sound _ _ (
    all_below_sound 256
      (λ b. eqb_text (num_to_bits (pos (reverse_bit b)) 8) (reverse (num_to_bits (pos b) 8)))
      every_byte b h)
