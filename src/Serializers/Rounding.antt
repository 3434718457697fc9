-- ===== src/Serializers/Rounding.antt =====
-- The search for the exponent and the choice of the mantissa, in plain arithmetic: the number that
-- is written is the greatest one of the format that does not exceed the argument.
use zksync_python.Prelude.{
  ℕ, zero, suc, ◌+◌, ◌-◌, ◌*◌, ◌/◌, ◌^◌, ◌≤◌, ◌<◌, ◌≡◌, refl, sym, ap, ◌∙◌, Bool-cases, inl, inr,
  ltb, ◌≢◌, arith, ℤ, pos, negsuc, false, negsuc, ok, ltb→lt, ltb_ℤ, ◌-ℤ◌,
}
use native.Mathlib.Decide.{dec_lt, dec_le}
use native.Mathlib.Nat.{
  pow-suc, pow-zero, add-zero, add-suc, mul_assoc, mul_comm, mul-le-mul, mul-le-mul_left,
  pow-le-pow_right, le-div_iff_mul-le, le_trans, one-le-pow, mul-div-le, mul-div_cancel,
  div-le_of_le-mul, le_refl,
}
use native.Mathlib.Numerals.{add-one}
use zksync_python.Serializers.{find_exponent, choose_mantissa}

-- What the loop leaves: the least exponent from `e` on at which `n` fits the mantissa.
pub record Found (n max_mantissa base e top k : ℕ) : Type 0 where
  pub lower : e ≤ k
  pub upper : k ≤ top
  pub fits : n ≤ max_mantissa * base ^ k
  pub tight : (j : ℕ) → e ≤ j → j < k → max_mantissa * base ^ j < n

module _ (n max_mantissa base top : ℕ) (bounded : n ≤ max_mantissa * base ^ top) where
  -- While the number does not fit, the last exponent is not reached.
  top-ne : (e : ℕ) → max_mantissa * base ^ e < n → e ≢ top
  top-ne e below same = absurd (omega (arith, rw same at below))

  Found-extend :
      (e k : ℕ)
      → max_mantissa * base ^ e < n
      → Found n max_mantissa base (e + 1) top k
      → Found n max_mantissa base e top k
  Found-extend e k below found = record {
    lower = omega arith;
    upper = found.upper;
    fits = found.fits;
    tight = λ j lo hi. elim (dec_lt e j) [
      | yes p ↦ found.tight j (omega arith) hi
      | no p ↦ let same : j ≡ e = omega arith in rw same below
    ];
  }

  -- The loop ends within the fuel, at the least exponent that serves.
  pub find_exponent-Found :
      (fuel e : ℕ)
      → e ≤ top
      → top < e + fuel
      → (k : ℕ) × (find_exponent fuel (pos n) max_mantissa base e (base ^ e) ≡ ok (k, base ^ k))
        × Found n max_mantissa base e top k
  unfolding find_exponent
  find_exponent-Found zero e h room = absurd (omega arith)
  find_exponent-Found (suc fuel) e h room = elim (Bool-cases (ltb (max_mantissa * base ^ e) n)) [
    | inl more ↦
        let power : base ^ (e + 1) ≡ base ^ e * base = rw add-one (pow-suc base e) in
        let below = ltb→lt (max_mantissa * base ^ e) n more in
        let unfinished = top-ne e below in
        let (k, run, found) =
          rw power at (find_exponent-Found fuel (e + 1) (omega arith) (omega arith)) in
        (k, rw more run, Found-extend e k below found)
    | inr done ↦ (
      e,
      rw done,
      record {
        lower = omega arith;
        upper = h;
        fits = ground arith;
        tight = λ j lo hi. absurd (omega arith);
      },
    )
  ]

pow-add : (base i j : ℕ) → base ^ (i + j) ≡ base ^ i * base ^ j
pow-add base i zero = rw (add-zero, pow-zero) (omega arith)
pow-add base i (suc j) =
    rw (add-suc, pow-suc, pow-add base i j)
      (mul_assoc (base ^ i) (base ^ j) base ∙ ap (λ (t : ℕ). base ^ i * t) (sym (pow-suc base j)))

-- What the choice of the mantissa leaves: of the numbers of the format that do not exceed `n`, the
-- greatest.
pub record Greatest (n max_mantissa base top m e : ℕ) : Type 0 where
  pub mantissa_fits : m ≤ max_mantissa
  pub exponent_fits : e ≤ top
  pub below : base ^ e * m ≤ n
  pub greatest :
      (m' e' : ℕ)
      → m' ≤ max_mantissa
      → e' ≤ top
      → base ^ e' * m' ≤ n
      → base ^ e' * m' ≤ base ^ e * m

-- The smaller difference belongs to the larger candidate.
compare_diffs :
    (n v1 v2 : ℕ) → v1 ≤ n → v2 ≤ n → ltb_ℤ (pos n -ℤ pos v2) (pos n -ℤ pos v1) ≡ ltb v1 v2
compare_diffs n v1 v2 h1 h2 = ground arith

module _ (n max_mantissa base : ℕ) (base_pos : 0 < base) where
  -- A number of the format with an exponent of at least `k` is a multiple of `base ^ k`.
  high_exponent : (k m e : ℕ) → k ≤ e → base ^ e * m ≤ n → base ^ e * m ≤ base ^ k * (n / base ^ k)
  high_exponent k m e h le =
      let exponent : e ≡ k + (e - k) = omega arith in
      let split : base ^ e * m ≡ base ^ k * (base ^ (e - k) * m) =
        ap (λ (t : ℕ). base ^ t * m) exponent
        ∙ ap (λ (t : ℕ). t * m) (pow-add base k (e - k))
        ∙ mul_assoc (base ^ k) (base ^ (e - k)) m in
      let multiple : base ^ (e - k) * m * base ^ k ≤ n =
        rw (mul_comm (base ^ (e - k) * m) (base ^ k)) (rw split at le) in
      rw split
        (mul-le-mul_left (base ^ k) ((le-div_iff_mul-le (one-le-pow k base base_pos)).1 multiple))

  -- One with a lower exponent has a mantissa of `max_mantissa` at most.
  low_exponent : (k m e : ℕ) → e ≤ k → m ≤ max_mantissa → base ^ e * m ≤ base ^ k * max_mantissa
  low_exponent k m e h fits = mul-le-mul (pow-le-pow_right base_pos h) fits

  -- With no exponent the number is written as it is.
  choose_none :
      (top : ℕ)
      → n ≤ max_mantissa
      → (choose_mantissa (pos n) max_mantissa base 0 1 ≡ (pos n, 0))
        × Greatest n max_mantissa base top n 0
  unfolding choose_mantissa
  choose_none top fits = (
    λ i. (pos (whole i), 0),
    record {
      mantissa_fits = fits;
      exponent_fits = omega arith;
      below = omega (arith, written);
      greatest = λ m' e' hm he le. omega (arith, written);
    },
  )
    where
      whole : n / 1 ≡ n
      whole = omega arith

      written : base ^ 0 * n ≡ n
      written = rw (pow-zero base) (omega arith)

  cut_Greatest :
      (top k : ℕ)
      → Found n max_mantissa base 0 top (suc k)
      → base ^ k * max_mantissa ≤ base ^ suc k * (n / base ^ suc k)
      → Greatest n max_mantissa base top (n / base ^ suc k) (suc k)
  cut_Greatest top k found larger = record {
    mantissa_fits =
        div-le_of_le-mul (base ^ suc k) (rw (mul_comm (base ^ suc k) max_mantissa) found.fits);
    exponent_fits = found.upper;
    below = mul-div-le n (base ^ suc k);
    greatest = λ m' e' hm he le. elim (dec_le e' k) [
      | yes p ↦ le_trans (low_exponent k m' e' p hm) larger
      | no p ↦ high_exponent (suc k) m' e' (omega arith) le
    ];
  }

  nines_Greatest :
      (top k : ℕ)
      → Found n max_mantissa base 0 top (suc k)
      → base ^ suc k * (n / base ^ suc k) < base ^ k * max_mantissa
      → Greatest n max_mantissa base top max_mantissa k
  nines_Greatest top k found larger = record {
    mantissa_fits = le_refl max_mantissa;
    exponent_fits = omega (arith, found.upper);
    below = omega (arith, found.tight k (omega arith) (omega arith));
    greatest = λ m' e' hm he le. elim (dec_le e' k) [
      | yes p ↦ low_exponent k m' e' p hm
      | no p ↦ omega (arith, high_exponent (suc k) m' e' (omega arith) le)
    ];
  }

  lowered_power : (k : ℕ) → base ^ suc k / base ≡ base ^ k
  lowered_power k = rw (pow-suc base k) (mul-div_cancel (base ^ k) base_pos)

  -- Otherwise it is cut to the mantissa's digits, unless the greatest mantissa with the exponent
  -- before is larger.
  choose_some :
      (top k : ℕ)
      → Found n max_mantissa base 0 top (suc k)
      → (m e : ℕ) × (choose_mantissa (pos n) max_mantissa base (suc k) (base ^ suc k) ≡ (pos m, e))
        × Greatest n max_mantissa base top m e
  unfolding choose_mantissa
  choose_some top k found =
      let cut = base ^ suc k * (n / base ^ suc k) in
      let nines = base ^ k * max_mantissa in
      let test =
        compare_diffs n cut nines (mul-div-le n (base ^ suc k))
          (omega (arith, found.tight k (omega arith) (omega arith))) in
      rw (lowered_power k, test)
        (elim (Bool-cases (ltb cut nines)) [
          | inl larger ↦ (
            max_mantissa,
            k,
            rw larger (ground arith),
            nines_Greatest top k found (ltb→lt cut nines larger),
          )
          | inr other ↦ (
            n / base ^ suc k,
            suc k,
            rw other (ground arith),
            cut_Greatest top k found (ground arith),
          )
        ])

  -- The choice after the loop, whichever exponent it found.
  pub choose_mantissa-Greatest :
      (top k : ℕ)
      → Found n max_mantissa base 0 top k
      → (m e : ℕ) × (choose_mantissa (pos n) max_mantissa base k (base ^ k) ≡ (pos m, e))
        × Greatest n max_mantissa base top m e
  choose_mantissa-Greatest top zero found =
      let fits : n ≤ max_mantissa * 1 = rw (pow-zero base) at found.fits in
      let (run, g) = choose_none top (omega arith) in (n, 0, rw (pow-zero base) run, g)
  choose_mantissa-Greatest top (suc k) found = choose_some top k found

-- The loop of `integer_to_float` ends within its fuel for every integer that passes the range check.
pub find_exponent_total :
    (z : ℤ) (max_mantissa base fuel : ℕ)
    → 0 < fuel
    → ltb_ℤ (pos (max_mantissa * base ^ (fuel - 1))) z ≡ false
    → (r : ℕ × ℕ) × (find_exponent fuel z max_mantissa base 0 1 ≡ ok r)
find_exponent_total (pos n) max_mantissa base fuel h in_range =
    let bounded : n ≤ max_mantissa * base ^ (fuel - 1) = ground arith in
    let (k, run, _) =
      find_exponent-Found n max_mantissa base (fuel - 1) bounded fuel 0 (omega arith)
        (omega arith) in
    ((k, base ^ k), rw (pow-zero base) at run)
find_exponent_total (negsuc n) max_mantissa base zero h in_range = absurd (omega arith)
find_exponent_total (negsuc n) max_mantissa base (suc fuel) h in_range =
    ((0, 1), unfold find_exponent in refl)
