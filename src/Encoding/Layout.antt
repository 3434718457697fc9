-- ===== src/Encoding/Layout.antt =====
-- Fields of fixed widths behind one another: the length of the whole, and that the whole determines
-- each field.
use zksync_python.Prelude.{
  ℕ, ◌+◌, ◌≡◌, refl, sym, ap, ◌∙◌, List, [], ◌∷◌, ◌++◌, length, length-append, append-injective,
  Result, ok, err, ◌>>=◌, arith, ok-injective,
}
use zksync_python.Python.Hex.{Bytes}
use zksync_python.Encoding.{join}

-- Each field, if it succeeds, has the width at its place.
abbrev pub HasWidths : List ℕ → List (Result Bytes) → Type 0
HasWidths [] [] = Unit
HasWidths [] (field ∷ fields) = ⊥
HasWidths (width ∷ widths) [] = ⊥
HasWidths (width ∷ widths) (field ∷ fields) =
    ((bytes : Bytes) → field ≡ ok bytes → length bytes ≡ width) × HasWidths widths fields

abbrev pub total : List ℕ → ℕ
total [] = 0
total (width ∷ widths) = width + total widths

-- Both fields succeed with the same bytes.
abbrev pub SameField : Result Bytes → Result Bytes → Type 0
SameField r s = (bytes : Bytes) × (r ≡ ok bytes) × (s ≡ ok bytes)

abbrev pub SameFields : List (Result Bytes) → List (Result Bytes) → Type 0
SameFields [] [] = Unit
SameFields [] (s ∷ ss) = ⊥
SameFields (r ∷ rs) [] = ⊥
SameFields (r ∷ rs) (s ∷ ss) = SameField r s × SameFields rs ss

pub join_cons :
    (field : Result Bytes) (fields : List (Result Bytes)) (bytes : Bytes)
    → join (field ∷ fields) ≡ ok bytes
    → (front : Bytes) × (rest : Bytes) × (field ≡ ok front)
      × (join fields ≡ ok rest)
      × (bytes ≡ front ++ rest)
join_cons (err e) fields bytes h = cc
join_cons (ok front) fields bytes h = join_rest front (join fields) bytes h
  where
    join_rest :
        (front : Bytes) (tail : Result Bytes) (bytes : Bytes)
        → (tail >>= λ rest. ok (front ++ rest)) ≡ ok bytes
        → (front' : Bytes) × (rest : Bytes) × (ok front ≡ ok front')
          × (tail ≡ ok rest)
          × (bytes ≡ front' ++ rest)
    join_rest front (err e) bytes h = cc
    join_rest front (ok rest) bytes h = (front, rest, refl, refl, sym (ok-injective h))

pub length-join :
    (widths : List ℕ) (fields : List (Result Bytes)) (bytes : Bytes)
    → HasWidths widths fields
    → join fields ≡ ok bytes
    → length bytes ≡ total widths
length-join [] [] bytes w h = ap length (sym (ok-injective h))
length-join [] (field ∷ fields) bytes w h = absurd w
length-join (width ∷ widths) [] bytes w h = absurd w
length-join (width ∷ widths) (field ∷ fields) bytes (here, w) h =
    let (front, rest, run, more, same) = join_cons field fields bytes h in
    omega (
      arith,
      ap (length {A = ℕ}) same,
      length-append front rest,
      here front run,
      length-join widths fields rest w more,
    )

pub join-SameFields :
    (widths : List ℕ) (rs ss : List (Result Bytes)) (bytes : Bytes)
    → HasWidths widths rs
    → HasWidths widths ss
    → join rs ≡ ok bytes
    → join ss ≡ ok bytes
    → SameFields rs ss
join-SameFields [] [] [] bytes w v h k = tt
join-SameFields [] [] (s ∷ ss) bytes w v h k = absurd v
join-SameFields [] (r ∷ rs) ss bytes w v h k = absurd w
join-SameFields (width ∷ widths) [] ss bytes w v h k = absurd w
join-SameFields (width ∷ widths) (r ∷ rs) [] bytes w v h k = absurd v
join-SameFields (width ∷ widths) (r ∷ rs) (s ∷ ss) bytes (here, w) (there, v) h k =
    let (front, rest, run, more, same) = join_cons r rs bytes h in
    let (front', rest', run', more', same') = join_cons s ss bytes k in
    let (fronts, rests) =
      append-injective front front' rest rest' (here front run ∙ sym (there front' run'))
        (sym same ∙ same') in
    (
      (front', run ∙ ap ok fronts, run'),
      join-SameFields widths rs ss rest' w v (more ∙ ap ok rests) more',
    )
