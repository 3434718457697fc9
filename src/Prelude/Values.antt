-- ===== src/Prelude/Values.antt =====
-- Values of JSON as Python holds them: the package sends and reads no numbers but integers. Texts
-- are lists of code points.
use Prim.Native.Nat.{ℕ}
use mathlib.Core.Bool.{Bool}
use mathlib.Core.List.{List, [], ◌∷◌}
use zksync_python.Prelude.Int.{ℤ}

mutual
  pub data Json : Type 0 where
    null : Json
    bool : Bool → Json
    int : ℤ → Json
    str : List ℕ → Json
    arr : Items → Json
    obj : Fields → Json

  pub data Items : Type 0 where
    nil : Items
    cons : Json → Items → Items

  pub data Fields : Type 0 where
    end : Fields
    field : List ℕ → Json → Fields → Fields

abbrev items : List Json → Items
items [] = nil
items (x ∷ xs) = cons x (items xs)

abbrev fields : List (List ℕ × Json) → Fields
fields [] = end
fields ((key, value) ∷ rest) = field key value (fields rest)

-- `[…]` and `{…}`
abbrev pub array : List Json → Json
array xs = arr (items xs)

abbrev pub object : List (List ℕ × Json) → Json
object fs = obj (fields fs)
