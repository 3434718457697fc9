-- ===== src/Prelude/Results.antt =====
-- Python's exceptions as values.
use Prim.Native.Nat.{ℕ}
use mathlib.Core.List.{List}
use zksync_python.Prelude.Values.{Json}
use mathlib.Core.Path.{◌≡◌, refl}
use mathlib.Core.Bool.{Bool, true, false}
use mathlib.Core.Option.{Option, none, some}
use mathlib.Core.Logic.{◌⊎◌, inl, inr}

-- The exceptions of the package, then those of Python itself. `out_of_fuel` is no exception: it
-- marks a loop of the model that was given too few rounds.
pub data Error : Type 0 where
  wrong_integer wrong_bits value_not_packed wrong_value : Error
  token_not_found amounts_missing : Error
  account_does_not_exist : (address : List ℕ) → Error
  provider_error : (status : ℕ) → Error
  response_error : (code text : Json) → Error
  overflow_error value_error type_error index_error attribute_error assertion_error key_error :
      Error
  zero_division_error : Error
  invalid_operation : Error
  out_of_fuel : Error

pub data Result {ℓ} (A : Type ℓ) : Type ℓ where
  ok : A → Result A
  err : Error → Result A

-- `if test: raise e`
abbrev pub raise_if : Bool → Error → Result (Unit {0})
raise_if true e = err e
raise_if false e = ok tt

abbrev pub or_raise {ℓ} : {A : Type ℓ} → Option A → Error → Result A
or_raise none e = err e
or_raise (some a) e = ok a

-- A step and what follows it: an exception skips the rest.
module _ {ℓ κ} {A : Type ℓ} {B : Type κ} where
  infixl 5 ◌>>=◌
  abbrev pub ◌>>=◌ : Result A → (next : A → Result B) → Result B
  err e >>= next = err e
  ok value >>= next = next value

-- A guard and what follows it.
infixl 5 ◌>>◌
abbrev pub ◌>>◌ {κ} : {B : Type κ} → (check : Result (Unit {0})) (rest : Result B) → Result B
check >> rest = check >>= λ _. rest

-- A chain that succeeds ran both of its parts.
module _ {ℓ κ} {A : Type ℓ} {B : Type κ} {b : B} where
  pub >>=-eq-ok :
      (step : Result A) (next : A → Result B)
      → (step >>= next) ≡ ok b
      → (value : A) × (step ≡ ok value) × (next value ≡ ok b)
  >>=-eq-ok (err e) next raised = cc
  >>=-eq-ok (ok value) next returned = (value, refl, returned)

pub ok-injective {ℓ} : {A : Type ℓ} {a b : A} → ok a ≡ ok b → a ≡ b
ok-injective h = cc

pub Result-cases {ℓ} :
    {A : Type ℓ} (r : Result A) → ((a : A) × (r ≡ ok a)) ⊎ ((e : Error) × (r ≡ err e))
Result-cases (ok a) = inl (a, refl)
Result-cases (err e) = inr (e, refl)
