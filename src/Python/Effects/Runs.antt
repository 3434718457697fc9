-- ===== src/Python/Effects/Runs.antt =====
-- How a chain of statements that succeeds has run, step by step.
use zksync_python.Prelude.{◌≡◌, refl, sym, ap, ◌∙◌, Error, Result, ok, err}
use zksync_python.Python.Effects.{◌>>=◌}

-- Both parts of a bind that succeeds have succeeded.
pub bind-eq-ok :
    {S A B : Type 0} (m : S → Result A × S) (f : A → S → Result B × S) {s s' : S} {b : B}
    → (m >>= f) s ≡ (ok b, s')
    → (a : A) × (s1 : S) × (m s ≡ (ok a, s1)) × (f a s1 ≡ (ok b, s'))
unfolding ◌>>=◌
bind-eq-ok {S} {A} {B} m f {s} {s'} {b} h = split (m s) refl h
  where
    split :
        (run : Result A × S)
        → m s ≡ run
        → (elim run.0 [ ok a ↦ f a run.1 | err e ↦ (err e, run.1) ]) ≡ (ok b, s')
        → (a : A) × (s1 : S) × (m s ≡ (ok a, s1)) × (f a s1 ≡ (ok b, s'))
    split (ok a, s1) same h = (a, s1, same, h)
    split (err e, s1) same h = cc

-- Forwards: a first part that succeeds hands over to the second.
pub bind-ok :
    {S A B : Type 0} (m : S → Result A × S) (f : A → S → Result B × S) {s s1 : S} {a : A}
    → m s ≡ (ok a, s1)
    → (m >>= f) s ≡ f a s1
unfolding ◌>>=◌
bind-ok {S} {A} {B} m f h =
    ap (λ (run : Result A × S). elim run.0 [ ok a ↦ f a run.1 | err e ↦ (err e, run.1) ]) h

-- The inversion of a bind for a proof that goes through a method's steps in turn.
pub after {ℓ} :
    {S A B : Type 0} (m : S → Result A × S) (f : A → S → Result B × S) {s s' : S} {b : B}
    {P : Type ℓ}
    → (m >>= f) s ≡ (ok b, s')
    → ((a : A) (s1 : S) → m s ≡ (ok a, s1) → f a s1 ≡ (ok b, s') → P)
    → P
after m f h k = let (a, s1, first, rest) = bind-eq-ok m f h in k a s1 first rest

-- What no part of a chain changes, the chain does not change, whether it succeeds or raises.
pub bind-keeps :
    {S A B X : Type 0} (view : S → X) (m : S → Result A × S) (f : A → S → Result B × S)
    → ((s : S) → view (m s).1 ≡ view s)
    → ((a : A) (s : S) → view (f a s).1 ≡ view s)
    → (s : S) → view ((m >>= f) s).1 ≡ view s
unfolding ◌>>=◌
bind-keeps {S} {A} {B} view m f first later s = split (m s) refl
  where
    split :
        (run : Result A × S)
        → m s ≡ run
        → view (elim run.0 as (λ _. Result B × S) [ ok a ↦ f a run.1 | err e ↦ (err e, run.1) ]).1
          ≡ view s
    split (ok a, s1) same = later a s1 ∙ ap (λ run. view run.1) (sym same) ∙ first s
    split (err e, s1) same = ap (λ run. view run.1) (sym same) ∙ first s

pub bind-err :
    {S A B : Type 0} (m : S → Result A × S) (f : A → S → Result B × S) {s s1 : S} {e : Error}
    → m s ≡ (err e, s1)
    → (m >>= f) s ≡ (err e, s1)
unfolding ◌>>=◌
bind-err {S} {A} {B} m f h =
    ap (λ (run : Result A × S). elim run.0 [ ok a ↦ f a run.1 | err e ↦ (err e, run.1) ]) h
