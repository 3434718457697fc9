-- ===== src/Python/Effects/Keeps.antt =====
-- What statements leave true, whether they return or raise, with a rule for each way to build them.
use zksync_python.Prelude.{Result, ok, err}
use zksync_python.Python.Effects.{Effect, ◌>>=◌, returned, computed}

pub record Keeps {S A : Type 0} (P : S → Type 0) (m : Effect S A) : Type 0 where
  pub after_it : (s : S) → P s → P (m s).1

module _ {S A : Type 0} {P : S → Type 0} where
  pub returned-Keeps : (a : A) → Keeps P (returned a)
  returned-Keeps a = record { after_it = λ s h. h }

  pub computed-Keeps : (r : Result A) → Keeps P (computed r)
  computed-Keeps r = record { after_it = λ s h. h }

module _ {S A B : Type 0} {P : S → Type 0} where
  -- The second part runs where the first has returned.
  pub >>=-Keeps :
      (m : Effect S A) (f : A → Effect S B)
      → Keeps P m
      → ((a : A) → Keeps P (f a))
      → Keeps P (m >>= f)
  unfolding ◌>>=◌
  >>=-Keeps m f first later = record { after_it = λ s h. split (m s) (first.after_it s h) }
    where
      split :
          (run : Result A × S)
          → P run.1
          → P (elim run.0 as (λ _. Result B × S) [ ok a ↦ f a run.1 | err e ↦ (err e, run.1) ]).1
      split (ok a, s) h = (later a).after_it s h
      split (err e, s) h = h
