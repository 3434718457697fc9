-- ===== src/Python/Effects.antt =====
-- Statements that change a state and may raise. What was changed before an exception stays changed.
pub mod Runs
pub mod Keeps
use zksync_python.Prelude.{Error, Result, ok, err}

abbrev pub Effect : Type 0 → Type 0 → Type 0
Effect S A = S → Result A × S

infixl 5 ◌>>=◌ ◌>>◌
unfoldable pub ◌>>=◌ : {S A B : Type 0} → Effect S A → (A → Effect S B) → Effect S B
◌>>=◌ m f s = let (r, s') = m s in elim r [ ok a ↦ f a s' | err e ↦ (err e, s') ]

abbrev pub ◌>>◌ : {S A B : Type 0} → Effect S A → Effect S B → Effect S B
m >> k = m >>= λ _. k

abbrev pub returned : {S A : Type 0} → A → Effect S A
returned a s = (ok a, s)

-- A computation that may raise and changes nothing.
abbrev pub computed : {S A : Type 0} → Result A → Effect S A
computed r s = (r, s)
