-- ===== src/Wallet/Runs.antt =====
-- How a method of the wallet that succeeds has run, step by step.
use zksync_python.Prelude.{◌≡◌, ap, Result, ok, ok-injective}
pub use zksync_python.Python.Effects.Runs.{bind-eq-ok, bind-ok, after}
use zksync_python.Wallet.{Context, Env, pure, lift, request, WalletState}

-- A computation that touches no state leaves it as it was.
pub lift-eq-ok :
    (c : Context) {A : Type 0} (r : Result A) {s s' : Env c} {a : A}
    → lift c r s ≡ (ok a, s')
    → (r ≡ ok a) × (s ≡ s')
lift-eq-ok c r h = (ap (λ p. p.0) h, ap (λ p. p.1) h)

pub pure-eq-ok :
    (c : Context) {A : Type 0} (a : A) {s s' : Env c} {b : A}
    → pure c a s ≡ (ok b, s')
    → (a ≡ b) × (s ≡ s')
pure-eq-ok c a h = (ok-injective (ap (λ p. p.0) h), ap (λ p. p.1) h)

pub request_ran :
    (c : Context) {A : Type 0} (call : c.provider.World → Result A × c.provider.World)
    (w : WalletState) {world world' : c.provider.World} {r : Result A}
    → call world ≡ (r, world')
    → request c call (w, world) ≡ (r, (w, world'))
request_ran c call w h = ap (λ p. (p.0, (w, p.1))) h

pub request-eq-ok :
    (c : Context) {A : Type 0} (call : c.provider.World → Result A × c.provider.World)
    {s s' : Env c} {a : A}
    → request c call s ≡ (ok a, s')
    → (call s.1 ≡ (ok a, s'.1)) × (s.0 ≡ s'.0)
request-eq-ok c call h = (ap (λ p. (p.0, p.1.1)) h, ap (λ p. p.1.0) h)
