-- ===== src/Common/Effects.antt =====
-- Code that may fail and that changes a state: a small monad for do blocks.
use mathlib.Core.Bool.{Bool, true, false}
use mathlib.Core.Path.{◌≡◌, refl}
use vaiexia_obfs.Common.Errors.{Result, ok, err, ObfsError}

abbrev pub Stateful {σ ℓ} : Type σ → Type ℓ → Type (σ ⊔ ℓ)
Stateful S A = S → Result A × S

module _ {σ ℓ κ} {S : Type σ} {A : Type ℓ} {B : Type κ} where
  abbrev continue : Result A × S → (A → Stateful S B) → Result B × S
  continue (ok a, s) f = f a s
  continue (err e, s) f = (err e, s)

  infixl 5 ◌>>=◌ ◌>>◌
  abbrev pub ◌>>=◌ : Stateful S A → (A → Stateful S B) → Stateful S B
  ◌>>=◌ m f s = continue (m s) f

  abbrev pub ◌>>◌ : Stateful S A → Stateful S B → Stateful S B
  ◌>>◌ m n s = continue (m s) (λ _. n)

module _ {σ ℓ} {S : Type σ} {A : Type ℓ} where
  abbrev pub pure : A → Stateful S A
  pure a s = (ok a, s)

  abbrev pub raise : ObfsError → Stateful S A
  raise e s = (err e, s)

  abbrev pub lift : Result A → Stateful S A
  lift r s = (r, s)

abbrev pub guard {σ} : {S : Type σ} → Bool → ObfsError → Stateful S (Unit {0})
guard true e = pure tt
guard false e = raise e

-- Code that succeeds has succeeded in each of its steps.
module _ {σ ℓ κ} {S : Type σ} {A : Type ℓ} {B : Type κ} where
  continue-ok :
      (r : Result A × S) (f : A → Stateful S B) {b : B} {u : S}
      → continue r f ≡ (ok b, u)
      → (a : A) × (t : S) × (r ≡ (ok a, t)) × (f a t ≡ (ok b, u))
  continue-ok (ok a, t) f h = (a, t, refl, h)
  continue-ok (err e, t) f h = cc

  pub bind-ok :
      (m : Stateful S A) (f : A → Stateful S B) (s : S) {b : B} {u : S}
      → (m >>= f) s ≡ (ok b, u)
      → (a : A) × (t : S) × (m s ≡ (ok a, t)) × (f a t ≡ (ok b, u))
  bind-ok m f s h = continue-ok (m s) f h

pub guard-ok {σ} :
    {S : Type σ} (b : Bool) (e : ObfsError) (s : S) {u : S}
    → guard b e s ≡ (ok tt, u)
    → (b ≡ true) × (u ≡ s)
guard-ok true e s h = (refl, cc)
guard-ok false e s h = cc
