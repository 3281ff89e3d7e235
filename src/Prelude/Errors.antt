-- ===== src/Prelude/Errors.antt =====
-- Code that may raise, and methods that mutate an object and may raise: what was written before a
-- raise stays written, so the state comes back beside an error too.
use mathlib.Core.Bool.{Bool, true, false}
use mathlib.Core.Path.{◌≡◌, refl, ap}
use mathlib.Core.Logic.{◌⊎◌, inl, inr}
use mathlib.Core.Option.{Option, none, some}
use native.Mathlib.Omega.{arith}
use work_assistant_agent.Prelude.Tests.{if◌then◌else◌}

pub data Result {ℓ} (E A : Type ℓ) : Type ℓ where
  ok : A → Result E A
  err : E → Result E A

abbrev pub Exec {ℓ} : Type ℓ → Type ℓ → Type ℓ → Type ℓ
Exec E S A = S → Result E A × S

module _ {ℓ} {E A : Type ℓ} where
  abbrev pub is_ok : Result E A → Bool
  is_ok (ok _) = true
  is_ok (err _) = false

module _ {ℓ} {E S A : Type ℓ} where
  abbrev pub pure : A → Exec E S A
  pure a s = (ok a, s)

  abbrev pub raise : E → Exec E S A
  raise e s = (err e, s)

  abbrev pub lift : Result E A → Exec E S A
  lift r s = (r, s)

  abbrev pub gets : (S → A) → Exec E S A
  gets f s = (ok (f s), s)

  abbrev pub or_raise : Option A → E → Exec E S A
  or_raise none e s = (err e, s)
  or_raise (some a) e s = (ok a, s)

module _ {ℓ} {E S A B : Type ℓ} where
  abbrev pub continue : Result E A → (A → Exec E S B) → Exec E S B
  continue (ok a) f s = f a s
  continue (err e) f s = (err e, s)

  infixr 5 ◌>>=◌ ◌>>◌
  abbrev pub ◌>>=◌ : Exec E S A → (A → Exec E S B) → Exec E S B
  ◌>>=◌ m f s = let (r, s') = m s in continue r f s'

  abbrev pub ◌>>◌ : Exec E S A → Exec E S B → Exec E S B
  m >> k = m >>= λ _. k

module _ {E S : Type 0} where
  abbrev pub modify : (S → S) → Exec E S (Unit {0})
  modify f s = (ok tt, f s)

  abbrev pub raise_if : Bool → E → Exec E S (Unit {0})
  raise_if c e s = (if c then err e else ok tt, s)

-- To split on a computed result and keep the equation.
pub Result-cases {ℓ} :
    {E A : Type ℓ} (r : Result E A) → ((e : E) × (r ≡ err e)) ⊎ ((a : A) × (r ≡ ok a))
Result-cases (ok a) = inr (a, refl)
Result-cases (err e) = inl (e, refl)

pub err_ne_ok {ℓ} :
    {E S A : Type ℓ} {e : E} {a : A} {n m : S} → ◌≡◌ {A = Result E A × S} (err e, n) (ok a, m) → ⊥
err_ne_ok h = cc (ap (λ r. r.0) h)

-- An action followed by another returned only if both did.
pub continue-eq-ok {ℓ} :
    {E S A B : Type ℓ} (r : Result E A × S) (f : A → Exec E S B) {b : B} {m : S}
    → continue r.0 f r.1 ≡ (ok b, m)
    → (a : A) × (n : S) × (r ≡ (ok a, n)) × (f a n ≡ (ok b, m))
continue-eq-ok (ok a, n) f h = (a, n, refl, h)
continue-eq-ok (err e, n) f h = absurd (err_ne_ok h)

-- A value that is returned under a test passed the test.
pub if-eq-ok :
    {E A : Type 0} (b : Bool) {a q : A} (e : E)
    → ◌≡◌ {A = Result E A} (if b then ok a else err e) (ok q)
    → (b ≡ true) × (q ≡ a)
if-eq-ok true e h = (refl, ground arith)
if-eq-ok false e h = absurd (ground arith)
