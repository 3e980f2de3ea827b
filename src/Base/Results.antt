-- ===== src/Base/Results.antt =====
-- `Result` of the source, and methods that change a state and may fail. What was written before a
-- failure stays written, so the state comes back beside the error too.
use mathlib.Core.Path.{◌≡◌, refl, subst, ap}
use mathlib.Core.Logic.{◌⊎◌, inl, inr}

pub data Result {ℓ} (E A : Type ℓ) : Type ℓ where
  ok : A → Result E A
  err : E → Result E A

abbrev pub map_err {ℓ} : {E F A : Type ℓ} → (E → F) → Result E A → Result F A
map_err f (ok a) = ok a
map_err f (err e) = err (f e)

-- The `?` operator on a result alone.
infixl 5 ◌>>=?◌
abbrev pub ◌>>=?◌ {ℓ} : {E A B : Type ℓ} → Result E A → (A → Result E B) → Result E B
ok a >>=? f = f a
err e >>=? f = err e

abbrev pub Exec : Type 0 → Type 0 → Type 0 → Type 0
Exec S E A = S → Result E A × S

module _ {S E : Type 0} where
  abbrev pub pure : {A : Type 0} → A → Exec S E A
  pure a s = (ok a, s)

  abbrev pub raise : {A : Type 0} → E → Exec S E A
  raise e s = (err e, s)

  abbrev pub continue : {A B : Type 0} → Result E A × S → (A → Exec S E B) → Result E B × S
  continue (ok a, s) f = f a s
  continue (err e, s) f = (err e, s)

  infixl 5 ◌>>=◌ ◌>>◌
  abbrev pub ◌>>=◌ : {A B : Type 0} → Exec S E A → (A → Exec S E B) → Exec S E B
  ◌>>=◌ m f s = continue (m s) f

  abbrev pub ◌>>◌ : {B : Type 0} → Exec S E (Unit {0}) → Exec S E B → Exec S E B
  ◌>>◌ m k s = continue (m s) (λ _. k)

  abbrev pub modify : (S → S) → Exec S E (Unit {0})
  modify f s = (ok tt, f s)

  abbrev pub gets : {A : Type 0} → (S → A) → Exec S E A
  gets f s = (ok (f s), s)

  -- An early return with an error.
  abbrev pub lift : {A : Type 0} → Result E A → Exec S E A
  lift r s = (r, s)

-- To split on a computed run and keep the equation.
pub Run-cases :
    {S E A : Type 0} (p : Result E A × S)
    → ((a : A) × (s : S) × (p ≡ (ok a, s))) ⊎ ((e : E) × (s : S) × (p ≡ (err e, s)))
Run-cases (ok a, s) = inl (a, s, refl)
Run-cases (err e, s) = inr (e, s, refl)

pub Result-cases {ℓ} :
    {E A : Type ℓ} (r : Result E A) → ((a : A) × (r ≡ ok a)) ⊎ ((e : E) × (r ≡ err e))
Result-cases (ok a) = inl (a, refl)
Result-cases (err e) = inr (e, refl)

-- What holds of every result that is no error.
abbrev pub Returns : {S E A : Type 0} → (A → S → Type 0) → Result E A × S → Type 0
Returns P (ok a, s) = P a s
Returns P (err e, s) = Unit

pub Returns-bind :
    {S E A B : Type 0} (P : B → S → Type 0) (m : Exec S E A) (f : A → Exec S E B) (s : S)
    → ((a : A) (s' : S) → m s ≡ (ok a, s') → Returns P (f a s'))
    → Returns P (continue (m s) f)
Returns-bind P m f s next = elim (Run-cases (m s)) [
  | inl (a, s', e) ↦ rw e (next a s' e)
  | inr (x, s', e) ↦ rw e tt
]

pub returns-ok :
    {S E A : Type 0} (P : A → S → Type 0) (p : Result E A × S) (a : A) (s : S)
    → Returns P p
    → p ≡ (ok a, s)
    → P a s
returns-ok P p a s h e = subst (Returns P) e h

-- A predicate of the state that a method keeps, whether it fails or not.
abbrev pub Preserves : {S E A : Type 0} → (S → Type 0) → Exec S E A → Type 0
Preserves {S} P m = (s : S) → P s → P (m s).1

pub Preserves-bind :
    {S E A B : Type 0} (P : S → Type 0) (m : Exec S E A) (f : A → Exec S E B) (s : S)
    → P (m s).1
    → ((a : A) (s' : S) → m s ≡ (ok a, s') → P s' → P (f a s').1)
    → P (continue (m s) f).1
Preserves-bind P m f s h next = elim (Run-cases (m s)) [
  | inl (a, s', e) ↦ rw e (next a s' e (subst P (ap (λ p. p.1) e) h))
  | inr (x, s', e) ↦ rw e (subst P (ap (λ p. p.1) e) h)
]
