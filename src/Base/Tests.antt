-- ===== src/Base/Tests.antt =====
-- Boolean tests on the native numbers, the conditional, and decidable equality as a class.
use Prim.Native.Nat.{ℕ, compare, Ordering}
use mathlib.Core.Path.{◌≡◌, refl}
use mathlib.Core.Logic.{◌↔◌, ◌⊎◌, inl, inr}
use mathlib.Core.Bool.{Bool, true, false}
use mathlib.Core.Option.{Option, none, some}
use mathlib.Core.List.{List, [], ◌∷◌}
use native.Mathlib.Omega.{arith}
use native.Mathlib.Decide.{ℕ_discrete}

-- These compute to `compare`, which `ground` and `grind` read with no lemma listed.
abbrev pub ltb : ℕ → ℕ → Bool
ltb a b = elim (compare a b) [ Ordering.lt ↦ true | _ ↦ false ]

abbrev pub leb : ℕ → ℕ → Bool
leb a b = elim (compare a b) [ Ordering.gt ↦ false | _ ↦ true ]

infix 1 if◌then◌else◌
abbrev pub if◌then◌else◌ {ℓ} : {A : Type ℓ} → Bool → A → A → A
if true then x else y = x
if false then x else y = y

-- `PartialEq` of the source, for the types whose equality is structural.
pub record Eq {ℓ} (A : Type ℓ) : Type ℓ where
  pub dec : Discrete A

abbrev pub is_yes {ℓ} : {P : Type ℓ} → Dec P → Bool
is_yes (yes _) = true
is_yes (no _) = false

infix 50 ◌==◌ ◌!=◌
abbrev pub ◌==◌ {ℓ} : {A : Type ℓ} ⦃e : Eq A⦄ → A → A → Bool
◌==◌ ⦃e⦄ a b = is_yes (e.dec a b)

abbrev pub ◌!=◌ {ℓ} : {A : Type ℓ} ⦃e : Eq A⦄ → A → A → Bool
◌!=◌ ⦃e⦄ a b = if is_yes (e.dec a b) then false else true

instance abbrev pub nat_eq : Eq ℕ
nat_eq = record { dec = ℕ_discrete }

unfoldable pub list_dec {ℓ} : {A : Type ℓ} → Discrete A → Discrete (List A)
list_dec d [] [] = yes refl
list_dec d [] (y ∷ ys) = no (λ e. cc)
list_dec d (x ∷ xs) [] = no (λ e. cc)
list_dec d (x ∷ xs) (y ∷ ys) =
    let rest = list_dec d xs ys in
    elim (d x y) [
      | no h ↦ no (λ e. h (cc))
      | yes p ↦ elim rest [ no h ↦ no (λ e. h (cc)) | yes q ↦ yes (cc) ]
    ]

unfoldable pub option_dec {ℓ} : {A : Type ℓ} → Discrete A → Discrete (Option A)
option_dec d none none = yes refl
option_dec d none (some y) = no (λ e. cc)
option_dec d (some x) none = no (λ e. cc)
option_dec d (some x) (some y) = elim (d x y) [ no h ↦ no (λ e. h (cc)) | yes p ↦ yes (cc) ]

unfoldable pub bool_dec : Discrete Bool
bool_dec true true = yes refl
bool_dec false false = yes refl
bool_dec true false = no (λ e. cc)
bool_dec false true = no (λ e. cc)

instance abbrev pub bool_eq : Eq Bool
bool_eq = record { dec = bool_dec }

instance abbrev pub list_eq {ℓ} : {A : Type ℓ} ⦃e : Eq A⦄ → Eq (List A)
list_eq ⦃e⦄ = record { dec = list_dec e.dec }

instance abbrev pub option_eq {ℓ} : {A : Type ℓ} ⦃e : Eq A⦄ → Eq (Option A)
option_eq ⦃e⦄ = record { dec = option_dec e.dec }

-- To split on a computed value and keep the equation.
pub Bool-cases : (b : Bool) → (b ≡ true) ⊎ (b ≡ false)
Bool-cases true = inl refl
Bool-cases false = inr refl

pub Option-cases {ℓ} : {A : Type ℓ} (o : Option A) → (o ≡ none) ⊎ ((a : A) × (o ≡ some a))
Option-cases none = inl refl
Option-cases (some a) = inr (a, refl)

module _ {ℓ} {A : Type ℓ} ⦃e : Eq A⦄ where
  pub ==_iff : (a b : A) → ((a == b) ≡ true) ↔ (a ≡ b)
  ==_iff a b = ground arith

  pub ==_self : (a : A) → (a == a) ≡ true
  ==_self a = ground arith
