-- ===== src/Base/Lists.antt =====
-- Lists measured by native numbers, the loops of the standard library that the program uses on
-- `Vec` and slices, and predicates on lists by recursion.
use Prim.Native.Nat.{ℕ, zero, suc, ◌≤◌}
use mathlib.Core.Path.{◌≡◌, refl, ap, subst}
use mathlib.Core.Logic.{◌≢◌, ◌↔◌, ◌⊎◌, inl, inr}
use mathlib.Core.Bool.{Bool, true, false, not, ◌||◌, ◌&&◌}
use mathlib.Core.List.{List, [], ◌∷◌, ◌++◌}
use mathlib.Core.Option.{Option, none, some}
use native.Mathlib.Omega.{arith}
use ipgate.Base.Tests.{if◌then◌else◌, Eq, ◌==◌, ◌!=◌, Bool-cases}

module _ {ℓ} {A : Type ℓ} where
  abbrev pub length : List A → ℕ
  length [] = 0
  length (x ∷ xs) = suc (length xs)

  abbrev pub take : ℕ → List A → List A
  take zero xs = []
  take (suc n) [] = []
  take (suc n) (x ∷ xs) = x ∷ take n xs

  abbrev pub drop : ℕ → List A → List A
  drop zero xs = xs
  drop (suc n) [] = []
  drop (suc n) (x ∷ xs) = drop n xs

  -- `Vec::retain`, `Iterator::filter`
  unfoldable pub retain : (A → Bool) → List A → List A
  retain p [] = []
  retain p (x ∷ xs) = let rest = retain p xs in if p x then x ∷ rest else rest

  -- `Iterator::find`
  unfoldable pub find : (A → Bool) → List A → Option A
  find p [] = none
  find p (x ∷ xs) = if p x then some x else find p xs

  -- `Iterator::any`
  unfoldable pub any : (A → Bool) → List A → Bool
  any p [] = false
  any p (x ∷ xs) = p x || any p xs

  -- `Iterator::all`
  unfoldable pub all : (A → Bool) → List A → Bool
  all p [] = true
  all p (x ∷ xs) = p x && all p xs

-- Every element has the property.
abbrev pub All {ℓ κ} : {A : Type ℓ} → (A → Type κ) → List A → Type κ
All P [] = Unit
All P (x ∷ xs) = P x × All P xs

-- Some element has the property.
abbrev pub Any {ℓ} : {A : Type ℓ} → (A → Type 0) → List A → Type 0
Any P [] = ⊥
Any P (x ∷ xs) = P x ⊎ Any P xs

-- No two elements have the same key.
abbrev pub IsUnique {ℓ κ} : {A : Type ℓ} {B : Type κ} → (A → B) → List A → Type κ
IsUnique key [] = Unit
IsUnique key (x ∷ xs) = All (λ y. key x ≢ key y) xs × IsUnique key xs

module _ {ℓ} {A : Type ℓ} where
  pub All-mono {κ ι} :
      {P : A → Type κ} {Q : A → Type ι} (f : (x : A) → P x → Q x) (xs : List A)
      → All P xs
      → All Q xs
  All-mono f [] h = tt
  All-mono f (x ∷ xs) (p, h) = (f x p, All-mono f xs h)

  pub All-append {κ} : (P : A → Type κ) (xs ys : List A) → All P xs → All P ys → All P (xs ++ ys)
  All-append P [] ys _ hy = hy
  All-append P (x ∷ xs) ys (p, hx) hy = (p, All-append P xs ys hx hy)

  pub All-retain {κ} :
      (P : A → Type κ) (p : A → Bool) (xs : List A) → All P xs → All P (retain p xs)
  unfolding retain
  All-retain P p [] h = tt
  All-retain P p (x ∷ xs) (px, h) = elim (Bool-cases (p x)) [
    | inl e ↦ rw e (px, All-retain P p xs h)
    | inr e ↦ rw e (All-retain P p xs h)
  ]

  -- What `retain` keeps passes its test.
  pub All-retain_test : (p : A → Bool) (xs : List A) → All (λ x. p x ≡ true) (retain p xs)
  unfolding retain
  All-retain_test p [] = tt
  All-retain_test p (x ∷ xs) = elim (Bool-cases (p x)) [
    | inl e ↦ rw e (e, All-retain_test p xs)
    | inr e ↦ rw e (All-retain_test p xs)
  ]

  pub IsUnique-retain {κ} :
      {B : Type κ} (key : A → B) (p : A → Bool) (xs : List A)
      → IsUnique key xs
      → IsUnique key (retain p xs)
  unfolding retain
  IsUnique-retain key p [] h = tt
  IsUnique-retain key p (x ∷ xs) (new, h) = elim (Bool-cases (p x)) [
    | inl e ↦ rw e (All-retain _ p xs new, IsUnique-retain key p xs h)
    | inr e ↦ rw e (IsUnique-retain key p xs h)
  ]

  -- A push of an element whose key is new.
  pub IsUnique-concat {κ} :
      {B : Type κ} (key : A → B) (xs : List A) (x : A)
      → IsUnique key xs
      → All (λ y. key y ≢ key x) xs
      → IsUnique key (xs ++ x ∷ [])
  IsUnique-concat key [] x h new = (tt, tt)
  IsUnique-concat key (y ∷ ys) x (fresh, h) (ne, new) =
      (All-append _ ys (x ∷ []) fresh (ne, tt), IsUnique-concat key ys x h new)

  -- `retain` keeps the length exactly when it drops nothing.
  pub length-retain-le : (p : A → Bool) (xs : List A) → length (retain p xs) ≤ length xs
  unfolding retain
  length-retain-le p [] = omega arith
  length-retain-le p (x ∷ xs) = ground (arith, length-retain-le p xs)

  pub retain-eq_self : (p : A → Bool) (xs : List A) → All (λ x. p x ≡ true) xs → retain p xs ≡ xs
  unfolding retain
  retain-eq_self p [] h = refl
  retain-eq_self p (x ∷ xs) (e, h) = rw (e, retain-eq_self p xs h)

  pub retain-eq_self_of_length :
      (p : A → Bool) (xs : List A) → length (retain p xs) ≡ length xs → retain p xs ≡ xs
  unfolding retain
  retain-eq_self_of_length p [] h = refl
  retain-eq_self_of_length p (x ∷ xs) h = elim (Bool-cases (p x)) [
    | inl e ↦ rw e (ap (◌∷◌ x) (retain-eq_self_of_length p xs (ground arith)))
    | inr e ↦ absurd (ground (arith, length-retain-le p xs))
  ]

  -- The first element that passes the test.
  pub find-test : (p : A → Bool) (xs : List A) {x : A} → find p xs ≡ some x → p x ≡ true
  unfolding find
  find-test p [] h = cc
  find-test p (y ∷ xs) h = elim (Bool-cases (p y)) [
    | inl e ↦ subst (λ z. p z ≡ true) (ground arith) e
    | inr e ↦ find-test p xs (ground arith)
  ]

  pub find-All {κ} :
      (P : A → Type κ) (p : A → Bool) (xs : List A) {x : A} → All P xs → find p xs ≡ some x → P x
  unfolding find
  find-All P p [] all h = cc
  find-All P p (y ∷ xs) (py, all) h = elim (Bool-cases (p y)) [
    | inl e ↦ subst P (ground arith) py
    | inr e ↦ find-All P p xs all (ground arith)
  ]

  pub find-eq-none : (p : A → Bool) (xs : List A) → find p xs ≡ none → All (λ x. p x ≡ false) xs
  unfolding find
  find-eq-none p [] h = tt
  find-eq-none p (x ∷ xs) h = elim (Bool-cases (p x)) [
    | inl e ↦ absurd (ground arith)
    | inr e ↦ (e, find-eq-none p xs (ground arith))
  ]

-- `Option::or`, `Option::filter`, `Option::unwrap_or` and `Option::is_some`
abbrev pub or_else {ℓ} : {A : Type ℓ} → Option A → Option A → Option A
or_else none y = y
or_else (some x) y = some x

abbrev pub keep_if {ℓ} : {A : Type ℓ} → (A → Bool) → Option A → Option A
keep_if p none = none
keep_if p (some x) = if p x then some x else none

abbrev pub or_get {ℓ} : {A : Type ℓ} → Option A → A → A
or_get none y = y
or_get (some x) y = x

abbrev pub is_some {ℓ} : {A : Type ℓ} → Option A → Bool
is_some none = false
is_some (some x) = true

module _ {ℓ} {A : Type ℓ} where
  pub find-append :
      (p : A → Bool) (xs ys : List A) → find p (xs ++ ys) ≡ or_else (find p xs) (find p ys)
  unfolding find
  find-append p [] ys = refl
  find-append p (x ∷ xs) ys = elim (Bool-cases (p x)) [
    | inl e ↦ rw e
    | inr e ↦ rw e (find-append p xs ys)
  ]

  -- A push behind what `retain` keeps.
  pub find-push :
      (p : A → Bool) (xs : List A) (x : A)
      → find p (xs ++ x ∷ []) ≡ or_else (find p xs) (if p x then some x else none)
  unfolding find
  find-push p xs x = find-append p xs (x ∷ [])

  pub find-retain_keep :
      (p q : A → Bool) (xs : List A)
      → ((x : A) → p x ≡ true → q x ≡ true)
      → find p (retain q xs) ≡ find p xs
  unfolding find retain
  find-retain_keep p q [] h = refl
  find-retain_keep p q (x ∷ xs) h = ground (arith, h x, find-retain_keep p q xs h)

  pub find-retain_drop :
      (p q : A → Bool) (xs : List A)
      → ((x : A) → p x ≡ true → q x ≡ false)
      → find p (retain q xs) ≡ none
  unfolding find retain
  find-retain_drop p q [] h = refl
  find-retain_drop p q (x ∷ xs) h = ground (arith, h x, find-retain_drop p q xs h)

  pub find-eq-none_of : (p : A → Bool) (xs : List A) → All (λ x. p x ≡ false) xs → find p xs ≡ none
  unfolding find
  find-eq-none_of p [] h = refl
  find-eq-none_of p (x ∷ xs) (e, h) = rw e (find-eq-none_of p xs h)

  -- The length tells whether `retain` dropped the element that `find` sees.
  pub length-retain_iff :
      (p q : A → Bool) (xs : List A)
      → ((x : A) → q x ≡ not (p x))
      → (length (retain q xs) ≡ length xs) ↔ (find p xs ≡ none)
  unfolding find retain
  length-retain_iff p q [] h = ground arith
  length-retain_iff p q (x ∷ xs) h =
      ground (arith, h x, length-retain-le q xs, length-retain_iff p q xs h)

-- Where keys are unique, `find` by key sees the same element before and behind a `retain`.
pub find-retain_unique {ℓ κ} :
    {A : Type ℓ} {B : Type κ} ⦃e : Eq B⦄ (key : A → B) (k : B) (q : A → Bool) (xs : List A)
    → IsUnique key xs
    → find (λ x. key x == k) (retain q xs) ≡ keep_if q (find (λ x. key x == k) xs)
unfolding find retain
find-retain_unique {A} key k q [] u = refl
find-retain_unique {A} key k q (x ∷ xs) (new, u) = elim (Bool-cases (key x == k)) [
  | inl e ↦ elim (Bool-cases (q x)) [
    | inl f ↦ simp (e, f)
    | inr f ↦
        simp (e, f)
          (find-eq-none_of _ _ (All-retain _ q xs (All-mono (λ y ne. away y ne e) xs new)))
  ]
  | inr e ↦ elim (Bool-cases (q x)) [
    | inl f ↦ simp (e, f) (find-retain_unique key k q xs u)
    | inr f ↦ simp (e, f) (find-retain_unique key k q xs u)
  ]
]
  where
    away : (y : A) → key x ≢ key y → (key x == k) ≡ true → (key y == k) ≡ false
    away y ne e = ground arith

-- Dropping one key by `retain`, as seen by `find`.
pub find-retain_key {ℓ κ} :
    {A : Type ℓ} {B : Type κ} ⦃e : Eq B⦄ (key : A → B) (u t : B) (xs : List A)
    → find (λ x. key x == t) (retain (λ x. key x != u) xs)
      ≡ (if u == t then none else find (λ x. key x == t) xs)
find-retain_key key u t xs = elim (Bool-cases (u == t)) [
  | inl e ↦ rw e (find-retain_drop _ _ xs (λ x h. ground arith))
  | inr e ↦ rw e (find-retain_keep _ _ xs (λ x h. ground arith))
]
