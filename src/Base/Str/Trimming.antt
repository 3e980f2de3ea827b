-- ===== src/Base/Str/Trimming.antt =====
-- What `trim` leaves alone and what it ignores.
use Prim.Native.Nat.{ℕ}
use mathlib.Core.Path.{◌≡◌, refl, ap, ◌∙◌}
use mathlib.Core.Logic.{◌⊎◌, inl, inr}
use mathlib.Core.Bool.{true, false}
use mathlib.Core.List.{[], ◌∷◌, ◌++◌, reverse, reverse-append, reverse-cons, reverse-reverse}
use native.Mathlib.Omega.{arith}
use ipgate.Base.Tests.{Bool-cases}
use ipgate.Base.Lists.{All, All-append}
use ipgate.Base.Str.{Text, is_whitespace, trim_start, trim}

-- A text without white space.
abbrev pub IsTight : Text → Type 0
IsTight = All (λ c. is_whitespace c ≡ false)

All-reverse : (s : Text) → IsTight s → IsTight (reverse s)
All-reverse [] h = tt
All-reverse (c ∷ s) (hc, h) =
    rw (reverse-cons c s) (All-append _ (reverse s) (c ∷ []) (All-reverse s h) (hc, tt))

trim_start-IsTight : (s : Text) → IsTight s → trim_start s ≡ s
unfolding trim_start
trim_start-IsTight [] h = refl
trim_start-IsTight (c ∷ s) (hc, h) = rw hc

pub trim-IsTight : (s : Text) → IsTight s → trim s ≡ s
unfolding trim
trim-IsTight s h =
    rw (trim_start-IsTight s h, trim_start-IsTight (reverse s) (All-reverse s h))
      (reverse-reverse s)

-- White space behind a text stays behind it, or goes with it.
trim_start-concat :
    (w : ℕ) (s : Text)
    → is_whitespace w ≡ true
    → ((trim_start (s ++ w ∷ []) ≡ []) × (trim_start s ≡ []))
      ⊎ (trim_start (s ++ w ∷ []) ≡ trim_start s ++ w ∷ [])
unfolding trim_start
trim_start-concat w [] hw = inl (rw hw, refl)
trim_start-concat w (c ∷ s) hw = elim (Bool-cases (is_whitespace c)) [
  | inl e ↦ rw e (trim_start-concat w s hw)
  | inr e ↦ inr (rw e)
]

pub trim-concat : (w : ℕ) (s : Text) → is_whitespace w ≡ true → trim (s ++ w ∷ []) ≡ trim s
unfolding trim trim_start
trim-concat w s hw = elim (trim_start-concat w s hw) [
  | inl (e, f) ↦ rw (e, f)
  | inr e ↦ rw (e, reverse-append (trim_start s) (w ∷ [])) (ground (arith, hw))
]

trim_start-cases :
    (s : Text)
    → (trim_start s ≡ [])
      ⊎ ((c : ℕ) × (t : Text) × (trim_start s ≡ c ∷ t) × (is_whitespace c ≡ false))
unfolding trim_start
trim_start-cases [] = inl refl
trim_start-cases (c ∷ s) = elim (Bool-cases (is_whitespace c)) [
  | inl e ↦ rw e (trim_start-cases s)
  | inr e ↦ inr (c, s, rw e, e)
]

trim_start-cons : (c : ℕ) (s : Text) → is_whitespace c ≡ false → trim_start (c ∷ s) ≡ c ∷ s
unfolding trim_start
trim_start-cons c s h = rw h

trim_start-twice : (s : Text) → trim_start (trim_start s) ≡ trim_start s
unfolding trim_start
trim_start-twice [] = refl
trim_start-twice (c ∷ s) = elim (Bool-cases (is_whitespace c)) [
  | inl e ↦ rw e (trim_start-twice s)
  | inr e ↦ rw e (trim_start-cons c s e)
]

-- A last character that is no white space stays.
trim_start-keeps :
    (c : ℕ) (s : Text) → is_whitespace c ≡ false → trim_start (s ++ c ∷ []) ≡ trim_start s ++ c ∷ []
unfolding trim_start
trim_start-keeps c [] h = rw h
trim_start-keeps c (d ∷ s) h = elim (Bool-cases (is_whitespace d)) [
  | inl e ↦ rw e (trim_start-keeps c s h)
  | inr e ↦ rw e
]

trim_start-nil : trim_start (reverse (trim_start (reverse []))) ≡ reverse (trim_start (reverse []))
unfolding trim_start
trim_start-nil = refl

-- What is trimmed begins with no white space.
trim_start-trim : (s : Text) → trim_start (trim s) ≡ trim s
unfolding trim
trim_start-trim s = elim (trim_start-cases s) [
  | inl e ↦ rw e (trim_start-nil)
  | inr (c, t, e, h) ↦
      rw (e, reverse-cons c t, trim_start-keeps c (reverse t) h, reverse-append)
        (trim_start-cons c _ h)
]

pub trim-trim : (s : Text) → trim (trim s) ≡ trim s
unfolding trim
trim-trim s =
    ap (λ t. reverse (trim_start (reverse t))) (trim_start-trim s)
    ∙ ap (λ t. reverse (trim_start t)) (reverse-reverse (trim_start (reverse (trim_start s))))
    ∙ ap reverse (trim_start-twice (reverse (trim_start s)))
