-- ===== src/Base/Split/Once.antt =====
-- A separator of a text that is found, as the parts round it are known.
use Prim.Native.Nat.{ℕ}
use mathlib.Core.Path.{◌≡◌, refl}
use mathlib.Core.List.{[], ◌∷◌, ◌++◌}
use mathlib.Core.Option.{none, some}
use native.Mathlib.Omega.{arith}
use ipgate.Base.Tests.{nat_eq}
use ipgate.Base.Str.{Text, split_once, rsplit_once}
use ipgate.Base.Split.Lines.{IsFree}

pub split_once-free : (sep : ℕ) (s : Text) → IsFree sep s → split_once sep s ≡ none
unfolding split_once
split_once-free sep [] free = refl
split_once-free sep (c ∷ s) (cf, free) = ground (arith, cf, split_once-free sep s free)

pub split_once-part :
    (sep : ℕ) (a s : Text) → IsFree sep a → split_once sep (a ++ sep ∷ s) ≡ some (a, s)
unfolding split_once
split_once-part sep [] s free = ground arith
split_once-part sep (c ∷ a) s (cf, free) = ground (arith, cf, split_once-part sep a s free)

pub rsplit_once-free : (sep : ℕ) (s : Text) → IsFree sep s → rsplit_once sep s ≡ none
unfolding rsplit_once
rsplit_once-free sep [] free = refl
rsplit_once-free sep (c ∷ s) (cf, free) = rw (rsplit_once-free sep s free, cf)

pub rsplit_once-part :
    (sep : ℕ) (a s : Text) → IsFree sep s → rsplit_once sep (a ++ sep ∷ s) ≡ some (a, s)
unfolding rsplit_once
rsplit_once-part sep [] s free = rw (rsplit_once-free sep s free) (ground arith)
rsplit_once-part sep (c ∷ a) s free = rw (rsplit_once-part sep a s free)
