-- ===== src/Base/Split/Lines.antt =====
-- Lines written with `join` and a last newline, read again by `lines`.
use Prim.Native.Nat.{ℕ}
use mathlib.Core.Path.{◌≡◌, refl, ap, ◌∙◌}
use mathlib.Core.Logic.{inl, inr}
use mathlib.Core.Bool.{false, ◌&&◌}
use mathlib.Core.List.{List, [], ◌∷◌, ◌++◌, map, append_assoc}
use native.Mathlib.Omega.{arith}
use ipgate.Base.Tests.{if◌then◌else◌, ◌==◌, nat_eq, Bool-cases}
use ipgate.Base.Lists.{All}
use ipgate.Base.Str.{Text}
use ipgate.Base.Split.{
  join, newline, carriage_return, starts_newline, push_char, lines, unlines, split_from,
}

-- No character of the text is the separator.
abbrev pub IsFree : ℕ → Text → Type 0
IsFree sep = All (λ c. (c == sep) ≡ false)

-- A line as `lines` gives it back: without one carriage return at its end.
unfoldable pub strip_return : Text → Text
strip_return [] = []
strip_return (c ∷ []) = if c == carriage_return then [] else c ∷ []
strip_return (c ∷ d ∷ s) = c ∷ strip_return (d ∷ s)

no_return :
    (c : ℕ) (l : Text) (ls : List Text)
    → (if c == carriage_return && false then l ∷ ls else (c ∷ l) ∷ ls) ≡ (c ∷ l) ∷ ls
no_return c l ls = ground arith

pub lines-line :
    (l s : Text) → IsFree newline l → lines (l ++ newline ∷ s) ≡ strip_return l ∷ lines s
unfolding lines strip_return
lines-line [] s free = ground arith
lines-line (c ∷ []) s (cf, free) = ground (arith, lines-line [] s tt)
lines-line (c ∷ d ∷ l) s (cf, free) =
    let (df, _) = free in
    let ih : lines (d ∷ l ++ newline ∷ s) ≡ strip_return (d ∷ l) ∷ lines s =
      lines-line (d ∷ l) s free in
    rw (cf, ih, df) (no_return c (strip_return (d ∷ l)) (lines s))

pub lines-unlines :
    (ls : List Text) → All (IsFree newline) ls → lines (unlines ls) ≡ map strip_return ls
unfolding lines unlines
lines-unlines [] free = refl
lines-unlines (l ∷ ls) (lf, free) =
    lines-line l (unlines ls) lf ∙ ap (◌∷◌ (strip_return l)) (lines-unlines ls free)

-- What `join` and one newline write is the lines, each with its newline.
pub join-newline :
    (l : Text) (ls : List Text) → join (newline ∷ []) (l ∷ ls) ++ newline ∷ [] ≡ unlines (l ∷ ls)
unfolding join unlines
join-newline l [] = refl
join-newline l (m ∷ ls) = simp (append_assoc, join-newline m ls)

push_char-IsFree :
    (c : ℕ) (ls : List Text)
    → (c == newline) ≡ false
    → All (IsFree newline) ls
    → All (IsFree newline) (push_char c ls)
push_char-IsFree c [] e free = ((e, tt), tt)
push_char-IsFree c (l ∷ ls) e (lf, free) = ((e, lf), free)

-- No line holds a newline.
pub lines-IsFree : (s : Text) → All (IsFree newline) (lines s)
unfolding lines
lines-IsFree [] = tt
lines-IsFree (c ∷ s) = elim (Bool-cases (c == newline)) [
  | inl e ↦ rw e (tt, lines-IsFree s)
  | inr e ↦ elim (Bool-cases (c == carriage_return && starts_newline s)) [
    | inl r ↦ rw (e, r) (lines-IsFree s)
    | inr r ↦ rw (e, r) (push_char-IsFree c (lines s) e (lines-IsFree s))
  ]
]

pub split_from-free : (sep : ℕ) (s : Text) → IsFree sep s → split_from sep s ≡ (s, [])
unfolding split_from
split_from-free sep [] free = refl
split_from-free sep (c ∷ s) (cf, free) = rw (cf, split_from-free sep s free)

-- A part without the separator, up to a separator.
pub split_from-part :
    (sep : ℕ) (a s : Text)
    → IsFree sep a
    → split_from sep (a ++ sep ∷ s) ≡ (let (part, parts) = split_from sep s in (a, part ∷ parts))
unfolding split_from
split_from-part sep [] s free = ground arith
split_from-part sep (c ∷ a) s (cf, free) = rw (cf, split_from-part sep a s free)
