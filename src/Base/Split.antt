-- ===== src/Base/Split.antt =====
-- What the program uses of the standard library to cut texts into parts and to join them.
pub mod Lines
pub mod Once
use Prim.Native.Nat.{ℕ, ◌+◌}
use mathlib.Core.Bool.{Bool, true, false, ◌&&◌}
use mathlib.Core.List.{List, [], ◌∷◌, ◌++◌}
use ipgate.Base.Tests.{if◌then◌else◌, ◌==◌, nat_eq}
use ipgate.Base.Str.{Text, starts_with}

-- `join`
unfoldable pub join : Text → List Text → Text
join sep [] = []
join sep (s ∷ []) = s
join sep (s ∷ t ∷ ts) = s ++ sep ++ join sep (t ∷ ts)

-- `str::split` at a character: the first part and the others.
unfoldable pub split_from : ℕ → Text → Text × List Text
split_from sep [] = ([], [])
split_from sep (c ∷ s) =
    let (part, parts) = split_from sep s in
    if c == sep then ([], part ∷ parts) else (c ∷ part, parts)

abbrev pub newline : ℕ
newline = 10

abbrev pub carriage_return : ℕ
carriage_return = 13

unfoldable pub starts_newline : Text → Bool
starts_newline [] = false
starts_newline (c ∷ s) = c == newline

-- A character before the first of some lines; the text after it may be empty.
abbrev pub push_char : ℕ → List Text → List Text
push_char c [] = (c ∷ []) ∷ []
push_char c (l ∷ ls) = (c ∷ l) ∷ ls

-- `str::lines`: a line ends at a newline, with one carriage return before it; the last newline may
-- be missing.
unfoldable pub lines : Text → List Text
unfolding starts_newline
lines [] = []
lines (c ∷ s) =
    let rest = lines s in
    if c == newline
    then [] ∷ rest
    else if c == carriage_return && starts_newline s
    then rest
    else push_char c rest

-- Every line with its newline.
unfoldable pub unlines : List Text → Text
unlines [] = []
unlines (l ∷ ls) = l ++ newline ∷ unlines ls
