-- ===== src/Sshd/Block.antt =====
-- The managed block can be put on and taken off again.
use mathlib.Core.List.{append_assoc, append-nil}
use ipgate.Base.{
  ℕ, ◌==◌, nat_eq, list_eq, Bool, true, false, List, [], ◌∷◌, ◌++◌, if◌then◌else◌, map, Text, lit,
  trim, lines, unlines, newline, carriage_return, ◌&&◌, starts_newline, push_char, ◌≡◌, refl, sym,
  ap, ◌∙◌, inl, inr, arith, Bool-cases, All, All-mono, all, ◌!=◌,
}
use ipgate.Base.Split.Lines.{IsFree, strip_return, lines-line, lines-IsFree}
use ipgate.Sshd.{
  managed_block, mark_begin, mark_end, block_note, block_body, keep_outside, strip_managed_block,
}

lines-All : (P : ℕ → Type 0) (s : Text) → All P s → All (All P) (lines s)
unfolding lines
lines-All P [] h = tt
lines-All P (c ∷ s) (hc, h) = elim (Bool-cases (c == newline)) [
  | inl e ↦ rw e (tt, lines-All P s h)
  | inr e ↦ elim (Bool-cases (c == carriage_return && starts_newline s)) [
    | inl r ↦ rw (e, r) (lines-All P s h)
    | inr r ↦ rw (e, r) (push c (lines s) hc (lines-All P s h))
  ]
]
  where
    push : (d : ℕ) (ls : List Text) → P d → All (All P) ls → All (All P) (push_char d ls)
    push d [] hd hs = ((hd, tt), tt)
    push d (l ∷ ls) hd (hl, hs) = ((hd, hl), hs)

strip_return-free : (l : Text) → IsFree carriage_return l → strip_return l ≡ l
unfolding strip_return
strip_return-free [] h = refl
strip_return-free (c ∷ []) (hc, h) = rw hc
strip_return-free (c ∷ d ∷ l) (hc, h) = ap (◌∷◌ c) (strip_return-free (d ∷ l) h)

lines-unlines_free :
    (ls : List Text) (s : Text)
    → All (IsFree newline) ls
    → All (IsFree carriage_return) ls
    → lines (unlines ls ++ s) ≡ ls ++ lines s
unfolding unlines
lines-unlines_free [] s hn hc = refl
lines-unlines_free (l ∷ ls) s (ln, hn) (lc, hc) =
    ap lines (append_assoc l (newline ∷ unlines ls) s)
    ∙ lines-line l (unlines ls ++ s) ln
    ∙ rw (strip_return-free l lc) (ap (◌∷◌ l) (lines-unlines_free ls s hn hc))

-- A line that is none of the two marks.
abbrev IsPlain : Text → Type 0
IsPlain l = ((trim l == mark_begin) ≡ false) × ((trim l == mark_end) ≡ false)

keep_outside-All :
    (P : Text → Type 0) (skipping : Bool) (ls : List Text)
    → All (λ l. IsPlain l → P l) ls
    → All P (keep_outside skipping ls)
unfolding keep_outside
keep_outside-All P skipping [] h = tt
keep_outside-All P skipping (l ∷ ls) (hl, h) = elim (Bool-cases (trim l == mark_begin)) [
  | inl b ↦ rw b (keep_outside-All P true ls h)
  | inr b ↦ elim (Bool-cases (trim l == mark_end)) [
    | inl e ↦ rw (b, e) (keep_outside-All P false ls h)
    | inr e ↦ elim (Bool-cases skipping) [
      | inl k ↦ rw (b, e, k) (keep_outside-All P true ls h)
      | inr k ↦ rw (b, e, k) (hl (b, e), keep_outside-All P false ls h)
    ]
  ]
]

All-of : {P : Text → Type 0} (f : (l : Text) → P l) (ls : List Text) → All P ls
All-of f [] = tt
All-of f (l ∷ ls) = (f l, All-of f ls)

keep_outside-plain : (ls : List Text) → All IsPlain ls → keep_outside false ls ≡ ls
unfolding keep_outside
keep_outside-plain [] h = refl
keep_outside-plain (l ∷ ls) ((b, e), h) = rw (b, e) (ap (◌∷◌ l) (keep_outside-plain ls h))

block_lines : Bool → List Text
block_lines enabled = mark_begin ∷ block_note ∷ block_body enabled ++ mark_end ∷ []

text-IsFree : (sep : ℕ) (s : Text) → all (λ c. c != sep) s ≡ true → IsFree sep s
unfolding all
text-IsFree sep [] h = tt
text-IsFree sep (c ∷ s) h = (ground (arith, h), text-IsFree sep s (ground (arith, h)))

all-IsFree : (sep : ℕ) (ls : List Text) → all (all (λ c. c != sep)) ls ≡ true → All (IsFree sep) ls
unfolding all
all-IsFree sep [] h = tt
all-IsFree sep (l ∷ ls) h =
    (text-IsFree sep l (ground (arith, h)), all-IsFree sep ls (ground (arith, h)))

block_lines-IsFree :
    (enabled : Bool)
    → All (IsFree newline) (block_lines enabled)
      × All (IsFree carriage_return) (block_lines enabled)
unfolding lit all block_lines ipgate.Base.ℕ_discrete
block_lines-IsFree true =
    (all-IsFree newline (block_lines true) refl, all-IsFree carriage_return (block_lines true) refl)
block_lines-IsFree false = (
  all-IsFree newline (block_lines false) refl,
  all-IsFree carriage_return (block_lines false) refl,
)

keep_outside-block :
    (enabled : Bool) (ls : List Text)
    → keep_outside false (block_lines enabled ++ ls) ≡ keep_outside false ls
unfolding keep_outside lit block_lines ipgate.Base.list_dec ipgate.Base.ℕ_discrete
keep_outside-block true ls = refl
keep_outside-block false ls = refl

lines-nil : lines [] ≡ []
unfolding lines
lines-nil = refl

-- On a text without carriage returns: a block at the top of what was stripped is what the next
-- stripping takes off, and it takes off nothing else.
strip_managed_block-managed_block :
    (enabled : Bool) (text : Text)
    → IsFree carriage_return text
    → strip_managed_block (managed_block enabled ++ strip_managed_block text)
      ≡ strip_managed_block text
unfolding strip_managed_block managed_block block_lines
strip_managed_block-managed_block enabled text free =
    let kept = keep_outside false (lines text) in
    let no_returns : All (IsFree carriage_return) kept =
      keep_outside-All _ false (lines text)
        (All-mono (λ l h _. h) (lines text) (lines-All _ text free)) in
    let no_newlines : All (IsFree newline) kept =
      keep_outside-All _ false (lines text)
        (All-mono (λ l h _. h) (lines text) (lines-IsFree text)) in
    let plain : All IsPlain kept =
      keep_outside-All IsPlain false (lines text) (All-of (λ l h. h) (lines text)) in
    let (bn, bc) = block_lines-IsFree enabled in
    ap unlines (
      ap (keep_outside false) (lines-unlines_free (block_lines enabled) (unlines kept) bn bc)
      ∙ keep_outside-block enabled (lines (unlines kept))
      ∙ ap (keep_outside false) (
          ap lines (sym (append-nil (unlines kept)))
          ∙ lines-unlines_free kept [] no_newlines no_returns
          ∙ ap (◌++◌ kept) lines-nil
          ∙ append-nil kept)
      ∙ keep_outside-plain kept plain)
