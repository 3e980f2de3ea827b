-- ===== src/Dnat/Conf/Removal.antt =====
-- What the removal of a rule does to the configuration, as `parse_conf` reads it.
use ipgate.Base.{
  ℕ, ◌==◌, ◌!=◌, nat_eq, list_eq, Bool, true, false, not, ◌&&◌, ◌||◌, Option, none, some, List, [],
  ◌∷◌, ◌++◌, ◌⊎◌, lit, map, if◌then◌else◌, Text, trim, ◌≡◌, refl, sym, ap, ◌∙◌, inl, inr, arith,
  All, retain, any, Bool-cases, Option-cases, lines, unlines, join, newline, carriage_return,
  is_whitespace,
}
use ipgate.Base.Str.Trimming.{trim-concat}
use ipgate.Base.Split.Lines.{IsFree, strip_return, lines-unlines, lines-IsFree, join-newline}
use ipgate.Proto.Ports.{is_nil}
use ipgate.Dnat.Conf.{
  DnatRule, prefix_key, parse_line, rule_in, rules_of, parse_conf, is_dropped, keep_lines, end_line,
  remove_rule_lines,
}
use ipgate.Dnat.Conf.Reading.{parse_line-trim}

abbrev pub has_key : Text → DnatRule → Bool
has_key prefix r = prefix_key r == prefix

-- The rules in the kept lines are those with another key.
keep_lines-rules :
    (prefix : Text) (ls : List Text)
    → rules_of (keep_lines prefix ls).0 ≡ retain (λ r. not (has_key prefix r)) (rules_of ls)
unfolding keep_lines rules_of retain
keep_lines-rules prefix [] = refl
keep_lines-rules prefix (l ∷ ls) = elim (Option-cases (rule_in (parse_line l))) [
  | inl e ↦ rw e (rw e (keep_lines-rules prefix ls))
  | inr (r, e) ↦ elim (Bool-cases (has_key prefix r)) [
    | inl k ↦ rw (e, k) (keep_lines-rules prefix ls)
    | inr k ↦ rw (e, k) (rw e (ap (◌∷◌ r) (keep_lines-rules prefix ls)))
  ]
]

keep_lines-removed :
    (prefix : Text) (ls : List Text) → (keep_lines prefix ls).1 ≡ any (has_key prefix) (rules_of ls)
unfolding keep_lines rules_of any
keep_lines-removed prefix [] = refl
keep_lines-removed prefix (l ∷ ls) = ground (arith, keep_lines-removed prefix ls)

keep_lines-All :
    (P : Text → Type 0) (prefix : Text) (ls : List Text) → All P ls → All P (keep_lines prefix ls).0
unfolding keep_lines
keep_lines-All P prefix [] h = tt
keep_lines-All P prefix (l ∷ ls) (p, h) =
    elim (Bool-cases (is_dropped prefix (rule_in (parse_line l)))) [
      | inl e ↦ rw e (keep_lines-All P prefix ls h)
      | inr e ↦ rw e (p, keep_lines-All P prefix ls h)
    ]

strip_return-cases :
    (l : Text) → (strip_return l ≡ l) ⊎ (l ≡ strip_return l ++ carriage_return ∷ [])
unfolding strip_return
strip_return-cases [] = inl refl
strip_return-cases (c ∷ []) = elim (Bool-cases (c == carriage_return)) [
  | inl e ↦ inr (rw e (ap (λ x. x ∷ []) (ground (arith, e))))
  | inr e ↦ inl (rw e)
]
strip_return-cases (c ∷ d ∷ l) = elim (strip_return-cases (d ∷ l)) [
  | inl e ↦ inl (ap (◌∷◌ c) e)
  | inr e ↦ inr (ap (◌∷◌ c) e)
]

trim-strip_return : (l : Text) → trim (strip_return l) ≡ trim l
unfolding is_whitespace ipgate.Base.ℕ_discrete
trim-strip_return l = elim (strip_return-cases l) [
  | inl e ↦ ap trim e
  | inr e ↦ sym (ap trim e ∙ trim-concat carriage_return (strip_return l) refl)
]

rules_of-strip : (ls : List Text) → rules_of (map strip_return ls) ≡ rules_of ls
unfolding rules_of
rules_of-strip [] = refl
rules_of-strip (l ∷ ls) = rw (
  parse_line-trim (strip_return l) (trim l) (trim-strip_return l),
  sym (parse_line-trim l (trim l) refl),
  rules_of-strip ls,
)

-- What is written of some lines is read as the same rules.
is_nil-eq : (s : Text) → is_nil s ≡ true → s ≡ []
unfolding is_nil
is_nil-eq [] e = refl
is_nil-eq (c ∷ s) e = absurd (ground arith)

is_nil-append : (s t : Text) → is_nil (s ++ t) ≡ (is_nil s && is_nil t)
unfolding is_nil
is_nil-append [] t = refl
is_nil-append (c ∷ s) t = refl

-- Only one empty line is written as nothing, and it holds no rule.
is_nil-join :
    (l : Text) (ls : List Text)
    → is_nil (join (newline ∷ []) (l ∷ ls)) ≡ true
    → rules_of (l ∷ ls) ≡ rules_of []
unfolding is_nil join rules_of parse_line lit
is_nil-join [] [] e = refl
is_nil-join (c ∷ l) [] e = absurd (ground arith)
is_nil-join l (m ∷ ls) e =
    let back = is_nil-append (l ++ newline ∷ []) (join (newline ∷ []) (m ∷ ls)) in
    let front = is_nil-append l (newline ∷ []) in absurd (ground (arith, back, front, e))

nothing : parse_conf (end_line (join (newline ∷ []) [])) ≡ rules_of []
unfolding parse_conf is_nil join lines rules_of
nothing = refl

no_text : parse_conf [] ≡ rules_of []
unfolding parse_conf lines
no_text = refl

rules-written :
    (ls : List Text)
    → All (IsFree newline) ls
    → parse_conf (end_line (join (newline ∷ []) ls)) ≡ rules_of ls
unfolding parse_conf
rules-written [] free = nothing
rules-written (l ∷ ls) free = elim (Bool-cases (is_nil (join (newline ∷ []) (l ∷ ls)))) [
  | inl e ↦ rw e (
      ap parse_conf (is_nil-eq (join (newline ∷ []) (l ∷ ls)) e)
      ∙ no_text
      ∙ sym (is_nil-join l ls e))
  | inr e ↦ rw (e, join-newline l ls, lines-unlines (l ∷ ls) free) (rules_of-strip (l ∷ ls))
]

-- The configuration behind a removal holds the rules with another prefix key, in their order, and
-- the removal says that it removed a rule exactly when one had the key.
pub remove_rule_lines_lem :
    (text prefix : Text)
    → (parse_conf (remove_rule_lines text prefix).0
        ≡ retain (λ r. not (has_key prefix r)) (parse_conf text))
      × ((remove_rule_lines text prefix).1 ≡ any (has_key prefix) (parse_conf text))
unfolding remove_rule_lines parse_conf
remove_rule_lines_lem text prefix =
    let free = keep_lines-All (IsFree newline) prefix (lines text) (lines-IsFree text) in
    (
      rules-written (keep_lines prefix (lines text)).0 free ∙ keep_lines-rules prefix (lines text),
      keep_lines-removed prefix (lines text),
    )
