-- ===== src/Proto/Net/Display.antt =====
-- `Ipv4Addr::from_str` reads back what its `Display` writes.
use ipgate.Base.{
  ◌*◌, All-mono, leb, ◌||◌, ℕ, zero, suc, ◌+◌, ◌/◌, ◌%◌, ◌≤◌, ◌<◌, ◌≡◌, refl, ap, ◌∙◌, inl, inr,
  arith, ◌==◌, nat_eq, Bool, true, false, not, some, [], ◌∷◌, ◌++◌, Text, Bool-cases, ltb, length,
  all, decimal, decimal_from, is_ascii_digit, split_from, lit,
}
use mathlib.Core.List.{append_assoc}
use ipgate.Base.Str.Decimals.{
  IsDigits, decimal-IsNumeral, decimal_from-small, decimal_from-large, digits_value-decimal,
  parse_digits-numeral,
}
use ipgate.Base.Split.Lines.{IsFree, split_from-free, split_from-part}
use ipgate.Proto.Net.{Ipv4Addr, parse_octet, parse_ipv4, starts_zero, show_ipv4}

length-concat : (s : Text) (c : ℕ) → length (s ++ c ∷ []) ≡ suc (length s)
length-concat [] c = refl
length-concat (x ∷ s) c = ap suc (length-concat s c)

length-decimal_from_one : (fuel n : ℕ) → n < 10 → length (decimal_from fuel n) ≤ 1
unfolding decimal_from
length-decimal_from_one zero n h = omega arith
length-decimal_from_one (suc fuel) n h = rw (decimal_from-small fuel n (ground arith)) (omega arith)

-- One digit more allows ten times as much.
length-decimal_from_more :
    (k bound : ℕ)
    → ((fuel n : ℕ) → n < bound → length (decimal_from fuel n) ≤ suc k)
    → (fuel n : ℕ) → n < bound * 10
    → length (decimal_from fuel n) ≤ suc (suc k)
unfolding decimal_from
length-decimal_from_more k bound h zero n lt = omega arith
length-decimal_from_more k bound h (suc fuel) n lt = elim (Bool-cases (ltb n 10)) [
  | inl e ↦ rw (decimal_from-small fuel n e) (omega arith)
  | inr e ↦
      let ih = h fuel (n / 10) (omega arith) in
      rw (decimal_from-large fuel n e, length-concat (decimal_from fuel (n / 10)) (b'0' + n % 10))
        (omega arith)
]

starts_zero-decimal_from :
    (fuel n : ℕ)
    → 0 < n
    → n < fuel
    → (c : ℕ) × (s : Text) × (decimal_from fuel n ≡ c ∷ s) × ((c == b'0') ≡ false)
starts_zero-decimal_from zero n pos lt = absurd (omega arith)
starts_zero-decimal_from (suc fuel) n pos lt = elim (Bool-cases (ltb n 10)) [
  | inl e ↦ (b'0' + n, [], decimal_from-small fuel n e, ground arith)
  | inr e ↦
      let (c, s, eq, ne) = starts_zero-decimal_from fuel (n / 10) (ground arith) (ground arith) in
      (
        c,
        s ++ (b'0' + n % 10) ∷ [],
        decimal_from-large fuel n e ∙ ap (λ t. t ++ (b'0' + n % 10) ∷ []) eq,
        ne,
      )
]

-- Each octet is a byte.
abbrev pub IsAddress : Ipv4Addr → Type 0
IsAddress x = (x.a ≤ 255) × (x.b ≤ 255) × (x.c ≤ 255) × (x.d ≤ 255)

octet_length : (n : ℕ) → n ≤ 255 → length (decimal n) ≤ 3
unfolding decimal
octet_length n h =
    length-decimal_from_more 1 100 (length-decimal_from_more 0 10 length-decimal_from_one) (suc n) n
      (omega arith)

or-true : (b : Bool) → (b || true) ≡ true
or-true true = refl
or-true false = refl

octet_zero :
    (n : ℕ) → n ≤ 255 → (leb (length (decimal n)) 1 || not (starts_zero (decimal n))) ≡ true
unfolding decimal starts_zero
octet_zero zero h = ground arith
octet_zero (suc n) h =
    let (c, s, eq, ne) =
      starts_zero-decimal_from (suc (suc n)) (suc n) (omega arith) (omega arith) in
    rw (eq, ne) (or-true (leb (length (c ∷ s)) 1))

all-IsDigits : (s : Text) → IsDigits s → all is_ascii_digit s ≡ true
unfolding all
all-IsDigits [] h = refl
all-IsDigits (c ∷ s) (hc, h) = rw (hc, all-IsDigits s h)

digits-IsFree : (s : Text) → IsDigits s → IsFree b'.' s
unfolding is_ascii_digit
digits-IsFree s h = All-mono (λ c hc. ground arith) s h

parse_octet-decimal : (n : ℕ) → n ≤ 255 → parse_octet (decimal n) ≡ some n
unfolding parse_octet
parse_octet-decimal n h =
    let numeral = decimal-IsNumeral n in
    let digits = all-IsDigits (decimal n) numeral.0 in
    let value = parse_digits-numeral (decimal n) numeral ∙ digits_value-decimal n in
    let short : leb (length (decimal n)) 3 ≡ true = ground (arith, octet_length n h) in
    rw (short, digits, octet_zero n h, value) (ground arith)

split_from-show_ipv4 :
    (x : Ipv4Addr)
    → split_from b'.' (show_ipv4 x) ≡ (decimal x.a, decimal x.b ∷ decimal x.c ∷ decimal x.d ∷ [])
unfolding show_ipv4 lit
split_from-show_ipv4 x = simp (
  append_assoc,
  split_from-part b'.' (decimal x.a) _ (free x.a),
  split_from-part b'.' (decimal x.b) _ (free x.b),
  split_from-part b'.' (decimal x.c) _ (free x.c),
  split_from-free b'.' (decimal x.d) (free x.d),
)
  where
    free : (n : ℕ) → IsFree b'.' (decimal n)
    free n = digits-IsFree (decimal n) (decimal-IsNumeral n).0

pub parse_ipv4-show_ipv4 : (x : Ipv4Addr) → IsAddress x → parse_ipv4 (show_ipv4 x) ≡ some x
unfolding parse_ipv4 show_ipv4 lit
parse_ipv4-show_ipv4 x (ha, hb, hc, hd) = rw (
  split_from-show_ipv4 x,
  parse_octet-decimal x.a ha,
  parse_octet-decimal x.b hb,
  parse_octet-decimal x.c hc,
  parse_octet-decimal x.d hd,
)
