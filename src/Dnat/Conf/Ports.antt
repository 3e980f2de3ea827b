-- ===== src/Dnat/Conf/Ports.antt =====
-- A port or a range of ports, as it is written in a line of dnat's configuration
-- (agent/src/dnat/conf.rs), is read back.
use mathlib.Core.List.{append_assoc}
use ipgate.Base.{
  ℕ, suc, ◌-◌, ◌≤◌, ◌<◌, ◌==◌, ◌!=◌, nat_eq, list_eq, Bool, true, false, not, ◌&&◌, ◌||◌, Option,
  none, some, List, [], ◌∷◌, ◌++◌, leb, if◌then◌else◌, Text, lit, trim, decimal, parse_unsigned,
  split_from, split_once, rsplit_once, ok, err, ◌≡◌, ◌≢◌, refl, sym, ap, ◌∙◌, ◌⊎◌, inl, inr, arith,
  All, All-append, All-mono, Bool-cases, is_ascii_digit, is_whitespace, starts_with, map_err,
  ◌>>=?◌,
}
use ipgate.Base.Str.Trimming.{IsTight, trim-IsTight}
use ipgate.Base.Str.Decimals.{IsDigits, decimal-IsNumeral, parse_unsigned-decimal}
use ipgate.Base.Split.Lines.{IsFree}
use ipgate.Base.Split.Once.{split_once-free, split_once-part}
use ipgate.Proto.Ports.{PortRange, single}
use ipgate.Dnat.Conf.{port_spec, parse_port_range, range_parts}

-- The characters of a list of ports.
abbrev pub IsPortChar : ℕ → Type 0
IsPortChar c = (is_ascii_digit c || c == b'-') ≡ true

abbrev pub IsPort : PortRange → Type 0
IsPort p = (0 < p.start) × (p.start ≤ p.end) × (p.end ≤ 65535)

digits-port : (s : Text) → IsDigits s → All IsPortChar s
unfolding is_ascii_digit
digits-port s h = All-mono (λ c hc. ground (arith, hc)) s h

pub port_spec-chars : (p : PortRange) → All IsPortChar (port_spec p)
unfolding port_spec lit is_ascii_digit ipgate.Base.ℕ_discrete
port_spec-chars p = elim (Bool-cases (p.start == p.end)) [
  | inl e ↦ rw e (digits-port (decimal p.start) (decimal-IsNumeral p.start).0)
  | inr e ↦ rw e (
      All-append _ (decimal p.start ++ b'-' ∷ []) (decimal p.end)
        (All-append _ (decimal p.start) (b'-' ∷ [])
          (digits-port (decimal p.start) (decimal-IsNumeral p.start).0) (refl, tt))
        (digits-port (decimal p.end) (decimal-IsNumeral p.end).0))
]

pub port-IsTight : (s : Text) → All IsPortChar s → IsTight s
unfolding is_ascii_digit is_whitespace
port-IsTight s h = All-mono (λ c hc. ground (arith, hc)) s h

pub port-IsFree :
    (sep : ℕ) (s : Text) → (sep ≡ b'>') ⊎ (sep ≡ b':') → All IsPortChar s → IsFree sep s
unfolding is_ascii_digit
port-IsFree sep s known h = All-mono (λ c hc. ground (arith, hc)) s h

digits-IsFree : (s : Text) → IsDigits s → IsFree b'-' s
unfolding is_ascii_digit
digits-IsFree s h = All-mono (λ c hc. ground (arith, hc)) s h

digits-IsTight : (s : Text) → IsDigits s → IsTight s
digits-IsTight s h = port-IsTight s (digits-port s h)

parse_port_range-tight :
    (s : Text) → IsTight s → parse_port_range s ≡ range_parts s (split_once b'-' s)
unfolding parse_port_range
parse_port_range-tight s h = ap (λ t. range_parts t (split_once b'-' t)) (trim-IsTight s h)

range_parts-one : (n : ℕ) → 0 < n → n ≤ 65535 → range_parts (decimal n) none ≡ ok (single n)
range_parts-one n pos max = rw (parse_unsigned-decimal 65535 n max) (ground arith)

range_parts-two :
    (s : Text) (m n : ℕ)
    → 0 < m
    → m < n
    → n ≤ 65535
    → range_parts s (some (decimal m, decimal n)) ≡ ok (record { start = m; end = n })
range_parts-two s m n pos lt max =
    rw
      (
        trim-numeral m,
        trim-numeral n,
        parse_unsigned-decimal 65535 m (omega arith),
        parse_unsigned-decimal 65535 n max,
      )
      (ground arith)
  where
    trim-numeral : (k : ℕ) → trim (decimal k) ≡ decimal k
    trim-numeral k = trim-IsTight (decimal k) (digits-IsTight (decimal k) (decimal-IsNumeral k).0)

port_spec-one : (p : PortRange) → (p.start == p.end) ≡ true → port_spec p ≡ decimal p.start
unfolding port_spec
port_spec-one p e = rw e

port_spec-two :
    (p : PortRange)
    → (p.start == p.end) ≡ false
    → port_spec p ≡ decimal p.start ++ b'-' ∷ decimal p.end
unfolding port_spec lit
port_spec-two p e = rw e (append_assoc (decimal p.start) (b'-' ∷ []) (decimal p.end))

pub parse_port_range-port_spec : (p : PortRange) → IsPort p → parse_port_range (port_spec p) ≡ ok p
unfolding single
parse_port_range-port_spec p (pos, le, max) =
    parse_port_range-tight (port_spec p) (port-IsTight _ (port_spec-chars p))
    ∙ elim (Bool-cases (p.start == p.end)) [
      | inl e ↦
          rw
            (
              port_spec-one p e,
              split_once-free b'-' (decimal p.start)
                  (digits-IsFree _ (decimal-IsNumeral p.start).0),
              range_parts-one p.start pos (ground arith),
            )
            (ap (λ n. ok (record { start = p.start; end = n })) (ground arith))
      | inr e ↦
          rw
            (
              port_spec-two p e,
              split_once-part b'-' (decimal p.start) (decimal p.end)
                  (digits-IsFree _ (decimal-IsNumeral p.start).0),
            )
            (range_parts-two (decimal p.start ++ b'-' ∷ decimal p.end) p.start p.end pos
              (ground arith) max)
    ]
