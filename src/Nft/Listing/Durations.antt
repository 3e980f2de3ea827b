-- ===== src/Nft/Listing/Durations.antt =====
-- The durations that nft prints, as `parse_nft_duration` of agent/src/nft/parse.rs reads them.
use ipgate.Base.{
  ℕ, nat_eq, ◌≡◌, refl, arith, ap, sym, ◌∙◌, Bool, true, false, some, List, [], ◌∷◌, ◌++◌, ◌+◌, ◌*◌,
  ◌%◌, ◌≤◌, Text, decimal, is_ascii_digit,
}
use mathlib.Core.List.{append_assoc, append-nil}
use ipgate.Base.Str.Decimals.{IsDigits, decimal-IsNumeral, parse_unsigned-decimal}
use ipgate.Nft.Listing.{i64_max, i64_span, unit_secs, duration_from, parse_nft_duration}

pub data TimeUnit : Type 0 where
  weeks days hours minutes seconds : TimeUnit

abbrev pub mark : TimeUnit → ℕ
mark weeks = b'w'
mark days = b'd'
mark hours = b'h'
mark minutes = b'm'
mark seconds = b's'

unfoldable pub unit_length : TimeUnit → ℕ
unit_length weeks = 604800
unit_length days = 86400
unit_length hours = 3600
unit_length minutes = 60
unit_length seconds = 1

unfoldable pub total_secs : List (ℕ × TimeUnit) → ℕ
total_secs [] = 0
total_secs ((n, u) ∷ ps) = n * unit_length u + total_secs ps

unfoldable pub duration_text : List (ℕ × TimeUnit) → Text
duration_text [] = []
duration_text ((n, u) ∷ ps) = decimal n ++ mark u ∷ duration_text ps

unit_secs-mark : (u : TimeUnit) → unit_secs (mark u) ≡ some (unit_length u)
unfolding unit_length
unit_secs-mark weeks = ground arith
unit_secs-mark days = ground arith
unit_secs-mark hours = ground arith
unit_secs-mark minutes = ground arith
unit_secs-mark seconds = ground arith

mark_digit : (u : TimeUnit) → is_ascii_digit (mark u) ≡ false
unfolding is_ascii_digit
mark_digit weeks = ground arith
mark_digit days = ground arith
mark_digit hours = ground arith
mark_digit minutes = ground arith
mark_digit seconds = ground arith

-- Digits are collected.
duration_from-digit :
    (num : Text) (t : ℕ) (b : Bool) (c : ℕ) (s : Text)
    → is_ascii_digit c ≡ true
    → duration_from num t b (c ∷ s) ≡ duration_from (num ++ c ∷ []) t b s
unfolding duration_from
duration_from-digit num t b c s h = rw (h, duration_from) refl

duration_from-digits :
    (num : Text) (t : ℕ) (b : Bool) (ds s : Text)
    → IsDigits ds
    → duration_from num t b (ds ++ s) ≡ duration_from (num ++ ds) t b s
duration_from-digits num t b [] s h = ap (λ x. duration_from x t b s) (sym (append-nil num))
duration_from-digits num t b (c ∷ ds) s (hc, hs) =
    duration_from-digit num t b c (ds ++ s) hc
    ∙ duration_from-digits (num ++ c ∷ []) t b ds s hs
    ∙ ap (λ x. duration_from x t b s) (append_assoc num (c ∷ []) ds)

-- A unit adds what the digits before it say.
duration_from-mark :
    (n t : ℕ) (b : Bool) (u : TimeUnit) (s : Text)
    → n ≤ i64_max
    → duration_from (decimal n) t b (mark u ∷ s)
      ≡ duration_from [] ((t + n * unit_length u) % i64_span) true s
unfolding duration_from
duration_from-mark n t b u s h =
    rw (duration_from, mark_digit u, parse_unsigned-decimal i64_max n h, unit_secs-mark u) refl

part_le : (n : ℕ) (u : TimeUnit) → n ≤ n * unit_length u
unfolding unit_length
part_le n weeks = omega arith
part_le n days = omega arith
part_le n hours = omega arith
part_le n minutes = omega arith
part_le n seconds = omega arith

small_rem : (n : ℕ) → n ≤ i64_max → n % i64_span ≡ n
small_rem n h = omega arith

-- One number with its unit, as long as the total fits.
duration_from-part :
    (t : ℕ) (b : Bool) (n : ℕ) (u : TimeUnit) (s : Text)
    → t + n * unit_length u ≤ i64_max
    → duration_from [] t b (decimal n ++ mark u ∷ s)
      ≡ duration_from [] (t + n * unit_length u) true s
duration_from-part t b n u s h =
    let le = part_le n u in
    duration_from-digits [] t b (decimal n) (mark u ∷ s) (decimal-IsNumeral n).0
    ∙ duration_from-mark n t b u s (omega arith)
    ∙ ap (λ x. duration_from [] x true s) (small_rem (t + n * unit_length u) h)

duration_from-nil : (t : ℕ) → duration_from [] t true [] ≡ some t
unfolding duration_from
duration_from-nil t = refl

duration_from-text :
    (t : ℕ) (ps : List (ℕ × TimeUnit))
    → t + total_secs ps ≤ i64_max
    → duration_from [] t true (duration_text ps) ≡ some (t + total_secs ps)
unfolding total_secs duration_text
duration_from-text t [] h = duration_from-nil t ∙ ap some (omega arith)
duration_from-text t ((n, u) ∷ ps) h =
    duration_from-part t true n u (duration_text ps) (omega arith)
    ∙ duration_from-text (t + n * unit_length u) ps (omega arith)
    ∙ ap some (omega arith)

-- A duration that is printed as numbers with units, at least one, is read back as its seconds,
-- when they fit the signed 64 bits.
pub parse_nft_duration-duration_text :
    (n : ℕ) (u : TimeUnit) (ps : List (ℕ × TimeUnit))
    → total_secs ((n, u) ∷ ps) ≤ i64_max
    → parse_nft_duration (duration_text ((n, u) ∷ ps)) ≡ some (total_secs ((n, u) ∷ ps))
unfolding parse_nft_duration total_secs duration_text
parse_nft_duration-duration_text n u ps h =
    duration_from-part 0 false n u (duration_text ps) (omega arith)
    ∙ duration_from-text (0 + n * unit_length u) ps (omega arith)
    ∙ ap some (omega arith)
