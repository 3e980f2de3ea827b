-- ===== src/Base/Str/Decimals.antt =====
-- `parse` reads back what `to_string` writes of a number.
use Prim.Native.Nat.{ℕ, zero, suc, ◌+◌, ◌-◌, ◌*◌, ◌/◌, ◌%◌, ◌≤◌, ◌<◌}
use mathlib.Core.Path.{◌≡◌, refl, ap}
use mathlib.Core.Logic.{◌≢◌, inl, inr}
use mathlib.Core.Bool.{true, false}
use mathlib.Core.List.{[], ◌∷◌, ◌++◌, append-ne-nil_of_right_ne-nil}
use mathlib.Core.Option.{some}
use native.Mathlib.Omega.{arith}
use ipgate.Base.Tests.{Bool-cases, ltb, ◌==◌, nat_eq}
use ipgate.Base.Lists.{All, All-append}
use ipgate.Base.Str.{
  Text, is_ascii_digit, digits_value, parse_digits, at_most, parse_unsigned, decimal_from, decimal,
}

abbrev pub IsDigits : Text → Type 0
IsDigits = All (λ c. is_ascii_digit c ≡ true)

digits_value-concat :
    (s : Text) (n v d : ℕ)
    → digits_value n s ≡ some v
    → is_ascii_digit d ≡ true
    → digits_value n (s ++ d ∷ []) ≡ some (v * 10 + (d - b'0'))
unfolding digits_value
digits_value-concat [] n v d h hd = ground (arith, h, hd)
digits_value-concat (c ∷ s) n v d h hd =
    ground (arith, digits_value-concat s (n * 10 + (c - 48)) v d, h, hd)

last_digit : (n : ℕ) → n < 10 → is_ascii_digit (b'0' + n) ≡ true
unfolding is_ascii_digit
last_digit n h = ground arith

pub decimal_from-small :
    (fuel n : ℕ) → ltb n 10 ≡ true → decimal_from (suc fuel) n ≡ (b'0' + n) ∷ []
unfolding decimal_from
decimal_from-small fuel n e = ground arith

pub decimal_from-large :
    (fuel n : ℕ)
    → ltb n 10 ≡ false
    → decimal_from (suc fuel) n ≡ decimal_from fuel (n / 10) ++ (b'0' + n % 10) ∷ []
unfolding decimal_from
decimal_from-large fuel n e = ground arith

decimal_from-IsDigits : (fuel n : ℕ) → IsDigits (decimal_from fuel n)
unfolding decimal_from
decimal_from-IsDigits zero n = tt
decimal_from-IsDigits (suc fuel) n = elim (Bool-cases (ltb n 10)) [
  | inl e ↦ rw (decimal_from-small fuel n e) (last_digit n (ground arith), tt)
  | inr e ↦ rw (decimal_from-large fuel n e) (
      All-append _ (decimal_from fuel (n / 10)) _ (decimal_from-IsDigits fuel (n / 10))
        (last_digit (n % 10) (omega arith), tt))
]

digits_value-digit : (k : ℕ) → k < 10 → digits_value 0 ((b'0' + k) ∷ []) ≡ some k
unfolding digits_value
digits_value-digit k hk = ground (arith, last_digit k hk)

decimal_from-value : (fuel n : ℕ) → n < fuel → digits_value 0 (decimal_from fuel n) ≡ some n
decimal_from-value zero n h = absurd (omega arith)
decimal_from-value (suc fuel) n h = elim (Bool-cases (ltb n 10)) [
  | inl e ↦ rw (decimal_from-small fuel n e) (digits_value-digit n (ground arith))
  | inr e ↦
      let ih = decimal_from-value fuel (n / 10) (ground arith) in
      rw
        (
          decimal_from-large fuel n e,
          digits_value-concat (decimal_from fuel (n / 10)) 0 (n / 10) (b'0' + n % 10) ih
              (last_digit (n % 10) (omega arith)),
        )
        (ap some (omega arith))
]

decimal_from-nonempty : (fuel n : ℕ) → decimal_from (suc fuel) n ≢ []
decimal_from-nonempty fuel n = elim (Bool-cases (ltb n 10)) [
  | inl e ↦ rw (decimal_from-small fuel n e) (λ h. cc)
  | inr e ↦
      rw (decimal_from-large fuel n e)
        (append-ne-nil_of_right_ne-nil (decimal_from fuel (n / 10)) (λ h. cc))
]

-- A text that is not empty and holds digits only.
abbrev pub IsNumeral : Text → Type 0
IsNumeral s = IsDigits s × (s ≢ [])

pub decimal-IsNumeral : (n : ℕ) → IsNumeral (decimal n)
unfolding decimal
decimal-IsNumeral n = (decimal_from-IsDigits (suc n) n, decimal_from-nonempty n n)

pub digits_value-decimal : (n : ℕ) → digits_value 0 (decimal n) ≡ some n
unfolding decimal
digits_value-decimal n = decimal_from-value (suc n) n (omega arith)

pub parse_digits-numeral : (s : Text) → IsNumeral s → parse_digits s ≡ digits_value 0 s
unfolding parse_digits
parse_digits-numeral [] (_, ne) = absurd (ne refl)
parse_digits-numeral (c ∷ s) h = refl

parse_unsigned-numeral :
    (m : ℕ) (s : Text) → IsNumeral s → parse_unsigned m s ≡ at_most m (parse_digits s)
unfolding parse_unsigned is_ascii_digit
parse_unsigned-numeral m [] (_, ne) = absurd (ne refl)
parse_unsigned-numeral m (c ∷ s) ((hc, _), _) = elim (Bool-cases (c == b'+')) [
  | inl e ↦ absurd (ground arith)
  | inr e ↦ rw e
]

-- A number up to the largest value of its type is read back.
pub parse_unsigned-decimal : (m n : ℕ) → n ≤ m → parse_unsigned m (decimal n) ≡ some n
parse_unsigned-decimal m n h =
    let numeral = decimal-IsNumeral n in
    rw
      (
        parse_unsigned-numeral m (decimal n) numeral,
        parse_digits-numeral (decimal n) numeral,
        digits_value-decimal n,
      )
      (ground arith)
