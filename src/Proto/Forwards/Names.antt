-- ===== src/Proto/Forwards/Names.antt =====
-- `valid_iface_name` of proto/src/forward.rs.
use ipgate.Base.{
  ℕ, ◌≤◌, ◌≡◌, ◌↔◌, ◌⊎◌, true, arith, [], ◌∷◌, length, All, Text, all, byte_len,
  is_ascii_alphanumeric,
}
use ipgate.Proto.Forwards.{iface_char, valid_iface_name}

-- A letter, a digit, a full stop, a dash or an underscore.
abbrev pub IsNameChar : ℕ → Type 0
IsNameChar c =
    ((48 ≤ c) × (c ≤ 57))
    ⊎ ((65 ≤ c) × (c ≤ 90))
    ⊎ ((97 ≤ c) × (c ≤ 122))
    ⊎ (c ≡ 46)
    ⊎ (c ≡ 45)
    ⊎ (c ≡ 95)

iface_char_iff : (c : ℕ) → (iface_char c ≡ true) ↔ IsNameChar c
unfolding iface_char is_ascii_alphanumeric
iface_char_iff c = ground arith

all_iff : (s : Text) → (all iface_char s ≡ true) ↔ All IsNameChar s
unfolding all
all_iff [] = ground arith
all_iff (c ∷ s) = ground (arith, iface_char_iff c, all_iff s)

byte_len_ascii : (s : Text) → All IsNameChar s → byte_len s ≡ length s
unfolding byte_len
byte_len_ascii [] h = omega arith
byte_len_ascii (c ∷ s) (hc, hs) = ground (arith, byte_len_ascii s hs)

-- A name is accepted exactly when it has 1 to 15 characters, each a letter, a digit or one of `.-_`.
pub valid_iface_name_iff :
    (name : Text)
    → (valid_iface_name name ≡ true)
      ↔ ((1 ≤ length name) × (length name ≤ 15) × All IsNameChar name)
unfolding valid_iface_name
valid_iface_name_iff [] = ground arith
valid_iface_name_iff (c ∷ s) = ground (arith, all_iff (c ∷ s), byte_len_ascii (c ∷ s))
