-- ===== src/Nft/Nat/Injection.antt =====
-- An interface name that passes the white list cannot add a statement to the text of the nat table.
use ipgate.Base.{ℕ, ◌+◌, ◌==◌, nat_eq, ◌≡◌, true, false, [], ◌∷◌, if◌then◌else◌, Text}
use ipgate.Proto.Forwards.{iface_char, valid_iface_name}
use ipgate.Nft.Backend.{ResolvedForward}

-- How often the character stands in the text.
unfoldable pub count : ℕ → Text → ℕ
count c [] = 0
count c (x ∷ s) = (if x == c then 1 else 0) + count c s

-- A rule for an interface without a name.
unfoldable pub unnamed : ResolvedForward → ResolvedForward
unnamed f = record f { iface = [] }

module _ (c : ℕ) (bad : iface_char c ≡ false) where
  -- A line that counts the same with the name taken out.
  abbrev IsClean : (ResolvedForward → Text → Text) → Type 0
  IsClean line =
      (f : ResolvedForward) (p : Text)
      → valid_iface_name f.iface ≡ true
      → count c (line f p) ≡ count c (line (unnamed f) p)
