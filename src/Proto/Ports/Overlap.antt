-- ===== src/Proto/Ports/Overlap.antt =====
-- `PortRange::overlaps` of proto/src/ruleset.rs.
use ipgate.Base.{ℕ, ◌≡◌, ◌↔◌, true, false, arith, leb}
use ipgate.Proto.Ports.{PortRange, contains, is_valid, overlaps}

shared : (r s : PortRange) → ℕ
shared r s = elim (leb r.start s.start) [ true ↦ s.start | false ↦ r.start ]

-- Two valid ranges overlap exactly when some port lies in both.
pub overlaps_iff :
    (r s : PortRange)
    → is_valid r ≡ true
    → is_valid s ≡ true
    → (overlaps r s ≡ true) ↔ ((port : ℕ) × (contains r port ≡ true) × (contains s port ≡ true))
unfolding overlaps contains is_valid shared
overlaps_iff r s hr hs =
    (λ h. (shared r s, ground arith, ground arith), λ (port, hr', hs'). ground arith)
