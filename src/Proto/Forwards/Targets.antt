-- ===== src/Proto/Forwards/Targets.antt =====
-- `forbidden_forward_target` and `validate_ports` of proto/src/forward.rs.
use ipgate.Base.{ℕ, ◌+◌, ◌-◌, ◌*◌, ◌≤◌, ◌<◌, ◌≡◌, ◌≢◌, ◌↔◌, ◌⊎◌, arith, none, ok}
use ipgate.Proto.Net.{Ipv4Addr}
use ipgate.Proto.Ports.{PortRange}
use ipgate.Proto.Forwards.{forbidden_forward_target, validate_ports}

-- The four numbers are octets.
pub record IsAddress (x : Ipv4Addr) : Type 0 where
  pub a : x.a < 256
  pub b : x.b < 256
  pub c : x.c < 256
  pub d : x.d < 256

-- The address as a 32-bit number.
abbrev pub value : Ipv4Addr → ℕ
value x = ((x.a * 256 + x.b) * 256 + x.c) * 256 + x.d

-- The blocked ranges by number: 0/8, 127/8, 169.254/16, 224/4, the broadcast address, and the two
-- metadata endpoints 100.100.100.200 and 100.100.100.136.
abbrev pub IsBlocked : ℕ → Type 0
IsBlocked v =
    (v < 16777216)
    ⊎ ((2130706432 ≤ v) × (v < 2147483648))
    ⊎ ((2851995648 ≤ v) × (v < 2852061184))
    ⊎ ((3758096384 ≤ v) × (v < 4026531840))
    ⊎ (v ≡ 4294967295)
    ⊎ (v ≡ 1684301000)
    ⊎ (v ≡ 1684300936)

-- A target is refused exactly when its number lies in one of the blocked ranges.
pub forbidden_iff :
    (x : Ipv4Addr) → IsAddress x → (forbidden_forward_target x ≢ none) ↔ IsBlocked (value x)
unfolding forbidden_forward_target
forbidden_iff x w = ground arith

-- The ports of a request are accepted exactly when both ranges are valid, and the target is one
-- port or as wide as the listening range.
pub validate_ports_iff :
    (listen dest : PortRange)
    → (validate_ports listen dest ≡ ok tt) ↔ (
        (listen.start ≤ listen.end)
        × (dest.start ≤ dest.end)
        × ((dest.start ≡ dest.end) ⊎ (listen.end - listen.start ≡ dest.end - dest.start)))
unfolding validate_ports
validate_ports_iff listen dest = ground arith
