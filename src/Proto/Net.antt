-- ===== src/Proto/Net.antt =====
-- Addresses and identifiers (proto/src/ids.rs and the address types of the standard library).
-- An `IpNet` of the crate ipnet is its address and its prefix length; a UUID is its 128-bit number;
-- a `DateTime<Utc>` is its count of nanoseconds since the epoch.
pub mod Display
use ipgate.Base.{
  ℕ, nat_eq, ℕ_discrete, Eq, ◌==◌, Bool, true, false, not, ◌&&◌, ◌||◌, Option, none, some, List, [],
  ◌∷◌, ◌++◌, map, if◌then◌else◌, Text, lit, leb, length, all, is_ascii_digit, parse_digits, at_most,
  decimal, split_from,
}

abbrev pub DeviceId : Type 0
DeviceId = ℕ

abbrev pub EntryId : Type 0
EntryId = ℕ

abbrev pub ForwardId : Type 0
ForwardId = ℕ

abbrev pub DateTime : Type 0
DateTime = ℕ

-- One second of a `DateTime`.
abbrev pub second : ℕ
second = 1000000000

-- The four octets, most significant first.
pub record Ipv4Addr : Type 0 where
  pub a : ℕ
  pub b : ℕ
  pub c : ℕ
  pub d : ℕ

abbrev pub ipv4 : ℕ → ℕ → ℕ → ℕ → Ipv4Addr
ipv4 a b c d = record { a = a; b = b; c = c; d = d }

pub data IpAddr : Type 0 where
  v4 : Ipv4Addr → IpAddr
  v6 : ℕ → IpAddr

pub data IpNet : Type 0 where
  v4 : Ipv4Addr → ℕ → IpNet
  v6 : ℕ → ℕ → IpNet

unfoldable pub Ipv4Addr-discrete : Discrete Ipv4Addr
Ipv4Addr-discrete = hlevel ℕ_discrete

unfoldable pub IpAddr-discrete : Discrete IpAddr
IpAddr-discrete = hlevel ℕ_discrete

unfoldable pub IpNet-discrete : Discrete IpNet
IpNet-discrete = hlevel ℕ_discrete

instance abbrev pub ipv4_eq : Eq Ipv4Addr
ipv4_eq = record { dec = Ipv4Addr-discrete }

instance abbrev pub ip_eq : Eq IpAddr
ip_eq = record { dec = IpAddr-discrete }

instance abbrev pub net_eq : Eq IpNet
net_eq = record { dec = IpNet-discrete }

-- One octet as `Ipv4Addr::from_str` reads it: up to three digits, without a leading zero.
unfoldable pub starts_zero : Text → Bool
starts_zero [] = false
starts_zero (c ∷ s) = c == b'0'

unfoldable pub parse_octet : Text → Option ℕ
unfolding starts_zero parse_digits
parse_octet s =
    if leb (length s) 3 && all is_ascii_digit s && (leb (length s) 1 || not (starts_zero s))
    then at_most 255 (parse_digits s)
    else none

abbrev pub four_octets : List (Option ℕ) → Option Ipv4Addr
four_octets (some a ∷ some b ∷ some c ∷ some d ∷ []) = some (ipv4 a b c d)
four_octets _ = none

-- `Ipv4Addr::from_str`
unfoldable pub parse_ipv4 : Text → Option Ipv4Addr
unfolding split_from parse_octet
parse_ipv4 s = let (part, parts) = split_from b'.' s in four_octets (map parse_octet (part ∷ parts))

-- `Display` of an IPv4 address.
unfoldable pub show_ipv4 : Ipv4Addr → Text
show_ipv4 x =
    decimal x.a ++ lit "." ++ decimal x.b ++ lit "." ++ decimal x.c ++ lit "." ++ decimal x.d
