-- ===== src/NetInfo.antt =====
-- agent/src/netinfo.rs: how the output of `ip` is read. Running `ip`, and the switch that enables
-- forwarding, are left out.
use ipgate.Base.{
  nat_eq, list_eq, option_eq, ◌==◌, Bool, true, false, Option, none, some, List, [], ◌∷◌, ◌++◌, map,
  any, find, if◌then◌else◌, ltb, Text, lit, lines, split_from,
}
use ipgate.Proto.Net.{Ipv4Addr, ipv4_eq, parse_ipv4}
use ipgate.Proto.Forwards.{InterfaceInfo}
use ipgate.Sshd.{split_whitespace}

-- The word after the first `dev`.
unfoldable pub after_word : Text → List Text → Option Text
after_word key [] = none
after_word key (t ∷ []) = none
after_word key (t ∷ u ∷ ts) =
    let rest = after_word key (u ∷ ts) in if t == key then some u else rest

unfoldable pub default_route_iface : Text → Option Text
unfolding after_word split_whitespace
default_route_iface text = after_word (lit "dev") (split_whitespace text)

-- The order of the keys of the `BTreeMap`; that of the scalar values is that of the bytes.
unfoldable pub before : Text → Text → Bool
before [] [] = false
before [] (d ∷ t) = true
before (c ∷ s) [] = false
before (c ∷ s) (d ∷ t) = let rest = before s t in if c == d then rest else ltb c d

abbrev pub Addresses : Type 0
Addresses = List (Text × List Ipv4Addr)

-- `map.entry(ifname).or_default().push(ip)`
unfoldable pub push_address : Text → Ipv4Addr → Addresses → Addresses
unfolding before
push_address name ip [] = (name, ip ∷ []) ∷ []
push_address name ip ((other, ips) ∷ m) =
    let rest = push_address name ip m in
    if name == other
    then (other, ips ++ ip ∷ []) ∷ m
    else if before name other
    then (name, ip ∷ []) ∷ (other, ips) ∷ m
    else (other, ips) ∷ rest

-- `split('/').next()`
abbrev pub before_slash : Text → Text
before_slash s = (split_from b'/' s).0

abbrev pub address_in : List Text → Option Ipv4Addr
address_in toks = elim (after_word (lit "inet") toks) [
  | none ↦ none
  | some ipcidr ↦ parse_ipv4 (before_slash ipcidr)
]

abbrev pub push_found : Text → Option Ipv4Addr → Addresses → Addresses
push_found name none m = m
push_found name (some ip) m = push_address name ip m

-- A line with fewer than four words says nothing.
unfoldable pub read_words : List Text → Addresses → Addresses
unfolding after_word push_address
read_words (number ∷ name ∷ a ∷ b ∷ ts) m =
    push_found name (address_in (number ∷ name ∷ a ∷ b ∷ ts)) m
read_words toks m = m

unfoldable pub read_lines : List Text → Addresses → Addresses
unfolding read_words split_whitespace
read_lines [] m = m
read_lines (l ∷ ls) m = read_lines ls (read_words (split_whitespace l) m)

-- The answers of `ip route show default` and `ip -o -4 addr show`, where they could be had.
unfoldable pub interfaces : Option Text → Option Text → List InterfaceInfo
unfolding lines read_lines
interfaces default none = []
interfaces default (some text) =
    map (λ p. record { name = p.0; ipv4 = p.1; is_default_route = default == some p.0 })
      (read_lines (lines text) [])

abbrev pub head_of : List Ipv4Addr → Option Ipv4Addr
head_of [] = none
head_of (ip ∷ ips) = some ip

unfoldable pub first_ipv4 : List InterfaceInfo → Text → Option Ipv4Addr
first_ipv4 all iface = elim (find (λ i. i.name == iface) all) [
  | none ↦ none
  | some i ↦ head_of i.ipv4
]

unfoldable pub iface_has_ipv4 : List InterfaceInfo → Text → Ipv4Addr → Bool
iface_has_ipv4 all iface ip = elim (find (λ i. i.name == iface) all) [
  | none ↦ false
  | some i ↦ any (λ a. a == ip) i.ipv4
]
