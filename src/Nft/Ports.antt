-- ===== src/Nft/Ports.antt =====
-- `render_ports` of agent/src/nft/ruleset.rs: the intervals of a set, sorted and merged, since nft
-- refuses elements that overlap.
pub mod Merging
use ipgate.Base.{
  ℕ, ◌+◌, ◌==◌, nat_eq, Bool, true, false, List, [], ◌∷◌, ◌++◌, map, leb, if◌then◌else◌, Text, lit,
  decimal, join,
}
use ipgate.Proto.Ports.{PortRange}

-- `sort_by_key(|p| p.start)`, which is stable.
unfoldable pub insert_range : PortRange → List PortRange → List PortRange
insert_range p [] = p ∷ []
insert_range p (q ∷ qs) =
    let rest = insert_range p qs in if leb p.start q.start then p ∷ q ∷ qs else q ∷ rest

unfoldable pub sort_ranges : List PortRange → List PortRange
unfolding insert_range
sort_ranges [] = []
sort_ranges (p ∷ ps) = insert_range p (sort_ranges ps)

abbrev pub max : ℕ → ℕ → ℕ
max a b = if leb a b then b else a

-- The loop of `render_ports` from a last merged interval on.
unfoldable pub merge_from : PortRange → List PortRange → List PortRange
merge_from last [] = last ∷ []
merge_from last (p ∷ ps) =
    let joined = merge_from (record { start = last.start; end = max last.end p.end }) ps in
    let apart = merge_from p ps in if leb p.start (last.end + 1) then joined else last ∷ apart

unfoldable pub merge : List PortRange → List PortRange
unfolding merge_from
merge [] = []
merge (p ∷ ps) = merge_from p ps

unfoldable pub port_spec : PortRange → Text
port_spec p =
    if p.start == p.end then decimal p.start else decimal p.start ++ lit "-" ++ decimal p.end

unfoldable pub merged_ports : List PortRange → List PortRange
unfolding merge sort_ranges
merged_ports ports = merge (sort_ranges ports)

unfoldable pub render_ports : List PortRange → Text
unfolding merged_ports join
render_ports ports = join (lit ", ") (map port_spec (merged_ports ports))
