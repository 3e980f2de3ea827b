-- ===== src/Nft/Nat.antt =====
-- agent/src/nft/nat.rs: the text of the table `ip ipgate_nat`.
pub mod Injection
use ipgate.Base.{ℕ, List, [], ◌∷◌, ◌++◌, Text, lit, decimal}
use ipgate.Proto.Net.{show_ipv4}
use ipgate.Proto.Ports.{PortRange, ForwardProto}
use ipgate.Proto.Forwards.{l4_protos}
use ipgate.Nft.Backend.{ResolvedForward}
use ipgate.Nft.Ports.{port_spec}

abbrev pub nat_table : Text
nat_table = lit "ip ipgate_nat"

unfoldable pub dnat_line : ResolvedForward → Text → Text
dnat_line f proto =
    lit "        iifname \""
    ++ f.iface
    ++ lit "\" "
    ++ proto
    ++ lit " dport "
    ++ port_spec f.listen
    ++ lit " dnat to "
    ++ show_ipv4 f.remote_ip
    ++ lit ":"
    ++ port_spec f.dest_port
    ++ lit "\n"

unfoldable pub snat_line : ResolvedForward → Text → Text
snat_line f proto =
    lit "        ip daddr "
    ++ show_ipv4 f.remote_ip
    ++ lit " "
    ++ proto
    ++ lit " dport "
    ++ port_spec f.dest_port
    ++ lit " snat to "
    ++ show_ipv4 f.source_ip
    ++ lit "\n"

unfoldable pub accept_line : ResolvedForward → Text → Text
accept_line f proto =
    lit "        iifname \""
    ++ f.iface
    ++ lit "\" ip daddr "
    ++ show_ipv4 f.remote_ip
    ++ lit " "
    ++ proto
    ++ lit " dport "
    ++ port_spec f.dest_port
    ++ lit " ct state new accept\n"

-- The two nested loops of a chain.
unfoldable pub proto_lines : (ResolvedForward → Text → Text) → ResolvedForward → List Text → Text
proto_lines line f [] = []
proto_lines line f (p ∷ ps) = line f p ++ proto_lines line f ps

unfoldable pub rule_lines : (ResolvedForward → Text → Text) → List ResolvedForward → Text
unfolding proto_lines
rule_lines line [] = []
rule_lines line (f ∷ fs) = proto_lines line f (l4_protos f.proto) ++ rule_lines line fs

unfoldable pub render_nat_apply : List ResolvedForward → Text
unfolding rule_lines
render_nat_apply forwards =
    lit "table "
    ++ nat_table
    ++ lit "\n"
    ++ lit "delete table "
    ++ nat_table
    ++ lit "\n"
    ++ lit "table "
    ++ nat_table
    ++ lit " {\n"
    ++ lit "    chain prerouting {\n"
    ++ lit "        type nat hook prerouting priority -90; policy accept;\n"
    ++ rule_lines dnat_line forwards
    ++ lit "    }\n"
    ++ lit "    chain postrouting {\n"
    ++ lit "        type nat hook postrouting priority 110; policy accept;\n"
    ++ rule_lines snat_line forwards
    ++ lit "    }\n"
    ++ lit "    chain forward {\n"
    ++ lit "        type filter hook forward priority 0; policy accept;\n"
    ++ lit "        ct state established,related accept\n"
    ++ rule_lines accept_line forwards
    ++ lit "    }\n"
    ++ lit "}\n"

unfoldable pub render_nat_flush : Text
render_nat_flush =
    lit "table " ++ nat_table ++ lit "\n" ++ lit "delete table " ++ nat_table ++ lit "\n"
