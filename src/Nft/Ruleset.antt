-- ===== src/Nft/Ruleset.antt =====
-- agent/src/nft/ruleset.rs: the text of the table `inet ipgate`. How an address prefix prints is the
-- crate ipnet's, and a parameter.
pub mod Timeouts
use ipgate.Base.{
  join, ℕ, ◌-◌, ◌/◌, ◌==◌, nat_eq, Bool, true, false, Option, none, some, List, [], ◌∷◌, ◌++◌, leb,
  if◌then◌else◌, Text, lit, decimal, to_hex, is_some,
}
use ipgate.Proto.Net.{DateTime, second, IpNet, v4, v6}
use ipgate.Proto.Entries.{Entry, is_expired}
use ipgate.Proto.Ports.{PortRange, RulesetConfig, SshKnock, knock, knock_ttl_secs, is_nil}
use ipgate.Nft.Ports.{render_ports}

abbrev pub table : Text
table = lit "inet ipgate"

abbrev pub icmpv6_infra_types : Text
icmpv6_infra_types =
    lit
      "nd-neighbor-solicit, nd-neighbor-advert, nd-router-solicit, nd-router-advert, destination-unreachable, packet-too-big, time-exceeded, parameter-problem"

abbrev pub icmp_infra_types : Text
icmp_infra_types = lit "destination-unreachable, time-exceeded, parameter-problem"

unfoldable pub allow_set : IpNet → Text
allow_set (v4 a n) = lit "allow4"
allow_set (v6 a n) = lit "allow6"

abbrev pub is_v4 : IpNet → Bool
is_v4 (v4 a n) = true
is_v4 (v6 a n) = false

-- `(t - now).num_seconds().max(1)`: a time that is not after `now` gives 1.
unfoldable pub timeout_secs : DateTime → DateTime → ℕ
timeout_secs t now = let secs = (t - now) / second in if leb secs 1 then 1 else secs

unfoldable pub set_def : Text → Text → Text → Text → Text
unfolding is_nil
set_def name typ flags elements =
    if is_nil elements
    then lit "    set " ++ name ++ lit " { type " ++ typ ++ lit "; flags " ++ flags ++ lit "; }\n"
    else lit "    set "
      ++ name
      ++ lit " { type "
      ++ typ
      ++ lit "; flags "
      ++ flags
      ++ lit "; elements = { "
      ++ elements
      ++ lit " } }\n"

-- The knock rules before the SSH rule.
unfoldable pub knock_rules : Option SshKnock → Text
knock_rules none = []
knock_rules (some k) =
    let m = lit "udp dport " ++ decimal k.port ++ lit " @th,64,128 0x" ++ to_hex k.token in
    lit "        meta nfproto ipv4 "
    ++ m
    ++ lit " update @knock4 { ip saddr timeout "
    ++ decimal knock_ttl_secs
    ++ lit "s } drop\n"
    ++ lit "        meta nfproto ipv6 "
    ++ m
    ++ lit " update @knock6 { ip6 saddr timeout "
    ++ decimal knock_ttl_secs
    ++ lit "s } drop\n"

unfoldable pub knock_sets : Option SshKnock → Text
unfolding set_def
knock_sets none = []
knock_sets (some k) =
    set_def (lit "knock4") (lit "ipv4_addr") (lit "dynamic, timeout") []
    ++ set_def (lit "knock6") (lit "ipv6_addr") (lit "dynamic, timeout") []

unfoldable pub knock_accepts : Option SshKnock → ℕ → Text
knock_accepts none port = []
knock_accepts (some k) port =
    lit "        tcp dport "
    ++ decimal port
    ++ lit " ip saddr @knock4 accept\n"
    ++ lit "        tcp dport "
    ++ decimal port
    ++ lit " ip6 saddr @knock6 accept\n"

unfoldable pub ssh_rules : RulesetConfig → Text
unfolding knock knock_accepts
ssh_rules cfg =
    if cfg.ssh_allowlist_only
    then lit "        # ssh dport "
      ++ decimal cfg.ssh_port
      ++ lit " 仅名单可连（见末尾 saddr 规则）\n"
      ++ knock_accepts (knock cfg) cfg.ssh_port
    else lit "        tcp dport " ++ decimal cfg.ssh_port ++ lit " accept\n"

unfoldable pub render_forward_gate : Text
render_forward_gate =
    let dnat_new = lit "ct state new ct status dnat" in
    lit "    chain forward {\n"
    ++ lit "        type filter hook forward priority -10; policy accept;\n"
    ++ lit "        ct state established,related accept\n"
    ++ lit "        "
    ++ dnat_new
    ++ lit " ip saddr @allow4 accept\n"
    ++ lit "        "
    ++ dnat_new
    ++ lit " ip6 saddr @allow6 accept\n"
    ++ lit "        "
    ++ dnat_new
    ++ lit " meta l4proto tcp ct original proto-dst @public_tcp accept\n"
    ++ lit "        "
    ++ dnat_new
    ++ lit " meta l4proto udp ct original proto-dst @public_udp accept\n"
    ++ lit "        "
    ++ dnat_new
    ++ lit " counter drop\n"
    ++ lit "    }\n"

module _ (show_net : IpNet → Text) where
  unfoldable pub element_token : IpNet → Option DateTime → DateTime → Text
  unfolding timeout_secs
  element_token target none now = show_net target
  element_token target (some t) now =
      show_net target ++ lit " timeout " ++ decimal (timeout_secs t now) ++ lit "s"

  -- The tokens of the live entries of one family.
  unfoldable pub live_tokens : Bool → List Entry → DateTime → List Text
  unfolding element_token is_expired
  live_tokens four [] now = []
  live_tokens four (e ∷ es) now =
      let rest = live_tokens four es now in
      let mine = if four then is_v4 e.target else if is_v4 e.target then false else true in
      if is_expired e now
      then rest
      else if mine
      then element_token e.target e.expires_at now ∷ rest
      else rest

  unfoldable pub render_apply : RulesetConfig → List Entry → DateTime → Text
  unfolding live_tokens set_def knock knock_sets knock_rules ssh_rules
  render_apply cfg entries now =
      lit "table "
      ++ table
      ++ lit "\n"
      ++ lit "delete table "
      ++ table
      ++ lit "\n"
      ++ lit "table "
      ++ table
      ++ lit " {\n"
      ++ set_def (lit "allow4") (lit "ipv4_addr") (lit "interval, timeout")
          (join (lit ", ") (live_tokens true entries now))
      ++ set_def (lit "allow6") (lit "ipv6_addr") (lit "interval, timeout")
          (join (lit ", ") (live_tokens false entries now))
      ++ set_def (lit "public_tcp") (lit "inet_service") (lit "interval")
          (render_ports cfg.public_tcp)
      ++ set_def (lit "public_udp") (lit "inet_service") (lit "interval")
          (render_ports cfg.public_udp)
      ++ knock_sets (knock cfg)
      ++ lit "    chain input {\n"
      ++ lit "        type filter hook input priority 0; policy drop;\n"
      ++ lit "        ct state established,related accept\n"
      ++ lit "        ct state invalid drop\n"
      ++ lit "        iif lo accept\n"
      ++ lit "        ip6 nexthdr icmpv6 icmpv6 type { "
      ++ icmpv6_infra_types
      ++ lit " } accept\n"
      ++ lit "        ip protocol icmp icmp type { "
      ++ icmp_infra_types
      ++ lit " } accept\n"
      ++ knock_rules (knock cfg)
      ++ ssh_rules cfg
      ++ lit "        tcp dport @public_tcp accept\n"
      ++ lit "        udp dport @public_udp accept\n"
      ++ lit "        ip saddr @allow4 accept\n"
      ++ lit "        ip6 saddr @allow6 accept\n"
      ++ lit "    }\n"
      ++ (if cfg.forward_allowlist_only then render_forward_gate else [])
      ++ lit "}\n"

  unfoldable pub add_element_script : IpNet → Option DateTime → DateTime → Text
  unfolding allow_set element_token
  add_element_script target expires_at now =
      lit "add element "
      ++ table
      ++ lit " "
      ++ allow_set target
      ++ lit " { "
      ++ element_token target expires_at now
      ++ lit " }"

  unfoldable pub delete_element_script : IpNet → Text
  unfolding allow_set
  delete_element_script target =
      lit "delete element "
      ++ table
      ++ lit " "
      ++ allow_set target
      ++ lit " { "
      ++ show_net target
      ++ lit " }"
