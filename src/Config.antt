-- ===== src/Config.antt =====
-- agent/src/config.rs, without the fields that only name paths and users.
use ipgate.Base.{
  ℕ, ◌==◌, ◌!=◌, nat_eq, Bool, true, false, ◌&&◌, Option, none, some, List, [], ◌∷◌, ◌++◌, map,
  if◌then◌else◌, find, Result, ok, err,
}
use ipgate.Proto.Ports.{
  PortRange, PublicPort, ForwardProto, tcp, udp, proto_eq, RulesetConfig, SshKnock, contains,
  is_valid,
}
use ipgate.Store.{RulesetFlags}

pub record AgentConfig : Type 0 where
  pub mgmt_port : ℕ
  pub ssh_port : ℕ
  pub public_tcp : List PortRange
  pub public_udp : List PortRange
  pub rate_limit_per_min : ℕ
  pub ssh_knock : Option SshKnock

pub data ConfigError : Type 0 where
  mgmt_port_zero ssh_port_zero : ConfigError
  bad_range : PortRange → ConfigError

unfoldable pub first_invalid : List PortRange → Option PortRange
unfolding find is_valid
first_invalid ps = find (λ p. if is_valid p then false else true) ps

unfoldable pub validate : AgentConfig → Result ConfigError (Unit {0})
unfolding first_invalid
validate c =
    if c.mgmt_port == 0
    then err mgmt_port_zero
    else if c.ssh_port == 0
    then err ssh_port_zero
    else elim (first_invalid (c.public_tcp ++ c.public_udp)) [
      | some p ↦ err (bad_range p)
      | none ↦ ok tt
    ]

-- The two pushes of the loop of `ruleset_with`, one for each list.
unfoldable pub tcp_ports : List PublicPort → List PortRange
tcp_ports [] = []
tcp_ports (p ∷ ps) = let rest = tcp_ports ps in if p.proto != udp then p.ports ∷ rest else rest

unfoldable pub udp_ports : List PublicPort → List PortRange
udp_ports [] = []
udp_ports (p ∷ ps) = let rest = udp_ports ps in if p.proto != tcp then p.ports ∷ rest else rest

unfoldable pub ruleset_with : AgentConfig → RulesetFlags → RulesetConfig
unfolding tcp_ports udp_ports
ruleset_with c flags = record {
  ssh_port = c.ssh_port;
  ssh_allowlist_only = flags.ssh_allowlist_only;
  ssh_knock = c.ssh_knock;
  forward_allowlist_only = flags.forward_allowlist_only;
  public_tcp = c.public_tcp ++ tcp_ports flags.public_ports;
  public_udp = c.public_udp ++ udp_ports flags.public_ports;
}

unfoldable pub covers_ssh : AgentConfig → ForwardProto → PortRange → Bool
unfolding contains
covers_ssh c proto ports = proto != udp && contains ports c.ssh_port

abbrev config_port : ForwardProto → PortRange → PublicPort
config_port proto ports = record { proto = proto; ports = ports; note = []; from_config = true }

unfoldable pub config_public_ports : AgentConfig → List PublicPort
config_public_ports c = map (config_port tcp) c.public_tcp ++ map (config_port udp) c.public_udp

unfoldable pub public_port_covering_ssh : AgentConfig → RulesetFlags → Option PublicPort
unfolding find config_public_ports covers_ssh
public_port_covering_ssh c flags =
    find (λ p. covers_ssh c p.proto p.ports) (config_public_ports c ++ flags.public_ports)
