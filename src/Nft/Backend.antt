-- ===== src/Nft/Backend.antt =====
-- The interface to the kernel that the rest of the agent uses (agent/src/nft/mod.rs): the traits
-- `NftBackend` and `NatBackend` over a kernel state `K`, as records of operations, and what the
-- agent reports of the optional parts of the ruleset.
use ipgate.Base.{Bool, true, false, List, Text, Exec}
use ipgate.Proto.Net.{IpNet, Ipv4Addr}
use ipgate.Proto.Entries.{Entry}
use ipgate.Proto.Ports.{RulesetConfig, KernelElement, PortRange, ForwardProto}

pub record NftBackend (K : Type 0) : Type 0 where
  pub apply : RulesetConfig → List Entry → Exec K Text (Unit {0})
  pub add : Entry → Exec K Text (Unit {0})
  pub remove : IpNet → Exec K Text (Unit {0})
  pub list : Exec K Text (List KernelElement)
  pub flush : Exec K Text (Unit {0})

-- `ResolvedForward` of agent/src/nft/nat.rs.
pub record ResolvedForward : Type 0 where
  pub proto : ForwardProto
  pub iface : Text
  pub listen : PortRange
  pub remote_ip : Ipv4Addr
  pub dest_port : PortRange
  pub source_ip : Ipv4Addr

pub record NatBackend (K : Type 0) : Type 0 where
  pub apply_nat : List ResolvedForward → Exec K Text (Unit {0})
  pub flush_nat : Exec K Text (Unit {0})

pub data Gate : Type 0 where
  off active : Gate
  rejected : Text → Gate

unfoldable pub is_active : Gate → Bool
is_active off = false
is_active active = true
is_active (rejected e) = false

pub record Applied : Type 0 where
  pub gate : Gate
  pub knock : Gate

pub record Live : Type 0 where
  pub gate : Bool
  pub knock : Bool

-- `Live::record`
unfoldable pub live_of : Applied → Live
unfolding is_active
live_of a = record { gate = is_active a.gate; knock = is_active a.knock }
