-- ===== src/Handlers/Closure.antt =====
-- The changes that the handlers and the loops make to the store, each with what the code has checked
-- before it: what is closed under these changes holds after every handler.
pub mod Settings
pub mod Rules
use ipgate.Base.{
  ◌≡◌, ◌⊎◌, nat_eq, true, false, not, ◌&&◌, Bool, none, List, [], ◌∷◌, ◌++◌, Text, trim, retain,
  find, is_some, ◌==◌, ok,
}
use ipgate.Proto.Net.{DeviceId, EntryId, ForwardId, DateTime, IpNet, Ipv4Addr, parse_ipv4}
use ipgate.Proto.Entries.{AllowRequest}
use ipgate.Proto.Ports.{PortRange, PublicPort, PublicPortRequest, ForwardProto, is_valid}
use ipgate.Proto.Forwards.{AddForwardRequest, validate_ports}
use ipgate.Config.{AgentConfig, covers_ssh}
use ipgate.Store.{
  State, revoke_by_target, remove_device, update_forward, remove_forward, set_resolved,
  prune_expired,
}
use ipgate.Store
use ipgate.Handlers.Exposure.{ssh_guard}
use ipgate.Handlers.PublicPorts.{set_note, new_port, same_port}
use ipgate.Handlers.Forwards.{iface_ok, literal_ban}

-- What every accepted rule has been checked for.
pub record IsFit (req : AddForwardRequest) : Type 0 where
  pub ports : validate_ports req.listen req.dest_port ≡ ok tt
  pub named : iface_ok req.iface ≡ true
  pub allowed : literal_ban (parse_ipv4 (trim req.dest_host)) ≡ none

-- The new lists of public ports: a note, a port that was opened, a port that was closed.
pub data IsPortChange (cfg : AgentConfig) (s : State) (ports : List PublicPort) : Type 0 where
  noted :
      (proto : ForwardProto) (range : PortRange) (note : Text)
      → ports ≡ set_note proto range note s.public_ports
      → IsPortChange cfg s ports
  opened :
      (req : PublicPortRequest)
      → ports ≡ s.public_ports ++ new_port req ∷ []
      → (s.ssh_allowlist_only && covers_ssh cfg req.proto req.ports) ≡ false
      → (not (req.ports.start == 0) && is_valid req.ports) ≡ true
      → is_some (find (same_port req.proto req.ports) s.public_ports) ≡ false
      → IsPortChange cfg s ports
  closed :
      (proto : ForwardProto) (range : PortRange)
      → ports ≡ retain (λ p. not (same_port proto range p)) s.public_ports
      → IsPortChange cfg s ports

pub record IsClosed (cfg : AgentConfig) (P : State → Type 0) : Type 0 where
  pub entry_allowed :
      (id : EntryId) (req : AllowRequest) (by : DeviceId) (now : DateTime) (s : State)
      → P s
      → P (Store.allow id req by now s).1
  pub entry_revoked : (t : IpNet) (s : State) → P s → P (revoke_by_target t s).1
  pub entries_pruned : (now : DateTime) (s : State) → P s → P (prune_expired now s).1
  pub device_removed : (id : DeviceId) (s : State) → P s → P (remove_device id s).1
  pub ssh_set :
      (now : DateTime) (on : Bool) (s : State)
      → ssh_guard cfg now s on ≡ ok tt
      → P s
      → P (record s { ssh_allowlist_only = on })
  pub gate_set : (on : Bool) (s : State) → P s → P (record s { forward_allowlist_only = on })
  pub ports_set :
      (ports : List PublicPort) (s : State)
      → IsPortChange cfg s ports
      → P s
      → P (record s { public_ports = ports })
  pub rule_added :
      (id : ForwardId) (req : AddForwardRequest) (by : DeviceId) (now : DateTime) (s : State)
      → IsFit req
      → P s
      → P (Store.add_forward id req by now s).1
  pub rule_updated :
      (id : ForwardId) (req : AddForwardRequest) (s : State)
      → IsFit req
      → P s
      → P (update_forward id req s).1
  pub rule_removed : (id : ForwardId) (s : State) → P s → P (remove_forward id s).1
  pub targets_resolved : (m : List (ForwardId × Ipv4Addr)) (s : State) → P s → P (set_resolved m s)
