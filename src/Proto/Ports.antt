-- ===== src/Proto/Ports.antt =====
-- proto/src/ruleset.rs
pub mod Overlap
use ipgate.Base.{
  ℕ, ℕ_discrete, ◌==◌, nat_eq, Eq, Bool, true, false, ◌&&◌, Option, none, some, List, [], ◌∷◌, leb,
  if◌then◌else◌, Text,
}
use ipgate.Proto.Net.{IpNet, DateTime}

pub record PortRange : Type 0 where
  pub start : ℕ
  pub end : ℕ

unfoldable pub PortRange-discrete : Discrete PortRange
PortRange-discrete = hlevel ℕ_discrete

instance abbrev pub range_eq : Eq PortRange
range_eq = record { dec = PortRange-discrete }

unfoldable pub single : ℕ → PortRange
single port = record { start = port; end = port }

unfoldable pub contains : PortRange → ℕ → Bool
contains r port = leb r.start port && leb port r.end

unfoldable pub is_valid : PortRange → Bool
is_valid r = leb r.start r.end

unfoldable pub overlaps : PortRange → PortRange → Bool
overlaps r s = leb r.start s.end && leb s.start r.end

pub data ForwardProto : Type 0 where
  tcp udp both : ForwardProto

unfoldable pub ForwardProto-discrete : Discrete ForwardProto
ForwardProto-discrete = hlevel

instance abbrev pub proto_eq : Eq ForwardProto
proto_eq = record { dec = ForwardProto-discrete }

-- `token` is 16 bytes.
pub record SshKnock : Type 0 where
  pub port : ℕ
  pub token : List ℕ

pub record RulesetConfig : Type 0 where
  pub ssh_port : ℕ
  pub ssh_allowlist_only : Bool
  pub ssh_knock : Option SshKnock
  pub forward_allowlist_only : Bool
  pub public_tcp : List PortRange
  pub public_udp : List PortRange

abbrev pub default_ssh_port : ℕ
default_ssh_port = 22

unfoldable pub default_ruleset : RulesetConfig
default_ruleset = record {
  ssh_port = default_ssh_port;
  ssh_allowlist_only = false;
  ssh_knock = none;
  forward_allowlist_only = false;
  public_tcp = [];
  public_udp = [];
}

-- `RulesetConfig::knock`
unfoldable pub knock : RulesetConfig → Option SshKnock
knock cfg = if cfg.ssh_allowlist_only then cfg.ssh_knock else none

abbrev pub knock_ttl_secs : ℕ
knock_ttl_secs = 60

abbrev pub knock_port_base : ℕ
knock_port_base = 20000

abbrev pub knock_port_span : ℕ
knock_port_span = 40000

pub record PublicPort : Type 0 where
  pub proto : ForwardProto
  pub ports : PortRange
  pub note : Text
  pub from_config : Bool

pub record PublicPortRequest : Type 0 where
  pub proto : ForwardProto
  pub ports : PortRange
  pub note : Text

pub record KernelElement : Type 0 where
  pub target : IpNet
  pub expires_at : Option DateTime

pub record Diff : Type 0 where
  pub missing_in_kernel : List IpNet
  pub stale_in_kernel : List IpNet
  pub expired : List IpNet

unfoldable pub is_nil {ℓ} : {A : Type ℓ} → List A → Bool
is_nil [] = true
is_nil (x ∷ xs) = false

-- `Diff::is_empty`
unfoldable pub is_empty : Diff → Bool
unfolding is_nil
is_empty d = is_nil d.missing_in_kernel && is_nil d.stale_in_kernel && is_nil d.expired
