-- ===== src/Proto/Forwards.antt =====
-- proto/src/forward.rs
pub mod Targets
pub mod Names
use ipgate.Base.{
  ℕ, ◌-◌, ◌==◌, ◌!=◌, nat_eq, ℕ_discrete, Eq, Bool, true, false, not, ◌&&◌, ◌||◌, Option, none,
  some, List, [], ◌∷◌, leb, if◌then◌else◌, Text, lit, trim, byte_len, all, any,
  is_ascii_alphanumeric, Result, ok, err, String, at_most, parse_digits, split_once, ◌++◌,
}
use ipgate.Proto.Net.{DeviceId, ForwardId, DateTime, Ipv4Addr, ipv4, ipv4_eq, Ipv4Addr-discrete}
use ipgate.Proto.Ports.{PortRange, ForwardProto, tcp, udp, both, is_valid, is_nil}

unfoldable pub l4_protos : ForwardProto → List Text
l4_protos tcp = lit "tcp" ∷ []
l4_protos udp = lit "udp" ∷ []
l4_protos both = lit "tcp" ∷ lit "udp" ∷ []

pub data ForwardSource : Type 0 where
  auto : ForwardSource
  ip : Ipv4Addr → ForwardSource

pub record ForwardRule : Type 0 where
  pub id : ForwardId
  pub proto : ForwardProto
  pub iface : Option Text
  pub listen : PortRange
  pub dest_host : Text
  pub dest_port : PortRange
  pub source : ForwardSource
  pub note : Text
  pub created_at : DateTime
  pub created_by : DeviceId

pub record AddForwardRequest : Type 0 where
  pub proto : ForwardProto
  pub iface : Option Text
  pub listen : PortRange
  pub dest_host : Text
  pub dest_port : PortRange
  pub source : ForwardSource
  pub note : Text

-- The test of one character of an interface name.
unfoldable pub iface_char : ℕ → Bool
iface_char c = is_ascii_alphanumeric c || c == b'.' || c == b'_' || c == b'-'

unfoldable pub valid_iface_name : Text → Bool
unfolding iface_char is_nil byte_len
valid_iface_name name = not (is_nil name) && leb (byte_len name) 15 && all iface_char name

abbrev pub cloud_metadata_ips : List Ipv4Addr
cloud_metadata_ips = ipv4 100 100 100 200 ∷ ipv4 100 100 100 136 ∷ []

-- The reason, as the source words it.
unfoldable pub forbidden_forward_target : Ipv4Addr → Option String
unfolding any Ipv4Addr-discrete
forbidden_forward_target x =
    if any (λ m. m == x) cloud_metadata_ips
    then some "云元数据端点（阿里云 100.100.100.200，可窃取 RAM/STS 凭证）"
    else if x.a == 127
    then some "环回地址（会把本机管理面/本地服务暴露到公网）"
    else if x.a == 169 && x.b == 254
    then some "链路本地地址（含云元数据 169.254.169.254）"
    else if x.a == 0
    then some "0.0.0.0/8（本网络，非法单播目标）"
    else if x.a == 255 && x.b == 255 && x.c == 255 && x.d == 255
    then some "广播地址"
    else if leb 224 x.a && leb x.a 239
    then some "组播地址"
    else none

-- The two refusals of `validate_ports`, by their text without the ports.
pub data PortsError : Type 0 where
  reversed : PortsError
  length_mismatch : PortRange → PortRange → PortsError

unfoldable pub validate_ports : PortRange → PortRange → Result PortsError (Unit {0})
unfolding is_valid
validate_ports listen dest =
    if not (is_valid listen) || not (is_valid dest)
    then err reversed
    else if not (dest.start == dest.end) && (listen.end - listen.start) != (dest.end - dest.start)
    then err (length_mismatch listen dest)
    else ok tt

pub data RuleError : Type 0 where
  ports : PortsError → RuleError
  empty_host : RuleError

-- `ForwardRule::validate`
unfoldable pub validate : ForwardRule → Result RuleError (Unit {0})
unfolding validate_ports is_nil
validate r = elim (validate_ports r.listen r.dest_port) [
  | err e ↦ err (ports e)
  | ok _ ↦ if is_nil (trim r.dest_host) then err empty_host else ok tt
]

pub record ForwardView : Type 0 where
  pub rule : ForwardRule
  pub resolved_ip : Option Ipv4Addr
  pub active : Bool

pub data ForwardOrigin : Type 0 where
  ipgate_origin dnat_origin : ForwardOrigin

pub record ForwardCaps : Type 0 where
  pub can_edit : Bool
  pub can_delete : Bool
  pub can_migrate : Bool

pub record UnifiedForwardView : Type 0 where
  pub origin : ForwardOrigin
  pub proto : ForwardProto
  pub iface : Option Text
  pub listen : PortRange
  pub dest_host : Text
  pub dest_port : PortRange
  pub source : ForwardSource
  pub note : Text
  pub resolved_ip : Option Ipv4Addr
  pub active : Bool
  pub caps : ForwardCaps
  pub conflict : Bool
  pub id : Option ForwardId
  pub dnat_key : Option Text

pub record UnifiedForwardList : Type 0 where
  pub forwards : List UnifiedForwardView
  pub revision : ℕ

pub record InterfaceInfo : Type 0 where
  pub name : Text
  pub ipv4 : List Ipv4Addr
  pub is_default_route : Bool
