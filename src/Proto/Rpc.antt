-- ===== src/Proto/Rpc.antt =====
-- proto/src/rpc.rs
use ipgate.Base.{ℕ, Bool, Option, Text}
use ipgate.Proto.Net.{DeviceId, ForwardId}
use ipgate.Proto.Entries.{AllowRequest, RevokeRequest}
use ipgate.Proto.Ports.{ForwardProto, PortRange, PublicPortRequest}
use ipgate.Proto.Forwards.{AddForwardRequest}

abbrev pub noise_max_frame : ℕ
noise_max_frame = 65519

pub record HandshakeHello : Type 0 where
  pub pairing_code : Option Text
  pub device_name : Option Text

pub record HandshakeAck : Type 0 where
  pub device_id : DeviceId
  pub paired : Bool

pub data RpcRequest : Type 0 where
  list_allowlist : RpcRequest
  allow : AllowRequest → RpcRequest
  revoke : RevokeRequest → RpcRequest
  whoami sync list_forwards : RpcRequest
  add_forward : AddForwardRequest → RpcRequest
  update_forward : ForwardId → AddForwardRequest → RpcRequest
  remove_forward : ForwardId → RpcRequest
  remove_dnat migrate_dnat : Text → RpcRequest
  list_interfaces list_devices : RpcRequest
  revoke_device : DeviceId → RpcRequest
  get_settings : RpcRequest
  set_ssh_exposure set_forward_exposure set_ssh_password_auth : Bool → RpcRequest
  reset_root_password : Text → RpcRequest
  egress_ip list_public_ports : RpcRequest
  add_public_port : PublicPortRequest → RpcRequest
  remove_public_port : ForwardProto → PortRange → RpcRequest

pub record AgentSettings : Type 0 where
  pub ssh_allowlist_only : Bool
  pub ssh_port : ℕ
  pub ssh_password_auth : Option Bool
  pub ssh_kbd_interactive_auth : Option Bool
  pub ssh_permit_root_login : Option Text
  pub forward_allowlist_only : Option Bool
  pub forward_gate_active : Option Bool
  pub ssh_knock_port : Option ℕ
  pub ssh_knock_active : Option Bool
