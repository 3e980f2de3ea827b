-- ===== src/Api/Dispatch.antt =====
-- `dispatch` of agent/src/api/mod.rs: one handler for each request. The value of a reply stands for
-- the JSON that the crate serde_json makes of it.
pub mod Reads
pub mod Changes
use ipgate.Base.{
  ℕ, Bool, true, false, Option, none, some, List, [], ◌∷◌, Text, lit, if◌then◌else◌, Result, ok,
  err, Exec, pure, gets, lift, continue, ◌>>=◌, ◌>>◌,
}
use ipgate.Proto.Net.{DeviceId, EntryId, ForwardId, DateTime, IpAddr}
use ipgate.Proto.Errors.{internal_error, ApiError, api_error}
use ipgate.Proto.Entries.{Entry, Device, Allowlist}
use ipgate.Proto.Ports.{PublicPort, Diff}
use ipgate.Proto.Forwards.{ForwardView, UnifiedForwardList, InterfaceInfo}
use ipgate.Proto.Rpc.{RpcRequest, AgentSettings}
use ipgate.Nft.Backend.{NatBackend}
use ipgate.Forward.{Host}
use ipgate.Dnat.Conf.{DnatRule}
use ipgate.Dnat.Adapter.{DnatHost, present, rules}
use ipgate.Reconcile.{World}
use ipgate.Handlers.App.{App, Handler}
use ipgate.Handlers.Allowlist
use ipgate.Handlers.Exposure
use ipgate.Handlers.PublicPorts
use ipgate.Handlers.Forwards
use ipgate.Handlers.Dnat
use ipgate.Handlers.Unified

pub data Reply : Type 0 where
  null : Reply
  allowlist : Allowlist → Reply
  entry : Entry → Reply
  address : IpAddr → Reply
  diff : Diff → Reply
  forwards : UnifiedForwardList → Reply
  forward : ForwardView → Reply
  interfaces : List InterfaceInfo → Reply
  devices : List Device → Reply
  settings : AgentSettings → Reply
  ports : List PublicPort → Reply

-- What a request finds around it: new ids, the time, and the answers of the host.
pub record Moment : Type 0 where
  pub entry_id : EntryId
  pub forward_id : ForwardId
  pub now : DateTime
  pub host : Host
  pub interface_list : List InterfaceInfo

-- `handlers::list_interfaces`
abbrev pub list_interfaces : Moment → List InterfaceInfo
list_interfaces at = at.interface_list

-- `handlers::get_settings`
abbrev pub get_settings : {K D : Type 0} → App K D → World K D → AgentSettings
get_settings app w = Exposure.build_settings app w

-- The rules of dnat where its adapter is on.
abbrev pub dnat_rules : {D : Type 0} → DnatHost D → D → Option (List DnatRule)
dnat_rules dnat d = if present dnat d then some (rules dnat d) else none

abbrev pub egress_error : ApiError
egress_error = api_error internal_error (lit "EgressIp 须经连接循环处理")

module _ {K D : Type 0} where
  -- `to_val` of what a handler returns, and a handler without a value.
  abbrev pub value : {A : Type 0} → (A → Reply) → Handler K D A → Handler K D Reply
  value f m = do a ← m; pure (f a)

  abbrev pub no_value : Handler K D (Unit {0}) → Handler K D Reply
  no_value m = do m; pure null

module _ {K D : Type 0} (app : App K D) (nat : NatBackend K) (ensure_ip_forward : D → D)
    (dnat : DnatHost D) (at : Moment) where
  unfoldable pub dispatch : DeviceId → IpAddr → RpcRequest → Handler K D Reply
  dispatch device peer RpcRequest.list_allowlist = value allowlist (Allowlist.list_allowlist app)
  dispatch device peer (RpcRequest.allow r) =
      value entry (Allowlist.allow app at.entry_id device at.now r)
  dispatch device peer (RpcRequest.revoke r) = no_value (Allowlist.revoke app r)
  dispatch device peer RpcRequest.whoami = pure (address (Allowlist.whoami peer))
  dispatch device peer RpcRequest.sync = value diff (Allowlist.sync app at.now)
  dispatch device peer RpcRequest.list_forwards =
      gets (λ w. forwards (Unified.list_forwards at.host dnat w.store w.disk))
  dispatch device peer (RpcRequest.add_forward r) = do
    d ← gets (λ w. w.disk)
    value forward (
        Forwards.add_forward app nat ensure_ip_forward at.host (dnat_rules dnat d) at.forward_id
          device at.now r)
  dispatch device peer (RpcRequest.update_forward id r) = do
    d ← gets (λ w. w.disk)
    value forward
        (Forwards.update_forward app nat ensure_ip_forward at.host (dnat_rules dnat d) id r)
  dispatch device peer (RpcRequest.remove_forward id) = do
    d ← gets (λ w. w.disk)
    no_value (Forwards.remove_forward app nat ensure_ip_forward at.host (dnat_rules dnat d) id)
  dispatch device peer (RpcRequest.remove_dnat key) = no_value (Dnat.remove_dnat_forward dnat key)
  dispatch device peer (RpcRequest.migrate_dnat key) = value forward (
      Dnat.migrate_dnat_forward app nat ensure_ip_forward at.host dnat at.forward_id device at.now
        key)
  dispatch device peer RpcRequest.list_interfaces = pure (interfaces (list_interfaces at))
  dispatch device peer RpcRequest.list_devices = value devices (Allowlist.list_devices app)
  dispatch device peer (RpcRequest.revoke_device id) = no_value (Allowlist.revoke_device app id)
  dispatch device peer RpcRequest.get_settings = gets (λ w. settings (get_settings app w))
  dispatch device peer (RpcRequest.set_ssh_exposure on) =
      value settings (Exposure.set_ssh_exposure app at.now on)
  dispatch device peer (RpcRequest.set_forward_exposure on) =
      value settings (Exposure.set_forward_exposure app on)
  dispatch device peer (RpcRequest.set_ssh_password_auth on) =
      value settings (Exposure.set_ssh_password_auth app on)
  dispatch device peer (RpcRequest.reset_root_password password) =
      no_value (Exposure.reset_root_password app password)
  dispatch device peer RpcRequest.egress_ip = lift (err egress_error)
  dispatch device peer RpcRequest.list_public_ports =
      gets (λ w. ports (PublicPorts.list_public_ports app w))
  dispatch device peer (RpcRequest.add_public_port r) =
      value ports (PublicPorts.add_public_port app r)
  dispatch device peer (RpcRequest.remove_public_port proto range) =
      value ports (PublicPorts.remove_public_port app proto range)
