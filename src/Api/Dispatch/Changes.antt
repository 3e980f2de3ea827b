-- ===== src/Api/Dispatch/Changes.antt =====
-- A predicate of the store that is closed under the changes of the handlers survives every request.
use ipgate.Base.{Preserves, Preserves-bind}
use ipgate.Proto.Net.{DeviceId, IpAddr}
use ipgate.Proto.Rpc.{RpcRequest}
use ipgate.Store.{State}
use ipgate.Nft.Backend.{NatBackend}
use ipgate.Dnat.Adapter.{DnatHost}
use ipgate.Reconcile.{World}
use ipgate.Handlers.App.{App, Handler}
use ipgate.Handlers.Allowlist
use ipgate.Handlers.Exposure
use ipgate.Handlers.PublicPorts
use ipgate.Handlers.Forwards
use ipgate.Handlers.Dnat
use ipgate.Handlers.Closure.{IsClosed}
use ipgate.Handlers.Closure.Settings
use ipgate.Handlers.Closure.Rules
use ipgate.Api.Dispatch.{
  Moment, Reply, entry, diff, forward, settings, ports, dispatch, value, no_value, dnat_rules,
}

module _ {K D : Type 0} (app : App K D) (nat : NatBackend K) (ensure_ip_forward : D → D)
    (dnat : DnatHost D) (at : Moment) (P : State → Type 0) (laws : IsClosed app.cfg P) where
  abbrev Q : World K D → Type 0
  Q w = P w.store

  value-Preserves :
      {A : Type 0} (f : A → Reply) (m : Handler K D A) → Preserves Q m → Preserves Q (value f m)
  value-Preserves f m keeps w h = Preserves-bind Q m _ w (keeps w h) (λ _ w1 _ h1. h1)

  no_value-Preserves : (m : Handler K D (Unit {0})) → Preserves Q m → Preserves Q (no_value m)
  no_value-Preserves m keeps w h = Preserves-bind Q m _ w (keeps w h) (λ _ w1 _ h1. h1)

  pub dispatch-Preserves :
      (device : DeviceId) (peer : IpAddr) (req : RpcRequest)
      → Preserves Q (dispatch app nat ensure_ip_forward dnat at device peer req)
  unfolding dispatch Allowlist.list_allowlist Allowlist.list_devices
  dispatch-Preserves device peer RpcRequest.list_allowlist w h = h
  dispatch-Preserves device peer (RpcRequest.allow r) w h =
      value-Preserves entry (Allowlist.allow app at.entry_id device at.now r)
        (Settings.allow-Preserves app P laws at.entry_id device at.now r) w h
  dispatch-Preserves device peer (RpcRequest.revoke r) w h =
      no_value-Preserves (Allowlist.revoke app r) (Settings.revoke-Preserves app P laws r) w h
  dispatch-Preserves device peer RpcRequest.whoami w h = h
  dispatch-Preserves device peer RpcRequest.sync w h =
      value-Preserves diff (Allowlist.sync app at.now) (Settings.sync-Preserves app P laws at.now) w
        h
  dispatch-Preserves device peer RpcRequest.list_forwards w h = h
  dispatch-Preserves device peer (RpcRequest.add_forward r) w h =
      value-Preserves forward
        (Forwards.add_forward app nat ensure_ip_forward at.host (dnat_rules dnat w.disk)
          at.forward_id device at.now r)
        (Rules.add_forward-Preserves app nat ensure_ip_forward at.host P laws
          (dnat_rules dnat w.disk) at.forward_id device at.now r)
        w h
  dispatch-Preserves device peer (RpcRequest.update_forward id r) w h =
      value-Preserves forward
        (Forwards.update_forward app nat ensure_ip_forward at.host (dnat_rules dnat w.disk) id r)
        (Rules.update_forward-Preserves app nat ensure_ip_forward at.host P laws
          (dnat_rules dnat w.disk) id r)
        w h
  dispatch-Preserves device peer (RpcRequest.remove_forward id) w h =
      no_value-Preserves
        (Forwards.remove_forward app nat ensure_ip_forward at.host (dnat_rules dnat w.disk) id)
        (Rules.remove_forward-Preserves app nat ensure_ip_forward at.host P laws
          (dnat_rules dnat w.disk) id)
        w h
  dispatch-Preserves device peer (RpcRequest.remove_dnat key) w h =
      no_value-Preserves (Dnat.remove_dnat_forward dnat key)
        (Rules.remove_dnat_forward-Preserves app nat ensure_ip_forward at.host P laws dnat key) w h
  dispatch-Preserves device peer (RpcRequest.migrate_dnat key) w h =
      value-Preserves forward
        (Dnat.migrate_dnat_forward app nat ensure_ip_forward at.host dnat at.forward_id device
          at.now key)
        (Rules.migrate_dnat_forward-Preserves app nat ensure_ip_forward at.host P laws dnat
          at.forward_id device at.now key)
        w h
  dispatch-Preserves device peer RpcRequest.list_interfaces w h = h
  dispatch-Preserves device peer RpcRequest.list_devices w h = h
  dispatch-Preserves device peer (RpcRequest.revoke_device id) w h =
      no_value-Preserves (Allowlist.revoke_device app id)
        (Settings.revoke_device-Preserves app P laws id) w h
  dispatch-Preserves device peer RpcRequest.get_settings w h = h
  dispatch-Preserves device peer (RpcRequest.set_ssh_exposure on) w h =
      value-Preserves settings (Exposure.set_ssh_exposure app at.now on)
        (Settings.set_ssh_exposure-Preserves app P laws at.now on) w h
  dispatch-Preserves device peer (RpcRequest.set_forward_exposure on) w h =
      value-Preserves settings (Exposure.set_forward_exposure app on)
        (Settings.set_forward_exposure-Preserves app P laws on) w h
  dispatch-Preserves device peer (RpcRequest.set_ssh_password_auth on) w h =
      value-Preserves settings (Exposure.set_ssh_password_auth app on)
        (Settings.set_ssh_password_auth-Preserves app P laws on) w h
  dispatch-Preserves device peer (RpcRequest.reset_root_password password) w h =
      no_value-Preserves (Exposure.reset_root_password app password)
        (Settings.reset_root_password-Preserves app P laws password) w h
  dispatch-Preserves device peer RpcRequest.egress_ip w h = h
  dispatch-Preserves device peer RpcRequest.list_public_ports w h = h
  dispatch-Preserves device peer (RpcRequest.add_public_port r) w h =
      value-Preserves ports (PublicPorts.add_public_port app r)
        (Settings.add_public_port-Preserves app P laws r) w h
  dispatch-Preserves device peer (RpcRequest.remove_public_port proto range) w h =
      value-Preserves ports (PublicPorts.remove_public_port app proto range)
        (Settings.remove_public_port-Preserves app P laws proto range) w h
