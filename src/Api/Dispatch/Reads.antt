-- ===== src/Api/Dispatch/Reads.antt =====
-- The requests that only read.
use ipgate.Base.{arith, Bool, true, false, ◌≡◌, refl}
use ipgate.Proto.Net.{DeviceId, IpAddr}
use ipgate.Proto.Rpc.{RpcRequest}
use ipgate.Nft.Backend.{NatBackend}
use ipgate.Dnat.Adapter.{DnatHost}
use ipgate.Reconcile.{World}
use ipgate.Handlers.App.{App}
use ipgate.Handlers.Allowlist
use ipgate.Api.Dispatch.{Moment, dispatch}

-- The requests whose names begin with a verb of reading.
abbrev pub is_read : RpcRequest → Bool
is_read RpcRequest.list_allowlist = true
is_read RpcRequest.whoami = true
is_read RpcRequest.list_forwards = true
is_read RpcRequest.list_interfaces = true
is_read RpcRequest.list_devices = true
is_read RpcRequest.get_settings = true
is_read RpcRequest.egress_ip = true
is_read RpcRequest.list_public_ports = true
is_read _ = false

-- A request that reads leaves the store, the disk, the kernel and what is known of the loaded rules
-- as they were.
pub dispatch-read :
    {K D : Type 0} (app : App K D) (nat : NatBackend K) (ensure_ip_forward : D → D)
    (dnat : DnatHost D) (at : Moment) (device : DeviceId) (peer : IpAddr) (req : RpcRequest)
    (w : World K D)
    → is_read req ≡ true
    → (dispatch app nat ensure_ip_forward dnat at device peer req w).1 ≡ w
unfolding dispatch Allowlist.list_allowlist Allowlist.list_devices
dispatch-read app nat ensure dnat at device peer RpcRequest.list_allowlist w h = refl
dispatch-read app nat ensure dnat at device peer RpcRequest.whoami w h = refl
dispatch-read app nat ensure dnat at device peer RpcRequest.list_forwards w h = refl
dispatch-read app nat ensure dnat at device peer RpcRequest.list_interfaces w h = refl
dispatch-read app nat ensure dnat at device peer RpcRequest.list_devices w h = refl
dispatch-read app nat ensure dnat at device peer RpcRequest.get_settings w h = refl
dispatch-read app nat ensure dnat at device peer RpcRequest.egress_ip w h = refl
dispatch-read app nat ensure dnat at device peer RpcRequest.list_public_ports w h = refl
dispatch-read app nat ensure dnat at device peer (RpcRequest.allow x) w h = absurd (ground arith)
dispatch-read app nat ensure dnat at device peer (RpcRequest.revoke x) w h = absurd (ground arith)
dispatch-read app nat ensure dnat at device peer RpcRequest.sync w h = absurd (ground arith)
dispatch-read app nat ensure dnat at device peer (RpcRequest.add_forward x) w h =
    absurd (ground arith)
dispatch-read app nat ensure dnat at device peer (RpcRequest.update_forward x y) w h =
    absurd (ground arith)
dispatch-read app nat ensure dnat at device peer (RpcRequest.remove_forward x) w h =
    absurd (ground arith)
dispatch-read app nat ensure dnat at device peer (RpcRequest.remove_dnat x) w h =
    absurd (ground arith)
dispatch-read app nat ensure dnat at device peer (RpcRequest.migrate_dnat x) w h =
    absurd (ground arith)
dispatch-read app nat ensure dnat at device peer (RpcRequest.revoke_device x) w h =
    absurd (ground arith)
dispatch-read app nat ensure dnat at device peer (RpcRequest.set_ssh_exposure x) w h =
    absurd (ground arith)
dispatch-read app nat ensure dnat at device peer (RpcRequest.set_forward_exposure x) w h =
    absurd (ground arith)
dispatch-read app nat ensure dnat at device peer (RpcRequest.set_ssh_password_auth x) w h =
    absurd (ground arith)
dispatch-read app nat ensure dnat at device peer (RpcRequest.reset_root_password x) w h =
    absurd (ground arith)
dispatch-read app nat ensure dnat at device peer (RpcRequest.add_public_port x) w h =
    absurd (ground arith)
dispatch-read app nat ensure dnat at device peer (RpcRequest.remove_public_port x y) w h =
    absurd (ground arith)
