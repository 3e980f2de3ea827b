-- ===== src/Handlers/Allowlist.antt =====
-- The allowlist and device handlers of agent/src/api/handlers.rs.
pub mod Effects
use ipgate.Base.{none, some, List, lit, Result, ok, err, pure, gets, lift, ◌>>=◌, ◌>>◌}
use ipgate.Proto.Net.{DeviceId, EntryId, DateTime, IpNet, IpAddr}
use ipgate.Proto.Errors.{not_found, ApiError, api_error}
use ipgate.Proto.Entries.{Entry, AllowRequest, RevokeRequest, by_id, by_target, Allowlist, Device}
use ipgate.Proto.Ports.{Diff}
use ipgate.Store.{State, find_by_id, revoke_by_target, remove_device}
use ipgate.Store
use ipgate.Reconcile.{diff}
use ipgate.Handlers.App.{App, Handler, with_store, save_store, on_kernel, require}

abbrev pub no_entry : ApiError
no_entry = api_error not_found (lit "条目不存在")

-- The target of a request to revoke.
unfoldable pub revoked_target : RevokeRequest → State → Result ApiError IpNet
unfolding find_by_id
revoked_target (by_target t) s = ok t
revoked_target (by_id id) s = elim (find_by_id s id) [ some e ↦ ok e.target | none ↦ err no_entry ]

unfoldable pub whoami : IpAddr → IpAddr
whoami peer_ip = peer_ip

module _ {K D : Type 0} (app : App K D) where
  unfoldable pub list_allowlist : Handler K D Allowlist
  list_allowlist = gets (λ w. record { entries = w.store.entries; revision = w.store.revision })

  unfoldable pub allow : EntryId → DeviceId → DateTime → AllowRequest → Handler K D Entry
  allow id by now req = do
    entry ← with_store (Store.allow id req by now)
    save_store app
    on_kernel (app.backend.add entry)
    pure entry

  unfoldable pub revoke : RevokeRequest → Handler K D (Unit {0})
  unfolding revoked_target
  revoke req = do
    s ← gets (λ w. w.store)
    target ← lift (revoked_target req s)
    found ← with_store (revoke_by_target target)
    lift (require found no_entry)
    save_store app
    on_kernel (app.backend.remove target)

  unfoldable pub sync : DateTime → Handler K D Diff
  sync now = do
    kernel ← on_kernel app.backend.list
    s ← gets (λ w. w.store)
    pure (diff s.entries kernel now)

  unfoldable pub list_devices : Handler K D (List Device)
  list_devices = gets (λ w. w.store.devices)

  unfoldable pub revoke_device : DeviceId → Handler K D (Unit {0})
  revoke_device id = do
    found ← with_store (remove_device id)
    lift (require found (api_error not_found (lit "设备不存在")))
    save_store app
