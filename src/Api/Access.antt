-- ===== src/Api/Access.antt =====
-- `authorize` and one turn of the request loop of agent/src/api/mod.rs. The frame that a client
-- sends is read by the crate serde_json: what it reads is an argument.
pub mod Gatekeeping
use ipgate.Base.{
  ℕ, Bool, true, false, not, Option, none, some, List, [], ◌∷◌, if◌then◌else◌, Text, lit, trim,
  Result, ok, err, Exec, pure, raise, continue, ◌>>=◌, ◌>>◌, lift,
}
use ipgate.Proto.Net.{DeviceId, DateTime}
use ipgate.Proto.Errors.{ApiError}
use ipgate.Proto.Entries.{Device}
use ipgate.Proto.Ports.{is_nil}
use ipgate.Proto.Rpc.{HandshakeHello, HandshakeAck, RpcRequest}
use ipgate.Store.{State, get_device_by_pubkey, touch_device, add_device}
use ipgate.Reconcile.{World}
use ipgate.Handlers.App.{App}
use ipgate.Api.Pairing.{PendingCode, consume}

abbrev pub device_name_of : Option Text → Text
device_name_of none = lit "未命名设备"
device_name_of (some n) = if is_nil (trim n) then lit "未命名设备" else n

unfoldable pub paired_device : DeviceId → Text → HandshakeHello → DateTime → Device
paired_device id peer hello now = record {
  id = id;
  name = device_name_of hello.device_name;
  pubkey = peer;
  created_at = now;
  last_seen = some now;
}

module _ {K D : Type 0} where
  -- A step on the disk that fails with a text.
  abbrev pub on_host : {A : Type 0} → Exec D Text A → Exec (World K D) Text A
  on_host m w = let (r, d) = m w.disk in (r, record w { disk = d })

  abbrev pub change_store : (State → State) → Exec (World K D) Text (Unit {0})
  change_store f w = (ok tt, record w { store = f w.store })

module _ {K D : Type 0} (app : App K D) (sha : Text → Text)
    (load_codes : Exec D Text (List PendingCode))
    (save_codes : List PendingCode → Exec D Text (Unit {0})) where
  -- The branch of a key that is not in the store.
  unfoldable pub pair :
      Text → HandshakeHello → DeviceId → DateTime → Exec (World K D) Text HandshakeAck
  unfolding paired_device
  pair peer hello id now = elim hello.pairing_code [
    | none ↦ raise (lit "未配对设备且未提供配对码")
    | some code ↦ do
      hit ← on_host (consume sha load_codes save_codes code now)
      lift (if hit then ok tt else err (lit "配对码无效 / 过期 / 已用"))
      change_store (add_device (paired_device id peer hello now))
      (λ w. on_host (app.save w.store) w)
      pure (record { device_id = id; paired = true })
  ]

  -- A failed save of the touched store is ignored.
  unfoldable pub authorize :
      Text → HandshakeHello → DeviceId → DateTime → Exec (World K D) Text HandshakeAck
  unfolding pair get_device_by_pubkey touch_device
  authorize peer hello id now w = elim (get_device_by_pubkey w.store peer) [
    | some d ↦
        let s = touch_device d.id now w.store in
        (
          ok (record { device_id = d.id; paired = false }),
          record w { store = s; disk = (app.save s w.disk).1 },
        )
    | none ↦ pair peer hello id now w
  ]

abbrev pub asks_egress : RpcRequest → Bool
asks_egress RpcRequest.egress_ip = true
asks_egress _ = false

abbrev answered : {K D A : Type 0} → A × World K D → Option A × World K D
answered (a, w) = (some a, w)

-- One request of a connection: the device is looked up again, and without it the connection ends
-- (`none`). `handle` is the dispatch of a request for a device, `unread` the answer to a frame that
-- is no request, and `probed` the answer of the probe of the egress addresses, which is asked
-- instead of the dispatch.
unfoldable pub serve_request :
    {K D A : Type 0} (handle : DeviceId → RpcRequest → World K D → A × World K D)
    (unread : Text → A) (probed : A)
    → Text
    → Result Text RpcRequest
    → World K D
    → Option A × World K D
unfolding get_device_by_pubkey
serve_request handle unread probed peer_key raw w = elim (get_device_by_pubkey w.store peer_key) [
  | none ↦ (none, w)
  | some d ↦ elim raw [
    | ok req ↦ if asks_egress req then (some probed, w) else answered (handle d.id req w)
    | err e ↦ (some (unread e), w)
  ]
]
