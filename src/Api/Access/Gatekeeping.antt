-- ===== src/Api/Access/Gatekeeping.antt =====
-- Who gets in, and that a revoked device is turned away at its next request.
use ipgate.Base.{
  ◌≡◌, ◌⊎◌, subst, inl, inr, ◌∙◌, ap, arith, nat_eq, list_eq, true, false, none, some, List, Text,
  Option-cases, Result-cases, is_some, Bool-cases, Result, ok, Exec, Run-cases,
}
use ipgate.Proto.Net.{DeviceId, DateTime}
use ipgate.Proto.Entries.{Device}
use ipgate.Proto.Rpc.{HandshakeHello, HandshakeAck, RpcRequest}
use ipgate.Store.{State, get_device_by_pubkey, add_device, remove_device, touch_device}
use ipgate.Store.Devices.{HasUniqueDevices, get_device_by_pubkey-remove_device}
use ipgate.Reconcile.{World}
use ipgate.Handlers.App.{App}
use ipgate.Handlers.Allowlist.{revoke_device}
use ipgate.Api.Pairing.{PendingCode, consume}
use ipgate.Api.Pairing.Files.{IsCodeFile, IsUsedUp, IsUsedUp-kept, consume-IsUsedUp}
use ipgate.Api.Access.{pair, paired_device, authorize, serve_request, asks_egress}

module _ {K D : Type 0} (app : App K D) (sha : Text → Text)
    (load_codes : Exec D Text (List PendingCode))
    (save_codes : List PendingCode → Exec D Text (Unit {0})) (peer : Text) (hello : HandshakeHello)
    (id : DeviceId) (now : DateTime) (w w' : World K D) where
  pair_ok :
      (ack : HandshakeAck)
      → pair app sha load_codes save_codes peer hello id now w ≡ (ok ack, w')
      → (ack ≡ record { device_id = id; paired = true })
        × (w'.store ≡ add_device (paired_device id peer hello now) w.store)
        × (code : Text) × (d : D) × (hello.pairing_code ≡ some code)
        × (consume sha load_codes save_codes code now w.disk ≡ (ok true, d))
        × (w'.disk ≡ (app.save w'.store d).1)
  unfolding pair
  pair_ok ack h = elim (Option-cases hello.pairing_code) [
    | inl no_code ↦ absurd (ground arith)
    | inr (code, given) ↦ elim (Run-cases (consume sha load_codes save_codes code now w.disk)) [
      | inr (e, d, bad) ↦ absurd (ground arith)
      | inl (false, d, bad) ↦ absurd (ground arith)
      | inl (true, d, hit) ↦
          elim (Run-cases (app.save (add_device (paired_device id peer hello now) w.store) d)) [
            | inr (e, d', lost) ↦ absurd (ground arith)
            | inl (u, d', saved) ↦ (ground arith, ground arith, code, d, given, hit, ground arith)
          ]
    ]
  ]

  -- The handshake succeeds only for a key that the store knew, or for one that brought a pairing
  -- code. That code was pending and unexpired in the file of the codes, and after the handshake the
  -- file has one copy of it less. This needs a file that is read as it was written, and a save of the
  -- store that leaves it.
  pub authorize_sound :
      (ack : HandshakeAck)
      → IsCodeFile load_codes save_codes
      → ((s : State) (d : D) → (load_codes (app.save s d).1).0 ≡ (load_codes d).0)
      → authorize app sha load_codes save_codes peer hello id now w ≡ (ok ack, w')
      → ((device : Device) × (get_device_by_pubkey w.store peer ≡ some device)
          × (ack ≡ record { device_id = device.id; paired = false }))
        ⊎ ((code : Text) × (get_device_by_pubkey w.store peer ≡ none)
            × (hello.pairing_code ≡ some code)
            × IsUsedUp sha load_codes save_codes code now w.disk w'.disk
            × (ack ≡ record { device_id = id; paired = true })
            × (w'.store ≡ add_device (paired_device id peer hello now) w.store))
  unfolding authorize
  authorize_sound ack laws apart h = elim (Option-cases (get_device_by_pubkey w.store peer)) [
    | inr (device, known) ↦ inl (device, known, ground arith)
    | inl unknown ↦
        let run : pair app sha load_codes save_codes peer hello id now w ≡ (ok ack, w') =
          ground arith in
        let (e, same, code, d, given, hit, written) = pair_ok ack run in
        let used = consume-IsUsedUp sha load_codes save_codes code now w.disk d laws hit in
        let kept : (load_codes w'.disk).0 ≡ (load_codes (app.save w'.store d).1).0 =
          ap (λ x. (load_codes x).0) written in
        let left =
          IsUsedUp-kept sha load_codes save_codes code now w.disk d w'.disk
            (kept ∙ apart w'.store d) used in
        inr (code, unknown, given, left, e, same)
  ]

module _ {K D : Type 0} (app : App K D) (sha : Text → Text)
    (load_codes : Exec D Text (List PendingCode))
    (save_codes : List PendingCode → Exec D Text (Unit {0})) (peer : Text) (hello : HandshakeHello)
    (id : DeviceId) (now : DateTime) (w : World K D) where
  -- The store is as it was, or the key came with a pairing code and is registered.
  abbrev IsPaired : State → Type 0
  IsPaired s =
      (s ≡ w.store)
      ⊎ ((is_some hello.pairing_code ≡ true)
          × (s ≡ add_device (paired_device id peer hello now) w.store))

  pair_store : IsPaired (pair app sha load_codes save_codes peer hello id now w).1.store
  unfolding pair
  pair_store = elim (Option-cases hello.pairing_code) [
    | inl no_code ↦ inl (ground arith)
    | inr (code, given) ↦ elim (Run-cases (consume sha load_codes save_codes code now w.disk)) [
      | inr (e, d, bad) ↦ inl (ground arith)
      | inl (false, d, bad) ↦ inl (ground arith)
      | inl (true, d, hit) ↦
          elim (Run-cases (app.save (add_device (paired_device id peer hello now) w.store) d)) [
            | inr (e, d', lost) ↦ inr (ground arith, ground arith)
            | inl (u, d', saved) ↦ inr (ground arith, ground arith)
          ]
    ]
  ]

  -- Whatever the outcome, the handshake notes the login of a known device, leaves the store, or
  -- registers a key that came with a pairing code.
  pub authorize_store :
      ((d : Device) × ((authorize app sha load_codes save_codes peer hello id now w).1.store
          ≡ touch_device d.id now w.store))
      ⊎ IsPaired (authorize app sha load_codes save_codes peer hello id now w).1.store
  unfolding authorize
  authorize_store = elim (Option-cases (get_device_by_pubkey w.store peer)) [
    | inr (d, known) ↦ inl (d, ground arith)
    | inl unknown ↦
        let run : pair app sha load_codes save_codes peer hello id now w
            ≡ authorize app sha load_codes save_codes peer hello id now w =
          ground arith in
        inr (subst IsPaired (ap (λ p. p.1.store) run) pair_store)
  ]

revoke_device_store :
    {K D : Type 0} (app : App K D) (id : DeviceId) (w : World K D)
    → (revoke_device app id w).1.store ≡ (remove_device id w.store).1
unfolding revoke_device
revoke_device_store app id w = elim (Bool-cases (remove_device id w.store).0) [
  | inr missing ↦ ground arith
  | inl found ↦ elim (Run-cases (app.save (remove_device id w.store).1 w.disk)) [
    | inl (u, d, saved) ↦ ground arith
    | inr (e, d, lost) ↦ ground arith
  ]
]

pub serve_request_unknown :
    {K D A : Type 0} (handle : DeviceId → RpcRequest → World K D → A × World K D)
    (unread : Text → A) (probed : A) (key : Text) (raw : Result Text RpcRequest) (w : World K D)
    → get_device_by_pubkey w.store key ≡ none
    → serve_request handle unread probed key raw w ≡ (none, w)
unfolding serve_request
serve_request_unknown handle unread probed key raw w h = ground arith

-- A turn of a connection leaves the world, or is what the dispatch of one request of a known device
-- makes of it.
pub serve_request_world :
    {K D A : Type 0} (handle : DeviceId → RpcRequest → World K D → A × World K D)
    (unread : Text → A) (probed : A) (key : Text) (raw : Result Text RpcRequest) (w : World K D)
    → ((serve_request handle unread probed key raw w).1 ≡ w)
      ⊎ ((d : Device) × (req : RpcRequest) × (get_device_by_pubkey w.store key ≡ some d)
          × ((serve_request handle unread probed key raw w).1 ≡ (handle d.id req w).1))
unfolding serve_request
serve_request_world handle unread probed key raw w =
    elim (Option-cases (get_device_by_pubkey w.store key)) [
      | inl unknown ↦ inl (ground arith)
      | inr (d, known) ↦ elim (Result-cases raw) [
        | inl (req, read) ↦ elim (Bool-cases (asks_egress req)) [
          | inl egress ↦ inl (ground (arith, known, read, egress))
          | inr other ↦ inr (d, req, known, ground (arith, known, read, other))
        ]
        | inr (e, bad) ↦ inl (ground arith)
      ]
    ]

-- After a device was revoked, whether or not the save went well, its key is unknown.
pub revoke_device_unknown :
    {K D : Type 0} (app : App K D) (device : Device) (key : Text) (w : World K D)
    → HasUniqueDevices w.store
    → get_device_by_pubkey w.store key ≡ some device
    → get_device_by_pubkey (revoke_device app device.id w).1.store key ≡ none
revoke_device_unknown app device key w unique known =
    ap (λ (s : State). get_device_by_pubkey s key) (revoke_device_store app device.id w)
    ∙ get_device_by_pubkey-remove_device device.id w.store key unique
    ∙ (rw known (ground arith))

-- After a device was revoked, whether or not the save went well, the next request of any connection
-- with its key ends the connection and changes nothing.
revoke_device-serve_request :
    {K D A : Type 0} (app : App K D) (handle : DeviceId → RpcRequest → World K D → A × World K D)
    (unread : Text → A) (probed : A) (device : Device) (key : Text) (raw : Result Text RpcRequest)
    (w : World K D)
    → HasUniqueDevices w.store
    → get_device_by_pubkey w.store key ≡ some device
    → serve_request handle unread probed key raw (revoke_device app device.id w).1
      ≡ (none, (revoke_device app device.id w).1)
revoke_device-serve_request app handle unread probed device key raw w unique known =
    serve_request_unknown handle unread probed key raw (revoke_device app device.id w).1
      (revoke_device_unknown app device key w unique known)
