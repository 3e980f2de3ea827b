-- ===== src/Agent/Revocation.antt =====
-- Who was turned away stays out until the key comes with a pairing code again.
use ipgate.Base.{
  ◌≡◌, ◌≢◌, sym, subst, arith, nat_eq, list_eq, ◌==◌, false, none, some, All, All-retain,
  All-append, find-eq-none, find-eq-none_of, inl, inr, Text, Result, Bool-cases,
}
use ipgate.Proto.Net.{DeviceId, DateTime, IpAddr}
use ipgate.Proto.Errors.{ApiError}
use ipgate.Proto.Entries.{Device}
use ipgate.Proto.Rpc.{HandshakeHello, RpcRequest}
use ipgate.Config.{AgentConfig}
use ipgate.Store.{
  State, get_device_by_pubkey, allow, revoke_by_target, remove_device, remove_forward, set_resolved,
  prune_expired, add_forward, touch_device, add_device,
}
use ipgate.Store.Devices.{All-touch}
use ipgate.Store.Forwards.{update_forward_keeps}
use ipgate.Reconcile.{World}
use ipgate.Handlers.Allowlist.{revoke_device}
use ipgate.Handlers.Closure.{IsClosed}
use ipgate.Api.Access.{serve_request, paired_device}
use ipgate.Api.Access.Gatekeeping.{authorize_store, serve_request_unknown, revoke_device_unknown}
use ipgate.Api.Dispatch.{Moment, Reply}
use ipgate.Agent.{Agent, handle, greet, Unpaired, pairs, handshake, here, next}
use ipgate.Agent.WellFormed.{IsWellFormed, turn-Preserves}

-- No device has the key.
abbrev pub IsUnknown : Text → State → Type 0
IsUnknown key s = All (λ d. (d.pubkey == key) ≡ false) s.devices

IsUnknown-IsClosed : (cfg : AgentConfig) (key : Text) → IsClosed cfg (IsUnknown key)
unfolding allow revoke_by_target prune_expired remove_device remove_forward set_resolved add_forward
IsUnknown-IsClosed cfg key = record {
  entry_allowed = λ id req by now s h. h;
  entry_revoked = λ t s h. h;
  entries_pruned = λ now s h. h;
  device_removed = λ id s h. All-retain _ _ s.devices h;
  ssh_set = λ now on s g h. h;
  gate_set = λ on s h. h;
  ports_set = λ ports s c h. h;
  rule_added = λ id req by now s f h. h;
  rule_updated = λ id req s f h. update_forward_keeps (IsUnknown key) id req s (λ m. h) h;
  rule_removed = λ id s h. h;
  targets_resolved = λ m s h. h;
}

module _ (key : Text) (s : State) where
  IsUnknown-of_none : get_device_by_pubkey s key ≡ none → IsUnknown key s
  unfolding get_device_by_pubkey
  IsUnknown-of_none h = find-eq-none _ s.devices h

  none_of_unknown : IsUnknown key s → get_device_by_pubkey s key ≡ none
  unfolding get_device_by_pubkey
  none_of_unknown h = find-eq-none_of _ s.devices h

  touched-IsUnknown :
      (id : DeviceId) (now : DateTime) → IsUnknown key s → IsUnknown key (touch_device id now s)
  unfolding touch_device
  touched-IsUnknown id now h = All-touch id now (λ d p. p) s.devices h

  added-IsUnknown :
      (device : Device)
      → (device.pubkey == key) ≡ false
      → IsUnknown key s
      → IsUnknown key (add_device device s)
  unfolding add_device
  added-IsUnknown device other h = All-append _ _ _ (All-retain _ _ s.devices h) (other, tt)

module _ {K D : Type 0} (agent : Agent K D) (key : Text) where
  greet-IsUnknown :
      (peer : Text) (hello : HandshakeHello) (id : DeviceId) (now : DateTime) (w : World K D)
      → pairs agent (handshake peer hello id now w) ≢ some key
      → IsUnknown key w.store
      → IsUnknown key (greet agent peer hello id now w).store
  unfolding pairs paired_device
  greet-IsUnknown peer hello id now w ne h =
      elim (authorize_store agent.app agent.sha agent.load_codes agent.save_codes peer hello id now
        w) [
          | inl (d, same) ↦
              subst (IsUnknown key) (sym same) (touched-IsUnknown key w.store d.id now h)
          | inr (inl same) ↦ subst (IsUnknown key) (sym same) h
          | inr (inr (coded, same)) ↦
              let other : (peer == key) ≡ false = elim (Bool-cases (peer == key)) [
                | inl e ↦ absurd (ne (ground (arith, coded, e)))
                | inr e ↦ e
              ] in
              subst (IsUnknown key) (sym same)
                (added-IsUnknown key w.store (paired_device id peer hello now) other h)
        ]

  Unpaired-IsUnknown :
      {s t : World K D} → IsUnknown key s.store → Unpaired agent key s t → IsUnknown key t.store
  Unpaired-IsUnknown h here = h
  Unpaired-IsUnknown h (next r st ne) =
      turn-Preserves agent (IsUnknown key) (IsUnknown-IsClosed agent.app.cfg key)
        (λ t u x. pairs agent x ≢ some key)
        (λ peer hello id now w p g. greet-IsUnknown peer hello id now w p g) st ne
        (Unpaired-IsUnknown h r)

  -- In a world with a well-formed store, a device is revoked. From then on, through any requests,
  -- logins, pairings of other keys and turns of the loops, the next request of a connection with its
  -- key ends the connection and changes nothing, until a handshake of the key brings a pairing code.
  pub Unpaired-serve_request :
      (device : Device) (w t : World K D)
      → IsWellFormed agent.app.cfg w.store
      → get_device_by_pubkey w.store key ≡ some device
      → Unpaired agent key (revoke_device agent.app device.id w).1 t
      → (at : Moment) (peer : IpAddr) (unread : Text → Result ApiError Reply)
        (probed : Result ApiError Reply) (raw : Result Text RpcRequest)
      → serve_request (handle agent at peer) unread probed key raw t ≡ (none, t)
  Unpaired-serve_request device w t (_, (unique, _)) known r at peer unread probed raw =
      let w1 = (revoke_device agent.app device.id w).1 in
      let gone =
        IsUnknown-of_none key w1.store
          (revoke_device_unknown agent.app device key w unique known) in
      serve_request_unknown (handle agent at peer) unread probed key raw t
        (none_of_unknown key t.store (Unpaired-IsUnknown gone r))
