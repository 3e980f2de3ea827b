-- ===== src/Handlers/Closure/Settings.antt =====
-- The handlers of the allowlist, the devices, the settings and the public ports, and the loop that
-- compares the kernel with the store.
use ipgate.Base.{
  ◌≡◌, arith, sym, subst, inl, inr, nat_eq, Bool, not, List, Text, lit, lift, ltb, length, trim,
  Preserves, Preserves-bind, Run-cases, Option-cases,
}
use ipgate.Proto.Net.{DeviceId, EntryId, DateTime}
use ipgate.Proto.Errors.{api_error, internal_error, bad_request, not_found}
use ipgate.Proto.Entries.{Entry, AllowRequest, RevokeRequest}
use ipgate.Proto.Ports.{PortRange, PublicPortRequest, ForwardProto, RulesetConfig}
use ipgate.Store.{
  State, RulesetFlags, ruleset_flags, revoke_by_target, remove_device, set_forward_allowlist_only,
  prune_expired,
}
use ipgate.Store
use ipgate.Nft.Apply.{apply_ruleset}
use ipgate.Config.{ruleset_with}
use ipgate.Reconcile.{World, snapshot, settle}
use ipgate.Handlers.App.{App, save_store, on_kernel, on_disk, require}
use ipgate.Handlers.Allowlist.{allow, revoke, sync, revoke_device, revoked_target, no_entry}
use ipgate.Handlers.Exposure.{
  reapply_ruleset, set_ssh_exposure, set_forward_exposure, set_ssh_password_auth,
  reset_root_password, with_forward, rejection,
}
use ipgate.Handlers.Exposure.Safety.{set_ssh_exposure_store}
use ipgate.Handlers.PublicPorts.{add_public_port, remove_public_port}
use ipgate.Handlers.PublicPorts.Guard.{add_public_port-IsStored, remove_public_port-IsStored}
use ipgate.Handlers.Closure.{IsClosed, noted, opened, closed}

module _ {K D : Type 0} (app : App K D) (P : State → Type 0) (laws : IsClosed app.cfg P) where
  -- The predicate of a world.
  abbrev Q : World K D → Type 0
  Q w = P w.store

  pub allow-Preserves :
      (id : EntryId) (by : DeviceId) (now : DateTime) (req : AllowRequest)
      → Preserves Q (allow app id by now req)
  unfolding allow
  allow-Preserves id by now req w h =
      let (entry, s) = Store.allow id req by now w.store in
      Preserves-bind Q (save_store app) _ (record w { store = s })
        (laws.entry_allowed id req by now w.store h)
        (λ _ w2 _ h2.
          Preserves-bind Q (on_kernel (app.backend.add entry)) _ w2 h2 (λ _ w3 _ h3. h3))

  pub revoke-Preserves : (req : RevokeRequest) → Preserves Q (revoke app req)
  unfolding revoke
  revoke-Preserves req w h =
      Preserves-bind Q (lift (revoked_target req w.store)) _ w h (λ t w1 _ h1.
        let (found, s) = revoke_by_target t w1.store in
        Preserves-bind Q (lift (require found no_entry)) _ (record w1 { store = s })
          (laws.entry_revoked t w1.store h1)
          (λ _ w3 _ h3. Preserves-bind Q (save_store app) _ w3 h3 (λ _ w4 _ h4. h4)))

  pub sync-Preserves : (now : DateTime) → Preserves Q (sync app now)
  unfolding sync
  sync-Preserves now w h = Preserves-bind Q (on_kernel app.backend.list) _ w h (λ _ w1 _ h1. h1)

  pub revoke_device-Preserves : (id : DeviceId) → Preserves Q (revoke_device app id)
  unfolding revoke_device
  revoke_device-Preserves id w h =
      let (found, s) = remove_device id w.store in
      Preserves-bind Q (lift (require found (api_error not_found (lit "设备不存在")))) _
        (record w { store = s }) (laws.device_removed id w.store h) (λ _ w2 _ h2. h2)

  reapply_ruleset_store :
      (flags : RulesetFlags) (es : List Entry) (w : World K D)
      → (reapply_ruleset app flags es w).1.store ≡ w.store
  unfolding reapply_ruleset
  reapply_ruleset_store flags es w =
      elim (Run-cases (apply_ruleset app.backend (ruleset_with app.cfg flags) es w.kernel)) [
        | inl (a, k, run) ↦ ground arith
        | inr (e, k, run) ↦ ground arith
      ]

  pub set_ssh_exposure-Preserves :
      (now : DateTime) (on : Bool) → Preserves Q (set_ssh_exposure app now on)
  set_ssh_exposure-Preserves now on w h = elim (set_ssh_exposure_store app now w on) [
    | inl same ↦ subst P (sym same) h
    | inr (good, same) ↦ subst P (sym same) (laws.ssh_set now on w.store good h)
  ]

  pub set_forward_exposure-Preserves : (on : Bool) → Preserves Q (set_forward_exposure app on)
  unfolding set_forward_exposure set_forward_allowlist_only
  set_forward_exposure-Preserves on w h =
      Preserves-bind Q
        (reapply_ruleset app (with_forward on (ruleset_flags w.store)) w.store.entries) _ w
        (subst P (sym (reapply_ruleset_store _ _ w)) h)
        (λ applied w1 _ h1. elim (Option-cases (rejection applied.gate)) [
          | inr (e, refused) ↦ rw refused h1
          | inl kept ↦ rw kept (
              Preserves-bind Q (save_store app) _
                (record w1 { store = (set_forward_allowlist_only on w1.store).1 })
                (laws.gate_set on w1.store h1) (λ _ w3 _ h3. h3))
        ])

  pub set_ssh_password_auth-Preserves : (on : Bool) → Preserves Q (set_ssh_password_auth app on)
  unfolding set_ssh_password_auth
  set_ssh_password_auth-Preserves on w h =
      Preserves-bind Q (on_disk (api_error internal_error) (app.set_password_auth on)) _ w h
        (λ _ w1 _ h1. h1)

  pub reset_root_password-Preserves : (p : Text) → Preserves Q (reset_root_password app p)
  unfolding reset_root_password
  reset_root_password-Preserves p w h =
      Preserves-bind Q
        (lift (require (not (ltb (length p) 8)) (api_error bad_request (lit "密码至少 8 位")))) _ w h
        (λ _ w1 _ h1. h1)

  pub add_public_port-Preserves : (req : PublicPortRequest) → Preserves Q (add_public_port app req)
  add_public_port-Preserves req w h = elim (add_public_port-IsStored app w req) [
    | inl same ↦ subst P (sym same) h
    | inr (ports, inl note, same) ↦
        subst P (sym same)
          (laws.ports_set ports w.store (noted req.proto req.ports (trim req.note) note) h)
    | inr (ports, inr (longer, free, good, new), same) ↦
        subst P (sym same) (laws.ports_set ports w.store (opened req longer free good new) h)
  ]

  pub remove_public_port-Preserves :
      (proto : ForwardProto) (range : PortRange) → Preserves Q (remove_public_port app proto range)
  remove_public_port-Preserves proto range w h =
      elim (remove_public_port-IsStored app w proto range) [
        | inl same ↦ subst P (sym same) h
        | inr (ports, less, same) ↦
            subst P (sym same) (laws.ports_set ports w.store (closed proto range less) h)
      ]

  -- The two sections of a round of the loop.
  pub snapshot-Preserves :
      (flags : RulesetFlags → RulesetConfig) (now : DateTime) (w : World K D)
      → P w.store
      → P (snapshot app.backend app.save flags now w).1.store
  unfolding snapshot
  snapshot-Preserves flags now w h = laws.entries_pruned now w.store h

  settle_store :
      (flags : RulesetFlags → RulesetConfig) (es : List Entry) (now : DateTime) (w : World K D)
      → (settle app.backend app.save flags es now w).store ≡ w.store
  unfolding settle
  settle_store flags es now w = elim (Run-cases (app.backend.list w.kernel)) [
    | inl (elements, k, run) ↦ ground arith
    | inr (e, k, run) ↦
        elim (Run-cases
          (apply_ruleset app.backend (flags (ruleset_flags w.store)) w.store.entries k)) [
            | inl (a, k', load) ↦ ground arith
            | inr (f, k', load) ↦ ground arith
          ]
  ]

  pub settle-Preserves :
      (flags : RulesetFlags → RulesetConfig) (es : List Entry) (now : DateTime) (w : World K D)
      → P w.store
      → P (settle app.backend app.save flags es now w).store
  settle-Preserves flags es now w h = subst P (sym (settle_store flags es now w)) h
