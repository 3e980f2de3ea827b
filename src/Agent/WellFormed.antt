-- ===== src/Agent/WellFormed.antt =====
-- What is true of the store whatever the agent did: the invariants, each closed under the changes of
-- the handlers and of the loops.
pub mod Rules
pub mod Ports
use ipgate.Base.{
  ◌≡◌, Text, Result, Option-cases, Result-cases, inl, inr, subst, sym, ap, refl, arith, true, false,
  ok, List,
}
use ipgate.Config.{AgentConfig, ruleset_with, public_port_covering_ssh}
use ipgate.Store.{
  State, empty, allow, revoke_by_target, remove_device, update_forward, remove_forward,
  set_resolved, prune_expired, ruleset_flags, add_forward, touch_device, add_device,
  get_device_by_pubkey,
}
use ipgate.Store.Entries.{
  HasUniqueTargets, allow-HasUniqueTargets, revoke-HasUniqueTargets, prune-HasUniqueTargets,
}
use ipgate.Store.Devices.{
  HasUniqueDevices, remove_device-HasUniqueDevices, add_device-HasUniqueDevices,
  touch_device-HasUniqueDevices,
}
use ipgate.Store.Forwards.{update_forward_keeps}
use ipgate.Handlers.Exposure.Safety.{is_guarded}
use ipgate.Handlers.Closure.{IsClosed}
use ipgate.Handlers.Closure.Settings.{snapshot-Preserves, settle-Preserves}
use ipgate.Handlers.Closure.Rules.{resolve_round-Preserves}
use ipgate.Api.Access.{serve_request, paired_device}
use ipgate.Api.Access.Gatekeeping.{authorize_store, serve_request_world}
use ipgate.Api.Dispatch.{Moment, Reply}
use ipgate.Api.Dispatch.Changes.{dispatch-Preserves}
use ipgate.Reconcile.{World}
use ipgate.Proto.Net.{DeviceId, DateTime, IpAddr}
use ipgate.Proto.Entries.{Device}
use ipgate.Proto.Errors.{ApiError}
use ipgate.Proto.Rpc.{RpcRequest, HandshakeHello}
use ipgate.Agent.{
  Agent, handle, greet, Step, Reach, request, handshake, copied, mended, resolved, here, next,
}
use ipgate.Agent.WellFormed.Rules.{HasFitRules, HasFitRules-IsClosed}
use ipgate.Agent.WellFormed.Ports.{
  IsGuarded, IsGuarded-IsClosed, HasGoodPorts, HasGoodPorts-IsClosed,
}

-- Two predicates of which each is closed are closed together.
pub IsClosed-both :
    (cfg : AgentConfig) (P R : State → Type 0)
    → IsClosed cfg P
    → IsClosed cfg R
    → IsClosed cfg (λ s. P s × R s)
IsClosed-both cfg P R p r = record {
  entry_allowed = λ id req by now s (a, b).
      (p.entry_allowed id req by now s a, r.entry_allowed id req by now s b);
  entry_revoked = λ t s (a, b). (p.entry_revoked t s a, r.entry_revoked t s b);
  entries_pruned = λ now s (a, b). (p.entries_pruned now s a, r.entries_pruned now s b);
  device_removed = λ id s (a, b). (p.device_removed id s a, r.device_removed id s b);
  ssh_set = λ now on s g (a, b). (p.ssh_set now on s g a, r.ssh_set now on s g b);
  gate_set = λ on s (a, b). (p.gate_set on s a, r.gate_set on s b);
  ports_set = λ ports s c (a, b). (p.ports_set ports s c a, r.ports_set ports s c b);
  rule_added = λ id req by now s f (a, b).
      (p.rule_added id req by now s f a, r.rule_added id req by now s f b);
  rule_updated = λ id req s f (a, b). (p.rule_updated id req s f a, r.rule_updated id req s f b);
  rule_removed = λ id s (a, b). (p.rule_removed id s a, r.rule_removed id s b);
  targets_resolved = λ m s (a, b). (p.targets_resolved m s a, r.targets_resolved m s b);
}

pub HasUniqueTargets-IsClosed : (cfg : AgentConfig) → IsClosed cfg HasUniqueTargets
unfolding remove_device update_forward remove_forward set_resolved add_forward
HasUniqueTargets-IsClosed cfg = record {
  entry_allowed = λ id req by now s h. allow-HasUniqueTargets id req by now s h;
  entry_revoked = λ t s h. revoke-HasUniqueTargets t s h;
  entries_pruned = λ now s h. prune-HasUniqueTargets now s h;
  device_removed = λ id s h. h;
  ssh_set = λ now on s g h. h;
  gate_set = λ on s h. h;
  ports_set = λ ports s c h. h;
  rule_added = λ id req by now s f h. h;
  rule_updated = λ id req s f h. update_forward_keeps HasUniqueTargets id req s (λ m. h) h;
  rule_removed = λ id s h. h;
  targets_resolved = λ m s h. h;
}

pub HasUniqueDevices-IsClosed : (cfg : AgentConfig) → IsClosed cfg HasUniqueDevices
unfolding allow revoke_by_target prune_expired remove_forward set_resolved add_forward
HasUniqueDevices-IsClosed cfg = record {
  entry_allowed = λ id req by now s h. record { ids = h.ids; keys = h.keys };
  entry_revoked = λ t s h. record { ids = h.ids; keys = h.keys };
  entries_pruned = λ now s h. record { ids = h.ids; keys = h.keys };
  device_removed = λ id s h. remove_device-HasUniqueDevices id s h;
  ssh_set = λ now on s g h. record { ids = h.ids; keys = h.keys };
  gate_set = λ on s h. record { ids = h.ids; keys = h.keys };
  ports_set = λ ports s c h. record { ids = h.ids; keys = h.keys };
  rule_added = λ id req by now s f h. record { ids = h.ids; keys = h.keys };
  rule_updated = λ id req s f h.
      update_forward_keeps HasUniqueDevices id req s (λ m. record { ids = h.ids; keys = h.keys }) h;
  rule_removed = λ id s h. record { ids = h.ids; keys = h.keys };
  targets_resolved = λ m s h. record { ids = h.ids; keys = h.keys };
}

-- What the store keeps: a target has one entry, a device one id and one key, no public port covers a
-- closed SSH, every forward has passed its checks, and the public ports are valid and differ.
abbrev pub IsWellFormed : AgentConfig → State → Type 0
IsWellFormed cfg s =
    HasUniqueTargets s × (HasUniqueDevices s × (IsGuarded cfg s × (HasFitRules s × HasGoodPorts s)))

pub IsWellFormed-IsClosed : (cfg : AgentConfig) → IsClosed cfg (IsWellFormed cfg)
IsWellFormed-IsClosed cfg = IsClosed-both cfg _ _ (HasUniqueTargets-IsClosed cfg) (
    IsClosed-both cfg _ _ (HasUniqueDevices-IsClosed cfg) (
      IsClosed-both cfg _ _ (IsGuarded-IsClosed cfg)
        (IsClosed-both cfg _ _ (HasFitRules-IsClosed cfg) (HasGoodPorts-IsClosed cfg))))

module _ (cfg : AgentConfig) (s : State) where
  -- The changes of the handshake.
  touched-IsWellFormed :
      (id : DeviceId) (now : DateTime)
      → IsWellFormed cfg s
      → IsWellFormed cfg (touch_device id now s)
  unfolding touch_device is_guarded ruleset_flags public_port_covering_ssh
  touched-IsWellFormed id now (targets, (devices, (guarded, rest))) =
      (targets, (touch_device-HasUniqueDevices id now s devices, (guarded, rest)))

  added-IsWellFormed :
      (device : Device) → IsWellFormed cfg s → IsWellFormed cfg (add_device device s)
  unfolding add_device is_guarded ruleset_flags public_port_covering_ssh
  added-IsWellFormed device (targets, (devices, (guarded, rest))) =
      (targets, (add_device-HasUniqueDevices device s devices, (guarded, rest)))

module _ {K D : Type 0} (agent : Agent K D) where
  -- A request of a key, known or not.
  pub request-Preserves :
      (P : State → Type 0) (laws : IsClosed agent.app.cfg P) (at : Moment) (peer : IpAddr)
      (unread : Text → Result ApiError Reply) (probed : Result ApiError Reply) (key : Text)
      (raw : Result Text RpcRequest) (w : World K D)
      → P w.store
      → P (serve_request (handle agent at peer) unread probed key raw w).1.store
  request-Preserves P laws at peer unread probed key raw w h =
      elim (serve_request_world (handle agent at peer) unread probed key raw w) [
        | inl same ↦ subst (λ (x : World K D). P x.store) (sym same) h
        | inr (d, req, known, same) ↦
            subst (λ (x : World K D). P x.store) (sym same)
              (dispatch-Preserves agent.app agent.nat agent.ensure_ip_forward agent.dnat at P laws
                d.id peer req w h)
      ]

  -- A predicate that is closed, and that the permitted handshakes keep, survives a permitted turn.
  pub turn-Preserves :
      (P : State → Type 0) (laws : IsClosed agent.app.cfg P)
      (Permitted : (t u : World K D) → Step agent t u → Type 0)
      (greeted : (key : Text) (hello : HandshakeHello) (id : DeviceId) (now : DateTime)
          (w : World K D)
        → Permitted w (greet agent key hello id now w) (handshake key hello id now w)
        → P w.store
        → P (greet agent key hello id now w).store)
      {t u : World K D} (st : Step agent t u)
      → Permitted t u st
      → P t.store
      → P u.store
  turn-Preserves P laws Permitted greeted (request at peer unread probed key raw w) ok_turn h =
      request-Preserves P laws at peer unread probed key raw w h
  turn-Preserves P laws Permitted greeted (handshake key hello id now w) ok_turn h =
      greeted key hello id now w ok_turn h
  turn-Preserves P laws Permitted greeted (copied now w) ok_turn h =
      snapshot-Preserves agent.app P laws (ruleset_with agent.app.cfg) now w h
  turn-Preserves P laws Permitted greeted (mended entries now w) ok_turn h =
      settle-Preserves agent.app P laws (ruleset_with agent.app.cfg) entries now w h
  turn-Preserves P laws Permitted greeted (resolved host last w) ok_turn h =
      resolve_round-Preserves agent.app agent.nat agent.ensure_ip_forward host P laws agent.hash_of
        last w h

  greet-IsWellFormed :
      (key : Text) (hello : HandshakeHello) (id : DeviceId) (now : DateTime) (w : World K D)
      → IsWellFormed agent.app.cfg w.store
      → IsWellFormed agent.app.cfg (greet agent key hello id now w).store
  greet-IsWellFormed key hello id now w h =
      let IsGood = IsWellFormed agent.app.cfg in
      elim (authorize_store agent.app agent.sha agent.load_codes agent.save_codes key hello id now
        w) [
          | inl (d, same) ↦
              subst IsGood (sym same) (touched-IsWellFormed agent.app.cfg w.store d.id now h)
          | inr (inl same) ↦ subst IsGood (sym same) h
          | inr (inr (_, same)) ↦
              subst IsGood (sym same)
                (added-IsWellFormed agent.app.cfg w.store (paired_device id key hello now) h)
        ]

  -- From a world with a well-formed store, whatever requests, handshakes and turns of the loops come
  -- in whatever order, and wherever they fail, the store is well-formed.
  pub Reach-IsWellFormed :
      {s t : World K D}
      → IsWellFormed agent.app.cfg s.store
      → Reach agent s t
      → IsWellFormed agent.app.cfg t.store
  Reach-IsWellFormed h here = h
  Reach-IsWellFormed h (next r st) =
      turn-Preserves (IsWellFormed agent.app.cfg) (IsWellFormed-IsClosed agent.app.cfg)
        (λ t u _. Unit {0}) (λ key hello id now w _ g. greet-IsWellFormed key hello id now w g) st
        tt (Reach-IsWellFormed h r)

-- The store of a first start is well-formed.
pub empty-IsWellFormed : (cfg : AgentConfig) → IsWellFormed cfg empty
unfolding empty is_guarded
empty-IsWellFormed cfg = (tt, (record { ids = tt; keys = tt }, (refl, (tt, (tt, tt)))))
