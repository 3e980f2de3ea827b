-- ===== src/Agent/WellFormed/Ports.antt =====
-- The public ports: each has a valid range, none is stored twice, and none covers a closed SSH.
use ipgate.Base.{
  ◌≡◌, arith, ap, nat_eq, ◌==◌, not, ◌&&◌, true, find, Bool-cases, inl, inr, List, [], ◌∷◌, Text,
  All, All-mono, All-retain, All-append, IsUnique, IsUnique-retain, IsUnique-concat, none,
  find-eq-none,
}
use ipgate.Proto.Ports.{PortRange, PublicPort, ForwardProto, is_valid, proto_eq, range_eq}
use ipgate.Config.{AgentConfig, public_port_covering_ssh}
use ipgate.Store.{
  State, allow, revoke_by_target, remove_device, remove_forward, set_resolved, prune_expired,
  add_forward, ruleset_flags,
}
use ipgate.Store.Forwards.{update_forward_keeps}
use ipgate.Handlers.PublicPorts.{set_note, new_port, same_port}
use ipgate.Handlers.PublicPorts.Guard.{set_note-guarded, new_port-guarded, retain-guarded}
use ipgate.Handlers.Exposure.Safety.{is_guarded, guarded_of_guard}
use ipgate.Handlers.Closure.{IsClosed, IsPortChange, noted, opened, closed}

-- SSH is open to everybody, or no public port covers it.
abbrev pub IsGuarded : AgentConfig → State → Type 0
IsGuarded cfg s = is_guarded cfg s ≡ true

port_change-IsGuarded :
    (cfg : AgentConfig) (ports : List PublicPort) (s : State)
    → IsPortChange cfg s ports
    → IsGuarded cfg s
    → IsGuarded cfg (record s { public_ports = ports })
port_change-IsGuarded cfg ports s (noted proto range note e) h =
    rw e (set_note-guarded cfg proto range note s h)
port_change-IsGuarded cfg ports s (opened req e free good new) h =
    rw e (new_port-guarded cfg req s free h)
port_change-IsGuarded cfg ports s (closed proto range e) h =
    rw e (retain-guarded cfg (λ p. not (same_port proto range p)) s h)

pub IsGuarded-IsClosed : (cfg : AgentConfig) → IsClosed cfg (IsGuarded cfg)
unfolding is_guarded ruleset_flags allow revoke_by_target prune_expired remove_device remove_forward
    set_resolved add_forward public_port_covering_ssh
IsGuarded-IsClosed cfg = record {
  entry_allowed = λ id req by now s h. h;
  entry_revoked = λ t s h. h;
  entries_pruned = λ now s h. h;
  device_removed = λ id s h. h;
  ssh_set = λ now on s g h. guarded_of_guard cfg now s on g;
  gate_set = λ on s h. h;
  ports_set = λ ports s c h. port_change-IsGuarded cfg ports s c h;
  rule_added = λ id req by now s f h. h;
  rule_updated = λ id req s f h. update_forward_keeps (IsGuarded cfg) id req s (λ m. h) h;
  rule_removed = λ id s h. h;
  targets_resolved = λ m s h. h;
}

-- The protocol and the range, which name a public port.
abbrev pub port_key : PublicPort → ForwardProto × PortRange
port_key p = (p.proto, p.ports)

abbrev pub IsOpenable : PublicPort → Type 0
IsOpenable p = (not (p.ports.start == 0) && is_valid p.ports) ≡ true

abbrev pub HasGoodPorts : State → Type 0
HasGoodPorts s = All IsOpenable s.public_ports × IsUnique port_key s.public_ports

module _ (proto : ForwardProto) (range : PortRange) (note : Text) where
  All-set_note :
      (P : PublicPort → Type 0) (keep : (p : PublicPort) → P p → P (record p { note = note }))
      (ps : List PublicPort)
      → All P ps
      → All P (set_note proto range note ps)
  unfolding set_note
  All-set_note P keep [] h = tt
  All-set_note P keep (p ∷ ps) (hp, h) = elim (Bool-cases (same_port proto range p)) [
    | inl e ↦ rw e (keep p hp, h)
    | inr e ↦ rw e (hp, All-set_note P keep ps h)
  ]

  IsUnique-set_note :
      (ps : List PublicPort)
      → IsUnique port_key ps
      → IsUnique port_key (set_note proto range note ps)
  unfolding set_note
  IsUnique-set_note [] u = tt
  IsUnique-set_note (p ∷ ps) (new, u) = elim (Bool-cases (same_port proto range p)) [
    | inl e ↦ rw e (new, u)
    | inr e ↦ rw e (All-set_note _ (λ x h. h) ps new, IsUnique-set_note ps u)
  ]

port_change-HasGoodPorts :
    (cfg : AgentConfig) (ports : List PublicPort) (s : State)
    → IsPortChange cfg s ports
    → HasGoodPorts s
    → HasGoodPorts (record s { public_ports = ports })
port_change-HasGoodPorts cfg ports s (noted proto range note e) (good, unique) = rw e (
  All-set_note proto range note IsOpenable (λ p h. h) s.public_ports good,
  IsUnique-set_note proto range note s.public_ports unique,
)
port_change-HasGoodPorts cfg ports s (opened req e free valid new) (good, unique) =
    let absent : find (same_port req.proto req.ports) s.public_ports ≡ none = ground (arith, new) in
    rw e (
      All-append IsOpenable s.public_ports (new_port req ∷ []) good (valid, tt),
      IsUnique-concat port_key s.public_ports (new_port req) unique (
          All-mono (λ p h same. ground (arith, h, ap (λ k. k.0) same, ap (λ k. k.1) same)) _
            (find-eq-none (same_port req.proto req.ports) s.public_ports absent)),
    )
port_change-HasGoodPorts cfg ports s (closed proto range e) (good, unique) =
    rw e (All-retain _ _ s.public_ports good, IsUnique-retain _ _ s.public_ports unique)

pub HasGoodPorts-IsClosed : (cfg : AgentConfig) → IsClosed cfg HasGoodPorts
unfolding allow revoke_by_target prune_expired remove_device remove_forward set_resolved add_forward
HasGoodPorts-IsClosed cfg = record {
  entry_allowed = λ id req by now s h. h;
  entry_revoked = λ t s h. h;
  entries_pruned = λ now s h. h;
  device_removed = λ id s h. h;
  ssh_set = λ now on s g h. h;
  gate_set = λ on s h. h;
  ports_set = λ ports s c h. port_change-HasGoodPorts cfg ports s c h;
  rule_added = λ id req by now s f h. h;
  rule_updated = λ id req s f h. update_forward_keeps HasGoodPorts id req s (λ m. h) h;
  rule_removed = λ id s h. h;
  targets_resolved = λ m s h. h;
}
