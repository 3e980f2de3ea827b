-- ===== src/Handlers/PublicPorts/Guard.antt =====
-- The public-port handlers never open a port over a closed SSH.
use ipgate.Base.{
  ◌≡◌, ◌⊎◌, inl, inr, refl, arith, ◌==◌, ◌!=◌, length, nat_eq, Bool, true, false, not, ◌&&◌, ◌||◌,
  List, [], ◌∷◌, ◌++◌, Text, trim, retain, find, is_some, Bool-cases, Result, Run-cases,
}
use ipgate.Proto.Ports.{
  PortRange, range_eq, PublicPort, PublicPortRequest, ForwardProto, proto_eq, is_valid,
}
use ipgate.Config.{
  AgentConfig, ruleset_with, config_public_ports, covers_ssh, public_port_covering_ssh,
}
use ipgate.Store.{State, ruleset_flags, set_public_ports}
use ipgate.Reconcile.{World}
use ipgate.Handlers.App.{App}
use ipgate.Handlers.Exposure.{reapply_ruleset}
use ipgate.Nft.Apply.{apply_ruleset}
use ipgate.Handlers.Exposure.Safety.{is_guarded}
use ipgate.Handlers.PublicPorts.{
  add_public_port, remove_public_port, open_port, with_ports, set_note, same_port, new_port,
}

-- Some port of the list covers SSH.
abbrev covered : AgentConfig → List PublicPort → Bool
covered c ps = is_some (find (λ p. covers_ssh c p.proto p.ports) ps)

-- A note does not change what a port covers.
covered-set_note :
    (c : AgentConfig) (proto : ForwardProto) (range : PortRange) (note : Text)
    (ps : List PublicPort)
    → covered c (set_note proto range note ps) ≡ covered c ps
unfolding set_note find
covered-set_note c proto range note [] = refl
covered-set_note c proto range note (p ∷ ps) =
    ground (arith, covered-set_note c proto range note ps)

covered-retain :
    (c : AgentConfig) (q : PublicPort → Bool) (ps : List PublicPort)
    → covered c ps ≡ false
    → covered c (retain q ps) ≡ false
unfolding retain find
covered-retain c q [] h = refl
covered-retain c q (p ∷ ps) h = ground (arith, covered-retain c q ps)

covered-append :
    (c : AgentConfig) (ps qs : List PublicPort)
    → covered c (ps ++ qs) ≡ (covered c ps || covered c qs)
unfolding find
covered-append c [] qs = refl
covered-append c (p ∷ ps) qs = ground (arith, covered-append c ps qs)

-- The invariant by the ports of the two origins.
guarded-eq :
    (c : AgentConfig) (s : State)
    → is_guarded c s ≡ (
        not s.ssh_allowlist_only
        || not (covered c (config_public_ports c) || covered c s.public_ports))
unfolding is_guarded public_port_covering_ssh ruleset_flags
guarded-eq c s = ground (arith, covered-append c (config_public_ports c) s.public_ports)

module _ {K D : Type 0} (app : App K D) (w : World K D) where
  -- The ports that `add_public_port` may store.
  abbrev pub IsAdded : PublicPortRequest → List PublicPort → Type 0
  IsAdded req ports =
      (ports ≡ set_note req.proto req.ports (trim req.note) w.store.public_ports)
      ⊎ ((ports ≡ w.store.public_ports ++ new_port req ∷ [])
          × ((w.store.ssh_allowlist_only && covers_ssh app.cfg req.proto req.ports) ≡ false)
          × ((not (req.ports.start == 0) && is_valid req.ports) ≡ true)
          × (is_some (find (same_port req.proto req.ports) w.store.public_ports) ≡ false))

  -- What a finished handler has stored.
  abbrev pub IsStored : (List PublicPort → Type 0) → World K D → Type 0
  IsStored P w' =
      (w'.store ≡ w.store)
      ⊎ ((ports : List PublicPort) × P ports × (w'.store ≡ record w.store { public_ports = ports }))

  abbrev saved_as : List PublicPort → D → Result Text (Unit {0}) × D
  saved_as ports d = app.save (record w.store { public_ports = ports }) d

  pub add_public_port-IsStored :
      (req : PublicPortRequest) → IsStored (IsAdded req) (add_public_port app req w).1
  unfolding add_public_port open_port set_public_ports reapply_ruleset
  add_public_port-IsStored req =
      let noted = set_note req.proto req.ports (trim req.note) w.store.public_ports in
      let longer = w.store.public_ports ++ new_port req ∷ [] in
      let cfg = ruleset_with app.cfg (with_ports longer (ruleset_flags w.store)) in
      elim (Bool-cases (not (req.ports.start == 0) && is_valid req.ports)) [
        | inr bad ↦ inl (ground arith)
        | inl good ↦
            elim (Bool-cases
              (is_some (find (same_port req.proto req.ports) w.store.public_ports))) [
                | inl known ↦ elim (Run-cases (saved_as noted w.disk)) [
                  | inl (u, d, run) ↦ inr (noted, inl refl, ground arith)
                  | inr (e, d, run) ↦ inr (noted, inl refl, ground arith)
                ]
                | inr new ↦
                    elim (Bool-cases
                      (w.store.ssh_allowlist_only && covers_ssh app.cfg req.proto req.ports)) [
                        | inl bad ↦ inl (ground arith)
                        | inr free ↦
                            elim (Run-cases
                              (apply_ruleset app.backend cfg w.store.entries w.kernel)) [
                                | inr (e, k, run) ↦ inl (ground arith)
                                | inl (a, k, run) ↦ elim (Run-cases (saved_as longer w.disk)) [
                                  | inl (u, d, saved) ↦
                                      inr (longer, inr (refl, free, good, new), ground arith)
                                  | inr (e, d, lost) ↦
                                      inr (longer, inr (refl, free, good, new), ground arith)
                                ]
                              ]
                      ]
              ]
      ]

  pub remove_public_port-IsStored :
      (proto : ForwardProto) (range : PortRange)
      → IsStored
          (λ ports. ports ≡ retain (λ p. not (same_port proto range p)) w.store.public_ports)
          (remove_public_port app proto range w).1
  unfolding remove_public_port set_public_ports reapply_ruleset
  remove_public_port-IsStored proto range =
      let rest = retain (λ (p : PublicPort). not (same_port proto range p)) w.store.public_ports in
      let cfg = ruleset_with app.cfg (with_ports rest (ruleset_flags w.store)) in
      elim (Bool-cases (length rest != length w.store.public_ports)) [
        | inr bad ↦ inl (ground arith)
        | inl found ↦ elim (Run-cases (apply_ruleset app.backend cfg w.store.entries w.kernel)) [
          | inr (e, k, run) ↦ inl (ground arith)
          | inl (a, k, run) ↦ elim (Run-cases (saved_as rest w.disk)) [
            | inl (u, d, saved) ↦ inr (rest, refl, ground arith)
            | inr (e, d, lost) ↦ inr (rest, refl, ground arith)
          ]
        ]
      ]

covered-push :
    (c : AgentConfig) (req : PublicPortRequest) (ps : List PublicPort)
    → covered c (ps ++ new_port req ∷ []) ≡ (covered c ps || covers_ssh c req.proto req.ports)
unfolding find
covered-push c req ps = ground (arith, covered-append c ps (new_port req ∷ []))

-- The guard holds with a new note, with a port that does not cover a closed SSH, and with ports left
-- out.
pub set_note-guarded :
    (c : AgentConfig) (proto : ForwardProto) (range : PortRange) (note : Text) (s : State)
    → is_guarded c s ≡ true
    → is_guarded c (record s { public_ports = set_note proto range note s.public_ports }) ≡ true
set_note-guarded c proto range note s h =
    rw guarded-eq
      (ground (arith, guarded-eq c s, covered-set_note c proto range note s.public_ports))

pub new_port-guarded :
    (c : AgentConfig) (req : PublicPortRequest) (s : State)
    → (s.ssh_allowlist_only && covers_ssh c req.proto req.ports) ≡ false
    → is_guarded c s ≡ true
    → is_guarded c (record s { public_ports = s.public_ports ++ new_port req ∷ [] }) ≡ true
new_port-guarded c req s free h =
    rw guarded-eq (ground (arith, guarded-eq c s, covered-push c req s.public_ports))

pub retain-guarded :
    (c : AgentConfig) (q : PublicPort → Bool) (s : State)
    → is_guarded c s ≡ true
    → is_guarded c (record s { public_ports = retain q s.public_ports }) ≡ true
retain-guarded c q s h =
    rw guarded-eq (ground (arith, guarded-eq c s, covered-retain c q s.public_ports))

-- Whatever the outcome, after adding a public port SSH is open to all or no public port covers it,
-- if that was so before.
add_public_port-guarded :
    {K D : Type 0} (app : App K D) (req : PublicPortRequest) (w : World K D)
    → is_guarded app.cfg w.store ≡ true
    → is_guarded app.cfg (add_public_port app req w).1.store ≡ true
add_public_port-guarded app req w h = elim (add_public_port-IsStored app w req) [
  | inl same ↦ rw same h
  | inr (ports, inl noted, same) ↦
      rw (same, noted) (set_note-guarded app.cfg req.proto req.ports (trim req.note) w.store h)
  | inr (ports, inr (longer, free, _, _), same) ↦
      rw (same, longer) (new_port-guarded app.cfg req w.store free h)
]

-- Whatever the outcome, after removing a public port SSH is open to all or no public port covers
-- it, if that was so before.
pub remove_public_port-guarded :
    {K D : Type 0} (app : App K D) (proto : ForwardProto) (range : PortRange) (w : World K D)
    → is_guarded app.cfg w.store ≡ true
    → is_guarded app.cfg (remove_public_port app proto range w).1.store ≡ true
remove_public_port-guarded app proto range w h =
    elim (remove_public_port-IsStored app w proto range) [
      | inl same ↦ rw same h
      | inr (ports, e, same) ↦
          rw (same, e) (retain-guarded app.cfg (λ p. not (same_port proto range p)) w.store h)
    ]
