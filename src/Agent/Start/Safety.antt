-- ===== src/Agent/Start/Safety.antt =====
-- What holds of the world in which the service starts.
use ipgate.Base.{
  if◌then◌else◌, pure, ◌>>=◌, ◌>>◌, ◌≡◌, refl, sym, ap, subst, ◌∙◌, arith, inl, inr, ok, Bool-cases,
  Run-cases, Result-cases, Preserves-bind,
}
use ipgate.Proto.Net.{DateTime}
use ipgate.Proto.Ports.{RulesetConfig, is_nil}
use ipgate.Config.{validate, ruleset_with}
use ipgate.Store.{State, prune_expired, ruleset_flags}
use ipgate.Nft.Apply.{apply_ruleset, restrict, redact, candidates, wants}
use ipgate.Nft.Apply.Fallback.{
  IsAtomic, apply_ruleset_sound, accepted_apply, accepted_gate, IsGated,
}
use ipgate.Forward.{Host, apply_now, resolve_all, commit}
use ipgate.Forward.Resolution.{apply_now_store}
use ipgate.Handlers.Dnat.{ignored}
use ipgate.Reconcile.{World}
use ipgate.Cli.{Machine}
use ipgate.Agent.{Agent, Reach}
use ipgate.Agent.WellFormed.{IsWellFormed, IsWellFormed-IsClosed, Reach-IsWellFormed}
use ipgate.Agent.Start.{Files, prune_store, load_ruleset, boot, opened, start, on_disk}

module _ {K D : Type 0} (agent : Agent K D) (files : Files D) where
  abbrev Good : World K D → Type 0
  Good w = IsWellFormed agent.app.cfg w.store

  load_ruleset_store : (w : World K D) → (load_ruleset agent files w).1.store ≡ w.store
  unfolding load_ruleset
  load_ruleset_store w =
      elim (Run-cases (
        apply_ruleset agent.app.backend (ruleset_with agent.app.cfg (ruleset_flags w.store))
          w.store.entries w.kernel)) [ inl (a, k, r) ↦ ground arith | inr (e, k, r) ↦ ground arith ]

  prune_store_store :
      (now : DateTime) (w : World K D)
      → (prune_store agent files now w).1.store ≡ (prune_expired now w.store).1
  unfolding prune_store
  prune_store_store now w = elim (Bool-cases (is_nil (prune_expired now w.store).0)) [
    | inl none_gone ↦ rw none_gone refl
    | inr some_gone ↦ rw some_gone refl
  ]

  apply_now-Good :
      (host : Host) (w : World K D)
      → Good w
      → Good (apply_now agent.nat agent.ensure_ip_forward agent.app.save host w).1
  unfolding ipgate.Store.set_resolved
  apply_now-Good host w h =
      elim (apply_now_store agent.nat agent.ensure_ip_forward agent.app.save host w) [
        | inl (e, bad, same) ↦ subst (IsWellFormed agent.app.cfg) (sym same) h
        | inr (good, same) ↦ subst (IsWellFormed agent.app.cfg) (sym same) (
            (IsWellFormed-IsClosed agent.app.cfg).targets_resolved (resolve_all host w.store).1
              w.store h)
      ]

  boot-Good :
      (now : DateTime) (host : Host) (w : World K D) → Good w → Good (boot agent files now host w).1
  unfolding boot
  boot-Good now host w h =
      let pruned = (IsWellFormed-IsClosed agent.app.cfg).entries_pruned now w.store h in
      let first = subst (IsWellFormed agent.app.cfg) (sym (prune_store_store now w)) pruned in
      Preserves-bind Good (prune_store agent files now) _ w first (λ _ w1 _ h1.
        Preserves-bind Good (load_ruleset agent files) _ w1
          (subst (IsWellFormed agent.app.cfg) (sym (load_ruleset_store w1)) h1)
          (λ _ w2 _ h2.
            let third = apply_now-Good host w2 h2 in
            Preserves-bind Good (on_disk agent files files.load_access_key) _
              (apply_now agent.nat agent.ensure_ip_forward agent.app.save host w2).1 third
              (λ _ _ _ h4. h4)))

  -- The kernel took a ruleset for the store: its ports, its setting of SSH, and its gate unless the
  -- kernel refused that.
  abbrev pub IsRuled : State → K → K → Type 0
  IsRuled s kernel k =
      let want = ruleset_with agent.app.cfg (ruleset_flags s) in
      (got : RulesetConfig) × (agent.app.backend.apply got s.entries kernel ≡ (ok tt, k))
      × (got.ssh_port ≡ agent.app.cfg.ssh_port)
      × (got.ssh_allowlist_only ≡ s.ssh_allowlist_only)
      × (got.public_tcp ≡ want.public_tcp)
      × (got.public_udp ≡ want.public_udp)
      × IsGated agent.app.backend want s.entries kernel got.forward_allowlist_only

  -- The kernel after the write of the nat table for the store, whatever its outcome.
  abbrev pub nat_written : Host → State → K → K
  nat_written host s k =
      let rs = (resolve_all host s).0 in
      (if is_nil rs then agent.nat.flush_nat k else agent.nat.apply_nat rs k).1

  -- Between the kernel before the start and the kernel of the started service stand the load of the
  -- ruleset and the write of the nat table, and nothing else.
  abbrev pub IsTaken : Host → State → K → K → Type 0
  IsTaken host s kernel final = (k : K) × IsRuled s kernel k × (final ≡ nat_written host s k)

  load_ruleset-IsRuled :
      (w w' : World K D)
      → IsAtomic agent.app.backend
      → load_ruleset agent files w ≡ (ok tt, w')
      → IsRuled w.store w.kernel w'.kernel
  unfolding load_ruleset restrict ruleset_with ruleset_flags
  load_ruleset-IsRuled w w' atomic h =
      let b = agent.app.backend in
      let cfg = ruleset_with agent.app.cfg (ruleset_flags w.store) in
      elim (Run-cases (apply_ruleset b cfg w.store.entries w.kernel)) [
        | inr (e, k, bad) ↦ absurd (ground (arith, bad, h))
        | inl (a, k, good) ↦
            let same : k ≡ w'.kernel = ground (arith, good, h) in
            let (cand, reason, accepted, _, _) =
              apply_ruleset_sound b cfg w.store.entries w.kernel k a atomic good in
            let taken =
              accepted_apply b (redact cfg) cfg w.store.entries w.kernel (candidates (wants cfg))
                cand k accepted in
            let gate = accepted_gate b (redact cfg) cfg w.store.entries w.kernel cand k accepted in
            (restrict cfg cand, taken ∙ ap (λ x. (ok tt, x)) same, refl, refl, refl, refl, gate)
      ]

  apply_now_kernel :
      (host : Host) (w : World K D)
      → (apply_now agent.nat agent.ensure_ip_forward agent.app.save host w).1.kernel
        ≡ nat_written host w.store w.kernel
  unfolding apply_now commit
  apply_now_kernel host w =
      let rs = (resolve_all host w.store).0 in
      elim (Run-cases
        (if is_nil rs then agent.nat.flush_nat w.kernel else agent.nat.apply_nat rs w.kernel)) [
          | inl (_, k, r) ↦ ground (arith, r)
          | inr (e, k, r) ↦ ground (arith, r)
        ]

  prune_store_kernel :
      (now : DateTime) (w : World K D) → (prune_store agent files now w).1.kernel ≡ w.kernel
  unfolding prune_store
  prune_store_kernel now w = elim (Bool-cases (is_nil (prune_expired now w.store).0)) [
    | inl none_gone ↦ rw none_gone refl
    | inr some_gone ↦ rw some_gone refl
  ]

  -- What follows the load of the ruleset.
  rest_kernel :
      (host : Host) (w w' : World K D)
      → (ignored (apply_now agent.nat agent.ensure_ip_forward agent.app.save host)
            >> (on_disk agent files files.load_access_key >>= λ _. pure tt))
          w
        ≡ (ok tt, w')
      → w'.kernel ≡ nat_written host w.store w.kernel
  rest_kernel host w w' h =
      let w1 = (apply_now agent.nat agent.ensure_ip_forward agent.app.save host w).1 in
      elim (Run-cases (files.load_access_key w1.disk)) [
        | inr (e, d, bad) ↦ absurd (ground (arith, bad, h))
        | inl (key, d, good) ↦
            let same : w1.kernel ≡ w'.kernel = ground (arith, good, h) in
            sym same ∙ apply_now_kernel host w
      ]

  boot-IsTaken :
      (now : DateTime) (host : Host) (w w' : World K D)
      → IsAtomic agent.app.backend
      → boot agent files now host w ≡ (ok tt, w')
      → IsTaken host (prune_expired now w.store).1 w.kernel w'.kernel
  unfolding boot
  boot-IsTaken now host w w' atomic h = elim (Run-cases (prune_store agent files now w)) [
    | inr (e, w1, bad) ↦ absurd (ground (arith, bad, h))
    | inl (_, w1, pruned) ↦
        let same_store : w1.store ≡ (prune_expired now w.store).1 =
          ap (λ p. p.1.store) (sym pruned) ∙ prune_store_store now w in
        let same_kernel : w1.kernel ≡ w.kernel =
          ap (λ p. p.1.kernel) (sym pruned) ∙ prune_store_kernel now w in
        elim (Run-cases (load_ruleset agent files w1)) [
          | inr (e, w2, bad) ↦ absurd (ground (arith, pruned, bad, h))
          | inl (_, w2, good) ↦
              let kept : w2.store ≡ w1.store =
                ap (λ p. p.1.store) (sym good) ∙ load_ruleset_store w1 in
              let last = rest_kernel host w2 w' (rw (pruned, good) at h) in
              let taken : IsTaken host w1.store w1.kernel w'.kernel = (
                w2.kernel,
                load_ruleset-IsRuled w1 w2 atomic good,
                last ∙ ap (λ s. nat_written host s w2.kernel) kept,
              ) in
              subst (λ k. IsTaken host (prune_expired now w.store).1 k w'.kernel) same_kernel
                (subst (λ s. IsTaken host s w1.kernel w'.kernel) same_store taken)
        ]
  ]

  -- What the store has to be for the service to start in a good world.
  abbrev pub HasGoodStore : D → Type 0
  HasGoodStore d = (s : State) → files.load_store d ≡ ok s → IsWellFormed agent.app.cfg s

  -- Over an atomic backend and a well-formed stored state: when the service starts, the configuration
  -- was valid, the kernel of the started service comes from the one before by the load of a ruleset
  -- that it took and the write of the nat table, and in every world that the agent then reaches the
  -- store is well-formed. The ruleset is that of the pruned store: its entries, the port and the
  -- setting of SSH, the public ports, and the gate unless the kernel refused that.
  pub start-Reach :
      (now : DateTime) (host : Host) (m : Machine K D) {w t : World K D}
      → IsAtomic agent.app.backend
      → HasGoodStore (files.load_identity m.disk).1
      → start agent files now host m ≡ ok w
      → Reach agent w t
      → (validate agent.app.cfg ≡ ok tt)
        × (s : State) × (files.load_store (files.load_identity m.disk).1 ≡ ok s)
        × IsTaken host (prune_expired now s).1 m.kernel w.kernel
        × IsWellFormed agent.app.cfg t.store
  unfolding start
  start-Reach now host m {w} atomic fits h reach = elim (Result-cases (validate agent.app.cfg)) [
    | inr (e, bad) ↦ absurd (ground (arith, bad, h))
    | inl (_, valid) ↦ elim (Run-cases (files.load_identity m.disk)) [
      | inr (e, d, bad) ↦ absurd (ground (arith, valid, bad, h))
      | inl (_, d, known) ↦ elim (Result-cases (files.load_store d)) [
        | inr (e, bad) ↦ absurd (ground (arith, valid, known, bad, h))
        | inl (s, read) ↦
            let found = ap (λ p. files.load_store p.1) known ∙ read in
            let w0 = opened agent files s d m.kernel in
            elim (Run-cases (boot agent files now host w0)) [
              | inr (e, w1, r) ↦ absurd (ground (arith, valid, known, read, r, h))
              | inl (_, w1, r) ↦
                  let same : w1 ≡ w = ground (arith, valid, known, read, r, h) in
                  let good =
                    subst Good (ap (λ p. p.1) r ∙ same) (boot-Good now host w0 (fits s found)) in
                  (
                    valid,
                    s,
                    found,
                    subst
                        (λ (x : World K D). IsTaken host (prune_expired now s).1 m.kernel x.kernel)
                        same (boot-IsTaken now host w0 w1 atomic r),
                    Reach-IsWellFormed agent good reach,
                  )
            ]
      ]
    ]
  ]
