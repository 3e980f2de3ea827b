-- ===== src/Handlers/Exposure/ForwardGate.antt =====
-- What `set_forward_exposure` guarantees.
use ipgate.Base.{
  ◌≡◌, ◌⊎◌, inl, inr, refl, ap, arith, Bool, true, false, Text, Option-cases, ok, err, Run-cases,
}
use ipgate.Proto.Errors.{ApiError}
use ipgate.Proto.Ports.{RulesetConfig}
use ipgate.Proto.Rpc.{AgentSettings}
use ipgate.Config.{ruleset_with}
use ipgate.Store.{State, ruleset_flags, set_forward_allowlist_only}
use ipgate.Nft.Backend.{Applied, live_of}
use ipgate.Nft.Apply.{apply_ruleset}
use ipgate.Nft.Apply.Fallback.{IsAtomic, is_rejected, apply_ruleset_gate}
use ipgate.Reconcile.{World}
use ipgate.Handlers.App.{App, internal}
use ipgate.Handlers.Exposure.{set_forward_exposure, build_settings, with_forward, rejection}

module _ {K D : Type 0} (app : App K D) (w w' : World K D) where
  abbrev forward_ruleset : Bool → RulesetConfig
  forward_ruleset on = ruleset_with app.cfg (with_forward on (ruleset_flags w.store))

  abbrev forward_store : Bool → State
  forward_store on = record w.store { forward_allowlist_only = on }

  -- A success went through every step.
  gate_steps :
      (on : Bool) (settings : AgentSettings)
      → set_forward_exposure app on w ≡ (ok settings, w')
      → (a : Applied) × (k : K) × (d : D) × (apply_ruleset app.backend
            (forward_ruleset on)
            w.store.entries
            w.kernel
          ≡ (ok a, k))
        × (is_rejected a.gate ≡ false)
        × (app.save (forward_store on) w.disk ≡ (ok tt, d))
        × (w' ≡ record { store = forward_store on; disk = d; kernel = k; live = live_of a })
        × (settings ≡ build_settings app w')
  unfolding set_forward_exposure set_forward_allowlist_only ruleset_flags
  gate_steps on settings h =
      elim (Run-cases (apply_ruleset app.backend (forward_ruleset on) w.store.entries w.kernel)) [
        | inr (e, k, bad) ↦ absurd (ground arith)
        | inl (a, k, run) ↦ elim (Option-cases (rejection a.gate)) [
          | inr (e, rej) ↦ absurd (ground arith)
          | inl kept ↦ elim (Run-cases (app.save (forward_store on) w.disk)) [
            | inr (e, d, lost) ↦ absurd (ground arith)
            | inl (u', d, saved) ↦ (a, k, d, run, ground arith, saved, ground arith, ground arith)
          ]
        ]
      ]

  -- Over a backend with atomic transactions, when closing the forwards succeeds, the store differs
  -- in that flag only, and the backend accepted a ruleset with the gate for the stored entries.
  set_forward_exposure-gate :
      (settings : AgentSettings)
      → IsAtomic app.backend
      → set_forward_exposure app true w ≡ (ok settings, w')
      → (w'.store ≡ forward_store true)
        × (got : RulesetConfig) × (app.backend.apply got w.store.entries w.kernel
            ≡ (ok tt, w'.kernel))
        × (got.forward_allowlist_only ≡ true)
  unfolding ruleset_with
  set_forward_exposure-gate settings atomic h =
      let (a, k, d, run, kept, _, same, _) = gate_steps true settings h in
      let (got, loaded, closed) =
        apply_ruleset_gate app.backend (forward_ruleset true) w.store.entries w.kernel k a atomic
          run kept refl in
      (ap (λ (x : World K D). x.store) same, got, rw same loaded, closed)

  -- A failure leaves the store and the disk as they were, unless what failed is the last step, the
  -- save: then the new flag stays in the memory.
  pub set_forward_exposure_failed :
      (on : Bool) (e : ApiError)
      → set_forward_exposure app on w ≡ (err e, w')
      → ((w'.store ≡ w.store) × (w'.disk ≡ w.disk))
        ⊎ ((f : Text) × (e ≡ internal f)
            × (app.save (forward_store on) w.disk ≡ (err f, w'.disk))
            × (w'.store ≡ forward_store on))
  unfolding set_forward_exposure set_forward_allowlist_only ruleset_flags
  set_forward_exposure_failed on e h =
      elim (Run-cases (apply_ruleset app.backend (forward_ruleset on) w.store.entries w.kernel)) [
        | inr (e', k, bad) ↦ inl (ground arith, ground arith)
        | inl (a, k, run) ↦ elim (Option-cases (rejection a.gate)) [
          | inr (r, rej) ↦ inl (ground arith, ground arith)
          | inl kept ↦ elim (Run-cases (app.save (forward_store on) w.disk)) [
            | inl (u', d, saved) ↦ absurd (ground arith)
            | inr (f, d, lost) ↦ inr (f, ground arith, ground arith, ground arith)
          ]
        ]
      ]
