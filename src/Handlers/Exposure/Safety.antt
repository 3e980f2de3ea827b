-- ===== src/Handlers/Exposure/Safety.antt =====
-- What the settings handlers guarantee against locking the owner out, and on failures.
use ipgate.Base.{
  ◌≡◌, ◌≢◌, ◌⊎◌, inl, inr, refl, ap, ◌∙◌, arith, nat_eq, Bool, true, false, not, ◌||◌, none, Text,
  is_some, Option-cases, ok, err, Run-cases, Result-cases,
}
use ipgate.Proto.Net.{DateTime}
use ipgate.Proto.Errors.{ApiError}
use ipgate.Proto.Ports.{RulesetConfig}
use ipgate.Proto.Rpc.{AgentSettings}
use ipgate.Config.{AgentConfig, ruleset_with, public_port_covering_ssh}
use ipgate.Store.{State, ruleset_flags, set_ssh_allowlist_only}
use ipgate.Nft.Backend.{live_of, Applied}
use ipgate.Nft.Apply.{apply_ruleset}
use ipgate.Nft.Apply.Fallback.{IsAtomic, IsLoaded, is_rejected, apply_ruleset-IsLoaded}
use ipgate.Reconcile.{World}
use ipgate.Handlers.App.{App, internal}
use ipgate.Handlers.Exposure.{
  set_ssh_exposure, ssh_guard, live_count, build_settings, with_ssh, rejection,
}

-- SSH is open to everybody, or no public port covers it.
unfoldable pub is_guarded : AgentConfig → State → Bool
is_guarded cfg s =
    not s.ssh_allowlist_only || not (is_some (public_port_covering_ssh cfg (ruleset_flags s)))

-- The guard passes only with a live entry in the list and no public port over SSH.
guard_passed :
    (cfg : AgentConfig) (now : DateTime) (s : State)
    → ssh_guard cfg now s true ≡ ok tt
    → (live_count s.entries now ≢ 0)
      × (public_port_covering_ssh cfg (with_ssh true (ruleset_flags s)) ≡ none)
unfolding ssh_guard
guard_passed cfg now s h =
    elim (Option-cases (public_port_covering_ssh cfg (with_ssh true (ruleset_flags s)))) [
      | inl free ↦ (λ z. ground arith, free)
      | inr (p, covered) ↦ absurd (ground arith)
    ]

module _ {K D : Type 0} (app : App K D) (now : DateTime) (w w' : World K D) where
  -- The ruleset that `set_ssh_exposure` asks for.
  abbrev ssh_ruleset : Bool → RulesetConfig
  ssh_ruleset on = ruleset_with app.cfg (with_ssh on (ruleset_flags w.store))

  abbrev ssh_store : Bool → State
  ssh_store on = record w.store { ssh_allowlist_only = on }

  -- A success went through every step.
  ssh_steps :
      (on : Bool) (settings : AgentSettings)
      → set_ssh_exposure app now on w ≡ (ok settings, w')
      → (ssh_guard app.cfg now w.store on ≡ ok tt)
        × (a : Applied) × (k : K) × (d : D) × (apply_ruleset app.backend
              (ssh_ruleset on)
              w.store.entries
              w.kernel
            ≡ (ok a, k))
        × (is_rejected a.knock ≡ false)
        × (app.save (ssh_store on) w.disk ≡ (ok tt, d))
        × (w' ≡ record { store = ssh_store on; disk = d; kernel = k; live = live_of a })
        × (settings ≡ build_settings app w')
  unfolding set_ssh_exposure set_ssh_allowlist_only ruleset_flags
  ssh_steps on settings h = elim (Result-cases (ssh_guard app.cfg now w.store on)) [
    | inr (e, bad) ↦ absurd (ground arith)
    | inl (u, good) ↦
        elim (Run-cases (apply_ruleset app.backend (ssh_ruleset on) w.store.entries w.kernel)) [
          | inr (e, k, bad) ↦ absurd (ground arith)
          | inl (a, k, run) ↦ elim (Option-cases (rejection a.knock)) [
            | inr (e, rej) ↦
                let old = ruleset_with app.cfg (ruleset_flags w.store) in
                elim (Run-cases (apply_ruleset app.backend old w.store.entries k)) [
                  | inl (a', k', again) ↦ absurd (ground arith)
                  | inr (f, k', again) ↦ absurd (ground arith)
                ]
            | inl kept ↦ elim (Run-cases (app.save (ssh_store on) w.disk)) [
              | inr (e, d, lost) ↦ absurd (ground arith)
              | inl (u', d, saved) ↦
                  (good, a, k, d, run, ground arith, saved, ground arith, ground arith)
            ]
          ]
        ]
  ]

  -- Over a backend with atomic transactions, after a success the store differs in the flag only,
  -- which is the one asked for, the answer shows the new settings, and the backend accepted a
  -- ruleset for the stored entries that has the knock, the SSH rule and the public ports of the
  -- stored flags, and their gate unless it refused the ruleset with it.
  pub set_ssh_exposure_lem :
      (on : Bool) (settings : AgentSettings)
      → IsAtomic app.backend
      → set_ssh_exposure app now on w ≡ (ok settings, w')
      → (w'.store ≡ ssh_store on)
        × (settings ≡ build_settings app w')
        × IsLoaded app.backend
            (ruleset_with app.cfg (ruleset_flags w'.store))
            w.store.entries
            w.kernel
            w'.kernel
  unfolding ruleset_flags
  set_ssh_exposure_lem on settings atomic h =
      let (_, a, k, d, run, kept, _, same, back) = ssh_steps on settings h in
      (
        ap (λ (x : World K D). x.store) same,
        back,
        rw same (
            apply_ruleset-IsLoaded app.backend (ssh_ruleset on) w.store.entries w.kernel k a atomic
              run kept),
      )

  -- Closing SSH succeeds only with an unexpired entry in the stored list and no public port, of the
  -- configuration or of the store, over the SSH port; the answer then shows SSH as closed.
  pub set_ssh_exposure-guard :
      (settings : AgentSettings)
      → set_ssh_exposure app now true w ≡ (ok settings, w')
      → (live_count w'.store.entries now ≢ 0)
        × (public_port_covering_ssh app.cfg (ruleset_flags w'.store) ≡ none)
        × (settings.ssh_allowlist_only ≡ true)
  unfolding ruleset_flags build_settings
  set_ssh_exposure-guard settings h =
      let (good, a, k, d, run, kept, _, same, back) = ssh_steps true settings h in
      let (live, free) = guard_passed app.cfg now w.store good in
      (rw same live, rw same free, ground (arith, same, back))

  -- A failure leaves the store and the disk as they were, unless what failed is the last step, the
  -- save: then the new flag stays in the memory, with the guard passed.
  pub set_ssh_exposure_failed :
      (on : Bool) (e : ApiError)
      → set_ssh_exposure app now on w ≡ (err e, w')
      → ((w'.store ≡ w.store) × (w'.disk ≡ w.disk))
        ⊎ ((f : Text) × (e ≡ internal f)
            × (app.save (ssh_store on) w.disk ≡ (err f, w'.disk))
            × (w'.store ≡ ssh_store on)
            × (ssh_guard app.cfg now w.store on ≡ ok tt))
  unfolding set_ssh_exposure set_ssh_allowlist_only ruleset_flags
  set_ssh_exposure_failed on e h = elim (Result-cases (ssh_guard app.cfg now w.store on)) [
    | inr (e', bad) ↦ inl (ground arith, ground arith)
    | inl (u, good) ↦
        elim (Run-cases (apply_ruleset app.backend (ssh_ruleset on) w.store.entries w.kernel)) [
          | inr (e', k, bad) ↦ inl (ground arith, ground arith)
          | inl (a, k, run) ↦ elim (Option-cases (rejection a.knock)) [
            | inr (r, rej) ↦
                let old = ruleset_with app.cfg (ruleset_flags w.store) in
                elim (Run-cases (apply_ruleset app.backend old w.store.entries k)) [
                  | inl (a', k', again) ↦ inl (ground arith, ground arith)
                  | inr (f, k', again) ↦ inl (ground arith, ground arith)
                ]
            | inl kept ↦ elim (Run-cases (app.save (ssh_store on) w.disk)) [
              | inl (u', d, saved) ↦ absurd (ground arith)
              | inr (f, d, lost) ↦ inr (f, ground arith, ground arith, ground arith, good)
            ]
          ]
        ]
  ]

pub guarded_of_guard :
    (cfg : AgentConfig) (now : DateTime) (s : State) (on : Bool)
    → ssh_guard cfg now s on ≡ ok tt
    → is_guarded cfg (record s { ssh_allowlist_only = on }) ≡ true
unfolding is_guarded ruleset_flags
guarded_of_guard cfg now s false h = refl
guarded_of_guard cfg now s true h = let (_, free) = guard_passed cfg now s h in ground (arith, free)

-- Whatever the outcome, the store is as it was, or has the flag asked for and the guard was passed.
pub set_ssh_exposure_store :
    {K D : Type 0} (app : App K D) (now : DateTime) (w : World K D) (on : Bool)
    → ((set_ssh_exposure app now on w).1.store ≡ w.store)
      ⊎ ((ssh_guard app.cfg now w.store on ≡ ok tt)
          × ((set_ssh_exposure app now on w).1.store ≡ record w.store { ssh_allowlist_only = on }))
set_ssh_exposure_store {K} {D} app now w on = elim (Run-cases (set_ssh_exposure app now on w)) [
  | inl (settings, w', run) ↦
      let (good, _, _, _, _, _, _, same, _) = ssh_steps app now w w' on settings run in
      inr (good, ap (λ p. p.1.store) run ∙ ap (λ (x : World K D). x.store) same)
  | inr (e, w', run) ↦ elim (set_ssh_exposure_failed app now w w' on e run) [
    | inl (same, _) ↦ inl (ap (λ p. p.1.store) run ∙ same)
    | inr (_, _, _, same, good) ↦ inr (good, ap (λ p. p.1.store) run ∙ same)
  ]
]

-- Whatever the outcome, a store in which SSH is open or no public port covers it stays such a store.
set_ssh_exposure-guarded :
    {K D : Type 0} (app : App K D) (now : DateTime) (w : World K D) (on : Bool)
    → is_guarded app.cfg w.store ≡ true
    → is_guarded app.cfg (set_ssh_exposure app now on w).1.store ≡ true
set_ssh_exposure-guarded app now w on h = elim (set_ssh_exposure_store app now w on) [
  | inl same ↦ rw same h
  | inr (good, same) ↦ rw same (guarded_of_guard app.cfg now w.store on good)
]
