-- ===== src/Tests/Settings.antt =====
-- The settings and public-port handlers on the small host.
use ipgate.Base.{
  ℕ, ◌≡◌, ◌≢◌, ◌⊎◌, refl, Bool, true, false, bool_dec, Option, none, some, List, [], ◌∷◌, Text,
  length, Result, ok, err, retain, find,
}
use ipgate.Proto.Ports.{
  PublicPortRequest, ForwardProto, tcp, udp, RulesetConfig, PortRange, PublicPort,
}
use ipgate.Proto.Rpc.{AgentSettings}
use ipgate.Config.{public_port_covering_ssh, ruleset_with}
use ipgate.Store.{ruleset_flags, set_ssh_allowlist_only, State}
use ipgate.Nft.Apply.Fallback.{IsLoaded}
use ipgate.Nft.Apply.{apply_ruleset}
use ipgate.Handlers.App.{internal}
use ipgate.Handlers.Exposure.{
  set_ssh_exposure, set_forward_exposure, live_count, build_settings, ssh_guard,
}
use ipgate.Handlers.Exposure.Safety.{
  set_ssh_exposure_lem, set_ssh_exposure-guard, set_ssh_exposure_failed,
}
use ipgate.Handlers.Exposure.ForwardGate.{set_forward_exposure_failed}
use ipgate.Tests.Data.{app, full_app, world, toy, toy-IsAtomic, full_disk, config, store, refusal}

abbrev closed_settings : AgentSettings
closed_settings = record {
  ssh_allowlist_only = true;
  ssh_port = 22;
  ssh_password_auth = none;
  ssh_kbd_interactive_auth = none;
  ssh_permit_root_login = none;
  forward_allowlist_only = some false;
  forward_gate_active = some false;
  ssh_knock_port = some 40000;
  ssh_knock_active = some true;
}

closes :
    set_ssh_exposure app 5 true world ≡ (ok closed_settings, (set_ssh_exposure app 5 true world).1)
unfolding set_ssh_exposure bool_dec apply_ruleset public_port_covering_ssh ruleset_flags length
    ipgate.Base.ℕ_discrete ipgate.Proto.Entries.is_expired ipgate.Store.empty ruleset_with
    ipgate.Proto.Ports.knock set_ssh_allowlist_only
closes = refl

set_ssh_exposure-guard_example :
    (live_count (set_ssh_exposure app 5 true world).1.store.entries 5 ≢ 0)
    × (public_port_covering_ssh config (ruleset_flags (set_ssh_exposure app 5 true world).1.store)
        ≡ none)
    × (closed_settings.ssh_allowlist_only ≡ true)
set_ssh_exposure-guard_example =
    set_ssh_exposure-guard app 5 world (set_ssh_exposure app 5 true world).1 closed_settings closes

set_ssh_exposure_lem_example :
    ((set_ssh_exposure app 5 true world).1.store ≡ record store { ssh_allowlist_only = true })
    × (closed_settings ≡ build_settings app (set_ssh_exposure app 5 true world).1)
    × IsLoaded toy
        (ruleset_with config (ruleset_flags (set_ssh_exposure app 5 true world).1.store))
        store.entries
        world.kernel
        (set_ssh_exposure app 5 true world).1.kernel
set_ssh_exposure_lem_example =
    set_ssh_exposure_lem app 5 world (set_ssh_exposure app 5 true world).1 true closed_settings
      toy-IsAtomic closes

lost :
    set_ssh_exposure full_app 5 true world
    ≡ (err (internal refusal), (set_ssh_exposure full_app 5 true world).1)
unfolding set_ssh_exposure bool_dec apply_ruleset public_port_covering_ssh ruleset_flags length
    ipgate.Base.ℕ_discrete ipgate.Proto.Entries.is_expired ipgate.Store.empty ruleset_with
    ipgate.Proto.Ports.knock set_ssh_allowlist_only
lost = refl

set_ssh_exposure_failed_example :
    (((set_ssh_exposure full_app 5 true world).1.store ≡ store)
      × ((set_ssh_exposure full_app 5 true world).1.disk ≡ []))
    ⊎ ((f : Text) × (internal refusal ≡ internal f)
        × (full_disk (record store { ssh_allowlist_only = true }) []
            ≡ (err f, (set_ssh_exposure full_app 5 true world).1.disk))
        × ((set_ssh_exposure full_app 5 true world).1.store
            ≡ record store { ssh_allowlist_only = true })
        × (ssh_guard config 5 store true ≡ ok tt))
set_ssh_exposure_failed_example =
    set_ssh_exposure_failed full_app 5 world (set_ssh_exposure full_app 5 true world).1 true
      (internal refusal) lost

gate_lost :
    set_forward_exposure full_app true world
    ≡ (err (internal refusal), (set_forward_exposure full_app true world).1)
unfolding set_forward_exposure bool_dec apply_ruleset ruleset_flags ipgate.Store.empty ruleset_with
    ipgate.Proto.Ports.knock ipgate.Store.set_forward_allowlist_only
gate_lost = refl

set_forward_exposure_failed_example :
    (((set_forward_exposure full_app true world).1.store ≡ store)
      × ((set_forward_exposure full_app true world).1.disk ≡ []))
    ⊎ ((f : Text) × (internal refusal ≡ internal f)
        × (full_disk (record store { forward_allowlist_only = true }) []
            ≡ (err f, (set_forward_exposure full_app true world).1.disk))
        × ((set_forward_exposure full_app true world).1.store
            ≡ record store { forward_allowlist_only = true }))
set_forward_exposure_failed_example =
    set_forward_exposure_failed full_app world (set_forward_exposure full_app true world).1 true
      (internal refusal) gate_lost
