-- ===== src/Agent/Start.antt =====
-- The start of the service: `run` of agent/src/main.rs up to the threads and the connections, whose
-- turns are the steps of `Agent`. What is logged is left out.
pub mod Safety
use ipgate.Base.{false, Text, Result, ok, err, if◌then◌else◌, Exec, pure, continue, ◌>>=◌, ◌>>◌}
use ipgate.Proto.Net.{DateTime}
use ipgate.Proto.Ports.{is_nil}
use ipgate.Config.{ConfigError, validate, ruleset_with}
use ipgate.Store.{State, prune_expired, ruleset_flags}
use ipgate.Nft.Backend.{live_of}
use ipgate.Nft.Apply.{apply_ruleset}
use ipgate.Forward.{Host, apply_now}
use ipgate.Reconcile.{World}
use ipgate.Handlers.Dnat.{ignored}
use ipgate.Cli.{Machine}
use ipgate.Agent.{Agent}

pub data StartError : Type 0 where
  bad_config : ConfigError → StartError
  failed : Text → StartError

-- The files that the start reads, and writes where one is missing: the identity, the store, the key.
pub record Files (D : Type 0) : Type 0 where
  pub load_identity : Exec D Text (Unit {0})
  pub load_store : D → Result Text State
  pub load_access_key : Exec D Text Text

module _ {K D : Type 0} (agent : Agent K D) (files : Files D) where
  abbrev pub on_disk : {A : Type 0} → Exec D Text A → Exec (World K D) Text A
  on_disk m w = let (r, d) = m w.disk in (r, record w { disk = d })

  -- The store is saved when something had expired.
  unfoldable pub prune_store : DateTime → Exec (World K D) Text (Unit {0})
  unfolding prune_expired
  prune_store now w =
      let (removed, s) = prune_expired now w.store in
      let saved = on_disk (agent.app.save s) (record w { store = s }) in
      if is_nil removed then (ok tt, record w { store = s }) else saved

  unfoldable pub load_ruleset : Exec (World K D) Text (Unit {0})
  load_ruleset w =
      let cfg = ruleset_with agent.app.cfg (ruleset_flags w.store) in
      let (r, k) = apply_ruleset agent.app.backend cfg w.store.entries w.kernel in
      elim r [
        | ok a ↦ (ok tt, record w { kernel = k; live = live_of a })
        | err e ↦ (err e, record w { kernel = k })
      ]

  -- A kernel that does not take the forwards does not stop the start.
  unfoldable pub boot : DateTime → Host → Exec (World K D) Text (Unit {0})
  unfolding prune_store load_ruleset
  boot now host = do
    prune_store now
    load_ruleset
    ignored (apply_now agent.nat agent.ensure_ip_forward agent.app.save host)
    key ← on_disk files.load_access_key
    pure tt

  abbrev pub opened : State → D → K → World K D
  opened s d k = record {
    store = s;
    disk = d;
    kernel = k;
    live = record { gate = false; knock = false };
  }

  abbrev started : Result Text (Unit {0}) × World K D → Result StartError (World K D)
  started (ok _, w) = ok w
  started (err e, w) = err (failed e)

  -- The world that the service starts in, or why it does not start.
  unfoldable pub start : DateTime → Host → Machine K D → Result StartError (World K D)
  unfolding boot validate
  start now host m = elim (validate agent.app.cfg) [
    | err e ↦ err (bad_config e)
    | ok _ ↦
        let (known, d) = files.load_identity m.disk in
        elim known [
          | err e ↦ err (failed e)
          | ok _ ↦ elim (files.load_store d) [
            | err e ↦ err (failed e)
            | ok s ↦ started (boot now host (opened s d m.kernel))
          ]
        ]
  ]
