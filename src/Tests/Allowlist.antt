-- ===== src/Tests/Allowlist.antt =====
-- The allowlist handlers on the small host.
use ipgate.Base.{
  ℕ, ◌≡◌, refl, ◌==◌, nat_eq, Bool, true, false, not, ◌&&◌, ◌||◌, Option, none, some, List, [], ◌∷◌,
  if◌then◌else◌, Result, ok, err,
}
use ipgate.Proto.Net.{IpNet, net_eq}
use ipgate.Proto.Entries.{AllowRequest, Entry, by_target}
use ipgate.Store
use ipgate.Store.Entries.{view}
use ipgate.Handlers.Allowlist.{allow, revoke, revoked_target}
use ipgate.Handlers.Allowlist.Effects.{allow_lem, revoke_lem}
use ipgate.Tests.Data.{app, world, store, kernel, home, office, holds, toy-IsFaithful}

abbrev visit : AllowRequest
visit = record { target = office; note = []; expires_at = some 100 }

abbrev office_entry : Entry
office_entry = record {
  id = 2;
  target = office;
  note = [];
  expires_at = some 100;
  created_at = 5;
  created_by = 7;
}

allowed : allow app 2 7 5 visit world ≡ (ok office_entry, (allow app 2 7 5 visit world).1)
unfolding allow Store.allow
allowed = refl

allow_lem_example :
    (view (allow app 2 7 5 visit world).1.store office
      ≡ (if office == office then some office_entry else view store office))
    × (holds (allow app 2 7 5 visit world).1.kernel office
        ≡ (office == office || holds kernel office))
allow_lem_example =
    allow_lem app holds toy-IsFaithful world (allow app 2 7 5 visit world).1 2 7 5 visit
      office_entry allowed office

revoked : revoke app (by_target home) world ≡ (ok tt, (revoke app (by_target home) world).1)
unfolding revoke Store.revoke_by_target ipgate.Base.ℕ_discrete ipgate.Proto.Net.IpNet-discrete
revoked = refl

revoke_lem_example :
    (target : IpNet) × (revoked_target (by_target home) store ≡ ok target)
    × ((t : IpNet)
        → (view (revoke app (by_target home) world).1.store t
            ≡ (if target == t then none else view store t))
          × (holds (revoke app (by_target home) world).1.kernel t
              ≡ (not (target == t) && holds kernel t)))
revoke_lem_example =
    revoke_lem app holds toy-IsFaithful world (revoke app (by_target home) world).1 (by_target home)
      revoked
