-- ===== src/Store/Entries.antt =====
-- The allowlist as a map from targets to entries, and its revision.
use ipgate.Base.{
  ◌≡◌, ◌==◌, ◌!=◌, nat_eq, false, not, arith, Option, none, some, if◌then◌else◌, find, All,
  IsUnique, IsUnique-retain, IsUnique-concat, All-retain_test, All-mono, find-push, find-retain_key,
  find-retain_unique, length-retain_iff, retain-eq_self_of_length, keep_if, is_some,
}
use ipgate.Proto.Net.{DeviceId, EntryId, DateTime, IpNet, net_eq}
use ipgate.Proto.Entries.{Entry, AllowRequest, is_expired}
use ipgate.Store.{State, allow, revoke_by_target, prune_expired, bump}

-- The abstract allowlist: the entry of a target.
unfoldable pub view : State → IpNet → Option Entry
view s t = find (λ e. e.target == t) s.entries

-- A target stands in the list once.
abbrev pub HasUniqueTargets : State → Type 0
HasUniqueTargets s = IsUnique (λ e. e.target) s.entries

module _ (id : EntryId) (req : AllowRequest) (by : DeviceId) (now : DateTime) (s : State) where
  -- After `allow` the request's target has the new entry, and every other target what it had.
  pub view-allow :
      (t : IpNet)
      → view (allow id req by now s).1 t
        ≡ (if req.target == t then some (allow id req by now s).0 else view s t)
  unfolding view allow
  view-allow t =
      rw (find-push, find-retain_key (λ (e : Entry). e.target) req.target t s.entries)
        (ground arith)

  pub allow-HasUniqueTargets : HasUniqueTargets s → HasUniqueTargets (allow id req by now s).1
  unfolding allow
  allow-HasUniqueTargets u =
      IsUnique-concat (λ (e : Entry). e.target) _ _ (IsUnique-retain _ _ s.entries u)
        (All-mono (λ e h. ground arith) _ (All-retain_test (λ x. x.target != req.target) s.entries))

-- Revoking a target takes it off the map and leaves every other target as it was; the result says
-- whether the target was there, and only then the revision moves. Otherwise nothing changes.
pub revoke_by_target_lem :
    (u t : IpNet) (s : State)
    → (view (revoke_by_target u s).1 t ≡ (if u == t then none else view s t))
      × ((revoke_by_target u s).0 ≡ is_some (view s u))
      × ((revoke_by_target u s).1.revision
          ≡ (if is_some (view s u) then bump s.revision else s.revision))
unfolding view revoke_by_target
revoke_by_target_lem u t s =
    let l =
      length-retain_iff (λ x. x.target == u) (λ x. x.target != u) s.entries (λ x. ground arith) in
    (find-retain_key (λ (e : Entry). e.target) u t s.entries, ground (arith, l), ground (arith, l))

-- A revocation that finds nothing changes nothing at all.
pub revoke_by_target_missing :
    (u : IpNet) (s : State) → view s u ≡ none → (revoke_by_target u s).1 ≡ s
unfolding view revoke_by_target
revoke_by_target_missing u s h =
    let l =
      length-retain_iff (λ x. x.target == u) (λ x. x.target != u) s.entries (λ x. ground arith) in
    let e = retain-eq_self_of_length (λ x. x.target != u) s.entries (l.1 h) in ground (arith, e, l)

pub revoke-HasUniqueTargets :
    (u : IpNet) (s : State) → HasUniqueTargets s → HasUniqueTargets (revoke_by_target u s).1
unfolding revoke_by_target
revoke-HasUniqueTargets u s h = IsUnique-retain _ _ s.entries h

module _ (now : DateTime) (s : State) where
  -- Pruning keeps exactly the entries that have not expired.
  pub view-prune_expired :
      (t : IpNet)
      → HasUniqueTargets s
      → view (prune_expired now s).1 t ≡ keep_if (λ e. not (is_expired e now)) (view s t)
  unfolding view prune_expired
  view-prune_expired t h =
      find-retain_unique (λ e. e.target) t (λ e. not (is_expired e now)) s.entries h

  pub prune-HasUniqueTargets : HasUniqueTargets s → HasUniqueTargets (prune_expired now s).1
  unfolding prune_expired
  prune-HasUniqueTargets h = IsUnique-retain _ _ s.entries h

  -- No entry that is left has expired.
  pub prune_expired_live : All (λ e. is_expired e now ≡ false) (prune_expired now s).1.entries
  unfolding prune_expired
  prune_expired_live =
      All-mono (λ e h. ground arith) _ (All-retain_test (λ e. not (is_expired e now)) s.entries)
