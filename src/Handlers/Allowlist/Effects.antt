-- ===== src/Handlers/Allowlist/Effects.antt =====
-- What a successful change of the allowlist does to the store and to the kernel.
use ipgate.Base.{
  ◌≡◌, inl, inr, arith, ◌==◌, nat_eq, Bool, not, ◌&&◌, ◌||◌, none, some, if◌then◌else◌, Bool-cases,
  ok, Run-cases, Result-cases,
}
use ipgate.Proto.Net.{DeviceId, EntryId, DateTime, IpNet, net_eq}
use ipgate.Proto.Entries.{Entry, AllowRequest, RevokeRequest}
use ipgate.Store
use ipgate.Store.{State, new_entry, revoke_by_target}
use ipgate.Store.Entries.{view, view-allow, revoke_by_target_lem}
use ipgate.Reconcile.{World}
use ipgate.Reconcile.Convergence.{IsFaithful}
use ipgate.Handlers.App.{App}
use ipgate.Handlers.Allowlist.{allow, revoke, revoked_target}

module _ {K D : Type 0} (app : App K D) (holds : K → IpNet → Bool)
    (faithful : IsFaithful app.backend holds) (w w' : World K D) where
  target_added :
      (id : EntryId) (by : DeviceId) (now : DateTime) (req : AllowRequest) (k : K) (t : IpNet)
      → app.backend.add (new_entry id req by now) w.kernel ≡ (ok tt, k)
      → holds k t ≡ (req.target == t || holds w.kernel t)
  unfolding new_entry
  target_added id by now req k t good = faithful.added (new_entry id req by now) w.kernel k good t

  -- Over a faithful set in the kernel: after a success the request's target has the reported entry
  -- in the store, and is in the kernel; every other target has what it had, in both.
  pub allow_lem :
      (id : EntryId) (by : DeviceId) (now : DateTime) (req : AllowRequest) (entry : Entry)
      → allow app id by now req w ≡ (ok entry, w')
      → (t : IpNet)
      → (view w'.store t ≡ (if req.target == t then some entry else view w.store t))
        × (holds w'.kernel t ≡ (req.target == t || holds w.kernel t))
  unfolding allow Store.allow
  allow_lem id by now req entry h t =
      let e = new_entry id req by now in
      let s = (Store.allow id req by now w.store).1 in
      elim (Run-cases (app.save s w.disk)) [
        | inr (f, d, lost) ↦ absurd (ground arith)
        | inl (u, d, saved) ↦ elim (Run-cases (app.backend.add e w.kernel)) [
          | inr (f, k, bad) ↦ absurd (ground arith)
          | inl (v, k, added) ↦
              let stored : w'.store ≡ s = ground arith in
              let loaded : w'.kernel ≡ k = ground arith in
              let reported : entry ≡ (Store.allow id req by now w.store).0 = ground arith in
              (
                rw (stored, reported) (view-allow id req by now w.store t),
                rw loaded (target_added id by now req k t added),
              )
        ]
      ]

  -- Over a faithful set in the kernel: after a success the target that the request names is neither
  -- in the store nor in the kernel, and every other target has what it had, in both.
  pub revoke_lem :
      (req : RevokeRequest)
      → revoke app req w ≡ (ok tt, w')
      → (target : IpNet) × (revoked_target req w.store ≡ ok target)
        × ((t : IpNet)
            → (view w'.store t ≡ (if target == t then none else view w.store t))
              × (holds w'.kernel t ≡ (not (target == t) && holds w.kernel t)))
  unfolding revoke
  revoke_lem req h = elim (Result-cases (revoked_target req w.store)) [
    | inr (f, bad) ↦ absurd (ground arith)
    | inl (target, named) ↦ elim (Bool-cases (revoke_by_target target w.store).0) [
      | inr missing ↦ absurd (ground arith)
      | inl found ↦ elim (Run-cases (app.save (revoke_by_target target w.store).1 w.disk)) [
        | inr (f, d, lost) ↦ absurd (ground arith)
        | inl (u, d, saved) ↦ elim (Run-cases (app.backend.remove target w.kernel)) [
          | inr (f, k, bad) ↦ absurd (ground arith)
          | inl (v, k, removed) ↦
              let stored : w'.store ≡ (revoke_by_target target w.store).1 = ground arith in
              let loaded : w'.kernel ≡ k = ground arith in
              (
                target,
                named,
                λ t. (
                  rw stored (revoke_by_target_lem target t w.store).0,
                  rw loaded (faithful.removed target w.kernel k removed t),
                ),
              )
        ]
      ]
    ]
  ]
