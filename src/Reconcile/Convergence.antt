-- ===== src/Reconcile/Convergence.antt =====
-- One undisturbed round of the loop makes the kernel agree with the allowlist.
use ipgate.Base.{
  if◌then◌else◌, Result, err, none, some, Run-cases, ap, ◌≡◌, refl, ◌∙◌, arith, ◌==◌, Bool, true,
  false, not, ◌&&◌, ◌||◌, List, [], ◌∷◌, Text, find, All, Option-cases, inl, inr, ok, Exec, is_some,
  find-test,
}
use ipgate.Proto.Net.{DateTime, IpNet, net_eq}
use ipgate.Proto.Entries.{Entry, is_expired}
use ipgate.Proto.Ports.{KernelElement, RulesetConfig}
use ipgate.Store.{State, RulesetFlags, prune_expired}
use ipgate.Store.Entries.{view, prune_expired_live}
use ipgate.Nft.Backend.{NftBackend}
use ipgate.Reconcile.{
  World, member, diff, add_missing, remove_stale, repair, settle, snapshot, round,
}
use ipgate.Reconcile.Differences.{is_live, in_kernel, diff_lem, member-cons, member-nil}

-- The set in the kernel, as nft is documented to keep it: a listing shows what it holds and changes
-- nothing, an accepted addition or removal changes one target, and a refused one changes none.
pub record IsFaithful {K : Type 0} (b : NftBackend K) (holds : K → IpNet → Bool) : Type 0 where
  pub listed :
      (k k' : K) (elements : List KernelElement)
      → b.list k ≡ (ok elements, k')
      → (k' ≡ k) × ((t : IpNet) → in_kernel elements t ≡ holds k t)
  pub added :
      (e : Entry) (k k' : K)
      → b.add e k ≡ (ok tt, k')
      → (t : IpNet) → holds k' t ≡ (e.target == t || holds k t)
  pub add_refused :
      (e : Entry) (k k' : K) (x : Text)
      → b.add e k ≡ (err x, k')
      → (t : IpNet) → holds k' t ≡ holds k t
  pub removed :
      (u : IpNet) (k k' : K)
      → b.remove u k ≡ (ok tt, k')
      → (t : IpNet) → holds k' t ≡ (not (u == t) && holds k t)
  pub remove_refused :
      (u : IpNet) (k k' : K) (x : Text)
      → b.remove u k ≡ (err x, k')
      → (t : IpNet) → holds k' t ≡ holds k t

abbrev kept_if : {A : Type 0} → Result Text A → IpNet → List IpNet → List IpNet
kept_if (ok _) t ts = t ∷ ts
kept_if (err _) t ts = ts

-- The commands of this repair that the kernel accepts: of each list in turn, from the kernel that the
-- commands before have left.
module _ {K : Type 0} (b : NftBackend K) where
  unfoldable accepted_adds : List Entry → List IpNet → K → List IpNet
  unfolding find
  accepted_adds es [] k = []
  accepted_adds es (t ∷ ts) k = elim (find (λ e. e.target == t) es) [
    | none ↦ accepted_adds es ts k
    | some e ↦ let (r, k') = b.add e k in kept_if r t (accepted_adds es ts k')
  ]

  unfoldable accepted_removals : List IpNet → K → List IpNet
  accepted_removals [] k = []
  accepted_removals (t ∷ ts) k = let (r, k') = b.remove t k in kept_if r t (accepted_removals ts k')

  -- The target needs a command, and the kernel refuses that command in this repair.
  unfoldable pub is_refused : List Entry → DateTime → List KernelElement → K → IpNet → Bool
  unfolding accepted_adds accepted_removals diff is_live in_kernel member
  is_refused es now elements k t =
      let d = diff es elements now in
      let k1 = add_missing b es d.missing_in_kernel k in
      (is_live now es t
        && not (in_kernel elements t)
        && not (member t (accepted_adds es d.missing_in_kernel k)))
      || (not (is_live now es t)
          && in_kernel elements t
          && not (member t (accepted_removals d.stale_in_kernel k1)))

module _ {K : Type 0} (b : NftBackend K) (holds : K → IpNet → Bool)
    (faithful : IsFaithful b holds) where
  accepted-adds_member :
      (es : List Entry) (ts : List IpNet) (k : K) (t : IpNet)
      → member t (accepted_adds b es ts k) ≡ true
      → member t ts ≡ true
  unfolding accepted_adds
  accepted-adds_member es [] k t h = ground (arith, member-nil t)
  accepted-adds_member es (u ∷ ts) k t h = elim (Option-cases (find (λ e. e.target == u) es)) [
    | inl missing ↦ ground (arith, h, missing, accepted-adds_member es ts k t, member-cons t u ts)
    | inr (e, found) ↦ elim (Run-cases (b.add e k)) [
      | inl (_, k', r) ↦ ground (
        arith,
        h,
        found,
        r,
        accepted-adds_member es ts k' t,
        member-cons t u ts,
        member-cons t u (accepted_adds b es ts k'),
      )
      | inr (x, k', r) ↦
          ground (arith, h, found, r, accepted-adds_member es ts k' t, member-cons t u ts)
    ]
  ]

  accepted-removals_member :
      (ts : List IpNet) (k : K) (t : IpNet)
      → member t (accepted_removals b ts k) ≡ true
      → member t ts ≡ true
  unfolding accepted_removals
  accepted-removals_member [] k t h = ground (arith, member-nil t)
  accepted-removals_member (u ∷ ts) k t h = elim (Run-cases (b.remove u k)) [
    | inl (_, k', r) ↦ ground (
      arith,
      h,
      r,
      accepted-removals_member ts k' t,
      member-cons t u ts,
      member-cons t u (accepted_removals b ts k'),
    )
    | inr (x, k', r) ↦ ground (arith, h, r, accepted-removals_member ts k' t, member-cons t u ts)
  ]

  holds-add_missing :
      (es : List Entry) (ts : List IpNet) (k : K) (t : IpNet)
      → holds (add_missing b es ts k) t ≡ (holds k t || member t (accepted_adds b es ts k))
  unfolding add_missing accepted_adds
  holds-add_missing es [] k t = ground (arith, member-nil t)
  holds-add_missing es (u ∷ ts) k t = elim (Option-cases (find (λ e. e.target == u) es)) [
    | inl missing ↦ ground (arith, missing, holds-add_missing es ts k t)
    | inr (e, found) ↦
        let target = find-test (λ (x : Entry). x.target == u) es found in
        elim (Run-cases (b.add e k)) [
          | inl (_, k', r) ↦
              rw (found, r)
                (ground (
                  arith,
                  holds-add_missing es ts k' t,
                  member-cons t u (accepted_adds b es ts k'),
                  faithful.added e k k' r t,
                  target,
                ))
          | inr (x, k', r) ↦
              rw (found, r)
                (ground (arith, holds-add_missing es ts k' t, faithful.add_refused e k k' x r t))
        ]
  ]

  holds-remove_stale :
      (ts : List IpNet) (k : K) (t : IpNet)
      → holds (remove_stale b ts k) t ≡ (holds k t && not (member t (accepted_removals b ts k)))
  unfolding remove_stale accepted_removals
  holds-remove_stale [] k t = ground (arith, member-nil t)
  holds-remove_stale (u ∷ ts) k t = elim (Run-cases (b.remove u k)) [
    | inl (_, k', r) ↦ rw r (
        ground (
          arith,
          holds-remove_stale ts k' t,
          faithful.removed u k k' r t,
          member-cons t u (accepted_removals b ts k'),
        ))
    | inr (x, k', r) ↦
        rw r (ground (arith, holds-remove_stale ts k' t, faithful.remove_refused u k k' x r t))
  ]

  -- A repair from a true listing leaves exactly the live targets in the kernel, but for those whose
  -- command is refused: these stay as they were.
  repair_lem :
      (es : List Entry) (now : DateTime) (elements : List KernelElement) (k : K) (t : IpNet)
      → ((u : IpNet) → in_kernel elements u ≡ holds k u)
      → holds (repair b es now elements k) t
        ≡ (if is_refused b es now elements k t then holds k t else is_live now es t)
  unfolding repair is_refused
  repair_lem es now elements k t same =
      let d = diff es elements now in
      let (missing, stale) = (diff_lem es elements now).0 t in
      let k1 = add_missing b es d.missing_in_kernel k in
      let first = holds-add_missing es d.missing_in_kernel k t in
      let second = holds-remove_stale d.stale_in_kernel k1 t in
      let here = accepted-adds_member es d.missing_in_kernel k t in
      let there = accepted-removals_member d.stale_in_kernel k1 t in
      ground (arith, first, second, missing, stale, here, there, same t)

pub branches_eq :
    (c : Bool) {x x' y y' : Bool} → x ≡ x' → y ≡ y' → (if c then x else y) ≡ (if c then x' else y')
branches_eq true p q = p
branches_eq false p q = q

is_live-All :
    (now : DateTime) (es : List Entry) (t : IpNet)
    → All (λ e. is_expired e now ≡ false) es
    → is_live now es t ≡ is_some (find (λ e. e.target == t) es)
unfolding is_live find
is_live-All now [] t h = refl
is_live-All now (e ∷ es) t (he, h) = ground (arith, is_live-All now es t h)

pub settle_listed :
    {K D : Type 0} (b : NftBackend K) (save : State → Exec D Text (Unit {0}))
    (ruleset_with : RulesetFlags → RulesetConfig) (es : List Entry) (now : DateTime) (w : World K D)
    (elements : List KernelElement) (k : K)
    → b.list w.kernel ≡ (ok elements, k)
    → settle b save ruleset_with es now w ≡ record w { kernel = repair b es now elements k }
unfolding settle
settle_listed b save ruleset_with es now w elements k h = ground arith

-- After a round in which the kernel could be listed, the kernel holds exactly the targets of the
-- pruned allowlist, but for those whose command it refused: these are as they were.
pub round_lem :
    {K D : Type 0} (b : NftBackend K) (holds : K → IpNet → Bool)
    (save : State → Exec D Text (Unit {0})) (ruleset_with : RulesetFlags → RulesetConfig)
    (now : DateTime) (w : World K D) (elements : List KernelElement) (k : K)
    → IsFaithful b holds
    → b.list w.kernel ≡ (ok elements, k)
    → (t : IpNet)
    → holds (round b save ruleset_with now w).kernel t ≡ (
        if is_refused b (snapshot b save ruleset_with now w).0 now elements k t
        then holds w.kernel t
        else is_some (view (round b save ruleset_with now w).store t))
unfolding round view snapshot
round_lem b holds save ruleset_with now w elements k faithful listed t =
    let es = (prune_expired now w.store).1.entries in
    let (same, true_listing) = faithful.listed w.kernel k elements listed in
    let fixed = repair_lem b holds faithful es now elements k t (λ u. rw same (true_listing u)) in
    let live = is_live-All now es t (prune_expired_live now w.store) in
    rw
      (settle_listed b save ruleset_with es now (snapshot b save ruleset_with now w).1 elements k
        listed)
      (fixed ∙ branches_eq (is_refused b es now elements k t) (ap (λ x. holds x t) same) live)
