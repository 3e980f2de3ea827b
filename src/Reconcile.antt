-- ===== src/Reconcile.antt =====
-- The comparison of the stored allowlist with the kernel (agent/src/reconcile.rs) and the loop that
-- repairs the kernel (`reconcile_loop` of agent/src/main.rs).
pub mod Differences
pub mod Convergence
use ipgate.Base.{
  ℕ, ◌==◌, Bool, true, false, not, ◌&&◌, Option, none, some, List, [], ◌∷◌, map, if◌then◌else◌,
  Text, retain, find, any, Result, ok, err, Exec,
}
use ipgate.Proto.Net.{DateTime, IpNet, net_eq}
use ipgate.Proto.Entries.{Entry, is_expired}
use ipgate.Proto.Ports.{RulesetConfig, KernelElement, Diff, is_nil}
use ipgate.Store.{State, RulesetFlags, prune_expired, ruleset_flags}
use ipgate.Nft.Backend.{NftBackend, Applied, Live, live_of}
use ipgate.Nft.Apply.{apply_ruleset}

-- A `HashSet<IpNet>` is a list without repetitions; its order is not part of any statement.
unfoldable pub member : IpNet → List IpNet → Bool
unfolding any
member t xs = any (λ x. x == t) xs

-- `collect` into a set.
unfoldable pub to_set : List IpNet → List IpNet
unfolding member
to_set [] = []
to_set (x ∷ xs) = let rest = to_set xs in if member x rest then rest else x ∷ rest

-- `HashSet::difference`
unfoldable pub difference : List IpNet → List IpNet → List IpNet
unfolding retain
difference xs ys = retain (λ x. not (member x ys)) xs

unfoldable pub diff : List Entry → List KernelElement → DateTime → Diff
unfolding difference to_set retain
diff desired kernel now =
    let live = to_set (map (λ e. e.target) (retain (λ e. not (is_expired e now)) desired)) in
    let in_kernel = to_set (map (λ k. k.target) kernel) in
    record {
      missing_in_kernel = difference live in_kernel;
      stale_in_kernel = difference in_kernel live;
      expired = map (λ e. e.target) (retain (λ e. is_expired e now) desired);
    }

-- The parts of the program that the loop writes to.
pub record World (K D : Type 0) : Type 0 where
  pub store : State
  pub disk : D
  pub kernel : K
  pub live : Live

module _ {K : Type 0} (b : NftBackend K) where
  -- `for target in &d.missing_in_kernel`: errors are ignored.
  unfoldable pub add_missing : List Entry → List IpNet → K → K
  unfolding find
  add_missing entries [] k = k
  add_missing entries (t ∷ ts) k =
      add_missing entries ts
        (elim (find (λ e. e.target == t) entries) [ none ↦ k | some e ↦ (b.add e k).1 ])

  unfoldable pub remove_stale : List IpNet → K → K
  remove_stale [] k = k
  remove_stale (t ∷ ts) k = remove_stale ts (b.remove t k).1

  -- The branch of a successful `list`.
  unfoldable pub repair : List Entry → DateTime → List KernelElement → K → K
  unfolding add_missing remove_stale diff
  repair entries now elements k =
      let d = diff entries elements now in
      remove_stale d.stale_in_kernel (add_missing entries d.missing_in_kernel k)

module _ {K D : Type 0} (b : NftBackend K) (save : State → Exec D Text (Unit {0}))
    (ruleset_with : RulesetFlags → RulesetConfig) where
  -- The first locked section: prune, save when something went, and copy the entries. A failed save
  -- is ignored.
  unfoldable pub snapshot : DateTime → World K D → List Entry × World K D
  snapshot now w =
      let (removed, s) = prune_expired now w.store in
      (
        s.entries,
        record w { store = s; disk = if is_nil removed then w.disk else (save s w.disk).1 },
      )

  -- What follows, without the lock: list the kernel and repair it, or rebuild it whole.
  unfoldable pub settle : List Entry → DateTime → World K D → World K D
  settle entries now w =
      let (listed, k) = b.list w.kernel in
      elim listed [
        | ok elements ↦ record w { kernel = repair b entries now elements k }
        | err e ↦
            let cfg = ruleset_with (ruleset_flags w.store) in
            let (applied, k') = apply_ruleset b cfg w.store.entries k in
            elim applied [
              | ok a ↦ record w { kernel = k'; live = live_of a }
              | err f ↦ record w { kernel = k' }
            ]
      ]

  -- One round of the loop with nobody between the two sections.
  unfoldable pub round : DateTime → World K D → World K D
  round now w = let (entries, w') = snapshot now w in settle entries now w'
