-- ===== src/Reconcile/Differences.antt =====
-- What `diff` reports.
use ipgate.Base.{
  ◌≡◌, ◌≢◌, refl, arith, ◌==◌, Bool, false, not, ◌&&◌, ◌||◌, List, [], ◌∷◌, map, retain, any, All,
  IsUnique, IsUnique-retain, Bool-cases, inl, inr,
}
use ipgate.Proto.Net.{DateTime, IpNet, net_eq}
use ipgate.Proto.Entries.{Entry, is_expired}
use ipgate.Proto.Ports.{KernelElement}
use ipgate.Reconcile.{member, to_set, difference, diff}

-- The allowlist has a live entry of the target; the kernel has an element of it.
unfoldable pub is_live : DateTime → List Entry → IpNet → Bool
unfolding any
is_live now entries t = any (λ e. e.target == t && not (is_expired e now)) entries

unfoldable pub in_kernel : List KernelElement → IpNet → Bool
unfolding any
in_kernel elements t = any (λ k. k.target == t) elements

member-to_set : (t : IpNet) (xs : List IpNet) → member t (to_set xs) ≡ member t xs
unfolding member to_set
member-to_set t [] = refl
member-to_set t (x ∷ xs) = ground (arith, member-to_set t xs, member-to_set x xs)

pub member-cons : (t x : IpNet) (xs : List IpNet) → member t (x ∷ xs) ≡ (x == t || member t xs)
unfolding member any
member-cons t x xs = refl

pub member-nil : (t : IpNet) → member t [] ≡ false
unfolding member any
member-nil t = refl

member-difference :
    (t : IpNet) (xs ys : List IpNet)
    → member t (difference xs ys) ≡ (member t xs && not (member t ys))
unfolding difference
member-difference t [] ys = rw member-nil
member-difference t (x ∷ xs) ys =
    let rest = difference xs ys in
    ground (arith, member-cons t x rest, member-cons t x xs, member-difference t xs ys)

member-map_live :
    (now : DateTime) (t : IpNet) (es : List Entry)
    → member t (map (λ e. e.target) (retain (λ e. not (is_expired e now)) es)) ≡ is_live now es t
unfolding member is_live retain
member-map_live now t [] = refl
member-map_live now t (e ∷ es) = ground (arith, member-map_live now t es)

member-map_kernel :
    (t : IpNet) (ks : List KernelElement) → member t (map (λ k. k.target) ks) ≡ in_kernel ks t
unfolding member in_kernel
member-map_kernel t [] = refl
member-map_kernel t (k ∷ ks) = ground (arith, member-map_kernel t ks)

absent : (y : IpNet) (ys : List IpNet) → member y ys ≡ false → All (λ z. y ≢ z) ys
absent y [] h = tt
absent y (z ∷ zs) h =
    (ground (arith, member-cons y z zs), absent y zs (ground (arith, member-cons y z zs)))

to_set-IsUnique : (xs : List IpNet) → IsUnique (λ x. x) (to_set xs)
unfolding to_set
to_set-IsUnique [] = tt
to_set-IsUnique (x ∷ xs) = elim (Bool-cases (member x (to_set xs))) [
  | inl old ↦ rw old (to_set-IsUnique xs)
  | inr new ↦ rw new (absent x (to_set xs) new, to_set-IsUnique xs)
]

difference-IsUnique :
    (xs ys : List IpNet) → IsUnique (λ t. t) xs → IsUnique (λ t. t) (difference xs ys)
unfolding difference
difference-IsUnique xs ys u = IsUnique-retain (λ (t : IpNet). t) (λ x. not (member x ys)) xs u

-- What has to be added is exactly what is live and not in the kernel, what has to be removed is
-- exactly what is in the kernel and not live, and each is named once.
pub diff_lem :
    (es : List Entry) (ks : List KernelElement) (now : DateTime)
    → ((t : IpNet)
        → (member t (diff es ks now).missing_in_kernel ≡ (is_live now es t && not (in_kernel ks t)))
          × (member t (diff es ks now).stale_in_kernel
              ≡ (in_kernel ks t && not (is_live now es t))))
      × IsUnique (λ t. t) (diff es ks now).missing_in_kernel
      × IsUnique (λ t. t) (diff es ks now).stale_in_kernel
unfolding diff
diff_lem es ks now = (
  λ t. (
    simp (member-difference, member-to_set, member-map_live now t es, member-map_kernel t ks),
    simp (member-difference, member-to_set, member-map_live now t es, member-map_kernel t ks),
  ),
  search (difference-IsUnique, to_set-IsUnique),
  search (difference-IsUnique, to_set-IsUnique),
)
