-- ===== src/Nft/Ports/Merging.antt =====
-- The merged intervals hold the same ports as the given ones and never touch.
use ipgate.Base.{
  ℕ, ◌+◌, ◌≡◌, ◌≤◌, ◌<◌, refl, ◌∙◌, arith, Bool, ◌||◌, List, [], ◌∷◌, leb, any, inl, inr,
  Bool-cases,
}
use ipgate.Proto.Ports.{PortRange, contains}
use ipgate.Nft.Ports.{insert_range, sort_ranges, max, merge_from, merge, merged_ports}

-- Some interval of the list contains the port.
abbrev pub covers : List PortRange → ℕ → Bool
covers ps port = any (λ p. contains p port) ps

-- Every interval of the list starts at `n` or later, and they are in the order of their starts.
unfoldable IsSorted : ℕ → List PortRange → Type 0
IsSorted n [] = Unit {0}
IsSorted n (p ∷ ps) = (n ≤ p.start) × IsSorted p.start ps

-- Between one interval and the next at least one port is free.
unfoldable pub IsApart : List PortRange → Type 0
IsApart [] = Unit {0}
IsApart (p ∷ []) = Unit {0}
IsApart (p ∷ q ∷ qs) = (p.end + 1 < q.start) × IsApart (q ∷ qs)

covers-insert :
    (p : PortRange) (ps : List PortRange) (port : ℕ)
    → covers (insert_range p ps) port ≡ (contains p port || covers ps port)
unfolding insert_range any
covers-insert p [] port = refl
covers-insert p (q ∷ qs) port = ground (arith, covers-insert p qs port)

covers-sort : (ps : List PortRange) (port : ℕ) → covers (sort_ranges ps) port ≡ covers ps port
unfolding sort_ranges any
covers-sort [] port = refl
covers-sort (p ∷ ps) port =
    covers-insert p (sort_ranges ps) port ∙ (ground (arith, covers-sort ps port))

IsSorted-weaken : (n m : ℕ) (ps : List PortRange) → n ≤ m → IsSorted m ps → IsSorted n ps
unfolding IsSorted
IsSorted-weaken n m [] le h = tt
IsSorted-weaken n m (p ∷ ps) le (l, h) = (omega arith, h)

IsSorted-insert :
    (n : ℕ) (p : PortRange) (ps : List PortRange)
    → n ≤ p.start
    → IsSorted n ps
    → IsSorted n (insert_range p ps)
unfolding IsSorted insert_range
IsSorted-insert n p [] le h = (le, tt)
IsSorted-insert n p (q ∷ qs) le (l, h) = elim (Bool-cases (leb p.start q.start)) [
  | inl before ↦ rw before (le, (ground arith, h))
  | inr after ↦ rw after (l, IsSorted-insert q.start p qs (ground arith) h)
]

IsSorted-sort : (ps : List PortRange) → IsSorted 0 (sort_ranges ps)
unfolding IsSorted sort_ranges
IsSorted-sort [] = tt
IsSorted-sort (p ∷ ps) = IsSorted-insert 0 p (sort_ranges ps) (omega arith) (IsSorted-sort ps)

-- The joined interval holds what the two hold.
contains-join :
    (l p : PortRange) (port : ℕ)
    → l.start ≤ p.start
    → p.start ≤ l.end + 1
    → contains (record { start = l.start; end = max l.end p.end }) port
      ≡ (contains l port || contains p port)
unfolding contains
contains-join l p port h j = ground arith

covers-merge_from :
    (l : PortRange) (ps : List PortRange) (port : ℕ)
    → IsSorted l.start ps
    → covers (merge_from l ps) port ≡ (contains l port || covers ps port)
unfolding merge_from any IsSorted
covers-merge_from l [] port h = refl
covers-merge_from l (p ∷ ps) port (le, h) =
    let joined : PortRange = record { start = l.start; end = max l.end p.end } in
    elim (Bool-cases (leb p.start (l.end + 1))) [
      | inl near ↦ rw near (
          ground (
            arith,
            covers-merge_from joined ps port (IsSorted-weaken l.start p.start ps le h),
            contains-join l p port le (ground arith),
          ))
      | inr far ↦ rw far (ground (arith, covers-merge_from p ps port h))
    ]

IsApart-cons :
    (q l : PortRange) (ps : List PortRange)
    → q.end + 1 < l.start
    → IsApart (merge_from l ps)
    → IsApart (q ∷ merge_from l ps)
unfolding merge_from IsApart
IsApart-cons q l [] lt h = (lt, h)
IsApart-cons q l (p ∷ ps) lt h = elim (Bool-cases (leb p.start (l.end + 1))) [
  | inl near ↦
      rw near
        (IsApart-cons q (record { start = l.start; end = max l.end p.end }) ps lt (rw near at h))
  | inr far ↦ rw far (lt, rw far at h)
]

merge_from-IsApart : (l : PortRange) (ps : List PortRange) → IsApart (merge_from l ps)
unfolding merge_from IsApart
merge_from-IsApart l [] = tt
merge_from-IsApart l (p ∷ ps) = elim (Bool-cases (leb p.start (l.end + 1))) [
  | inl near ↦ rw near (merge_from-IsApart (record { start = l.start; end = max l.end p.end }) ps)
  | inr far ↦ rw far (IsApart-cons l p ps (ground arith) (merge_from-IsApart p ps))
]

merge_lem :
    (ps : List PortRange) (port : ℕ)
    → IsSorted 0 ps
    → (covers (merge ps) port ≡ covers ps port) × IsApart (merge ps)
unfolding merge any IsSorted IsApart
merge_lem [] port h = (refl, tt)
merge_lem (p ∷ ps) port (_, h) = (covers-merge_from p ps port h, merge_from-IsApart p ps)

-- The merged intervals contain a port exactly when one of the given intervals does, and between
-- one of them and the next at least one port is free, so that no two overlap or touch.
pub merged_ports_lem :
    (ps : List PortRange) (port : ℕ)
    → (covers (merged_ports ps) port ≡ covers ps port) × IsApart (merged_ports ps)
unfolding merged_ports
merged_ports_lem ps port =
    let (same, apart) = merge_lem (sort_ranges ps) port (IsSorted-sort ps) in
    (same ∙ covers-sort ps port, apart)
