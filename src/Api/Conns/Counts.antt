-- ===== src/Api/Conns/Counts.antt =====
-- The counts are those of the live guards, and no device passes the limit.
use ipgate.Base.{
  ℕ, ◌+◌, ◌-◌, ◌≡◌, ◌≤◌, ◌<◌, ◌==◌, nat_eq, list_eq, refl, arith, true, false, none, some, List, [],
  ◌∷◌, if◌then◌else◌, Text, Option-cases, inl, inr,
}
use ipgate.Base.Maps.{lookup, insert, erase, lookup-insert, lookup-erase}
use ipgate.Api.Conns.{DeviceConns, or_zero, acquire, release}

-- How many guards a device holds.
unfoldable pub held : Text → List Text → ℕ
held key [] = 0
held key (k ∷ ks) = (if k == key then 1 else 0) + held key ks

-- The guards without one of a device's.
unfoldable pub without : Text → List Text → List Text
without key [] = []
without key (k ∷ ks) = let rest = without key ks in if k == key then ks else k ∷ rest

-- The map and the live guards that the connections can bring about: a connection of a device comes
-- and gets a guard or is refused, or one of the guards is dropped.
pub data Reachable (max : ℕ) : DeviceConns → List Text → Type 0 where
  start : Reachable max [] []
  accepted :
      (key : Text) (m : DeviceConns) (guards : List Text)
      → Reachable max m guards
      → (acquire key max m).0 ≡ true
      → Reachable max (acquire key max m).1 (key ∷ guards)
  refused :
      (key : Text) (m : DeviceConns) (guards : List Text)
      → Reachable max m guards
      → (acquire key max m).0 ≡ false
      → Reachable max (acquire key max m).1 guards
  dropped :
      (key : Text) (m : DeviceConns) (guards : List Text)
      → Reachable max m guards
      → 0 < held key guards
      → Reachable max (release key m) (without key guards)

held-without :
    (key k : Text) (guards : List Text)
    → 0 < held key guards
    → held k (without key guards) ≡ (if key == k then held k guards - 1 else held k guards)
unfolding held without
held-without key k [] h = absurd (omega arith)
held-without key k (x ∷ xs) h = ground (arith, held-without key k xs)

acquire_lem :
    (key k : Text) (max : ℕ) (m : DeviceConns)
    → or_zero (lookup k (acquire key max m).1) ≡ (
        if (acquire key max m).0
        then (if key == k then 1 else 0) + or_zero (lookup k m)
        else or_zero (lookup k m))
unfolding acquire
acquire_lem key k max m = ground (
  arith,
  lookup-insert key k (or_zero (lookup key m)) m,
  lookup-insert key k (or_zero (lookup key m) + 1) m,
)

acquire_room :
    (key : Text) (max : ℕ) (m : DeviceConns)
    → (acquire key max m).0 ≡ true
    → or_zero (lookup key m) < max
unfolding acquire
acquire_room key max m h = ground arith

release_missing : (key : Text) (m : DeviceConns) → lookup key m ≡ none → release key m ≡ m
unfolding release
release_missing key m h = ground arith

release_found :
    (key : Text) (n : ℕ) (m : DeviceConns)
    → lookup key m ≡ some n
    → release key m ≡ (if (n - 1) == 0 then erase key m else insert key (n - 1) m)
unfolding release
release_found key n m h = ground arith

release_lem :
    (key k : Text) (m : DeviceConns)
    → or_zero (lookup k (release key m))
      ≡ (if key == k then or_zero (lookup k m) - 1 else or_zero (lookup k m))
release_lem key k m = elim (Option-cases (lookup key m)) [
  | inl missing ↦ rw (release_missing key m missing) (ground arith)
  | inr (n, found) ↦
      rw (release_found key n m found)
        (ground (arith, lookup-insert key k (n - 1) m, lookup-erase key k m))
]

-- In every reachable state the count of a device is the number of its live guards, and at most the
-- limit.
pub Reachable-count :
    (max : ℕ) (m : DeviceConns) (guards : List Text)
    → Reachable max m guards
    → (key : Text) → (or_zero (lookup key m) ≡ held key guards) × (held key guards ≤ max)
unfolding lookup held
Reachable-count max m guards start key = (refl, omega arith)
Reachable-count max m guards (accepted k m' g r h) key =
    let (same, le) = Reachable-count max m' g r key in
    let room = acquire_room k max m' h in
    let step = acquire_lem k key max m' in (ground arith, ground arith)
Reachable-count max m guards (refused k m' g r h) key =
    let (same, le) = Reachable-count max m' g r key in
    let step = acquire_lem k key max m' in (ground arith, le)
Reachable-count max m guards (dropped k m' g r h) key =
    let (same, le) = Reachable-count max m' g r key in
    let step = release_lem k key m' in
    let fewer = held-without k key g h in (ground arith, ground arith)
