-- ===== src/Api/Conns.antt =====
-- `DeviceConnGuard` of agent/src/api/mod.rs: how many connections each device holds.
pub mod Counts
use ipgate.Base.{
  ℕ, ◌+◌, ◌-◌, ◌==◌, nat_eq, list_eq, Bool, true, false, Option, none, some, List, [], ◌∷◌, leb,
  if◌then◌else◌, Text,
}
use ipgate.Base.Maps.{lookup, insert, erase}

-- A device is told by its Noise static key.
abbrev pub DeviceConns : Type 0
DeviceConns = List (Text × ℕ)

abbrev pub per_device_max_conns : ℕ
per_device_max_conns = 8

abbrev pub or_zero : Option ℕ → ℕ
or_zero none = 0
or_zero (some n) = n

-- `acquire`: whether a guard is given. The entry is made before the test.
unfoldable pub acquire : Text → ℕ → DeviceConns → Bool × DeviceConns
unfolding lookup insert
acquire key max m =
    let n = or_zero (lookup key m) in
    if leb max n then (false, insert key n m) else (true, insert key (n + 1) m)

-- `Drop`
unfoldable pub release : Text → DeviceConns → DeviceConns
unfolding lookup insert erase
release key m = elim (lookup key m) [
  | none ↦ m
  | some n ↦ if (n - 1) == 0 then erase key m else insert key (n - 1) m
]
