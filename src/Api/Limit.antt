-- ===== src/Api/Limit.antt =====
-- agent/src/api/limit.rs: the fixed-window limiter. Times are counts of nanoseconds.
pub mod Window
use ipgate.Base.{
  ℕ, ◌+◌, ◌-◌, ◌%◌, ◌==◌, nat_eq, Bool, true, false, Option, none, some, List, [], ◌∷◌, leb, ltb,
  if◌then◌else◌, length, retain,
}
use ipgate.Base.Maps.{lookup, insert}
use ipgate.Proto.Net.{IpAddr, ip_eq}

abbrev pub Table : Type 0
Table = List (IpAddr × (ℕ × ℕ))

pub record RateLimiter : Type 0 where
  pub max : ℕ
  pub window : ℕ

-- The entry is dropped by the cleaning of a large table when its window is over.
abbrev pub is_fresh : ℕ → ℕ → IpAddr × (ℕ × ℕ) → Bool
is_fresh window now (ip, (start, n)) = ltb (now - start) window

unfoldable pub cleaned : RateLimiter → ℕ → Table → Table
unfolding retain
cleaned rl now m = if ltb 10000 (length m) then retain (is_fresh rl.window now) m else m

abbrev pub or_new : ℕ → Option (ℕ × ℕ) → ℕ × ℕ
or_new now none = (now, 0)
or_new now (some e) = e

-- The window rolls over when its time has passed.
abbrev pub rolled : RateLimiter → ℕ → ℕ × ℕ → ℕ × ℕ
rolled rl now (start, n) = if leb rl.window (now - start) then (now, 0) else (start, n)

-- `+= 1` on a u32.
unfoldable pub allow : RateLimiter → IpAddr → ℕ → Table → Bool × Table
unfolding cleaned lookup
allow rl ip now m =
    if rl.max == 0
    then (true, m)
    else let m1 = cleaned rl now m in
      let (start, n) = rolled rl now (or_new now (lookup ip m1)) in
      let n1 = (n + 1) % 4294967296 in (leb n1 rl.max, insert ip (start, n1) m1)
