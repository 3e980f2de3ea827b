-- ===== src/Api/Limit/Window.antt =====
-- Within one window an address is served at most `max` times.
use ipgate.Base.{
  ℕ, ◌+◌, ◌-◌, ◌%◌, ◌≡◌, ◌≢◌, ◌≤◌, ◌<◌, ◌==◌, nat_eq, refl, arith, true, false, ◌&&◌, some, List,
  [], ◌∷◌, leb, ltb, if◌then◌else◌, length, retain, All, Bool-cases, inl, inr, ==_iff, ==_self,
}
use ipgate.Base.Maps.{lookup, insert, lookup-insert}
use ipgate.Proto.Net.{IpAddr, ip_eq}
use ipgate.Api.Limit.{RateLimiter, Table, is_fresh, cleaned, or_new, rolled, allow}

-- A sequence of calls, each with its address and time, and how many of the address are served.
unfoldable pub served : RateLimiter → IpAddr → List (IpAddr × ℕ) → Table → ℕ
served rl ip [] m = 0
served rl ip ((x, now) ∷ calls) m =
    let (ok, m1) = allow rl x now m in
    let rest = served rl ip calls m1 in (if ok && x == ip then 1 else 0) + rest

lookup-retain :
    (rl : RateLimiter) (now start n : ℕ) (ip : IpAddr) (m : Table)
    → now - start < rl.window
    → lookup ip m ≡ some (start, n)
    → lookup ip (retain (is_fresh rl.window now) m) ≡ some (start, n)
unfolding lookup retain
lookup-retain rl now start n ip [] lt h = cc
lookup-retain rl now start n ip ((j, (s, k)) ∷ m) lt h =
    let rest = lookup-retain rl now start n ip m lt in
    elim (Bool-cases (j == ip)) [
      | inl mine ↦
          let same : start ≡ s = ground arith in
          let fresh : ltb (now - s) rl.window ≡ true = ground arith in
          rw (fresh, mine) (ground arith)
      | inr other ↦ elim (Bool-cases (ltb (now - s) rl.window)) [
        | inl fresh ↦ rw (fresh, other) (rest (ground arith))
        | inr old ↦ rw old (rest (ground arith))
      ]
    ]

lookup-cleaned :
    (rl : RateLimiter) (now start n : ℕ) (ip : IpAddr) (m : Table)
    → now - start < rl.window
    → lookup ip m ≡ some (start, n)
    → lookup ip (cleaned rl now m) ≡ some (start, n)
unfolding cleaned
lookup-cleaned rl now start n ip m lt h = ground (arith, lookup-retain rl now start n ip m lt h)

allow_own :
    (rl : RateLimiter) (now start n : ℕ) (ip : IpAddr) (m : Table)
    → rl.max ≢ 0
    → now - start < rl.window
    → n + 1 < 4294967296
    → lookup ip m ≡ some (start, n)
    → allow rl ip now m ≡ (leb (n + 1) rl.max, insert ip (start, n + 1) (cleaned rl now m))
unfolding allow
allow_own rl now start n ip m nz lt small h =
    let kept = lookup-cleaned rl now start n ip m lt h in
    let fits : (n + 1) % 4294967296 ≡ n + 1 = omega arith in
    let inside : leb rl.window (now - start) ≡ false = ground arith in
    let limited : (rl.max == 0) ≡ false = ground arith in rw (limited, kept, inside, fits) refl

-- One call inside the window of an entry: the address of the call is counted, and served while the
-- count is at most `max`; every other entry stays.
allow_step :
    (rl : RateLimiter) (x ip : IpAddr) (now start n : ℕ) (m : Table)
    → rl.max ≢ 0
    → now - start < rl.window
    → n + 1 < 4294967296
    → lookup ip m ≡ some (start, n)
    → (lookup ip (allow rl x now m).1 ≡ some (start, if x == ip then n + 1 else n))
      × (((allow rl x now m).0 && x == ip) ≡ (leb (n + 1) rl.max && x == ip))
unfolding allow
allow_step rl x ip now start n m nz lt small h =
    let kept = lookup-cleaned rl now start n ip m lt h in
    let (s, k) = rolled rl now (or_new now (lookup x (cleaned rl now m))) in
    let k1 = (k + 1) % 4294967296 in
    let inserted = lookup-insert x ip (s, k1) (cleaned rl now m) in
    elim (Bool-cases (x == ip)) [
      | inl mine ↦
          rw
            (
              (==_iff x ip).0 mine,
              allow_own rl now start n ip m nz lt small h,
              lookup-insert,
              ==_self ip,
            )
            (refl, refl)
      | inr other ↦ (ground arith, ground arith)
    ]

-- From an entry of a window on, an address is served only as often as the entry leaves of `max`,
-- however the calls of other addresses stand between, when all the calls fall into the window and
-- the counter of 32 bits does not overflow.
pub served_lem :
    (rl : RateLimiter) (ip : IpAddr) (calls : List (IpAddr × ℕ)) (start n : ℕ) (m : Table)
    → rl.max ≢ 0
    → All (λ c. c.1 - start < rl.window) calls
    → n + length calls < 4294967296
    → lookup ip m ≡ some (start, n)
    → served rl ip calls m ≤ rl.max - n
unfolding served length
served_lem rl ip [] start n m nz inside small h = omega arith
served_lem rl ip ((x, now) ∷ calls) start n m nz (lt, inside) small h =
    let (entry, ok) = allow_step rl x ip now start n m nz lt (omega arith) h in
    let n1 = if x == ip then n + 1 else n in
    let rest =
      served_lem rl ip calls start n1 (allow rl x now m).1 nz inside (ground arith) entry in
    ground arith
