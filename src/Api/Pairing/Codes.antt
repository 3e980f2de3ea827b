-- ===== src/Api/Pairing/Codes.antt =====
-- A pairing code serves once, and only before it expires.
use ipgate.Base.{
  ℕ, ◌+◌, ◌*◌, ◌≡◌, ◌<◌, ◌≤◌, ◌==◌, list_eq, nat_eq, refl, ◌∙◌, arith, Bool, true, false, ◌&&◌,
  ◌||◌, List, [], ◌∷◌, ◌++◌, if◌then◌else◌, Text, ltb, retain, any, Bool-cases, inl, inr,
}
use ipgate.Proto.Net.{DateTime, second}
use ipgate.Api.Pairing.{PendingCode, unexpired, remove_first, with_code, take_code}

-- The code with the hash can still be used at the time.
unfoldable pub is_usable : Text → DateTime → List PendingCode → Bool
is_usable h now codes = any (λ c. c.hash == h && ltb now c.expires_at) codes

-- How many unexpired codes have the hash.
unfoldable pub copies : Text → List PendingCode → ℕ
copies h [] = 0
copies h (c ∷ cs) = (if c.hash == h then 1 else 0) + copies h cs

hit_lem :
    (h : Text) (now : DateTime) (codes : List PendingCode)
    → any (λ c. c.hash == h) (unexpired now codes) ≡ is_usable h now codes
unfolding is_usable unexpired any
hit_lem h now [] = refl
hit_lem h now (c ∷ cs) = ground (arith, hit_lem h now cs)

usable-unexpired :
    (h : Text) (now later : DateTime) (codes : List PendingCode)
    → now ≤ later
    → is_usable h later (unexpired now codes) ≡ is_usable h later codes
unfolding is_usable unexpired any retain
usable-unexpired h now later [] le = refl
usable-unexpired h now later (c ∷ cs) le = ground (arith, usable-unexpired h now later cs le)

copies-unexpired :
    (h : Text) (now : DateTime) (codes : List PendingCode)
    → copies h (unexpired now codes) ≤ copies h codes
unfolding copies unexpired retain
copies-unexpired h now [] = omega arith
copies-unexpired h now (c ∷ cs) = ground (arith, copies-unexpired h now cs)

-- With no copy left the hash cannot be used.
usable_none :
    (h : Text) (now : DateTime) (codes : List PendingCode)
    → copies h codes ≡ 0
    → is_usable h now codes ≡ false
unfolding is_usable copies any
usable_none h now [] e = refl
usable_none h now (c ∷ cs) e = ground (arith, usable_none h now cs)

copies-remove_first :
    (h : Text) (codes : List PendingCode)
    → any (λ c. c.hash == h) codes ≡ true
    → copies h (remove_first h codes) + 1 ≡ copies h codes
unfolding copies remove_first any
copies-remove_first h [] u = cc
copies-remove_first h (c ∷ cs) u = ground (arith, copies-remove_first h cs)

other-remove_first :
    (h g : Text) (now : DateTime) (codes : List PendingCode)
    → (h == g) ≡ false
    → is_usable g now (remove_first h codes) ≡ is_usable g now codes
unfolding is_usable remove_first any
other-remove_first h g now [] d = refl
other-remove_first h g now (c ∷ cs) d = ground (arith, other-remove_first h g now cs d)

-- A hash that no code has cannot be used.
usable_gone :
    (h : Text) (later : DateTime) (codes : List PendingCode)
    → any (λ c. c.hash == h) codes ≡ false
    → is_usable h later codes ≡ false
unfolding is_usable any
usable_gone h later [] e = refl
usable_gone h later (c ∷ cs) e = ground (arith, e, usable_gone h later cs)

module _ (h : Text) (now : DateTime) (codes : List PendingCode) where
  -- An accepted code is one copy of the hash fewer among the unexpired codes.
  pub take_code-copies :
      (take_code h now codes).0 ≡ true
      → (is_usable h now codes ≡ true)
        × (copies h (take_code h now codes).1 + 1 ≡ copies h (unexpired now codes))
  unfolding take_code
  take_code-copies hit =
      let there : any (λ c. c.hash == h) (unexpired now codes) ≡ true = ground arith in
      (
        ground (arith, hit_lem h now codes, there),
        rw there (copies-remove_first h (unexpired now codes) there),
      )

  -- An accepted code is never accepted again, when no two pending codes have its hash.
  take_code_once :
      (later : DateTime)
      → copies h codes < 2
      → (take_code h now codes).0 ≡ true
      → (take_code h later (take_code h now codes).1).0 ≡ false
  unfolding take_code
  take_code_once later single hit =
      let there : any (λ c. c.hash == h) (unexpired now codes) ≡ true = ground arith in
      let fewer = copies-remove_first h (unexpired now codes) there in
      let bound = copies-unexpired h now codes in
      let gone = usable_none h later (remove_first h (unexpired now codes)) (omega arith) in
      let never = hit_lem h later (remove_first h (unexpired now codes)) in
      rw there (ground (arith, gone, never))

  -- When no two pending codes have its hash, a code is accepted exactly when it was created and has
  -- not expired, and from the attempt on it is not accepted again. Whether any other code can be
  -- used from then on does not change.
  pub take_code_lem :
      (g : Text) (later : DateTime)
      → copies h codes < 2
      → now ≤ later
      → (h == g) ≡ false
      → ((take_code h now codes).0 ≡ is_usable h now codes)
        × ((take_code h later (take_code h now codes).1).0 ≡ false)
        × (is_usable g later (take_code h now codes).1 ≡ is_usable g later codes)
  unfolding take_code
  take_code_lem g later single le d =
      let hit = hit_lem h now codes in
      let kept = usable-unexpired g now later codes le in
      elim (Bool-cases (any (λ c. c.hash == h) (unexpired now codes))) [
        | inl there ↦ (
          ground arith,
          take_code_once later single (ground arith),
          rw there (other-remove_first h g later (unexpired now codes) d ∙ kept),
        )
        | inr gone ↦
            let never = hit_lem h later (unexpired now codes) in
            let none_left = usable_gone h later (unexpired now codes) gone in
            (ground arith, rw gone (ground (arith, never, none_left)), rw gone kept)
      ]

usable-append :
    (g : Text) (later : DateTime) (cs ds : List PendingCode)
    → is_usable g later (cs ++ ds) ≡ (is_usable g later cs || is_usable g later ds)
unfolding is_usable any
usable-append g later [] ds = refl
usable-append g later (c ∷ cs) ds = ground (arith, usable-append g later cs ds)

single_lem :
    (h g : Text) (later end : DateTime)
    → is_usable g later (record { hash = h; expires_at = end } ∷ []) ≡ (h == g && ltb later end)
unfolding is_usable any
single_lem h g later end = ground arith

-- A new code can be used until its lifetime has passed, and every other code as before.
pub with_code_lem :
    (h g : Text) (ttl_secs : ℕ) (now later : DateTime) (codes : List PendingCode)
    → now ≤ later
    → is_usable g later (with_code h ttl_secs now codes)
      ≡ (is_usable g later codes || (h == g && ltb later (now + ttl_secs * second)))
unfolding with_code
with_code_lem h g ttl_secs now later codes le =
    let fresh : PendingCode = record { hash = h; expires_at = now + ttl_secs * second } in
    let single : is_usable g later (fresh ∷ []) ≡ (h == g && ltb later (now + ttl_secs * second)) =
      single_lem h g later (now + ttl_secs * second) in
    rw
      (
        usable-append g later (unexpired now codes) (fresh ∷ []),
        usable-unexpired g now later codes le,
        single,
      )
      refl
