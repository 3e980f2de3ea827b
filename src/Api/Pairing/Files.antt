-- ===== src/Api/Pairing/Files.antt =====
-- What a pairing code that was accepted leaves in the file of the codes.
use ipgate.Base.{◌+◌, ◌≡◌, ap, sym, ◌∙◌, arith, true, List, Text, ok, Exec, Run-cases, inl, inr}
use ipgate.Proto.Net.{DateTime}
use ipgate.Api.Pairing.{PendingCode, unexpired, take_code, save_taken, consume}
use ipgate.Api.Pairing.Codes.{is_usable, copies, take_code-copies}

-- Reading the file leaves it, and what was written is read.
pub record IsCodeFile {D : Type 0} (load : Exec D Text (List PendingCode))
    (save : List PendingCode → Exec D Text (Unit {0})) : Type 0 where
  pub loaded : (d : D) → (load d).1 ≡ d
  pub saved :
      (codes : List PendingCode) (d d' : D) → save codes d ≡ (ok tt, d') → (load d').0 ≡ ok codes

module _ {D : Type 0} (sha : Text → Text) (load : Exec D Text (List PendingCode))
    (save : List PendingCode → Exec D Text (Unit {0})) where
  -- The code was pending and unexpired before, and one copy of it is gone from the file after.
  abbrev pub IsUsedUp : Text → DateTime → D → D → Type 0
  IsUsedUp code now d d' =
      (before : List PendingCode) × (after : List PendingCode) × ((load d).0 ≡ ok before)
      × ((load d').0 ≡ ok after)
      × (is_usable (sha code) now before ≡ true)
      × (copies (sha code) after + 1 ≡ copies (sha code) (unexpired now before))

  -- What leaves the file leaves the code used up.
  pub IsUsedUp-kept :
      (code : Text) (now : DateTime) (d d1 d2 : D)
      → (load d2).0 ≡ (load d1).0
      → IsUsedUp code now d d1
      → IsUsedUp code now d d2
  IsUsedUp-kept code now d d1 d2 kept (before, after, was, is_now, usable, fewer) =
      (before, after, was, kept ∙ is_now, usable, fewer)

  pub consume-IsUsedUp :
      (code : Text) (now : DateTime) (d d' : D)
      → IsCodeFile load save
      → consume sha load save code now d ≡ (ok true, d')
      → IsUsedUp code now d d'
  unfolding consume save_taken
  consume-IsUsedUp code now d d' laws h = elim (Run-cases (load d)) [
    | inr (e, d1, bad) ↦ absurd (ground (arith, bad, h))
    | inl (codes, d1, read) ↦
        let taken = take_code (sha code) now codes in
        elim (Run-cases (save_taken sha load save codes taken d1)) [
          | inr (e, d2, bad) ↦ absurd (ground (arith, read, bad, h))
          | inl (_, d2, good) ↦
              let hit : taken.0 ≡ true = ground (arith, read, good, h) in
              let same : d2 ≡ d' = ground (arith, read, good, h) in
              let written : save taken.1 d1 ≡ (ok tt, d2) = ground (arith, good, hit) in
              let (usable, fewer) = take_code-copies (sha code) now codes hit in
              (
                codes,
                taken.1,
                ap (λ p. p.0) read,
                ap (λ x. (load x).0) (sym same) ∙ laws.saved taken.1 d1 d2 written,
                usable,
                fewer,
              )
        ]
  ]
