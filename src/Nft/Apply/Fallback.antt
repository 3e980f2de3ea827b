-- ===== src/Nft/Apply/Fallback.antt =====
-- What `apply_ruleset` guarantees over a backend whose transactions are atomic.
use ipgate.Base.{
  bool_dec, ◌≡◌, ◌⊎◌, inl, inr, refl, sym, ◌∙◌, ap, arith, is_some, or_get, bool_eq, Bool, true,
  false, Option, none, some, List, [], ◌∷◌, Text, any, All, Bool-cases, Option-cases, Run-cases, ok,
  err,
}
use ipgate.Proto.Entries.{Entry}
use ipgate.Proto.Ports.{RulesetConfig, knock}
use ipgate.Nft.Backend.{NftBackend, Gate, off, active, rejected, Applied}
use ipgate.Nft.Apply.{
  Cand, same_cand, restrict, applied_by, try_cands, wants, candidates, apply_ruleset, gate_state,
  reason_of, redact,
}

same_cand_eq : (c d : Cand) → same_cand c d ≡ true → c ≡ d
same_cand_eq (k, g) (k', g') h = ground arith

-- A refused transaction leaves the kernel as it was.
abbrev pub IsAtomic : {K : Type 0} → NftBackend K → Type 0
IsAtomic {K} b =
    (cfg : RulesetConfig) (entries : List Entry) (k k' : K) (e : Text)
    → b.apply cfg entries k ≡ (err e, k')
    → k' ≡ k

module _ {K : Type 0} (b : NftBackend K) (red : Text → Text) (cfg : RulesetConfig)
    (entries : List Entry) (k : K) where
  abbrev pub IsRefused : Cand → Type 0
  IsRefused c = (e : Text) × (b.apply (restrict cfg c) entries k ≡ (err e, k))

  -- The candidate is the first of the list that the backend accepts, and takes the kernel to `k'`.
  abbrev pub IsFirstAccepted : List Cand → Cand → K → Type 0
  IsFirstAccepted [] cand k' = ⊥
  IsFirstAccepted (c ∷ cs) cand k' =
      ((c ≡ cand) × (b.apply (restrict cfg c) entries k ≡ (ok tt, k')))
      ⊎ (IsRefused c × IsFirstAccepted cs cand k')

  IsRefused-of_tried :
      (c : Cand) (tried : List Cand)
      → All IsRefused tried
      → any (same_cand c) tried ≡ true
      → IsRefused c
  unfolding any
  IsRefused-of_tried c [] h e = cc
  IsRefused-of_tried c (t ∷ ts) (r, rs) e = elim (Bool-cases (same_cand c t)) [
    | inl same ↦ rw (same_cand_eq c t same) r
    | inr other ↦ IsRefused-of_tried c ts rs (ground arith)
  ]

  module _ (atomic : IsAtomic b) (want : Cand) where
    -- The report of a run is that of the first candidate that is accepted.
    abbrev IsReport : List Cand → Applied → K → Type 0
    IsReport cands a k' =
        (cand : Cand) × (first : Option Text) × IsFirstAccepted cands cand k'
        × (a ≡ applied_by b red cfg entries want cand first)

    weaken :
        (c : Cand) (cs : List Cand) (a : Applied) (k' : K)
        → IsRefused c
        → IsReport cs a k'
        → IsReport (c ∷ cs) a k'
    weaken c cs a k' r (cand, first, h, e) = (cand, first, inr (r, h), e)

    IsRefused-here :
        (c : Cand) (e : Text) (k1 : K)
        → b.apply (restrict cfg c) entries k ≡ (err e, k1)
        → (k1 ≡ k) × IsRefused c
    IsRefused-here c e k1 bad =
        let same = atomic (restrict cfg c) entries k k1 e bad in (same, (e, rw same at bad))

    try_cands_sound :
        (cands tried : List Cand) (first : Option Text) (a : Applied) (k' : K)
        → All IsRefused tried
        → try_cands b red cfg entries want cands tried first k ≡ (ok a, k')
        → IsReport cands a k'
    unfolding try_cands
    try_cands_sound [] tried first a k' rs h = cc
    try_cands_sound (c ∷ cs) tried first a k' rs h = elim (Bool-cases (any (same_cand c) tried)) [
      | inl skip ↦
          weaken c cs a k' (IsRefused-of_tried c tried rs skip)
            (try_cands_sound cs tried first a k' rs (ground arith))
      | inr fresh ↦ elim (Run-cases (b.apply (restrict cfg c) entries k)) [
        | inl (u, k1, good) ↦ (c, first, inl (refl, ground arith), ground arith)
        | inr (e, k1, bad) ↦
            let (same, r) = IsRefused-here c e k1 bad in
            weaken c cs a k' r (elim (Option-cases first) [
              | inl unset ↦
                  try_cands_sound cs (c ∷ tried) (some (red e)) a k' (r, rs) (ground arith)
              | inr (f, kept) ↦ try_cands_sound cs (c ∷ tried) (some f) a k' (r, rs) (ground arith)
            ])
      ]
    ]

    -- The steps of the loop.
    later :
        (c : Cand) (cs tried : List Cand)
        → any (same_cand (false, false)) (c ∷ cs) ≡ true
        → any (same_cand (false, false)) tried ≡ false
        → any (same_cand c) tried ≡ true
        → any (same_cand (false, false)) cs ≡ true
    unfolding any bool_dec
    later (false, false) cs tried there new skip = absurd (cc)
    later (false, true) cs tried there new skip = there
    later (true, g) cs tried there new skip = there

    not_base :
        (c : Cand) (e : Text) (k1 k0 : K)
        → b.apply (restrict cfg (false, false)) entries k ≡ (ok tt, k0)
        → b.apply (restrict cfg c) entries k ≡ (err e, k1)
        → same_cand c (false, false) ≡ false
    unfolding bool_dec
    not_base (false, false) e k1 k0 base bad = absurd (cc)
    not_base (false, true) e k1 k0 base bad = refl
    not_base (true, g) e k1 k0 base bad = refl

    step_skip :
        (c : Cand) (cs tried : List Cand) (first : Option Text)
        → any (same_cand c) tried ≡ true
        → try_cands b red cfg entries want (c ∷ cs) tried first k
          ≡ try_cands b red cfg entries want cs tried first k
    unfolding try_cands
    step_skip c cs tried first h = ground arith

    step_good :
        (c : Cand) (cs tried : List Cand) (first : Option Text) (k1 : K)
        → any (same_cand c) tried ≡ false
        → b.apply (restrict cfg c) entries k ≡ (ok tt, k1)
        → try_cands b red cfg entries want (c ∷ cs) tried first k
          ≡ (ok (applied_by b red cfg entries want c first), k1)
    unfolding try_cands
    step_good c cs tried first k1 h good = ground arith

    step_bad :
        (c : Cand) (cs tried : List Cand) (first : Option Text) (e : Text)
        → any (same_cand c) tried ≡ false
        → same_cand c (false, false) ≡ false
        → b.apply (restrict cfg c) entries k ≡ (err e, k)
        → try_cands b red cfg entries want (c ∷ cs) tried first k
          ≡ try_cands b red cfg entries want cs (c ∷ tried) (some (or_get first (red e))) k
    unfolding try_cands
    step_bad c cs tried none e h other bad = ground arith
    step_bad c cs tried (some f) e h other bad = ground arith

    -- When the ruleset with neither part is accepted, the run succeeds.
    try_cands_total :
        (cands tried : List Cand) (first : Option Text) (k0 : K)
        → b.apply (restrict cfg (false, false)) entries k ≡ (ok tt, k0)
        → any (same_cand (false, false)) cands ≡ true
        → any (same_cand (false, false)) tried ≡ false
        → (a : Applied) × (k' : K) × (try_cands b red cfg entries want cands tried first k
            ≡ (ok a, k'))
    unfolding any
    try_cands_total [] tried first k0 base there new = cc
    try_cands_total (c ∷ cs) tried first k0 base there new =
        elim (Bool-cases (any (same_cand c) tried)) [
          | inl skip ↦
              let (a, k', done) =
                try_cands_total cs tried first k0 base (later c cs tried there new skip) new in
              (a, k', step_skip c cs tried first skip ∙ done)
          | inr fresh ↦ elim (Run-cases (b.apply (restrict cfg c) entries k)) [
            | inl (u, k1, good) ↦ (
              applied_by b red cfg entries want c first,
              k1,
              step_good c cs tried first k1 fresh good,
            )
            | inr (e, k1, bad) ↦
                let (same, r) = IsRefused-here c e k1 bad in
                let other = not_base c e k1 k0 base bad in
                let (a, k', done) =
                  try_cands_total cs (c ∷ tried) (some (or_get first (red e))) k0 base
                    (ground arith) (ground arith) in
                (a, k', step_bad c cs tried first e fresh other (rw same at bad) ∙ done)
          ]
        ]

pub accepted_apply :
    {K : Type 0} (b : NftBackend K) (red : Text → Text) (cfg : RulesetConfig) (entries : List Entry)
    (k : K) (cands : List Cand) (cand : Cand) (k' : K)
    → IsFirstAccepted b red cfg entries k cands cand k'
    → b.apply (restrict cfg cand) entries k ≡ (ok tt, k')
accepted_apply b red cfg entries k [] cand k' h = absurd h
accepted_apply b red cfg entries k (c ∷ cs) cand k' (inl (e, good)) =
    let goal : b.apply (restrict cfg cand) entries k ≡ (ok tt, k') = rw (sym e) good in goal
accepted_apply b red cfg entries k (c ∷ cs) cand k' (inr (r, h)) =
    accepted_apply b red cfg entries k cs cand k' h

-- The run succeeds whenever the backend accepts the ruleset with neither gate nor knock: a kernel
-- that knows only the plain input chain still gets it.
pub apply_ruleset_total :
    {K : Type 0} (b : NftBackend K) (cfg : RulesetConfig) (entries : List Entry) (k k0 : K)
    → IsAtomic b
    → b.apply (restrict cfg (false, false)) entries k ≡ (ok tt, k0)
    → (a : Applied) × (k' : K) × (apply_ruleset b cfg entries k ≡ (ok a, k'))
unfolding apply_ruleset
apply_ruleset_total b cfg entries k k0 atomic base =
    try_cands_total b (redact cfg) cfg entries k atomic (wants cfg) (candidates (wants cfg)) [] none
      k0 base (ground arith) refl

-- A success reports the first candidate, in the order of the source, that the backend accepts, and
-- the kernel that it leaves: all that stand before it were refused, and a part is reported active,
-- refused or off as the candidate and the wish say.
pub apply_ruleset_sound :
    {K : Type 0} (b : NftBackend K) (cfg : RulesetConfig) (entries : List Entry) (k k' : K)
    (a : Applied)
    → IsAtomic b
    → apply_ruleset b cfg entries k ≡ (ok a, k')
    → (cand : Cand) × (reason : Text) × IsFirstAccepted b
        (redact cfg)
        cfg
        entries
        k
        (candidates (wants cfg))
        cand
        k'
      × (a.gate ≡ gate_state cfg.forward_allowlist_only cand.1 reason)
      × (a.knock ≡ gate_state (is_some (knock cfg)) cand.0 reason)
unfolding apply_ruleset applied_by
apply_ruleset_sound b cfg entries k k' a atomic h =
    let (cand, first, accepted, e) =
      try_cands_sound b (redact cfg) cfg entries k atomic (wants cfg) (candidates (wants cfg)) []
        none a k' tt h in
    (
      cand,
      reason_of first,
      accepted,
      ap (λ (x : Applied). x.gate) e,
      ap (λ (x : Applied). x.knock) e,
    )

abbrev pub is_rejected : Gate → Bool
is_rejected (rejected e) = true
is_rejected off = false
is_rejected active = false

-- The gate of the ruleset `got` is the wanted one, or it is left out after the kernel refused the
-- ruleset that was wanted.
abbrev pub IsGated : {K : Type 0} → NftBackend K → RulesetConfig → List Entry → K → Bool → Type 0
IsGated b cfg entries k got =
    (got ≡ cfg.forward_allowlist_only)
    ⊎ ((got ≡ false) × (e : Text) × (b.apply (restrict cfg (wants cfg)) entries k ≡ (err e, k)))

-- The ruleset `got` differs from the wanted one at most in a gate that was refused, and in a knock
-- that is not in use.
abbrev pub IsLoaded : {K : Type 0} → NftBackend K → RulesetConfig → List Entry → K → K → Type 0
IsLoaded b cfg entries k k' =
    (got : RulesetConfig) × (b.apply got entries k ≡ (ok tt, k'))
    × (knock got ≡ knock cfg)
    × (got.ssh_allowlist_only ≡ cfg.ssh_allowlist_only)
    × (got.public_tcp ≡ cfg.public_tcp)
    × (got.public_udp ≡ cfg.public_udp)
    × (got.ssh_port ≡ cfg.ssh_port)
    × IsGated b cfg entries k got.forward_allowlist_only

pub accepted_gate :
    {K : Type 0} (b : NftBackend K) (red : Text → Text) (cfg : RulesetConfig) (entries : List Entry)
    (k : K) (cand : Cand) (k' : K)
    → IsFirstAccepted b red cfg entries k (candidates (wants cfg)) cand k'
    → IsGated b cfg entries k cand.1
accepted_gate b red cfg entries k cand k' (inl (same, _)) = inl (sym (ap (λ (c : Cand). c.1) same))
accepted_gate b red cfg entries k cand k' (inr (refused, inl (same, _))) =
    inl (sym (ap (λ (c : Cand). c.1) same))
accepted_gate b red cfg entries k cand k' (inr (refused, inr (_, inl (same, _)))) =
    inr (sym (ap (λ (c : Cand). c.1) same), refused.0, refused.1)
accepted_gate b red cfg entries k cand k' (inr (refused, inr (_, inr (_, inl (same, _))))) =
    inr (sym (ap (λ (c : Cand). c.1) same), refused.0, refused.1)
accepted_gate b red cfg entries k cand k' (inr (refused, inr (_, inr (_, inr (_, last))))) =
    absurd last

restrict-knock :
    (cfg : RulesetConfig) (k g : Bool) (reason : Text)
    → is_rejected (gate_state (is_some (knock cfg)) k reason) ≡ false
    → knock (restrict cfg (k, g)) ≡ knock cfg
unfolding knock restrict gate_state
restrict-knock cfg true g reason h = refl
restrict-knock cfg false g reason h = ground arith

-- When the knock is not reported as refused, the kernel was given the wanted ruleset with its
-- knock, and with its gate unless it refused that.
pub apply_ruleset-IsLoaded :
    {K : Type 0} (b : NftBackend K) (cfg : RulesetConfig) (entries : List Entry) (k k' : K)
    (a : Applied)
    → IsAtomic b
    → apply_ruleset b cfg entries k ≡ (ok a, k')
    → is_rejected a.knock ≡ false
    → IsLoaded b cfg entries k k'
unfolding restrict
apply_ruleset-IsLoaded b cfg entries k k' a atomic h kept =
    let ((kn, g), reason, accepted, _, e) = apply_ruleset_sound b cfg entries k k' a atomic h in
    let good =
      accepted_apply b (redact cfg) cfg entries k (candidates (wants cfg)) (kn, g) k' accepted in
    (
      restrict cfg (kn, g),
      good,
      restrict-knock cfg kn g reason (sym (ap is_rejected e) ∙ kept),
      refl,
      refl,
      refl,
      refl,
      accepted_gate b (redact cfg) cfg entries k (kn, g) k' accepted,
    )

-- When the gate is not reported as refused, the kernel was given a ruleset with the wanted gate.
pub apply_ruleset_gate :
    {K : Type 0} (b : NftBackend K) (cfg : RulesetConfig) (entries : List Entry) (k k' : K)
    (a : Applied)
    → IsAtomic b
    → apply_ruleset b cfg entries k ≡ (ok a, k')
    → is_rejected a.gate ≡ false
    → cfg.forward_allowlist_only ≡ true
    → (got : RulesetConfig) × (b.apply got entries k ≡ (ok tt, k'))
      × (got.forward_allowlist_only ≡ true)
unfolding restrict gate_state
apply_ruleset_gate b cfg entries k k' a atomic h kept want =
    let ((kn, g), reason, accepted, e, _) = apply_ruleset_sound b cfg entries k k' a atomic h in
    let good =
      accepted_apply b (redact cfg) cfg entries k (candidates (wants cfg)) (kn, g) k' accepted in
    (restrict cfg (kn, g), good, ground arith)
