-- ===== src/Dnat/Adapter/Draining.antt =====
-- What a deletion through the adapter leaves in the configuration.
use ipgate.Base.{
  nat_eq, list_eq, Bool, false, not, List, [], ◌∷◌, Text, ok, err, ◌≡◌, refl, sym, ap, ◌∙◌, inl,
  inr, arith, retain, any, Result, Run-cases, Bool-cases,
}
use ipgate.Dnat.Conf.{parse_conf, remove_rule_lines}
use ipgate.Dnat.Conf.Removal.{has_key, remove_rule_lines_lem}
use ipgate.Dnat.Adapter.{
  DnatHost, rules, locked_removal, write_conf_atomic, run_apply, remove_prefix,
}

-- What the adapter relies on: the lock and `dnat apply` leave the configuration file alone, and a
-- rename that succeeds puts the text of a temporary file that was written in its place.
pub record IsDnatHost {D : Type 0} (host : DnatHost D) : Type 0 where
  pub locked : (d : D) → host.conf_text (host.lock d).1 ≡ host.conf_text d
  pub staged : (text : Text) (d : D) → host.conf_text (host.write_tmp text d).1 ≡ host.conf_text d
  pub renamed :
      (text : Text) (d d' e : D)
      → host.write_tmp text d ≡ (ok tt, d')
      → host.rename d' ≡ (ok tt, e)
      → host.conf_text e ≡ text
  pub kept : (d e : D) (m : Text) → host.rename d ≡ (err m, e) → host.conf_text e ≡ host.conf_text d
  pub applied : (d : D) → host.conf_text (host.apply d).1 ≡ host.conf_text d

any-none :
    {A : Type 0} (p : A → Bool) (xs : List A) → any p xs ≡ false → retain (λ x. not (p x)) xs ≡ xs
unfolding any retain
any-none p [] h = refl
any-none p (x ∷ xs) h = elim (Bool-cases (p x)) [
  | inl e ↦ absurd (ground (arith, e, h))
  | inr e ↦ rw e (ap (◌∷◌ x) (any-none p xs (ground (arith, e, h))))
]

-- What a law says of the state at the end of a run.
ends :
    {D A : Type 0} (f : D → Text) {t : Text} {r : Result Text A} {e : D} {p : Result Text A × D}
    → p ≡ (r, e)
    → f p.1 ≡ t
    → f e ≡ t
ends f w h = sym (ap (λ q. f q.1) w) ∙ h

module _ {D : Type 0} (host : DnatHost D) (prefix : Text) where
  -- What a deletion has done: the rules with the key are gone and no other, it is said whether there
  -- was one, and a failure leaves all rules.
  unfoldable pub IsDeletion : D → Result Text Bool × D → Type 0
  IsDeletion d (ok removed, d') =
      (removed ≡ any (has_key prefix) (rules host d))
      × (rules host d' ≡ retain (λ r. not (has_key prefix r)) (rules host d))
  IsDeletion d (err m, d') = rules host d' ≡ rules host d

  write_text :
      IsDnatHost host
      → (text : Text) (d d' : D) → write_conf_atomic host text d ≡ (ok tt, d')
      → host.conf_text d' ≡ text
  unfolding write_conf_atomic
  write_text laws text d d' h = elim (Run-cases (host.write_tmp text d)) [
    | inr (m, e, w) ↦ absurd (ground (arith, w, h))
    | inl (_, e, w) ↦ laws.renamed text d e d' w (ground (arith, w, h))
  ]

  write_failed :
      IsDnatHost host
      → (text m : Text) (d d' : D) → write_conf_atomic host text d ≡ (err m, d')
      → host.conf_text d' ≡ host.conf_text d
  unfolding write_conf_atomic
  write_failed laws text m d d' h = elim (Run-cases (host.write_tmp text d)) [
    | inr (n, e, w) ↦
        let same : e ≡ d' = ground (arith, w, h) in
        ap host.conf_text (sym same) ∙ ends host.conf_text w (laws.staged text d)
    | inl (_, e, w) ↦
        let failed : host.rename e ≡ (err m, d') = ground (arith, w, h) in
        laws.kept e d' m failed ∙ ends host.conf_text w (laws.staged text d)
  ]

  run_apply-state : (d : D) → (run_apply host d).1 ≡ (host.apply d).1
  unfolding run_apply
  run_apply-state d = elim (Run-cases (host.apply d)) [
    | inr (m, e, w) ↦ rw w
    | inl (out, e, w) ↦ rw w
  ]

  run_apply-conf :
      IsDnatHost host → (d : D) → host.conf_text (run_apply host d).1 ≡ host.conf_text d
  run_apply-conf laws d = ap host.conf_text (run_apply-state d) ∙ laws.applied d

  -- The deletion behind the lock.
  locked_removal-IsDeletion :
      IsDnatHost host → (d : D) → IsDeletion d (locked_removal host prefix d)
  unfolding locked_removal rules IsDeletion
  locked_removal-IsDeletion laws d =
      let (kept, told) = remove_rule_lines_lem (host.conf_text d) prefix in
      elim (Bool-cases (remove_rule_lines (host.conf_text d) prefix).1) [
        | inr e ↦ rw e (sym e ∙ told, sym (any-none (has_key prefix) _ (sym told ∙ e)))
        | inl e ↦
            elim (Run-cases
              (write_conf_atomic host (remove_rule_lines (host.conf_text d) prefix).0 d)) [
                | inr (m, d', w) ↦ rw (e, w) (ap parse_conf (write_failed laws _ m d d' w))
                | inl (_, d', w) ↦
                    rw (e, w)
                      (
                        sym e ∙ told,
                        ap parse_conf (run_apply-conf laws d' ∙ write_text laws _ d d' w) ∙ kept,
                      )
              ]
      ]

  -- A deletion that begins in a state with the same rules.
  from_rules :
      (d e : D)
      → parse_conf (host.conf_text e) ≡ parse_conf (host.conf_text d)
      → (p : Result Text Bool × D) → IsDeletion e p
      → IsDeletion d p
  unfolding IsDeletion rules
  from_rules d e same (ok b, d') (told, kept) =
      (told ∙ ap (any (has_key prefix)) same, kept ∙ ap (retain (λ r. not (has_key prefix r))) same)
  from_rules d e same (err m, d') h = h ∙ same

  IsDeletion-failed :
      (m : Text) (d e : D)
      → parse_conf (host.conf_text e) ≡ parse_conf (host.conf_text d)
      → IsDeletion d (err m, e)
  unfolding IsDeletion rules
  IsDeletion-failed m d e same = same

  -- A deletion that gets the lock and writes tells whether a rule had the key, and leaves exactly
  -- the rules with another key, in their order; one that fails leaves all rules. This holds for a
  -- host whose lock and whose `dnat apply` leave the configuration alone.
  pub remove_prefix-IsDeletion :
      IsDnatHost host → (d : D) → IsDeletion d (remove_prefix host prefix d)
  unfolding remove_prefix
  remove_prefix-IsDeletion laws d = elim (Run-cases (host.lock d)) [
    | inr (m, e, w) ↦
        rw w (IsDeletion-failed m d e (ap parse_conf (ends host.conf_text w (laws.locked d))))
    | inl (_, e, w) ↦ rw w (
        from_rules d e (ap parse_conf (ends host.conf_text w (laws.locked d)))
          (locked_removal host prefix e) (locked_removal-IsDeletion laws e))
  ]
