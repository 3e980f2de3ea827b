-- ===== src/Cli/Rescue.antt =====
-- What a command that switches the SSH exposure may write to the disk.
use ipgate.Base.{
  true, false, not, arith, List, Bool, none, some, Text, Result, ok, err, Exec, continue, ◌≡◌, refl,
  sym, ap, ◌∙◌, ◌⊎◌, inl, inr, Run-cases, Option-cases, Result-cases,
}
use ipgate.Config.{AgentConfig}
use ipgate.Proto.Entries.{Entry}
use ipgate.Store.{State, RulesetFlags, ruleset_flags, set_ssh_allowlist_only}
use ipgate.Nft.Backend.{NftBackend, Applied}
use ipgate.Cli.{
  Machine, apply_flags, save_store, keep_knock, knock_failure, ssh_expose_cli, chosen,
  covering_guard, refused,
}

module _ {K D : Type 0} (cfg : AgentConfig) (backend : NftBackend K) (load : D → Result Text State)
    (save : State → Exec D Text (Unit {0})) where
  abbrev IsFailed : Result Text (Unit {0}) → Type 0
  IsFailed (ok _) = ⊥
  IsFailed (err _) = Unit

  -- The command fails and the disk is untouched, or exactly one option is given and the disk holds
  -- what the save of the store with the setting of that option made of it, after a kernel that took
  -- the rules with their knock; the command then ends as that save.
  unfoldable pub IsSwitched :
      Bool → Bool → Machine K D → Result Text (Unit {0}) × Machine K D → Type 0
  IsSwitched opened allowlist m p =
      (IsFailed p.0 × (p.1.disk ≡ m.disk))
      ⊎ ((opened ≡ not allowlist)
          × (s : State) × (k : K) × (applied : Applied) × (load m.disk ≡ ok s)
          × (covering_guard cfg s allowlist ≡ ok tt)
          × ((apply_flags cfg backend (ruleset_flags (record s { ssh_allowlist_only = allowlist }))
                s.entries m)
              ≡ (ok applied, record m { kernel = k }))
          × (refused applied.knock ≡ none)
          × ((p.0, p.1.disk) ≡ save (record s { ssh_allowlist_only = allowlist }) m.disk))

  chosen-both :
      (opened allowlist on : Bool)
      → chosen opened allowlist ≡ some on
      → (on ≡ allowlist) × (opened ≡ not allowlist)
  unfolding chosen
  chosen-both true true on h = cc
  chosen-both true false on h = (ground (arith, h), refl)
  chosen-both false true on h = (ground (arith, h), refl)
  chosen-both false false on h = cc

  apply_flags-disk :
      (flags : RulesetFlags) (entries : List Entry) (m m' : Machine K D) (r : Result Text Applied)
      → apply_flags cfg backend flags entries m ≡ (r, m')
      → m' ≡ record m { kernel = m'.kernel }
  unfolding apply_flags
  apply_flags-disk flags entries m m' r h =
      let same : m.disk ≡ m'.disk = ap (λ p. p.1.disk) h in
      ap (λ d. record { disk = d; kernel = m'.kernel }) (sym same)

  -- A refused knock ends in an error, and writes nothing to the disk.
  knock_fails :
      (s : State) (e : Text) (m : Machine K D)
      → (x : Text) × (m' : Machine K D) × (keep_knock cfg backend s (some e) m ≡ (err x, m'))
        × (m'.disk ≡ m.disk)
  unfolding keep_knock
  knock_fails s e m = elim (Run-cases (apply_flags cfg backend (ruleset_flags s) s.entries m)) [
    | inl (a, m1, r) ↦ (knock_failure e, m1, rw r, ap Machine.disk (apply_flags-disk _ _ m m1 _ r))
    | inr (x, m1, r) ↦ (x, m1, rw r, ap Machine.disk (apply_flags-disk _ _ m m1 _ r))
  ]

  -- Behind the checks: the kernel, and then the disk.
  switch-IsSwitched :
      (opened allowlist : Bool) (s : State) (m : Machine K D)
      → opened ≡ not allowlist
      → load m.disk ≡ ok s
      → covering_guard cfg s allowlist ≡ ok tt
      → IsSwitched opened allowlist m (
          continue
            (apply_flags cfg backend
              (ruleset_flags (set_ssh_allowlist_only allowlist s).1)
              s.entries
              m)
            (λ applied m1.
              continue
                (keep_knock cfg backend s (refused applied.knock) m1)
                (λ _. save_store save (set_ssh_allowlist_only allowlist s).1)))
  unfolding keep_knock IsSwitched set_ssh_allowlist_only
  switch-IsSwitched opened allowlist s m one loaded free =
      let new = record s { ssh_allowlist_only = allowlist } in
      elim (Run-cases (apply_flags cfg backend (ruleset_flags new) s.entries m)) [
        | inr (x, m1, e) ↦ rw e (inl (tt, ap Machine.disk (apply_flags-disk _ _ m m1 _ e)))
        | inl (applied, m1, e) ↦ elim (Option-cases (refused applied.knock)) [
          | inl ok_knock ↦
              rw (e, ok_knock)
                (inr (
                  one,
                  s,
                  m1.kernel,
                  applied,
                  loaded,
                  free,
                  e ∙ ap (λ x. (ok applied, x)) (apply_flags-disk _ _ m m1 _ e),
                  ok_knock,
                  ap (λ x. save new x.disk) (apply_flags-disk _ _ m m1 _ e),
                ))
          | inr (x, bad) ↦
              let (y, m2, k, d) = knock_fails s x m1 in
              rw (e, bad, k) (inl (tt, d ∙ ap Machine.disk (apply_flags-disk _ _ m m1 _ e)))
        ]
      ]

  untouched :
      (opened allowlist : Bool) (m : Machine K D) (e : Text)
      → IsSwitched opened allowlist m (err e, m)
  unfolding IsSwitched
  untouched opened allowlist m e = inl (tt, refl)

  -- The command fails and leaves the disk, or exactly one of the two options is given, no public
  -- port covers the SSH port, the kernel took the rules and did not refuse the knock, and the
  -- command saves the store with SSH closed for `--allowlist` and open for `--open`, and ends as
  -- the save does.
  pub ssh_expose_cli-IsSwitched :
      (opened allowlist : Bool) (m : Machine K D)
      → IsSwitched opened allowlist m (ssh_expose_cli cfg backend load save opened allowlist m)
  unfolding ssh_expose_cli
  ssh_expose_cli-IsSwitched opened allowlist m = elim (Option-cases (chosen opened allowlist)) [
    | inl e ↦ rw e (untouched opened allowlist m _)
    | inr (on, e) ↦
        let (same, one) = chosen-both opened allowlist on e in
        elim (Result-cases (load m.disk)) [
          | inr (x, l) ↦ rw (e, l) (untouched opened allowlist m x)
          | inl (s, l) ↦ elim (Result-cases (covering_guard cfg s allowlist)) [
            | inr (x, g) ↦ rw (e, same, l, g) (untouched opened allowlist m x)
            | inl (_, g) ↦ rw (e, same, l, g) (switch-IsSwitched opened allowlist s m one l g)
          ]
        ]
  ]
