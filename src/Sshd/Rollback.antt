-- ===== src/Sshd/Rollback.antt =====
-- What `set_password_auth` leaves in sshd_config.
use ipgate.Base.{
  ◌==◌, option_eq, bool_eq, Bool, some, ◌++◌, Text, Result, ok, err, ◌≡◌, refl, sym, ap, ◌∙◌, ◌⊎◌,
  inl, inr, arith, Run-cases, Result-cases, Bool-cases,
}
use ipgate.Sshd.{
  managed_block, strip_managed_block, SshdHost, probe, outcome, settled, set_password_auth,
}

-- What the code relies on: a write that succeeds replaces the configuration and one that fails
-- leaves it; the old file beside it, the check and the reload leave it alone.
pub record IsSshdHost {D : Type 0} (host : SshdHost D) : Type 0 where
  pub written :
      (t : Text) (d d' : D) → host.write_atomic t d ≡ (ok tt, d') → host.read_config d' ≡ ok t
  pub unwritten :
      (t x : Text) (d d' : D)
      → host.write_atomic t d ≡ (err x, d')
      → host.read_config d' ≡ host.read_config d
  pub dropped : (d : D) → host.read_config (host.remove_dropin d) ≡ host.read_config d
  pub validated : (d : D) → host.read_config (host.validate_sshd_config d).1 ≡ host.read_config d
  pub reloaded : (d : D) → host.read_config (host.reload_sshd d).1 ≡ host.read_config d

module _ {D : Type 0} (host : SshdHost D) (laws : IsSshdHost host) (enabled : Bool) where
  -- The disk on which the old text is put back: the new text was written, and the outcome failed.
  abbrev left_by : D → Text → D
  left_by d prev =
      (outcome host enabled (
        host.remove_dropin
          (host.write_atomic (managed_block enabled ++ strip_managed_block prev) d).1)).1

  -- The write that puts the old text back after the failed outcome is refused, and what it leaves is
  -- reloaded and is the end.
  abbrev IsRefused : D → D → Type 0
  IsRefused d d' =
      (prev : Text) × (x : Text) × (d2 : D) × (host.read_config d ≡ ok prev)
      × (host.write_atomic prev (left_by d prev) ≡ (err x, d2))
      × (d' ≡ (host.reload_sshd d2).1)

  -- On success the block stands before the text without its old block, and sshd says that it
  -- follows it. On an error the text is that from before, unless the write that puts it back failed.
  unfoldable pub IsSettled : D → Result Text (Unit {0}) × D → Type 0
  IsSettled d (ok _, d') =
      (prev : Text) × (host.read_config d ≡ ok prev)
      × (host.read_config d' ≡ ok (managed_block enabled ++ strip_managed_block prev))
      × ((probe host d').password ≡ some enabled)
  IsSettled d (err _, d') = (host.read_config d' ≡ host.read_config d) ⊎ IsRefused d d'

  -- The outcome leaves the configuration alone, and succeeds only when sshd follows it.
  outcome-config : (d : D) → host.read_config (outcome host enabled d).1 ≡ host.read_config d
  unfolding outcome
  outcome-config d = elim (Run-cases (host.validate_sshd_config d)) [
    | inr (x, d1, e) ↦ rw e (sym (ap (λ p. host.read_config p.1) e) ∙ laws.validated d)
    | inl (_, d1, e) ↦
        let valid = sym (ap (λ p. host.read_config p.1) e) ∙ laws.validated d in
        elim (Run-cases (host.reload_sshd d1)) [
          | inr (x, d2, r) ↦
              rw (e, r) (sym (ap (λ p. host.read_config p.1) r) ∙ laws.reloaded d1 ∙ valid)
          | inl (_, d2, r) ↦
              let same = sym (ap (λ p. host.read_config p.1) r) ∙ laws.reloaded d1 ∙ valid in
              elim (Bool-cases ((probe host d2).password == some enabled)) [
                | inl y ↦ rw (e, r, y) same
                | inr n ↦ rw (e, r, n) same
              ]
        ]
  ]

  outcome-probe :
      (d d' : D) (u : Unit {0})
      → outcome host enabled d ≡ (ok u, d')
      → (probe host d').password ≡ some enabled
  unfolding outcome
  outcome-probe d d' u h = elim (Run-cases (host.validate_sshd_config d)) [
    | inr (x, d1, e) ↦ absurd (ground (arith, e, h))
    | inl (_, d1, e) ↦ elim (Run-cases (host.reload_sshd d1)) [
      | inr (x, d2, r) ↦ absurd (ground (arith, e, r, h))
      | inl (_, d2, r) ↦ elim (Bool-cases ((probe host d2).password == some enabled)) [
        | inr n ↦ absurd (ground (arith, e, r, n, h))
        | inl y ↦
            let same : d2 ≡ d' = ground (arith, e, r, y, h) in
            ap (λ t. (probe host t).password) (sym same) ∙ ground (arith, y)
      ]
    ]
  ]

  -- What follows a write of the new text.
  settled-IsSettled :
      (d d1 : D) (prev : Text)
      → host.read_config d ≡ ok prev
      → host.read_config d1 ≡ ok (managed_block enabled ++ strip_managed_block prev)
      → left_by d prev ≡ (outcome host enabled d1).1
      → IsSettled d (settled host prev (outcome host enabled d1))
  unfolding IsSettled settled
  settled-IsSettled d d1 prev before new at_end = elim (Run-cases (outcome host enabled d1)) [
    | inl (u, d2, e) ↦
        let config = sym (ap (λ p. host.read_config p.1) e) ∙ outcome-config d1 ∙ new in
        rw e (prev, before, config, outcome-probe d1 d2 u e)
    | inr (x, d2, e) ↦ elim (Run-cases (host.write_atomic prev d2)) [
      | inr (y, d3, w) ↦
          let left : left_by d prev ≡ d2 = at_end ∙ ap (λ p. p.1) e in
          rw e (
            inr (
              prev,
              y,
              d3,
              before,
              ap (host.write_atomic prev) left ∙ w,
              ap (λ p. (host.reload_sshd p.1).1) w,
            ))
      | inl (_, d3, w) ↦ rw e (
          inl (
            laws.reloaded (host.write_atomic prev d2).1
            ∙ ap (λ p. host.read_config p.1) w
            ∙ laws.written prev d2 d3 w
            ∙ sym before))
    ]
  ]

  -- When `set_password_auth` succeeds, the managed block stands before the configuration without
  -- its old block, and sshd says that it follows the new value. When it fails, the configuration is
  -- that from before the call, or the write of this call that puts it back, on the disk that the
  -- failed check or reload left, was refused. This holds for a host whose
  -- writes replace the file or leave it, and whose check and reload do not change it.
  pub set_password_auth-IsSettled : (d : D) → IsSettled d (set_password_auth host enabled d)
  unfolding set_password_auth IsSettled
  set_password_auth-IsSettled d = elim (Result-cases (host.read_config d)) [
    | inr (x, r) ↦ rw r (inl refl)
    | inl (prev, r) ↦
        elim (Run-cases (host.write_atomic (managed_block enabled ++ strip_managed_block prev) d)) [
          | inr (x, d1, w) ↦ rw (r, w) (inl (laws.unwritten _ x d d1 w))
          | inl (_, d1, w) ↦
              rw (r, w)
                (settled-IsSettled d (host.remove_dropin d1) prev r
                  (laws.dropped d1 ∙ laws.written _ d d1 w)
                  (ap (λ p. (outcome host enabled (host.remove_dropin p.1)).1) w))
        ]
  ]
