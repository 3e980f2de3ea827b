-- ===== src/Handlers/Dnat/Handover.antt =====
-- A migration that succeeds: the native rule serves and the rule of dnat is gone.
use ipgate.Base.{
  ◌==◌, nat_eq, list_eq, option_eq, Bool, true, false, not, some, List, [], ◌∷◌, Text, any, is_some,
  ok, lift, ◌≡◌, refl, ap, ◌∙◌, inl, inr, arith, Run-cases, Bool-cases, Option-cases, retain,
  find-test, subst, Returns, Returns-bind, returns-ok,
}
use ipgate.Proto.Net.{DeviceId, ForwardId, DateTime}
use ipgate.Proto.Forwards.{ForwardRule, ForwardView}
use ipgate.Store.{State, find_forward, resolved_ip, new_rule}
use ipgate.Store
use ipgate.Nft.Backend.{NatBackend}
use ipgate.Forward.{Host}
use ipgate.Dnat.Conf.{DnatRule}
use ipgate.Dnat.Conf.Removal.{has_key}
use ipgate.Dnat.Adapter.{
  DnatHost, rules, remove_prefix, present, decode_key, find_rule_by_prefix,
  dnat_rule_to_add_request,
}
use ipgate.Dnat.Adapter.Draining.{IsDnatHost, IsDeletion, remove_prefix-IsDeletion}
use ipgate.Reconcile.{World}
use ipgate.Handlers.App.{App, save_store}
use ipgate.Handlers.Forwards.{forward_view, rule_or, load_forwards}
use ipgate.Handlers.Dnat.{
  ports_check, input_check, free_check, dnat_prefix_from_key, build_native, roll_back, hand_over,
  migrate_dnat_forward, or_error, no_dnat_rule,
}

any-retained :
    {A : Type 0} (p : A → Bool) (xs : List A) → any p (retain (λ x. not (p x)) xs) ≡ false
unfolding any retain
any-retained p [] = refl
any-retained p (x ∷ xs) = elim (Bool-cases (p x)) [
  | inl e ↦ rw e (any-retained p xs)
  | inr e ↦ rw e (rw e (any-retained p xs))
]

rule_or-id :
    (s : State) (id : ForwardId) (new : ForwardRule)
    → new.id ≡ id
    → (rule_or (find_forward s id) new).id ≡ id
unfolding find_forward
rule_or-id s id new h = elim (Option-cases (find_forward s id)) [
  | inl e ↦ rw e h
  | inr (r, e) ↦ let hit = find-test (λ f. f.id == id) s.forwards e in rw e (ground (arith, hit))
]

build_native-id :
    {K D : Type 0} (app : App K D) (host : Host) (id : ForwardId) (by : DeviceId) (now : DateTime)
    (rule : DnatRule) (w : World K D)
    → Returns (λ new _. new.id ≡ id) (build_native app host id by now rule w)
unfolding build_native Store.add_forward
build_native-id app host id by now rule w = Returns-bind _ (lift (ports_check rule)) _ w (λ _ w1 _.
    Returns-bind _ (lift (input_check rule)) _ w1 (λ _ w2 _.
      Returns-bind _ (lift (free_check host rule w2.store)) _ w2 (λ _ w3 _.
        Returns-bind _ (save_store app) _
          (record w3 {
            store = (Store.add_forward id (dnat_rule_to_add_request rule) by now w3.store).1;
          })
          (λ _ w4 _. refl))))

-- The view says that the forward is active, and no rule of dnat has the key.
abbrev pub IsMigrated : {K D : Type 0} → DnatHost D → Text → ForwardView → World K D → Type 0
IsMigrated dnat prefix view w =
    (view.active ≡ true) × (any (has_key prefix) (rules dnat w.disk) ≡ false)

module _ {D : Type 0} (dnat : DnatHost D) (laws : IsDnatHost dnat) (prefix : Text) where
  deleted :
      (d d' : D) (b : Bool)
      → remove_prefix dnat prefix d ≡ (ok b, d')
      → rules dnat d' ≡ retain (λ r. not (has_key prefix r)) (rules dnat d)
  unfolding IsDeletion
  deleted d d' b e =
      let all : IsDeletion dnat prefix d (ok b, d') =
        subst (IsDeletion dnat prefix d) e (remove_prefix-IsDeletion dnat prefix laws d) in
      all.1

module _ {K D : Type 0} (dnat : DnatHost D) (laws : IsDnatHost dnat) (prefix : Text) where
  hand_over-IsMigrated :
      (id : ForwardId) (new : ForwardRule) (w : World K D)
      → new.id ≡ id
      → is_some (resolved_ip w.store id) ≡ true
      → Returns (IsMigrated dnat prefix) (hand_over dnat id new prefix w)
  unfolding hand_over forward_view
  hand_over-IsMigrated id new w named live = elim (Run-cases (remove_prefix dnat prefix w.disk)) [
    | inr (x, d, e) ↦ rw e tt
    | inl (b, d, e) ↦ rw e (
      rw (rule_or-id w.store id new named) live,
      ap (any (has_key prefix)) (deleted dnat laws prefix w.disk d b e)
          ∙ any-retained (has_key prefix) (rules dnat w.disk),
    )
  ]

roll_back-Returns :
    {K D : Type 0} (app : App K D) (nat : NatBackend K) (ensure_ip_forward : D → D) (host : Host)
    (id : ForwardId) (P : ForwardView → World K D → Type 0) (w : World K D)
    → Returns P (roll_back app nat ensure_ip_forward host id w)
unfolding roll_back
roll_back-Returns app nat ensure_ip_forward host id P w = tt

prefix_of_key :
    {D : Type 0} (dnat : DnatHost D) (key prefix p : Text) (d : D)
    → decode_key dnat key ≡ some prefix
    → dnat_prefix_from_key dnat key d ≡ ok p
    → p ≡ prefix
unfolding dnat_prefix_from_key
prefix_of_key dnat key prefix p d known h = elim (Bool-cases (present dnat d)) [
  | inl e ↦ ground (arith, e, h, known)
  | inr e ↦ absurd (ground (arith, e, h))
]

-- When a migration returns no error, the native forward that it shows is active, and no rule of
-- dnat has the key any more. This holds where the lock and `dnat apply` leave the configuration of
-- dnat alone.
pub migrate_dnat_forward-IsMigrated :
    {K D : Type 0} (app : App K D) (nat : NatBackend K) (ensure_ip_forward : D → D) (host : Host)
    (dnat : DnatHost D) (laws : IsDnatHost dnat) (id : ForwardId) (by : DeviceId) (now : DateTime)
    (key prefix : Text) (known : decode_key dnat key ≡ some prefix) (w : World K D)
    → Returns
        (IsMigrated dnat prefix)
        (migrate_dnat_forward app nat ensure_ip_forward host dnat id by now key w)
unfolding migrate_dnat_forward
migrate_dnat_forward-IsMigrated app nat ensure_ip_forward host dnat laws id by now key prefix known
      w =
    Returns-bind _ (lift (dnat_prefix_from_key dnat key w.disk)) _ w (λ p w1 e1.
      Returns-bind _ (lift (or_error no_dnat_rule (find_rule_by_prefix dnat p w.disk))) _ w1
        (λ rule w2 _. Returns-bind _ (build_native app host id by now rule) _ w2 (λ new w3 e3.
          Returns-bind _ (load_forwards app nat ensure_ip_forward host) _ w3 (λ _ w4 _.
            elim (Bool-cases (is_some (resolved_ip w4.store id))) [
              | inr e ↦
                  rw e (
                    roll_back-Returns app nat ensure_ip_forward host id (IsMigrated dnat prefix) w4)
              | inl e ↦ rw e (
                  subst (λ q. Returns (IsMigrated dnat q) (hand_over dnat id new p w4))
                    (prefix_of_key dnat key prefix p w.disk known (ap (λ r. r.0) e1))
                    (hand_over-IsMigrated dnat laws p id new w4
                      (returns-ok _ _ new w3 (build_native-id app host id by now rule w2) e3) e))
            ]))))
