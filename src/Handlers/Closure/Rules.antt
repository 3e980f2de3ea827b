-- ===== src/Handlers/Closure/Rules.antt =====
-- The handlers of the forwards, native and of dnat, and the loop that resolves them.
use ipgate.Base.{
  ◌≡◌, arith, sym, ap, subst, inl, inr, nat_eq, list_eq, option_eq, ◌==◌, not, Option, some, List,
  Text, lit, ok, lift, ℕ, any, continue, Preserves, Preserves-bind, Bool-cases, Result-cases,
  is_some,
}
use ipgate.Proto.Net.{DeviceId, ForwardId, DateTime}
use ipgate.Proto.Errors.{api_error, conflict}
use ipgate.Proto.Forwards.{AddForwardRequest, ForwardRule, validate_ports}
use ipgate.Store.{State, find_forward, resolved_ip}
use ipgate.Store
use ipgate.Nft.Backend.{NatBackend, ResolvedForward}
use ipgate.Forward.{Host, resolve_all, apply_now, resolve_round}
use ipgate.Forward.Resolution.{apply_now_store}
use ipgate.Dnat.Conf.{DnatRule}
use ipgate.Dnat.Adapter.{DnatHost, remove_prefix, find_rule_by_prefix, dnat_rule_to_add_request}
use ipgate.Reconcile.{World}
use ipgate.Handlers.App.{App, Handler, save_store, on_disk, require, nft_error}
use ipgate.Handlers.Forwards.{
  check_forward_request, load_forwards, add_forward, update_forward, remove_forward, other_overlaps,
  found_rule, no_rule,
}
use ipgate.Handlers.Forwards.Overlaps.{accepted, input_ok}
use ipgate.Handlers.Dnat.{
  dnat_prefix_from_key, remove_dnat_forward, ports_check, input_check, free_check, build_native,
  roll_back, hand_over, migrate_dnat_forward, or_error, no_dnat_rule, not_removed,
}
use ipgate.Handlers.Closure.{IsClosed, IsFit}

checked-IsFit :
    (host : Host) (dnat : Option (List DnatRule)) (req : AddForwardRequest)
    → check_forward_request host dnat req ≡ ok tt
    → IsFit req
checked-IsFit host dnat req h =
    let (fit, _, named, free, _) = accepted host dnat req h in
    record { ports = fit; named = named; allowed = free }

rule-IsFit :
    (rule : DnatRule)
    → ports_check rule ≡ ok tt
    → input_check rule ≡ ok tt
    → IsFit (dnat_rule_to_add_request rule)
unfolding ports_check input_check dnat_rule_to_add_request
rule-IsFit rule fits safe = elim (Result-cases (validate_ports rule.listen rule.dest_port)) [
  | inr (e, bad) ↦ absurd (ground (arith, fits))
  | inl (_, good) ↦
      let (named, free) = input_ok (some rule.iface) rule.remote_host safe in
      record { ports = good; named = named; allowed = free }
]

module _ {K D : Type 0} (app : App K D) (nat : NatBackend K) (ensure_ip_forward : D → D)
    (host : Host) (P : State → Type 0) (laws : IsClosed app.cfg P) where
  abbrev Q : World K D → Type 0
  Q w = P w.store

  load_forwards-Preserves : Preserves Q (load_forwards app nat ensure_ip_forward host)
  unfolding Store.set_resolved
  load_forwards-Preserves w h = elim (apply_now_store nat ensure_ip_forward app.save host w) [
    | inl (e, bad, same) ↦ subst P (sym same) h
    | inr (good, same) ↦
        subst P (sym same) (laws.targets_resolved (resolve_all host w.store).1 w.store h)
  ]

  -- Saving, and then loading the kernel.
  saved_and_loaded :
      {A : Type 0} (next : Handler K D A) (w : World K D)
      → P w.store
      → Preserves Q next
      → P
          (continue (save_store app w) (λ _ w1.
            continue (load_forwards app nat ensure_ip_forward host w1) (λ _. next))).1.store
  saved_and_loaded next w h last = Preserves-bind Q (save_store app) _ w h (λ _ w1 _ h1.
      Preserves-bind Q (load_forwards app nat ensure_ip_forward host) _ w1
        (load_forwards-Preserves w1 h1) (λ _ w2 _ h2. last w2 h2))

  pub add_forward-Preserves :
      (dnat : Option (List DnatRule)) (id : ForwardId) (by : DeviceId) (now : DateTime)
      (req : AddForwardRequest)
      → Preserves Q (add_forward app nat ensure_ip_forward host dnat id by now req)
  unfolding add_forward
  add_forward-Preserves dnat id by now req w h =
      Preserves-bind Q (lift (check_forward_request host dnat req)) _ w h (λ _ w1 good h1.
        saved_and_loaded _ (record w1 { store = (Store.add_forward id req by now w1.store).1 })
          (laws.rule_added id req by now w1.store (checked-IsFit host dnat req (ap (λ p. p.0) good))
            h1)
          (λ w2 h2. h2))

  pub update_forward-Preserves :
      (dnat : Option (List DnatRule)) (id : ForwardId) (req : AddForwardRequest)
      → Preserves Q (update_forward app nat ensure_ip_forward host dnat id req)
  unfolding update_forward
  update_forward-Preserves dnat id req w h =
      Preserves-bind Q (lift (check_forward_request host dnat req)) _ w h (λ _ w1 good h1.
        let fit = checked-IsFit host dnat req (ap (λ p. p.0) good) in
        Preserves-bind Q
          (lift (
            require (not (any (other_overlaps host id req) w1.store.forwards))
              (api_error conflict (lit "监听端口与另一条转发重叠"))))
          _ w1 h1
          (λ _ w2 _ h2.
            Preserves-bind Q
              (lift (
                found_rule app nat ensure_ip_forward host dnat
                  (Store.update_forward id req w2.store).0))
              _ (record w2 { store = (Store.update_forward id req w2.store).1 })
              (laws.rule_updated id req w2.store fit h2)
              (λ rule w3 _ h3. saved_and_loaded _ w3 h3 (λ w4 h4. h4))))

  pub remove_forward-Preserves :
      (dnat : Option (List DnatRule)) (id : ForwardId)
      → Preserves Q (remove_forward app nat ensure_ip_forward host dnat id)
  unfolding remove_forward
  remove_forward-Preserves dnat id w h =
      let (found, s) = Store.remove_forward id w.store in
      Preserves-bind Q (lift (require found no_rule)) _ (record w { store = s })
        (laws.rule_removed id w.store h)
        (λ _ w1 _ h1.
          Preserves-bind Q (save_store app) _ w1 h1 (λ _ w2 _ h2. load_forwards-Preserves w2 h2))

  build_native-Preserves :
      (id : ForwardId) (by : DeviceId) (now : DateTime) (rule : DnatRule)
      → Preserves Q (build_native app host id by now rule)
  unfolding build_native
  build_native-Preserves id by now rule w h =
      Preserves-bind Q (lift (ports_check rule)) _ w h (λ _ w1 fits h1.
        Preserves-bind Q (lift (input_check rule)) _ w1 h1 (λ _ w2 safe h2.
          Preserves-bind Q (lift (free_check host rule w2.store)) _ w2 h2 (λ _ w3 _ h3.
            let req = dnat_rule_to_add_request rule in
            Preserves-bind Q (save_store app) _
              (record w3 { store = (Store.add_forward id req by now w3.store).1 })
              (laws.rule_added id req by now w3.store
                (rule-IsFit rule (ap (λ p. p.0) fits) (ap (λ p. p.0) safe)) h3)
              (λ _ w4 _ h4. h4))))

  roll_back-Preserves : (id : ForwardId) → Preserves Q (roll_back app nat ensure_ip_forward host id)
  unfolding roll_back
  roll_back-Preserves id w h =
      let w1 = record w { store = (Store.remove_forward id w.store).1 } in
      load_forwards-Preserves (save_store app w1).1 (laws.rule_removed id w.store h)

  hand_over-Preserves :
      (dnat : DnatHost D) (id : ForwardId) (new : ForwardRule) (prefix : Text)
      → Preserves Q (hand_over dnat id new prefix)
  unfolding hand_over
  hand_over-Preserves dnat id new prefix w h =
      Preserves-bind Q (on_disk not_removed (remove_prefix dnat prefix)) _ w h (λ _ w1 _ h1. h1)

  pub migrate_dnat_forward-Preserves :
      (dnat : DnatHost D) (id : ForwardId) (by : DeviceId) (now : DateTime) (key : Text)
      → Preserves Q (migrate_dnat_forward app nat ensure_ip_forward host dnat id by now key)
  unfolding migrate_dnat_forward
  migrate_dnat_forward-Preserves dnat id by now key w h =
      Preserves-bind Q (lift (dnat_prefix_from_key dnat key w.disk)) _ w h (λ prefix w1 _ h1.
        Preserves-bind Q (lift (or_error no_dnat_rule (find_rule_by_prefix dnat prefix w.disk))) _
          w1 h1
          (λ rule w2 _ h2.
            Preserves-bind Q (build_native app host id by now rule) _ w2
              (build_native-Preserves id by now rule w2 h2)
              (λ new w3 _ h3.
                Preserves-bind Q (load_forwards app nat ensure_ip_forward host) _ w3
                  (load_forwards-Preserves w3 h3)
                  (λ _ w4 _ h4. elim (Bool-cases (is_some (resolved_ip w4.store id))) [
                    | inl live ↦ rw live (hand_over-Preserves dnat id new prefix w4 h4)
                    | inr dead ↦ rw dead (roll_back-Preserves id w4 h4)
                  ]))))

  pub remove_dnat_forward-Preserves :
      (dnat : DnatHost D) (key : Text) → Preserves Q (remove_dnat_forward dnat key)
  unfolding remove_dnat_forward
  remove_dnat_forward-Preserves dnat key w h =
      Preserves-bind Q (lift (dnat_prefix_from_key dnat key w.disk)) _ w h (λ prefix w1 _ h1.
        Preserves-bind Q (on_disk nft_error (remove_prefix dnat prefix)) _ w1 h1 (λ _ w2 _ h2. h2))

  -- One round of the loop that resolves the forwards again.
  pub resolve_round-Preserves :
      (hash_of : List ResolvedForward → ℕ) (last : Option ℕ) (w : World K D)
      → P w.store
      → P (resolve_round nat ensure_ip_forward app.save hash_of host last w).1.store
  unfolding resolve_round apply_now
  resolve_round-Preserves hash_of last w h =
      elim (Bool-cases (some (hash_of (resolve_all host w.store).0) == last)) [
        | inl same ↦ rw same h
        | inr new ↦ rw new (load_forwards-Preserves w h)
      ]
