-- ===== src/Handlers/Dnat/Migration.antt =====
-- A migration at every point where it may end: a rule is never left without one that serves it.
use ipgate.Base.{
  nat_eq, list_eq, option_eq, true, List, [], ◌∷◌, Text, is_some, Result, ok, lift, continue, ◌≡◌,
  refl, sym, ap, ◌∙◌, ◌⊎◌, inl, inr, Run-cases, Bool-cases,
}
use ipgate.Proto.Net.{DeviceId, ForwardId, DateTime, Ipv4Addr}
use ipgate.Proto.Errors.{ApiError}
use ipgate.Proto.Ports.{is_nil}
use ipgate.Proto.Forwards.{ForwardRule}
use ipgate.Store.{State, find_forward, resolved_ip}
use ipgate.Store
use ipgate.Nft.Backend.{NatBackend, ResolvedForward}
use ipgate.Forward.{Host, commit, apply_now, resolve_all}
use ipgate.Dnat.Conf.{DnatRule}
use ipgate.Dnat.Adapter.{DnatHost, remove_prefix, find_rule_by_prefix, dnat_rule_to_add_request}
use ipgate.Reconcile.{World}
use ipgate.Handlers.App.{App, Handler, save_store}
use ipgate.Handlers.Forwards.{load_forwards}
use ipgate.Handlers.Dnat.{
  ports_check, input_check, free_check, dnat_prefix_from_key, build_native, roll_back, hand_over,
  migrate_dnat_forward, or_error,
}

-- The agent's own files lie apart from those of dnat.
pub record IsApart {K D : Type 0} (app : App K D) (ensure_ip_forward : D → D) (dnat : DnatHost D)
    : Type 0 where
  pub saved : (s : State) (d : D) → dnat.conf_text (app.save s d).1 ≡ dnat.conf_text d
  pub ensured : (d : D) → dnat.conf_text (ensure_ip_forward d) ≡ dnat.conf_text d

module _ {K D : Type 0} (dnat : DnatHost D) where
  -- A step that does not touch the configuration of dnat.
  abbrev pub Keeps : {A : Type 0} → Handler K D A → Type 0
  Keeps m = (w : World K D) → dnat.conf_text (m w).1.disk ≡ dnat.conf_text w.disk

  Keeps-bind :
      {A B : Type 0} (m : Handler K D A) (f : A → Handler K D B) (w : World K D)
      → dnat.conf_text (m w).1.disk ≡ dnat.conf_text w.disk
      → ((a : A) → Keeps (f a))
      → dnat.conf_text (continue (m w) f).1.disk ≡ dnat.conf_text w.disk
  Keeps-bind m f w km kf = elim (Run-cases (m w)) [
    | inl (a, w', e) ↦ rw e (kf a w' ∙ sym (ap (λ p. dnat.conf_text p.1.disk) e) ∙ km)
    | inr (x, w', e) ↦ rw e (sym (ap (λ p. dnat.conf_text p.1.disk) e) ∙ km)
  ]

module _ {K D : Type 0} (dnat : DnatHost D) (id : ForwardId) (t : Text) where
  -- The configuration of dnat still has the text, or the native rule is resolved.
  abbrev pub IsServed : {A : Type 0} → Result ApiError A × World K D → Type 0
  IsServed (_, w) = (dnat.conf_text w.disk ≡ t) ⊎ (is_some (resolved_ip w.store id) ≡ true)

  IsServed-bind :
      {A B : Type 0} (m : Handler K D A) (f : A → Handler K D B) (w : World K D)
      → Keeps dnat m
      → dnat.conf_text w.disk ≡ t
      → ((a : A) (w' : World K D)
          → m w ≡ (ok a, w')
          → dnat.conf_text w'.disk ≡ t
          → IsServed (f a w'))
      → IsServed (continue (m w) f)
  IsServed-bind m f w keeps h next = elim (Run-cases (m w)) [
    | inl (a, w', e) ↦ rw e (next a w' e (sym (ap (λ p. dnat.conf_text p.1.disk) e) ∙ keeps w ∙ h))
    | inr (x, w', e) ↦ rw e (inl (sym (ap (λ p. dnat.conf_text p.1.disk) e) ∙ keeps w ∙ h))
  ]

module _ {K D : Type 0} (app : App K D) (nat : NatBackend K) (ensure_ip_forward : D → D)
    (host : Host) (dnat : DnatHost D) (apart : IsApart app ensure_ip_forward dnat) where
  save_store-Keeps : Keeps dnat (save_store app)
  save_store-Keeps w = apart.saved w.store w.disk

  commit-conf :
      (rs : List ResolvedForward) (m : List (ForwardId × Ipv4Addr)) (w : World K D)
      → dnat.conf_text (commit nat ensure_ip_forward app.save rs m w).1.disk ≡ dnat.conf_text w.disk
  unfolding commit is_nil
  commit-conf [] m w = elim (Run-cases (nat.flush_nat w.kernel)) [
    | inl (_, k, r) ↦ rw r (apart.saved _ w.disk)
    | inr (x, k, r) ↦ rw r
  ]
  commit-conf (f ∷ rs) m w = elim (Run-cases (nat.apply_nat (f ∷ rs) w.kernel)) [
    | inl (_, k, r) ↦ rw r (apart.saved _ (ensure_ip_forward w.disk) ∙ apart.ensured w.disk)
    | inr (x, k, r) ↦ rw r (apart.ensured w.disk)
  ]

  load_forwards-Keeps : Keeps dnat (load_forwards app nat ensure_ip_forward host)
  unfolding apply_now
  load_forwards-Keeps w = commit-conf (resolve_all host w.store).0 (resolve_all host w.store).1 w

  build_native-Keeps :
      (id : ForwardId) (by : DeviceId) (now : DateTime) (rule : DnatRule)
      → Keeps dnat (build_native app host id by now rule)
  unfolding build_native
  build_native-Keeps id by now rule = λ w.
      Keeps-bind dnat (lift (ports_check rule)) _ w refl (λ _ w1.
        Keeps-bind dnat (lift (input_check rule)) _ w1 refl (λ _ w2.
          Keeps-bind dnat (lift (free_check host rule w2.store)) _ w2 refl (λ _ w3.
            Keeps-bind dnat (save_store app) _
              (record w3 {
                store = (Store.add_forward id (dnat_rule_to_add_request rule) by now w3.store).1;
              })
              (apart.saved _ _) (λ _ w4. refl))))

  roll_back-Keeps : (id : ForwardId) → Keeps dnat (roll_back app nat ensure_ip_forward host id)
  unfolding roll_back
  roll_back-Keeps id w = load_forwards-Keeps _ ∙ apart.saved _ w.disk

  hand_over-IsServed :
      (id : ForwardId) (new : ForwardRule) (prefix : Text) (w : World K D)
      → is_some (resolved_ip w.store id) ≡ true
      → is_some (resolved_ip (hand_over dnat id new prefix w).1.store id) ≡ true
  unfolding hand_over
  hand_over-IsServed id new prefix w live = elim (Run-cases (remove_prefix dnat prefix w.disk)) [
    | inl (b, d, e) ↦ rw e live
    | inr (x, d, e) ↦ rw e live
  ]

  -- Wherever a migration ends, with an error or without one, the configuration of dnat still has
  -- the text it had, or the native rule that takes the place of the rule is resolved. This holds
  -- where the files that the agent writes lie apart from the configuration of dnat.
  pub migrate_dnat_forward-IsServed :
      (id : ForwardId) (by : DeviceId) (now : DateTime) (key : Text) (w : World K D)
      → IsServed dnat id
          (dnat.conf_text w.disk)
          (migrate_dnat_forward app nat ensure_ip_forward host dnat id by now key w)
  unfolding migrate_dnat_forward
  migrate_dnat_forward-IsServed id by now key w =
      IsServed-bind dnat id _ (lift (dnat_prefix_from_key dnat key w.disk)) _ w (λ _. refl) refl
        (λ prefix w1 _ h1.
          IsServed-bind dnat id _ (lift (or_error _ (find_rule_by_prefix dnat prefix w.disk))) _ w1
            (λ _. refl) h1
            (λ rule w2 _ h2.
              IsServed-bind dnat id _ (build_native app host id by now rule) _ w2
                (build_native-Keeps id by now rule) h2
                (λ new w3 _ h3.
                  IsServed-bind dnat id _ (load_forwards app nat ensure_ip_forward host) _ w3
                    load_forwards-Keeps h3
                    (λ _ w4 _ h4. elim (Bool-cases (is_some (resolved_ip w4.store id))) [
                      | inl e ↦ rw e (inr (hand_over-IsServed id new prefix w4 e))
                      | inr e ↦ rw e (inl (roll_back-Keeps id w4 ∙ h4))
                    ]))))
