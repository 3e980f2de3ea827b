-- ===== src/Agent/WellFormed/Rules.antt =====
-- Every stored forward has passed the checks of its ports, its interface name and its target.
use ipgate.Base.{nat_eq, ◌==◌, Bool-cases, inl, inr, List, [], ◌∷◌, All, All-retain, All-append}
use ipgate.Proto.Net.{ForwardId}
use ipgate.Proto.Forwards.{ForwardRule, AddForwardRequest}
use ipgate.Config.{AgentConfig}
use ipgate.Store.{
  State, allow, revoke_by_target, remove_device, remove_forward, set_resolved, prune_expired,
  add_forward, edit_first, edit_rule,
}
use ipgate.Store.Forwards.{update_forward_keeps}
use ipgate.Handlers.Closure.{IsClosed, IsFit}

-- The request that would make the rule.
abbrev pub rule_request : ForwardRule → AddForwardRequest
rule_request f = record {
  proto = f.proto;
  iface = f.iface;
  listen = f.listen;
  dest_host = f.dest_host;
  dest_port = f.dest_port;
  source = f.source;
  note = f.note;
}

abbrev pub HasFitRules : State → Type 0
HasFitRules s = All (λ f. IsFit (rule_request f)) s.forwards

edit_first-IsFit :
    (id : ForwardId) (req : AddForwardRequest) (fs : List ForwardRule)
    → IsFit req
    → All (λ f. IsFit (rule_request f)) fs
    → All (λ f. IsFit (rule_request f)) (edit_first id req fs)
unfolding edit_first edit_rule
edit_first-IsFit id req [] fit h = tt
edit_first-IsFit id req (f ∷ fs) fit (hf, h) = elim (Bool-cases (f.id == id)) [
  | inl e ↦ rw e (fit, h)
  | inr e ↦ rw e (hf, edit_first-IsFit id req fs fit h)
]

pub HasFitRules-IsClosed : (cfg : AgentConfig) → IsClosed cfg HasFitRules
unfolding allow revoke_by_target prune_expired remove_device remove_forward set_resolved add_forward
HasFitRules-IsClosed cfg = record {
  entry_allowed = λ id req by now s h. h;
  entry_revoked = λ t s h. h;
  entries_pruned = λ now s h. h;
  device_removed = λ id s h. h;
  ssh_set = λ now on s g h. h;
  gate_set = λ on s h. h;
  ports_set = λ ports s c h. h;
  rule_added = λ id req by now s f h. All-append _ _ _ (All-retain _ _ s.forwards h) (f, tt);
  rule_updated = λ id req s f h.
      update_forward_keeps HasFitRules id req s (λ m. edit_first-IsFit id req s.forwards f h) h;
  rule_removed = λ id s h. All-retain _ _ s.forwards h;
  targets_resolved = λ m s h. h;
}
