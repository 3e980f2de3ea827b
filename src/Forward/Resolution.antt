-- ===== src/Forward/Resolution.antt =====
-- What reaches the nat table: safe names and allowed targets only.
use ipgate.Base.{
  ◌≡◌, ◌⊎◌, inl, inr, refl, sym, ◌∙◌, ap, arith, true, Option, none, some, List, [], ◌∷◌, Text, All,
  All-append, Option-cases, Result, ok, err, Result-cases, Run-cases, Exec,
}
use ipgate.Proto.Net.{ForwardId, Ipv4Addr}
use ipgate.Proto.Forwards.{ForwardRule, valid_iface_name, forbidden_forward_target}
use ipgate.Store.{State, resolved_ip, set_resolved}
use ipgate.Proto.Ports.{is_nil}
use ipgate.Nft.Backend.{NatBackend, ResolvedForward}
use ipgate.Reconcile.{World}
use ipgate.Forward.{
  Host, SkipReason, rule_iface, rule_target, rule_source, resolve_one, Resolved, collect,
  resolve_from, resolve_all, commit, apply_now,
}

-- The name passes the white list and the target is allowed.
abbrev pub IsSafe : ResolvedForward → Type 0
IsSafe rf = (valid_iface_name rf.iface ≡ true) × (forbidden_forward_target rf.remote_ip ≡ none)

-- The host's own interfaces have names that pass the white list.
abbrev pub HasPlainRoute : Host → Type 0
HasPlainRoute host = (i : Text) → host.default_route_iface ≡ some i → valid_iface_name i ≡ true

rule_iface-valid :
    (host : Host) (rule : ForwardRule) (i : Text)
    → HasPlainRoute host
    → rule_iface host rule ≡ ok i
    → valid_iface_name i ≡ true
unfolding rule_iface
rule_iface-valid host rule i plain h = elim (Option-cases rule.iface) [
  | inr (j, given) ↦ ground arith
  | inl unset ↦ elim (Option-cases host.default_route_iface) [
    | inl no_route ↦ absurd (ground arith)
    | inr (j, route) ↦ ground (arith, plain j route)
  ]
]

-- A rule that is resolved has a safe name and an allowed target, whatever the resolver answered and
-- whatever address was cached.
resolve_one-IsSafe :
    (host : Host) (rule : ForwardRule) (prev : Option Ipv4Addr) (rf : ResolvedForward)
    → HasPlainRoute host
    → resolve_one host rule prev ≡ ok rf
    → IsSafe rf
unfolding resolve_one
resolve_one-IsSafe host rule prev rf plain h = elim (Result-cases (rule_iface host rule)) [
  | inr (e, bad) ↦ absurd (ground arith)
  | inl (i, named) ↦ elim (Result-cases (rule_target host rule prev)) [
    | inr (e, bad) ↦ absurd (ground arith)
    | inl (x, target) ↦ elim (Option-cases (forbidden_forward_target x)) [
      | inr (why, bad) ↦ absurd (ground arith)
      | inl allowed ↦ elim (Result-cases (rule_source host i rule.source)) [
        | inr (e, bad) ↦ absurd (ground arith)
        | inl (src, source) ↦
            let e1 : i ≡ rf.iface = ground arith in
            let e2 : x ≡ rf.remote_ip = ground arith in
            (
              ap valid_iface_name (sym e1) ∙ rule_iface-valid host rule i plain named,
              ap forbidden_forward_target (sym e2) ∙ allowed,
            )
      ]
    ]
  ]
]

collect-IsSafe :
    (rule : ForwardRule) (r : Result SkipReason ResolvedForward) (acc : Resolved)
    → ((rf : ResolvedForward) → r ≡ ok rf → IsSafe rf)
    → All IsSafe acc.0
    → All IsSafe (collect rule r acc).0
unfolding collect
collect-IsSafe rule (err e) (rs, m, es) safe h = h
collect-IsSafe rule (ok rf) (rs, m, es) safe h = All-append _ rs (rf ∷ []) h (safe rf refl, tt)

resolve_from-IsSafe :
    (host : Host) (s : State) (rules : List ForwardRule) (acc : Resolved)
    → HasPlainRoute host
    → All IsSafe acc.0
    → All IsSafe (resolve_from host s rules acc).0
unfolding resolve_from
resolve_from-IsSafe host s [] acc plain h = h
resolve_from-IsSafe host s (rule ∷ rules) acc plain h = resolve_from-IsSafe host s rules _ plain (
    collect-IsSafe rule (resolve_one host rule (resolved_ip s rule.id)) acc
      (λ rf good. resolve_one-IsSafe host rule (resolved_ip s rule.id) rf plain good) h)

-- Every rule given to the nat table has an interface name of the white list and a target outside
-- the forbidden ranges, whatever the resolver answers now or answered before.
pub resolve_all-IsSafe :
    (host : Host) (s : State) → HasPlainRoute host → All IsSafe (resolve_all host s).0
unfolding resolve_all
resolve_all-IsSafe host s plain = resolve_from-IsSafe host s s.forwards ([], [], []) plain tt

-- The two outcomes of a write of the nat table for the store.
abbrev pub IsCommitted :
    {K D : Type 0}
    → List (ForwardId × Ipv4Addr)
    → World K D
    → Result Text (Unit {0}) × World K D
    → Type 0
IsCommitted new_map w run =
    ((e : Text) × (run.0 ≡ err e) × (run.1.store ≡ w.store))
    ⊎ ((run.0 ≡ ok tt) × (run.1.store ≡ record w.store { resolved = new_map }))

commit_lem :
    {K D : Type 0} (nat : NatBackend K) (ensure_ip_forward : D → D)
    (save : State → Exec D Text (Unit {0})) (rs : List ResolvedForward)
    (new_map : List (ForwardId × Ipv4Addr)) (w : World K D)
    → IsCommitted new_map w (commit nat ensure_ip_forward save rs new_map w)
unfolding commit is_nil set_resolved
commit_lem nat ensure_ip_forward save [] new_map w = elim (Run-cases (nat.flush_nat w.kernel)) [
  | inl (u, k, good) ↦ inr (ground arith, ground arith)
  | inr (e, k, bad) ↦ inl (e, ground arith, ground arith)
]
commit_lem nat ensure_ip_forward save (r ∷ rs) new_map w =
    elim (Run-cases (nat.apply_nat (r ∷ rs) w.kernel)) [
      | inl (u, k, good) ↦ inr (ground arith, ground arith)
      | inr (e, k, bad) ↦ inl (e, ground arith, ground arith)
    ]

-- When the kernel refuses the rules, the store stays as it was; when it takes them, the cache is
-- what was resolved, and nothing else of the store changes.
pub apply_now_store :
    {K D : Type 0} (nat : NatBackend K) (ensure_ip_forward : D → D)
    (save : State → Exec D Text (Unit {0})) (host : Host) (w : World K D)
    → IsCommitted (resolve_all host w.store).1 w (apply_now nat ensure_ip_forward save host w)
unfolding apply_now
apply_now_store nat ensure_ip_forward save host w =
    let (rs, m, es) = resolve_all host w.store in commit_lem nat ensure_ip_forward save rs m w
