-- ===== src/Forward.antt =====
-- agent/src/forward.rs: the rules of the store become the rules of the nat table. What the host's
-- interfaces and its resolver say (agent/src/netinfo.rs, agent/src/resolve.rs) is a parameter, a
-- function of the time at which it is asked.
pub mod Resolution
use ipgate.Base.{
  ℕ, nat_eq, option_eq, ◌==◌, Bool, true, false, not, Option, none, some, List, [], ◌∷◌, ◌++◌,
  if◌then◌else◌, Text, String, Result, ok, err, Exec,
}
use ipgate.Base.Maps.{lookup, insert}
use ipgate.Proto.Net.{ForwardId, Ipv4Addr}
use ipgate.Proto.Forwards.{
  ForwardRule, ForwardSource, auto, ip, valid_iface_name, forbidden_forward_target,
}
use ipgate.Store.{State, resolved_ip, set_resolved}
use ipgate.Nft.Backend.{NatBackend, ResolvedForward}
use ipgate.Proto.Ports.{is_nil}
use ipgate.Reconcile.{World}

-- The answers of the host at one time.
pub record Host : Type 0 where
  pub default_route_iface : Option Text
  pub first_ipv4 : Text → Option Ipv4Addr
  pub iface_has_ipv4 : Text → Ipv4Addr → Bool
  pub resolve_ipv4 : Text → Option Ipv4Addr

-- Why a rule is skipped.
pub data SkipReason : Type 0 where
  bad_iface : Text → SkipReason
  no_default_route : SkipReason
  unresolved : Text → SkipReason
  forbidden : Ipv4Addr → String → SkipReason
  no_source : Text → SkipReason

abbrev pub or_skip : {A : Type 0} → Option A → SkipReason → Result SkipReason A
or_skip none e = err e
or_skip (some a) e = ok a

unfoldable pub rule_iface : Host → ForwardRule → Result SkipReason Text
rule_iface host rule = elim rule.iface [
  | some i ↦ if not (valid_iface_name i) then err (bad_iface i) else ok i
  | none ↦ or_skip host.default_route_iface no_default_route
]

unfoldable pub rule_target : Host → ForwardRule → Option Ipv4Addr → Result SkipReason Ipv4Addr
rule_target host rule prev = elim (host.resolve_ipv4 rule.dest_host) [
  | some x ↦ ok x
  | none ↦ or_skip prev (unresolved rule.dest_host)
]

unfoldable pub rule_source : Host → Text → ForwardSource → Result SkipReason Ipv4Addr
rule_source host iface auto = or_skip (host.first_ipv4 iface) (no_source iface)
rule_source host iface (ip x) =
    if host.iface_has_ipv4 iface x then ok x else or_skip (host.first_ipv4 iface) (no_source iface)

unfoldable pub resolve_one :
    Host → ForwardRule → Option Ipv4Addr → Result SkipReason ResolvedForward
unfolding rule_iface rule_target rule_source
resolve_one host rule prev = elim (rule_iface host rule) [
  | err e ↦ err e
  | ok iface ↦ elim (rule_target host rule prev) [
    | err e ↦ err e
    | ok remote ↦ elim (forbidden_forward_target remote) [
      | some why ↦ err (forbidden remote why)
      | none ↦ elim (rule_source host iface rule.source) [
        | err e ↦ err e
        | ok source ↦ ok (record {
          proto = rule.proto;
          iface = iface;
          listen = rule.listen;
          remote_ip = remote;
          dest_port = rule.dest_port;
          source_ip = source;
        })
      ]
    ]
  ]
]

abbrev pub Resolved : Type 0
Resolved = List ResolvedForward × List (ForwardId × Ipv4Addr) × List SkipReason

-- One turn of the loop of `resolve_all`; a later rule with the same id overwrites the cache.
unfoldable pub collect : ForwardRule → Result SkipReason ResolvedForward → Resolved → Resolved
unfolding insert
collect rule (ok rf) (rs, m, es) = (rs ++ rf ∷ [], insert rule.id rf.remote_ip m, es)
collect rule (err e) (rs, m, es) = (rs, m, es ++ e ∷ [])

unfoldable pub resolve_from : Host → State → List ForwardRule → Resolved → Resolved
unfolding collect resolve_one resolved_ip
resolve_from host s [] acc = acc
resolve_from host s (rule ∷ rules) acc =
    resolve_from host s rules (collect rule (resolve_one host rule (resolved_ip s rule.id)) acc)

unfoldable pub resolve_all : Host → State → Resolved
unfolding resolve_from
resolve_all host s = resolve_from host s s.forwards ([], [], [])

module _ {K D : Type 0} (nat : NatBackend K) (ensure_ip_forward : D → D)
    (save : State → Exec D Text (Unit {0})) where
  -- The kernel first; the cache is written and saved when the kernel took the rules, and a failed
  -- save is ignored.
  unfoldable pub commit :
      List ResolvedForward → List (ForwardId × Ipv4Addr) → Exec (World K D) Text (Unit {0})
  unfolding set_resolved
  commit resolved new_map w =
      let disk = if is_nil resolved then w.disk else ensure_ip_forward w.disk in
      let (r, k) =
        if is_nil resolved then nat.flush_nat w.kernel else nat.apply_nat resolved w.kernel in
      let s = set_resolved new_map w.store in
      elim r [
        | err e ↦ (err e, record w { kernel = k; disk = disk })
        | ok u ↦ (ok tt, record w { kernel = k; store = s; disk = (save s disk).1 })
      ]

  unfoldable pub apply_now : Host → Exec (World K D) Text (Unit {0})
  unfolding commit resolve_all
  apply_now host w =
      let (resolved, new_map, warnings) = resolve_all host w.store in commit resolved new_map w

  -- One round of `resolve_loop`: a resolution with the hash of the last loaded one is skipped, and
  -- a failed load keeps the last hash.
  abbrev pub remembered : Option ℕ → ℕ → Result Text (Unit {0}) → Option ℕ
  remembered last h (ok u) = some h
  remembered last h (err e) = last

  unfoldable pub resolve_round :
      (hash_of : List ResolvedForward → ℕ) → Host → Option ℕ → World K D → Option ℕ × World K D
  unfolding commit resolve_all
  resolve_round hash_of host last_hash w =
      let (resolved, new_map, warnings) = resolve_all host w.store in
      let h = hash_of resolved in
      let (r, w') = commit resolved new_map w in
      if some h == last_hash then (last_hash, w) else (remembered last_hash h r, w')
