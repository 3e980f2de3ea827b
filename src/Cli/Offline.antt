-- ===== src/Cli/Offline.antt =====
-- The commands of agent/src/main.rs that edit the stored allowlist while the service is stopped,
-- and the one that takes a rule off dnat's configuration. What is printed is left out.
use ipgate.Base.{
  ℕ, nat_eq, list_eq, ◌==◌, Bool, true, false, ◌&&◌, Option, none, some, ◌++◌, if◌then◌else◌, find,
  Text, lit, decimal, Result, ok, err, Exec, pure, gets, lift, ◌>>=◌, ◌>>◌,
}
use ipgate.Proto.Net.{IpNet, DateTime, DeviceId, EntryId}
use ipgate.Proto.Ports.{PortRange}
use ipgate.Proto.Entries.{AllowRequest}
use ipgate.Store.{State, allow, revoke_by_target}
use ipgate.Nft.Backend.{NftBackend}
use ipgate.Dnat.Conf.{DnatRule, prefix_key}
use ipgate.Dnat.Adapter.{DnatHost, rules, remove_prefix}
use ipgate.Cli.{Command, ArgError, parse_port_range, save_store}

abbrev pub bad_target : {A : Type 0} → Text → Option A → Result Text A
bad_target target none = err (lit "非法 IP/CIDR: " ++ target)
bad_target target (some n) = ok n

-- The nil UUID stands for the console.
abbrev pub console : DeviceId
console = 0

-- `let _ =` before an operation on the kernel.
abbrev pub ignore_kernel : {K D : Type 0} → Exec K Text (Unit {0}) → Command K D (Unit {0})
ignore_kernel f m = (ok tt, record m { kernel = (f m.kernel).1 })

abbrev pub expiry : (later : DateTime → ℕ → DateTime) → DateTime → Option ℕ → Option DateTime
expiry later now none = none
expiry later now (some secs) = some (later now secs)

abbrev pub request : IpNet → Text → Option DateTime → AllowRequest
request net note expires_at = record { target = net; note = note; expires_at = expires_at }

module _ {K D : Type 0} (backend : NftBackend K) (load : D → Result Text State)
    (save : State → Exec D Text (Unit {0})) (parse_net : Text → Option IpNet) where
  unfoldable pub allow_cli :
      (later : DateTime → ℕ → DateTime)
      → EntryId
      → DateTime
      → Text
      → Text
      → Option ℕ
      → Command K D (Unit {0})
  unfolding allow
  allow_cli later id now target note ttl_secs = do
    net ← lift (bad_target target (parse_net target))
    d ← gets (λ m. m.disk)
    s ← lift (load d)
    let (entry, s') = allow id (request net note (expiry later now ttl_secs)) console now s
    save_store save s'
    ignore_kernel (backend.add entry)

  abbrev pub revoked : IpNet → Bool × State → Command K D (Unit {0})
  revoked net (false, s) = pure tt
  revoked net (true, s) = do save_store save s; ignore_kernel (backend.remove net)

  unfoldable pub revoke_cli : Text → Command K D (Unit {0})
  unfolding revoke_by_target
  revoke_cli target = do
    net ← lift (bad_target target (parse_net target))
    d ← gets (λ m. m.disk)
    s ← lift (load d)
    revoked net (revoke_by_target net s)

unfoldable pub fmt_ports : PortRange → Text
fmt_ports p =
    if p.start == p.end then decimal p.start else decimal p.start ++ lit "-" ++ decimal p.end

pub data CommandError : Type 0 where
  argument : ArgError → CommandError
  message : Text → CommandError

abbrev pub listen_or : Result ArgError PortRange → Result CommandError PortRange
listen_or (ok r) = ok r
listen_or (err e) = err (argument e)

abbrev pub rule_found : Text → PortRange → Option DnatRule → Result CommandError DnatRule
rule_found iface listen none =
    err (message (lit "无匹配的 dnat 规则：" ++ iface ++ lit " :" ++ fmt_ports listen))
rule_found iface listen (some r) = ok r

abbrev pub with_message : {S A : Type 0} → Exec S Text A → Exec S CommandError A
with_message f s = let (r, s') = f s in (elim r [ ok a ↦ ok a | err e ↦ err (message e) ], s')

module _ {D : Type 0} (dnat : DnatHost D) where
  unfoldable pub find_dnat_rule : Text → Text → Exec D CommandError DnatRule
  unfolding rules
  find_dnat_rule listen iface = do
    range ← lift (listen_or (parse_port_range listen))
    d ← gets (λ d. d)
    lift (
        rule_found iface range (
          find (λ r. r.listen.start == range.start && r.listen.end == range.end && r.iface == iface)
            (rules dnat d)))

  -- The answer is whether a rule was removed.
  unfoldable pub dnat_rm_cli : Text → Text → Exec D CommandError Bool
  unfolding prefix_key
  dnat_rm_cli listen iface = do
    rule ← find_dnat_rule listen iface
    with_message (remove_prefix dnat (prefix_key rule))
