-- ===== src/Cli.antt =====
-- The commands of agent/src/main.rs that switch the exposure, and how they read their arguments.
-- Loading and saving the store are parameters; what is printed and the restart of the service are
-- left out.
pub mod Rescue
pub mod Offline
pub mod Forwarding
use ipgate.Base.{
  ℕ, ◌+◌, ◌==◌, nat_eq, list_eq, Bool, true, false, not, ◌&&◌, ◌||◌, Option, none, some, List, [],
  ◌∷◌, ◌++◌, map, leb, if◌then◌else◌, Text, lit, trim, parse_unsigned, split_once, decimal, Result,
  ok, err, Exec, pure, raise, gets, lift, continue, ◌>>=◌, ◌>>◌,
}
use ipgate.Proto.Net.{parse_ipv4}
use ipgate.Proto.Ports.{
  PortRange, single, is_valid, is_nil, ForwardProto, tcp, udp, both, PublicPort,
}
use ipgate.Proto.Forwards.{ForwardSource, auto, ip}
use ipgate.Proto.Entries.{Entry}
use ipgate.Config.{AgentConfig, ruleset_with, public_port_covering_ssh}
use ipgate.Store.{
  State, RulesetFlags, ruleset_flags, set_ssh_allowlist_only, set_forward_allowlist_only,
}
use ipgate.Nft.Backend.{NftBackend, Applied, Gate, rejected, off, active}
use ipgate.Nft.Apply.{apply_ruleset}
use ipgate.Sshd.{to_lower, eq_ignore_ascii_case}

-- The texts of the errors of the arguments are left out.
pub data ArgError : Type 0 where
  bad_port bad_range bad_proto bad_source : ArgError

abbrev pub number_or : Option ℕ → Result ArgError ℕ
number_or none = err bad_port
number_or (some n) = ok n

abbrev pub then_range : Result ArgError ℕ → Result ArgError ℕ → Result ArgError PortRange
then_range (err e) b = err e
then_range (ok a) (err e) = err e
then_range (ok a) (ok b) = ok (record { start = a; end = b })

abbrev pub then_single : Result ArgError ℕ → Result ArgError PortRange
then_single (err e) = err e
then_single (ok p) = ok (single p)

abbrev pub check_range : Result ArgError PortRange → Result ArgError PortRange
check_range (err e) = err e
check_range (ok r) = if r.start == 0 || not (is_valid r) then err bad_range else ok r

unfoldable pub parse_port_range : Text → Result ArgError PortRange
unfolding parse_unsigned trim split_once single is_valid
parse_port_range s = check_range (elim (split_once b'-' (trim s)) [
  | some (a, b) ↦
      then_range (number_or (parse_unsigned 65535 (trim a)))
        (number_or (parse_unsigned 65535 (trim b)))
  | none ↦ then_single (number_or (parse_unsigned 65535 (trim s)))
])

unfoldable pub parse_proto : Text → Result ArgError ForwardProto
parse_proto s =
    let word = map to_lower (trim s) in
    if word == lit "tcp"
    then ok tcp
    else if word == lit "udp"
    then ok udp
    else if word == lit "both" || word == lit "tcp+udp" || word == lit "all"
    then ok both
    else err bad_proto

unfoldable pub parse_source : Text → Result ArgError ForwardSource
unfolding parse_ipv4 trim is_nil
parse_source s =
    if is_nil (trim s) || eq_ignore_ascii_case (trim s) (lit "auto")
    then ok auto
    else elim (parse_ipv4 (trim s)) [ none ↦ err bad_source | some a ↦ ok (ip a) ]

-- Exactly one of `--open` and `--allowlist`.
unfoldable pub chosen : Bool → Bool → Option Bool
chosen true false = some false
chosen false true = some true
chosen _ _ = none

abbrev pub one_of : Text → Option Bool → Result Text Bool
one_of e none = err e
one_of e (some on) = ok on

-- The disk and the kernel, as a command on the host finds them.
pub record Machine (K D : Type 0) : Type 0 where
  pub disk : D
  pub kernel : K

abbrev pub port_source : Bool → Text
port_source true = lit "config.json"
port_source false = lit "客户端添加"

abbrev pub covered : AgentConfig → Option PublicPort → Result Text (Unit {0})
covered cfg none = ok tt
covered cfg (some p) = err (
    lit "公开端口 "
    ++ decimal p.ports.start
    ++ lit "-"
    ++ decimal p.ports.end
    ++ lit "（"
    ++ port_source p.from_config
    ++ lit "）包含 SSH 端口 "
    ++ decimal cfg.ssh_port
    ++ lit "，开启仅名单不会生效。请先移除该公开端口。")

-- The guard before the allowlist is switched on.
unfoldable pub covering_guard : AgentConfig → State → Bool → Result Text (Unit {0})
unfolding public_port_covering_ssh ruleset_flags
covering_guard cfg s on =
    if on then covered cfg (public_port_covering_ssh cfg (ruleset_flags s)) else ok tt

abbrev pub refused : Gate → Option Text
refused off = none
refused active = none
refused (rejected e) = some e

abbrev pub Command : Type 0 → Type 0 → Type 0 → Type 0
Command K D A = Exec (Machine K D) Text A

abbrev pub knock_failure : Text → Text
knock_failure e = lit "SSH 敲门规则加载失败，SSH 保持原状（常见原因：内核/nft 不支持 @th 载荷匹配或动态 set）：" ++ e

abbrev pub keep_gate : {K D : Type 0} → Option Text → Command K D (Unit {0})
keep_gate none = pure tt
keep_gate (some e) =
    raise (lit "转发名单门加载失败，转发保持对全网开放（常见原因：内核/nft 不支持 ct status / ct original 匹配）：" ++ e)

abbrev pub save_store :
    {K D : Type 0} (save : State → Exec D Text (Unit {0})) → State → Command K D (Unit {0})
save_store save s m = let (r, d) = save s m.disk in (r, record m { disk = d })

module _ {K D : Type 0} (cfg : AgentConfig) (backend : NftBackend K) where
  -- The ruleset for some flags, with the stored entries.
  unfoldable pub apply_flags : RulesetFlags → List Entry → Command K D Applied
  apply_flags flags entries m =
      let (r, k) = apply_ruleset backend (ruleset_with cfg flags) entries m.kernel in
      (r, record m { kernel = k })

  -- The knock was refused: the former ruleset again, and no success.
  unfoldable pub keep_knock : State → Option Text → Command K D (Unit {0})
  keep_knock s none = pure tt
  keep_knock s (some e) = do
    restored ← apply_flags (ruleset_flags s) s.entries
    raise (knock_failure e)

module _ {K D : Type 0} (cfg : AgentConfig) (backend : NftBackend K) (load : D → Result Text State)
    (save : State → Exec D Text (Unit {0})) where
  unfoldable pub ssh_expose_cli : Bool → Bool → Command K D (Unit {0})
  ssh_expose_cli opened allowlist = do
    on ← lift (one_of (lit "请二选一指定 --open（对所有人开放）或 --allowlist（仅放行名单）") (chosen opened allowlist))
    d ← gets (λ m. m.disk)
    s ← lift (load d)
    lift (covering_guard cfg s on)
    applied ← apply_flags cfg backend (ruleset_flags (set_ssh_allowlist_only on s).1) s.entries
    keep_knock cfg backend s (refused applied.knock)
    save_store save (set_ssh_allowlist_only on s).1

  unfoldable pub forward_expose_cli : Bool → Bool → Command K D (Unit {0})
  forward_expose_cli opened allowlist = do
    on ← lift (one_of (lit "请二选一指定 --open（转发对所有人开放）或 --allowlist（仅放行名单）") (chosen opened allowlist))
    d ← gets (λ m. m.disk)
    s ← lift (load d)
    applied ← apply_flags cfg backend (ruleset_flags (set_forward_allowlist_only on s).1) s.entries
    keep_gate (refused applied.gate)
    save_store save (set_forward_allowlist_only on s).1
