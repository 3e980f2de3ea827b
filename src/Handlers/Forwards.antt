-- ===== src/Handlers/Forwards.antt =====
-- The handlers of the native forwards of agent/src/api/handlers.rs. The rules of the tool dnat on the
-- same host are an argument (`none` where its adapter is off), as are the answers of the host.
pub mod Overlaps
use ipgate.Base.{
  ℕ, ◌==◌, ◌!=◌, nat_eq, list_eq, option_eq, Bool, true, false, not, ◌&&◌, ◌||◌, Option, none, some,
  List, [], ◌∷◌, ◌++◌, map, if◌then◌else◌, Text, lit, trim, any, leb, length, is_some, all,
  is_ascii_digit, parse_digits, at_most, decimal, Result, ok, err, Exec, pure, raise, gets, lift,
  continue, ◌>>=◌, ◌>>◌, String, map_err,
}
use ipgate.Proto.Net.{DeviceId, ForwardId, DateTime, Ipv4Addr, parse_ipv4}
use ipgate.Proto.Errors.{ErrorCode, bad_request, conflict, not_found, ApiError, api_error}
use ipgate.Proto.Ports.{PortRange, overlaps, is_nil}
use ipgate.Proto.Forwards.{
  ForwardRule, AddForwardRequest, ForwardSource, ForwardView, PortsError, reversed, length_mismatch,
  validate_ports, valid_iface_name, forbidden_forward_target,
}
use ipgate.Store.{State, find_forward, resolved_ip}
use ipgate.Store
use ipgate.Nft.Backend.{NatBackend}
use ipgate.Forward.{Host, apply_now}
use ipgate.Reconcile.{World}
use ipgate.Dnat.Conf.{DnatRule}
use ipgate.Handlers.App.{App, Handler, with_store, save_store, nft_error, require}

unfoldable pub ports_text : PortsError → Text
ports_text reversed = lit "端口区间非法（start > end）"
ports_text (length_mismatch listen dest) =
    lit "端口区间长度不一致：监听 "
    ++ decimal listen.start
    ++ lit "-"
    ++ decimal listen.end
    ++ lit " vs 目标 "
    ++ decimal dest.start
    ++ lit "-"
    ++ decimal dest.end

-- A name given in the request passes the white list.
abbrev pub iface_ok : Option Text → Bool
iface_ok none = true
iface_ok (some i) = valid_iface_name i

-- Why the target is forbidden, when it is written as an address.
abbrev pub literal_ban : Option Ipv4Addr → Option String
literal_ban none = none
literal_ban (some x) = forbidden_forward_target x

unfoldable pub validate_forward_input : Option Text → Text → Result ApiError (Unit {0})
validate_forward_input iface dest_host =
    if not (iface_ok iface)
    then err (api_error bad_request (lit "网卡名非法（仅允许字母数字与 . _ -，≤15 字符）"))
    else elim (literal_ban (parse_ipv4 (trim dest_host))) [
      | some why ↦ err (api_error bad_request (lit "目标地址不允许：" ++ lit why))
      | none ↦ ok tt
    ]

-- `iface.clone().or_else(default_route_iface)`
abbrev pub effective_iface : Host → Option Text → Option Text
effective_iface host (some i) = some i
effective_iface host none = host.default_route_iface

-- Some rule of dnat listens on the same interface and on a port of the range.
unfoldable pub dnat_clash : Option Text → PortRange → List DnatRule → Bool
unfolding any overlaps
dnat_clash none listen rules = false
dnat_clash (some i) listen rules = any (λ d. d.iface == i && overlaps listen d.listen) rules

abbrev pub dnat_rules_of : Option (List DnatRule) → List DnatRule
dnat_rules_of none = []
dnat_rules_of (some rules) = rules

unfoldable pub check_forward_request :
    Host → Option (List DnatRule) → AddForwardRequest → Result ApiError (Unit {0})
unfolding validate_ports is_nil validate_forward_input dnat_clash
check_forward_request host dnat req = elim (validate_ports req.listen req.dest_port) [
  | err e ↦ err (api_error bad_request (ports_text e))
  | ok _ ↦
      if is_nil (trim req.dest_host)
      then err (api_error bad_request (lit "目标主机为空"))
      else elim (validate_forward_input req.iface req.dest_host) [
        | err e ↦ err e
        | ok _ ↦
            if dnat_clash (effective_iface host req.iface) req.listen (dnat_rules_of dnat)
            then err (api_error conflict (lit "监听端口已被本机 dnat 规则占用，请先迁移该 dnat 规则或改用其它端口"))
            else ok tt
      ]
]

unfoldable pub forward_view : State → ForwardRule → ForwardView
unfolding resolved_ip
forward_view s rule = record {
  rule = rule;
  resolved_ip = resolved_ip s rule.id;
  active = is_some (resolved_ip s rule.id);
}

abbrev pub rule_or : Option ForwardRule → ForwardRule → ForwardRule
rule_or none rule = rule
rule_or (some r) rule = r

-- Another native rule listens on the same interface and on a port of the range.
abbrev pub other_overlaps : Host → ForwardId → AddForwardRequest → ForwardRule → Bool
other_overlaps host id req f =
    f.id != id
    && effective_iface host f.iface == effective_iface host req.iface
    && overlaps f.listen req.listen

abbrev pub no_rule : ApiError
no_rule = api_error not_found (lit "转发规则不存在")

module _ {K D : Type 0} (app : App K D) (nat : NatBackend K) (ensure_ip_forward : D → D)
    (host : Host) where
  -- `forward::apply_now` with its error as the handlers report it.
  abbrev pub load_forwards : Handler K D (Unit {0})
  load_forwards w =
      let (r, w') = apply_now nat ensure_ip_forward app.save host w in (map_err nft_error r, w')

module _ {K D : Type 0} (app : App K D) (nat : NatBackend K) (ensure_ip_forward : D → D)
    (host : Host) (dnat : Option (List DnatRule)) where
  unfoldable pub add_forward :
      ForwardId → DeviceId → DateTime → AddForwardRequest → Handler K D ForwardView
  unfolding find_forward forward_view
  add_forward id by now req = do
    lift (check_forward_request host dnat req)
    rule ← with_store (Store.add_forward id req by now)
    save_store app
    load_forwards app nat ensure_ip_forward host
    gets (λ w. forward_view w.store (rule_or (find_forward w.store id) rule))

  -- `ok_or_else` on the result of the store.
  abbrev pub found_rule : Option ForwardRule → Result ApiError ForwardRule
  found_rule none = err no_rule
  found_rule (some r) = ok r

  unfoldable pub update_forward : ForwardId → AddForwardRequest → Handler K D ForwardView
  unfolding find_forward forward_view overlaps any
  update_forward id req = do
    lift (check_forward_request host dnat req)
    s ← gets (λ w. w.store)
    lift (
        require (not (any (other_overlaps host id req) s.forwards))
          (api_error conflict (lit "监听端口与另一条转发重叠")))
    found ← with_store (Store.update_forward id req)
    rule ← lift (found_rule found)
    save_store app
    load_forwards app nat ensure_ip_forward host
    gets (λ w. forward_view w.store (rule_or (find_forward w.store id) rule))

  unfoldable pub remove_forward : ForwardId → Handler K D (Unit {0})
  remove_forward id = do
    found ← with_store (Store.remove_forward id)
    lift (require found no_rule)
    save_store app
    load_forwards app nat ensure_ip_forward host
