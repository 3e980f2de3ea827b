-- ===== src/Handlers/Dnat.antt =====
-- The handlers of agent/src/api/handlers.rs for the rules of dnat: deletion and migration.
pub mod Migration
pub mod Handover
use ipgate.Base.{
  ℕ, ◌==◌, nat_eq, list_eq, option_eq, Bool, true, false, not, ◌&&◌, Option, none, some, List, [],
  ◌∷◌, ◌++◌, if◌then◌else◌, Text, lit, any, is_some, Result, ok, err, Exec, raise, gets, lift,
  continue, ◌>>=◌, ◌>>◌, map_err,
}
use ipgate.Proto.Net.{DeviceId, ForwardId, DateTime}
use ipgate.Proto.Errors.{bad_request, conflict, not_found, nft_failure, ApiError, api_error}
use ipgate.Proto.Ports.{overlaps}
use ipgate.Proto.Forwards.{ForwardRule, ForwardView, PortsError, validate_ports}
use ipgate.Store.{State, find_forward, resolved_ip}
use ipgate.Store
use ipgate.Nft.Backend.{NatBackend}
use ipgate.Forward.{Host}
use ipgate.Dnat.Conf.{DnatRule}
use ipgate.Dnat.Adapter.{
  DnatHost, present, rules, find_rule_by_prefix, decode_key, remove_prefix,
  dnat_rule_to_add_request,
}
use ipgate.Reconcile.{World}
use ipgate.Handlers.App.{App, Handler, with_store, on_disk, save_store, nft_error, require}
use ipgate.Handlers.Forwards.{
  validate_forward_input, effective_iface, ports_text, forward_view, rule_or, load_forwards,
}

abbrev pub dnat_off : ApiError
dnat_off = api_error not_found (lit "本机未启用 dnat 适配")

abbrev pub bad_key : ApiError
bad_key = api_error bad_request (lit "非法 dnat 键")

abbrev pub no_dnat_rule : ApiError
no_dnat_rule = api_error not_found (lit "dnat 规则不存在")

abbrev pub migration_unsupported : PortsError → ApiError
migration_unsupported e =
    api_error bad_request (lit "该 dnat 规则的端口映射 native 不支持，无法迁移：" ++ ports_text e)

abbrev pub native_taken : ApiError
native_taken = api_error conflict (lit "目标 (网卡,端口) 已有 native 转发，迁移会覆盖它；请先处理后再迁移")

abbrev pub not_live : ApiError
not_live = api_error nft_failure (lit "native 规则未能解析/生效（如目标域名暂时解析失败），已保留原 dnat 规则，请稍后重试迁移")

abbrev pub not_removed : Text → ApiError
not_removed e =
    api_error nft_failure (lit "native 已建好并生效，但移除原 dnat 规则失败（dnat 仍在服务，可重试迁移或手动 dnat-rm）：" ++ e)

-- `ok_or_else`
abbrev pub or_error : {A : Type 0} → ApiError → Option A → Result ApiError A
or_error e none = err e
or_error e (some a) = ok a

-- `let _ = …;`
abbrev pub ignored : {S E A : Type 0} → Exec S E A → Exec S E (Unit {0})
ignored m s = (ok tt, (m s).1)

module _ {D : Type 0} (dnat : DnatHost D) where
  unfoldable pub dnat_prefix_from_key : Text → D → Result ApiError Text
  unfolding present decode_key
  dnat_prefix_from_key key d =
      if not (present dnat d) then err dnat_off else or_error bad_key (decode_key dnat key)

module _ {K D : Type 0} (dnat : DnatHost D) where
  unfoldable pub remove_dnat_forward : Text → Handler K D (Unit {0})
  remove_dnat_forward key = do
    d ← gets (λ w. w.disk)
    prefix ← lift (dnat_prefix_from_key dnat key d)
    removed ← on_disk nft_error (remove_prefix dnat prefix)
    lift (require removed no_dnat_rule)

unfoldable pub ports_check : DnatRule → Result ApiError (Unit {0})
ports_check rule =
    let req = dnat_rule_to_add_request rule in
    map_err migration_unsupported (validate_ports req.listen req.dest_port)

unfoldable pub input_check : DnatRule → Result ApiError (Unit {0})
input_check rule =
    let req = dnat_rule_to_add_request rule in validate_forward_input req.iface req.dest_host

module _ (host : Host) where
  -- A native rule listens on the interface of the rule and on a port of its range.
  abbrev pub clobbers : DnatRule → ForwardRule → Bool
  clobbers rule f = effective_iface host f.iface == some rule.iface && overlaps f.listen rule.listen

  -- `store.add_forward` would drop a native rule with the same interface and ports.
  unfoldable pub free_check : DnatRule → State → Result ApiError (Unit {0})
  free_check rule s = require (not (any (clobbers rule) s.forwards)) native_taken

module _ {K D : Type 0} (app : App K D) (host : Host) where
  -- The first half: the rule of dnat is checked and written as a native one.
  unfoldable pub build_native : ForwardId → DeviceId → DateTime → DnatRule → Handler K D ForwardRule
  build_native id by now rule = do
    lift (ports_check rule)
    lift (input_check rule)
    s ← gets (λ w. w.store)
    lift (free_check host rule s)
    new ← with_store (Store.add_forward id (dnat_rule_to_add_request rule) by now)
    save_store app
    gets (λ w. new)

module _ {K D : Type 0} (app : App K D) (nat : NatBackend K) (ensure_ip_forward : D → D)
    (host : Host) where
  -- The native rule did not come to life.
  unfoldable pub roll_back : ForwardId → Handler K D ForwardView
  roll_back id = do
    removed ← with_store (Store.remove_forward id)
    ignored (save_store app)
    ignored (load_forwards app nat ensure_ip_forward host)
    raise not_live

module _ {K D : Type 0} (dnat : DnatHost D) where
  -- The native rule serves, and the one of dnat goes.
  unfoldable pub hand_over : ForwardId → ForwardRule → Text → Handler K D ForwardView
  hand_over id new prefix = do
    removed ← on_disk not_removed (remove_prefix dnat prefix)
    gets (λ w. forward_view w.store (rule_or (find_forward w.store id) new))

module _ {K D : Type 0} (app : App K D) (nat : NatBackend K) (ensure_ip_forward : D → D)
    (host : Host) (dnat : DnatHost D) where
  unfoldable pub migrate_dnat_forward :
      ForwardId → DeviceId → DateTime → Text → Handler K D ForwardView
  migrate_dnat_forward id by now key = do
    d ← gets (λ w. w.disk)
    prefix ← lift (dnat_prefix_from_key dnat key d)
    rule ← lift (or_error no_dnat_rule (find_rule_by_prefix dnat prefix d))
    new ← build_native app host id by now rule
    load_forwards app nat ensure_ip_forward host
    live ← gets (λ w. is_some (resolved_ip w.store id))
    if live then hand_over dnat id new prefix else roll_back app nat ensure_ip_forward host id
