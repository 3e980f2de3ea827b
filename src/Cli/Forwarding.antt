-- ===== src/Cli/Forwarding.antt =====
-- The commands of agent/src/main.rs that add, remove and migrate forwards while the service is
-- stopped. They load the store, change it, save it, and load the kernel. What is printed is left
-- out.
pub mod Checks
use ipgate.Base.{
  ℕ, nat_eq, list_eq, option_eq, ◌==◌, Bool, true, false, not, ◌&&◌, Option, none, some, List, [],
  ◌∷◌, ◌++◌, any, if◌then◌else◌, Text, lit, trim, rsplit_once, is_some, Result, ok, err, Exec, pure,
  raise, gets, lift, continue, ◌>>=◌, ◌>>◌,
}
use ipgate.Proto.Net.{ForwardId, DateTime, parse_ipv4}
use ipgate.Proto.Ports.{PortRange, is_nil, overlaps}
use ipgate.Proto.Forwards.{ForwardRule, AddForwardRequest, validate_ports}
use ipgate.Store.{State, resolved_ip}
use ipgate.Store
use ipgate.Nft.Backend.{NatBackend, Live}
use ipgate.Forward.{Host, apply_now}
use ipgate.Reconcile.{World}
use ipgate.Dnat.Conf.{DnatRule, prefix_key}
use ipgate.Dnat.Adapter.{DnatHost, present, rules, remove_prefix, dnat_rule_to_add_request}
use ipgate.Handlers.Forwards.{ports_text, iface_ok, literal_ban, effective_iface, dnat_clash}
use ipgate.Handlers.Dnat.{ignored, clobbers}
use ipgate.Cli.{Machine, ArgError, parse_port_range, parse_proto, parse_source}
use ipgate.Cli.Offline.{CommandError, argument, message, console, find_dnat_rule}

abbrev pub arg : {A : Type 0} → Result ArgError A → Result CommandError A
arg (ok a) = ok a
arg (err e) = err (argument e)

abbrev pub some_or : {A : Type 0} → Text → Option A → Result CommandError A
some_or e none = err (message e)
some_or e (some a) = ok a

abbrev pub refuse : Bool → Text → Result CommandError (Unit {0})
refuse b e = if b then err (message e) else ok tt

-- The checks of a rule that is added.
unfoldable pub check_request : AddForwardRequest → Result CommandError (Unit {0})
unfolding validate_ports is_nil
check_request req = elim (validate_ports req.listen req.dest_port) [
  | err e ↦ err (message (ports_text e))
  | ok _ ↦
      if is_nil req.dest_host
      then err (message (lit "目标主机为空"))
      else if not (iface_ok req.iface)
      then err (message (lit "网卡名非法（仅允许字母数字与 . _ -，≤15 字符）"))
      else elim (literal_ban (parse_ipv4 req.dest_host)) [
        | some why ↦ err (message (lit "目标地址不允许：" ++ lit why))
        | none ↦ ok tt
      ]
]

-- A command keeps no record of the optional rules that are loaded.
abbrev pub no_live : Live
no_live = record { gate = false; knock = false }

abbrev pub Command : Type 0 → Type 0 → Type 0 → Type 0
Command K D A = Exec (Machine K D) CommandError A

-- The part of a command that has the store in its memory.
abbrev pub with_store : {K D A : Type 0} → State → Exec (World K D) CommandError A → Command K D A
with_store s f m =
    let (r, w) = f (record { store = s; disk = m.disk; kernel = m.kernel; live = no_live }) in
    (r, record { disk = w.disk; kernel = w.kernel })

abbrev pub on_store : {K D A : Type 0} → (State → A × State) → Exec (World K D) CommandError A
on_store f w = let (a, s) = f w.store in (ok a, record w { store = s })

abbrev pub with_text : {A : Type 0} → (Text → Text) → Result Text A → Result CommandError A
with_text f (ok a) = ok a
with_text f (err e) = err (message (f e))

abbrev pub on_disk :
    {K D A : Type 0} → (Text → Text) → Exec D Text A → Exec (World K D) CommandError A
on_disk f m w = let (r, d) = m w.disk in (with_text f r, record w { disk = d })

module _ {K D : Type 0} (save : State → Exec D Text (Unit {0})) (nat : NatBackend K)
    (ensure_ip_forward : D → D) (host : Host) where
  abbrev pub save_store : Exec (World K D) CommandError (Unit {0})
  save_store w = on_disk (λ e. e) (save w.store) w

  abbrev pub load_kernel : Exec (World K D) CommandError (Unit {0})
  load_kernel w =
      let (r, w') = apply_now nat ensure_ip_forward save host w in
      (with_text (λ e. lit "native 落地失败（已写存储，未撤 dnat）: " ++ e) r, w')

  -- A kernel that does not take the rules is left to the service.
  unfoldable pub add_rule :
      ForwardId → AddForwardRequest → DateTime → Exec (World K D) CommandError (Unit {0})
  add_rule id req now = do
    rule ← on_store (Store.add_forward id req console now)
    save_store
    ignored load_kernel

  unfoldable pub remove_rule : ForwardId → Exec (World K D) CommandError (Unit {0})
  remove_rule id = do
    removed ← on_store (Store.remove_forward id)
    if removed then (do save_store; ignored load_kernel) else pure tt

  unfoldable pub move_over : DnatHost D → DnatRule → Exec (World K D) CommandError (Unit {0})
  unfolding prefix_key
  move_over dnat rule = do
    removed ←
        on_disk (λ e. lit "native 已生效，但撤原 dnat 规则失败（dnat 仍在服务，可重试或手动 dnat-rm）: " ++ e)
          (remove_prefix dnat (prefix_key rule))
    pure tt

  unfoldable pub give_up : ForwardId → Exec (World K D) CommandError (Unit {0})
  give_up id = do
    removed ← on_store (Store.remove_forward id)
    ignored save_store
    ignored load_kernel
    raise (message (lit "native 规则未能解析/生效（如域名暂时解析失败），已保留原 dnat，请稍后重试"))

  -- `find_dnat_rule` has found the rule.
  unfoldable pub migrate_rule :
      DnatHost D → DnatRule → ForwardId → DateTime → Exec (World K D) CommandError (Unit {0})
  migrate_rule dnat rule id now = do
    s ← gets (λ w. w.store)
    lift (
        refuse (any (clobbers host rule) s.forwards)
          (lit "目标 (网卡,端口) 已有 native 转发，迁移会覆盖它；请先处理后再迁移"))
    new ← on_store (Store.add_forward id (dnat_rule_to_add_request rule) console now)
    save_store
    load_kernel
    live ← gets (λ w. is_some (resolved_ip w.store id))
    if live then move_over dnat rule else give_up id

module _ {K D : Type 0} (save : State → Exec D Text (Unit {0})) (nat : NatBackend K)
    (ensure_ip_forward : D → D) (host : Host) (dnat : DnatHost D)
    (load : D → Result Text State) where
  abbrev pub loaded : Command K D State
  loaded m = (with_text (λ e. e) (load m.disk), m)

  -- The rules of dnat leave the listener free, where its adapter is on.
  unfoldable pub dnat_free : AddForwardRequest → D → Result CommandError (Unit {0})
  unfolding present rules dnat_clash
  dnat_free req d =
      refuse
        (present dnat d && dnat_clash (effective_iface host req.iface) req.listen (rules dnat d))
        (lit "监听端口已被本机 dnat 规则占用，请先 `dnat-migrate` 或换端口")

  -- What follows the reading of the arguments.
  unfoldable pub add_request : AddForwardRequest → ForwardId → DateTime → Command K D (Unit {0})
  unfolding check_request dnat_free add_rule
  add_request req id now = do
    lift (check_request req)
    d ← gets (λ m. m.disk)
    lift (dnat_free req d)
    s ← loaded
    with_store s (add_rule save nat ensure_ip_forward host id req now)

  -- A mapping that a native rule cannot express is not migrated.
  unfoldable pub ports_fit : DnatRule → Result CommandError (Unit {0})
  unfolding validate_ports
  ports_fit rule =
      let req = dnat_rule_to_add_request rule in
      elim (validate_ports req.listen req.dest_port) [
        | ok _ ↦ ok tt
        | err e ↦ err (message (lit "该 dnat 规则的端口映射 native 不支持，无法迁移：" ++ ports_text e))
      ]

  abbrev pub on_host : {A : Type 0} → Exec D CommandError A → Command K D A
  on_host f m = let (r, d) = f m.disk in (r, record m { disk = d })

  unfoldable pub forward_add_cli :
      (listen dest proto : Text)
      → Option Text
      → (source note : Text) → ForwardId
      → DateTime
      → Command K D (Unit {0})
  unfolding check_request dnat_free
  forward_add_cli listen dest proto iface source note id now = do
    range ← lift (arg (parse_port_range listen))
    parts ← lift (some_or (lit "目标需 host:port 形式，如 10.0.0.9:8443") (rsplit_once b':' dest))
    dest_port ← lift (arg (parse_port_range parts.1))
    protocol ← lift (arg (parse_proto proto))
    from ← lift (arg (parse_source source))
    add_request
        (record {
          proto = protocol;
          iface = iface;
          listen = range;
          dest_host = trim parts.0;
          dest_port = dest_port;
          source = from;
          note = note;
        })
        id now

  unfoldable pub forward_rm_cli :
      (parse_uuid : Text → Option ForwardId) → Text → Command K D (Unit {0})
  unfolding remove_rule
  forward_rm_cli parse_uuid text = do
    id ← lift (some_or (lit "非法 id（应为 uuid）") (parse_uuid (trim text)))
    s ← loaded
    with_store s (remove_rule save nat ensure_ip_forward host id)

  unfoldable pub dnat_migrate_cli : Text → Text → ForwardId → DateTime → Command K D (Unit {0})
  unfolding migrate_rule find_dnat_rule
  dnat_migrate_cli listen iface id now = do
    rule ← on_host (find_dnat_rule dnat listen iface)
    lift (ports_fit rule)
    s ← loaded
    with_store s (migrate_rule save nat ensure_ip_forward host dnat rule id now)
