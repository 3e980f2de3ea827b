-- ===== src/Handlers/Exposure.antt =====
-- The settings handlers of agent/src/api/handlers.rs: whether SSH and the forwards are open to
-- everybody or only to the allowlist.
pub mod Safety
pub mod ForwardGate
use ipgate.Base.{
  ℕ, ◌==◌, nat_eq, Bool, true, false, not, Option, none, some, List, [], ◌∷◌, ◌++◌, if◌then◌else◌,
  Text, lit, decimal, length, retain, ltb, Result, ok, err, Exec, pure, raise, gets, lift, continue,
  ◌>>=◌, ◌>>◌,
}
use ipgate.Proto.Net.{DateTime}
use ipgate.Proto.Errors.{ErrorCode, bad_request, nft_failure, internal_error, ApiError, api_error}
use ipgate.Proto.Entries.{Entry, is_expired}
use ipgate.Proto.Ports.{PortRange, PublicPort, SshKnock}
use ipgate.Proto.Rpc.{AgentSettings}
use ipgate.Config.{AgentConfig, ruleset_with, public_port_covering_ssh}
use ipgate.Store.{
  State, RulesetFlags, ruleset_flags, set_ssh_allowlist_only, set_forward_allowlist_only,
}
use ipgate.Nft.Backend.{Gate, off, active, rejected, Applied, live_of}
use ipgate.Nft.Apply.{apply_ruleset}
use ipgate.Reconcile.{World}
use ipgate.Handlers.App.{
  App, Handler, with_store, save_store, on_kernel, on_disk, nft_error, require,
}

unfoldable pub port_label : PortRange → Text
port_label p =
    if p.start == p.end then decimal p.start else decimal p.start ++ lit "-" ++ decimal p.end

abbrev pub knock_port : Option SshKnock → Option ℕ
knock_port none = none
knock_port (some k) = some k.port

abbrev pub rejection : Gate → Option Text
rejection (rejected e) = some e
rejection off = none
rejection active = none

abbrev pub with_ssh : Bool → RulesetFlags → RulesetFlags
with_ssh on flags = record flags { ssh_allowlist_only = on }

abbrev pub with_forward : Bool → RulesetFlags → RulesetFlags
with_forward on flags = record flags { forward_allowlist_only = on }

-- The entries that count as live in the guard against locking everybody out.
unfoldable pub live_count : List Entry → DateTime → ℕ
unfolding retain
live_count entries now = length (retain (λ e. not (is_expired e now)) entries)

unfoldable pub covering_message : AgentConfig → PublicPort → Text
covering_message cfg p =
    lit "公开端口 "
    ++ port_label p.ports
    ++ lit " 包含 SSH 端口 "
    ++ decimal cfg.ssh_port
    ++ lit "，开启「仅名单可连」不会生效。请先移除该公开端口"
    ++ (if p.from_config then lit "（它来自主机的 config.json，需在主机上改配置文件）" else [])
    ++ lit "。"

-- The two guards of `set_ssh_exposure` that stand before any effect.
unfoldable pub ssh_guard : AgentConfig → DateTime → State → Bool → Result ApiError (Unit {0})
unfolding live_count
ssh_guard cfg now s false = ok tt
ssh_guard cfg now s true =
    if live_count s.entries now == 0
    then err (api_error bad_request (lit "放行名单为空：开启「SSH 仅名单可连」会把所有人（含你自己）挡在外。请先放行你的 IP 再开启。"))
    else elim (public_port_covering_ssh cfg (with_ssh true (ruleset_flags s))) [
      | some p ↦ err (api_error bad_request (covering_message cfg p))
      | none ↦ ok tt
    ]

abbrev pub knock_refused : Text → ApiError
knock_refused e =
    api_error nft_failure (lit "SSH 敲门规则加载失败，SSH 保持原状（常见原因：内核/nft 不支持 @th 载荷匹配或动态 set）：" ++ e)

abbrev pub gate_refused : Text → ApiError
gate_refused e =
    api_error nft_failure
      (lit "转发名单门加载失败，转发保持对全网开放（常见原因：内核/nft 不支持 ct status / ct original 匹配）：" ++ e)

module _ {K D : Type 0} (app : App K D) where
  unfoldable pub build_settings : World K D → AgentSettings
  build_settings w =
      let flags = ruleset_flags w.store in
      let auth = app.probe w.disk in
      record {
        ssh_allowlist_only = flags.ssh_allowlist_only;
        ssh_port = app.cfg.ssh_port;
        ssh_password_auth = auth.password;
        ssh_kbd_interactive_auth = auth.kbd_interactive;
        ssh_permit_root_login = auth.permit_root;
        forward_allowlist_only = some flags.forward_allowlist_only;
        forward_gate_active = some w.live.gate;
        ssh_knock_port = knock_port app.cfg.ssh_knock;
        ssh_knock_active = some w.live.knock;
      }

  -- The whole ruleset for the given flags; `live` is written when the kernel took one.
  unfoldable pub reapply_ruleset : RulesetFlags → List Entry → Handler K D Applied
  unfolding live_of
  reapply_ruleset flags entries w =
      let (r, k) = apply_ruleset app.backend (ruleset_with app.cfg flags) entries w.kernel in
      elim r [
        | ok a ↦ (ok a, record w { kernel = k; live = live_of a })
        | err e ↦ (err (nft_error e), record w { kernel = k })
      ]

  -- With the knock refused, the former ruleset is applied again and the request fails.
  unfoldable pub keep_knock : State → Option Text → Handler K D (Unit {0})
  unfolding reapply_ruleset
  keep_knock s none = pure tt
  keep_knock s (some e) = do
    restored ← reapply_ruleset (ruleset_flags s) s.entries
    raise (knock_refused e)

  unfoldable pub set_ssh_exposure : DateTime → Bool → Handler K D AgentSettings
  unfolding ssh_guard keep_knock reapply_ruleset build_settings
  set_ssh_exposure now on = do
    s ← gets (λ w. w.store)
    lift (ssh_guard app.cfg now s on)
    applied ← reapply_ruleset (with_ssh on (ruleset_flags s)) s.entries
    keep_knock s (rejection applied.knock)
    changed ← with_store (set_ssh_allowlist_only on)
    save_store app
    gets build_settings

  unfoldable pub set_forward_exposure : Bool → Handler K D AgentSettings
  unfolding reapply_ruleset build_settings
  set_forward_exposure on = do
    s ← gets (λ w. w.store)
    applied ← reapply_ruleset (with_forward on (ruleset_flags s)) s.entries
    elim (rejection applied.gate) [ some e ↦ raise (gate_refused e) | none ↦ pure tt ]
    changed ← with_store (set_forward_allowlist_only on)
    save_store app
    gets build_settings

  unfoldable pub set_ssh_password_auth : Bool → Handler K D AgentSettings
  set_ssh_password_auth enabled = do
    on_disk (api_error internal_error) (app.set_password_auth enabled)
    gets build_settings

  unfoldable pub reset_root_password : Text → Handler K D (Unit {0})
  reset_root_password password = do
    lift (require (not (ltb (length password) 8)) (api_error bad_request (lit "密码至少 8 位")))
    on_disk (api_error internal_error) (app.reset_root_password password)
