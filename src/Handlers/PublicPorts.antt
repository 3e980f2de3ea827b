-- ===== src/Handlers/PublicPorts.antt =====
-- The public-port handlers of agent/src/api/handlers.rs.
pub mod Guard
use ipgate.Base.{
  ℕ, ◌==◌, ◌!=◌, nat_eq, Bool, true, false, not, ◌&&◌, Option, none, some, List, [], ◌∷◌, ◌++◌,
  if◌then◌else◌, Text, lit, decimal, trim, length, retain, find, any, is_some, Result, ok, err,
  Exec, pure, raise, gets, lift, continue, ◌>>=◌, ◌>>◌,
}
use ipgate.Proto.Errors.{ErrorCode, bad_request, not_found, ApiError, api_error}
use ipgate.Proto.Ports.{
  PortRange, range_eq, PublicPort, PublicPortRequest, ForwardProto, proto_eq, is_valid,
}
use ipgate.Config.{AgentConfig, config_public_ports, covers_ssh}
use ipgate.Store.{State, RulesetFlags, ruleset_flags, set_public_ports}
use ipgate.Reconcile.{World}
use ipgate.Handlers.App.{App, Handler, set_store, save_store, require}
use ipgate.Handlers.Exposure.{reapply_ruleset}

abbrev pub same_port : ForwardProto → PortRange → PublicPort → Bool
same_port proto ports p = p.proto == proto && p.ports == ports

abbrev pub with_ports : List PublicPort → RulesetFlags → RulesetFlags
with_ports ports flags = record flags { public_ports = ports }

-- The assignment through `iter_mut().find`: the first port with the protocol and the range.
unfoldable pub set_note : ForwardProto → PortRange → Text → List PublicPort → List PublicPort
set_note proto ports note [] = []
set_note proto ports note (p ∷ ps) =
    let rest = set_note proto ports note ps in
    if same_port proto ports p then record p { note = note } ∷ ps else p ∷ rest

abbrev pub new_port : PublicPortRequest → PublicPort
new_port req = record {
  proto = req.proto;
  ports = req.ports;
  note = trim req.note;
  from_config = false;
}

unfoldable pub ssh_port_message : AgentConfig → Text
ssh_port_message cfg =
    lit "SSH 已设为「仅名单可连」，不能把 SSH 端口 "
    ++ decimal cfg.ssh_port
    ++ lit " 设为公开端口。要对全网开放 SSH，请在「安全」中关闭「仅名单可连」。"

unfoldable pub unknown_port_message : Bool → Text
unknown_port_message true = lit "该公开端口来自主机的 config.json，需在主机上改配置文件后重启 agent"
unknown_port_message false = lit "公开端口不存在"

module _ {K D : Type 0} (app : App K D) where
  unfoldable pub list_public_ports : World K D → List PublicPort
  list_public_ports w = config_public_ports app.cfg ++ w.store.public_ports

  -- The branch of a port that is not in the store yet: the kernel first.
  unfoldable pub open_port : State → PublicPortRequest → Handler K D (List PublicPort)
  open_port s req = do
    lift (
        require (not (s.ssh_allowlist_only && covers_ssh app.cfg req.proto req.ports))
          (api_error bad_request (ssh_port_message app.cfg)))
    applied ←
        reapply_ruleset app (with_ports (s.public_ports ++ new_port req ∷ []) (ruleset_flags s))
          s.entries
    pure (s.public_ports ++ new_port req ∷ [])

  unfoldable pub add_public_port : PublicPortRequest → Handler K D (List PublicPort)
  unfolding open_port set_note find list_public_ports
  add_public_port req = do
    lift (
        require (not (req.ports.start == 0) && is_valid req.ports)
          (api_error bad_request (lit "端口须在 1–65535 之间，且起始不大于结束")))
    s ← gets (λ w. w.store)
    ports ← elim (is_some (find (same_port req.proto req.ports) s.public_ports)) [
      | true ↦ pure (set_note req.proto req.ports (trim req.note) s.public_ports)
      | false ↦ open_port s req
    ]
    set_store (set_public_ports ports)
    save_store app
    gets list_public_ports

  unfoldable pub remove_public_port : ForwardProto → PortRange → Handler K D (List PublicPort)
  unfolding retain list_public_ports
  remove_public_port proto range = do
    s ← gets (λ w. w.store)
    lift (
        require
          (length (retain (λ p. not (same_port proto range p)) s.public_ports)
            != length s.public_ports)
          (api_error not_found
            (unknown_port_message (any (same_port proto range) (config_public_ports app.cfg)))))
    applied ←
        reapply_ruleset app
          (with_ports (retain (λ p. not (same_port proto range p)) s.public_ports)
            (ruleset_flags s))
          s.entries
    set_store (set_public_ports (retain (λ p. not (same_port proto range p)) s.public_ports))
    save_store app
    gets list_public_ports
