-- ===== src/Dnat/Adapter.antt =====
-- agent/src/dnat/mod.rs: the adapter reads the configuration and the state of dnat, deletes one rule
-- under the lock that dnat takes too, and has dnat apply what it wrote.
pub mod Draining
pub mod Listing
use ipgate.Base.{
  ℕ, ◌==◌, nat_eq, list_eq, Bool, true, false, ◌&&◌, Option, none, some, List, [], ◌∷◌, map, lit,
  ◌++◌, if◌then◌else◌, Text, trim, find, is_some, Result, ok, err, Exec, pure, raise, gets, lift,
  continue, ◌>>=◌, ◌>>◌,
}
use ipgate.Proto.Net.{Ipv4Addr, parse_ipv4}
use ipgate.Proto.Ports.{PortRange, both}
use ipgate.Proto.Forwards.{AddForwardRequest, UnifiedForwardView, dnat_origin}
use ipgate.Dnat.Conf.{
  DnatRule, prefix_key, parse_conf, remove_rule_lines, DnatState, DnatStateEntry, find_entry,
}

-- The host as the adapter sees it: `in_place` is that the base directory and the binary exist,
-- `conf_text` and `state_text` read a file or give an empty text, `parse_json` is serde's,
-- `encode` and `decode` are base64url over the UTF-8 bytes, `lock` waits for `conf.lock`, and
-- `apply` runs `dnat apply` and gives its success and its error output.
pub record DnatHost (D : Type 0) : Type 0 where
  pub enabled : Bool
  pub in_place : D → Bool
  pub conf_text : D → Text
  pub state_text : D → Text
  pub parse_json : Text → Option DnatState
  pub encode : Text → Text
  pub decode : Text → Option Text
  pub lock : Exec D Text (Unit {0})
  pub write_tmp : Text → Exec D Text (Unit {0})
  pub rename : Exec D Text (Unit {0})
  pub apply : Exec D Text (Bool × Text)

-- `unwrap_or_default`
abbrev pub state_or : Option DnatState → DnatState
state_or none = record { entries = [] }
state_or (some s) = s

abbrev pub remote_ip_of : Option DnatStateEntry → Option Ipv4Addr
remote_ip_of none = none
remote_ip_of (some e) = parse_ipv4 e.remote_ip

abbrev pub migrated_note : Text
migrated_note = lit "迁移自 dnat"

unfoldable pub dnat_rule_to_add_request : DnatRule → AddForwardRequest
dnat_rule_to_add_request r = record {
  proto = both;
  iface = some r.iface;
  listen = r.listen;
  dest_host = r.remote_host;
  dest_port = r.dest_port;
  source = r.source;
  note = migrated_note;
}

-- `if c { m }` and an error that is only logged.
abbrev pub when : {S E : Type 0} → Bool → Exec S E (Unit {0}) → Exec S E (Unit {0})
when c m s = if c then m s else (ok tt, s)

abbrev pub logged : {S E : Type 0} → Exec S E (Unit {0}) → Exec S E (Unit {0})
logged m s = (ok tt, (m s).1)

module _ {D : Type 0} (host : DnatHost D) where
  unfoldable pub present : D → Bool
  present d = host.enabled && host.in_place d

  unfoldable pub rules : D → List DnatRule
  unfolding parse_conf
  rules d = parse_conf (host.conf_text d)

  unfoldable pub find_rule_by_prefix : Text → D → Option DnatRule
  find_rule_by_prefix prefix d = find (λ r. prefix_key r == prefix) (rules d)

  unfoldable pub encode_key : Text → Text
  encode_key prefix = host.encode prefix

  unfoldable pub decode_key : Text → Option Text
  decode_key key = host.decode key

  -- `parse_state`: a text that is no state is an empty one.
  unfoldable pub parse_state : Text → DnatState
  parse_state text = state_or (host.parse_json text)

  unfoldable pub dnat_view : DnatState → DnatRule → UnifiedForwardView
  dnat_view state r =
      let entry = find_entry state r.listen.start r.iface in
      record {
        origin = dnat_origin;
        proto = both;
        iface = some r.iface;
        listen = r.listen;
        dest_host = r.remote_host;
        dest_port = r.dest_port;
        source = r.source;
        note = [];
        resolved_ip = remote_ip_of entry;
        active = is_some entry;
        caps = record { can_edit = false; can_delete = true; can_migrate = true };
        conflict = false;
        id = none;
        dnat_key = some (encode_key (prefix_key r));
      }

  unfoldable pub list : D → List UnifiedForwardView
  list d = map (dnat_view (parse_state (host.state_text d))) (parse_conf (host.conf_text d))

  unfoldable pub write_conf_atomic : Text → Exec D Text (Unit {0})
  write_conf_atomic text = do host.write_tmp text; host.rename

  -- A failed status carries what dnat wrote to its error output.
  abbrev pub exit_status : Bool × Text → Result Text (Unit {0})
  exit_status (success, stderr) =
      if success then ok tt else err (lit "dnat apply 失败: " ++ trim stderr)

  unfoldable pub run_apply : Exec D Text (Unit {0})
  run_apply = do out ← host.apply; lift (exit_status out)

  -- What follows the lock: a failure of `dnat apply` is only logged.
  unfoldable pub locked_removal : Text → Exec D Text Bool
  locked_removal prefix = do
    text ← gets host.conf_text
    when (remove_rule_lines text prefix).1 (write_conf_atomic (remove_rule_lines text prefix).0)
    when (remove_rule_lines text prefix).1 (logged run_apply)
    pure (remove_rule_lines text prefix).1

  unfoldable pub remove_prefix : Text → Exec D Text Bool
  remove_prefix prefix = do host.lock; locked_removal prefix
