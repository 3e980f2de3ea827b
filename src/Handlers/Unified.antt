-- ===== src/Handlers/Unified.antt =====
-- The list of all forwards of agent/src/api/handlers.rs: the native ones and those of dnat, with the
-- conflicts between them.
pub mod Conflicts
use ipgate.Base.{
  ℕ, ◌==◌, nat_eq, list_eq, option_eq, Bool, true, false, ◌&&◌, ◌||◌, Option, none, some, List, [],
  ◌∷◌, ◌++◌, map, if◌then◌else◌, Text, any, is_some, or_else,
}
use ipgate.Proto.Ports.{PortRange, overlaps, is_nil}
use ipgate.Proto.Forwards.{ForwardRule, UnifiedForwardView, UnifiedForwardList, ipgate_origin}
use ipgate.Store.{State, resolved_ip}
use ipgate.Forward.{Host}
use ipgate.Dnat.Adapter.{DnatHost, present, list}

unfoldable pub native_unified : State → ForwardRule → UnifiedForwardView
unfolding resolved_ip
native_unified s rule = record {
  origin = ipgate_origin;
  proto = rule.proto;
  iface = rule.iface;
  listen = rule.listen;
  dest_host = rule.dest_host;
  dest_port = rule.dest_port;
  source = rule.source;
  note = rule.note;
  resolved_ip = resolved_ip s rule.id;
  active = is_some (resolved_ip s rule.id);
  caps = record { can_edit = true; can_delete = true; can_migrate = false };
  conflict = false;
  id = some rule.id;
  dnat_key = none;
}

-- The closure `eff`: the interface of a view, or that of the default route.
abbrev pub eff : Option Text → UnifiedForwardView → Option Text
eff default_iface v = or_else v.iface default_iface

-- Two views on one interface with a common port.
abbrev pub collides : Option Text → UnifiedForwardView → UnifiedForwardView → Bool
collides default_iface v u =
    eff default_iface u == eff default_iface v && overlaps v.listen u.listen

-- The body of both loops: `conflict` is only ever set.
unfoldable pub mark :
    Option Text → List UnifiedForwardView → UnifiedForwardView → UnifiedForwardView
unfolding any overlaps
mark default_iface others v =
    if is_some (eff default_iface v) && any (collides default_iface v) others
    then record v { conflict = true }
    else v

unfoldable pub mark_all :
    Option Text → List UnifiedForwardView → List UnifiedForwardView → List UnifiedForwardView
unfolding mark
mark_all default_iface others vs = map (mark default_iface others) vs

-- Both lists with their marks, one behind the other. The second loop reads the first list with its
-- marks set.
unfoldable pub join_views :
    Option Text → List UnifiedForwardView → List UnifiedForwardView → List UnifiedForwardView
unfolding mark_all is_nil
join_views default_iface native dnat =
    let marked = mark_all default_iface dnat native in
    if is_nil dnat then native else marked ++ mark_all default_iface marked dnat

unfoldable pub list_forwards : {D : Type 0} → Host → DnatHost D → State → D → UnifiedForwardList
unfolding native_unified join_views present
list_forwards host dnat s d =
    let dnat_views = if present dnat d then list dnat d else [] in
    record {
      forwards = join_views host.default_route_iface (map (native_unified s) s.forwards) dnat_views;
      revision = s.forward_revision;
    }
