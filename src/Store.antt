-- ===== src/Store.antt =====
-- The store of agent/src/store.rs: the state that is written to `state.json`, and its operations.
-- `save` and `load` stand in Store/File. Fresh identifiers, which the source draws at random, are
-- arguments.
pub mod Entries
pub mod Devices
pub mod Forwards
pub mod File
use ipgate.Base.{
  ℕ, ◌+◌, ◌%◌, ◌==◌, ◌!=◌, nat_eq, list_eq, option_eq, bool_eq, Bool, true, false, not, ◌&&◌,
  Option, none, some, List, [], ◌∷◌, ◌++◌, map, if◌then◌else◌, Text, length, retain, find,
}
use ipgate.Base.Maps.{lookup, erase}
use ipgate.Proto.Net.{DeviceId, EntryId, ForwardId, DateTime, Ipv4Addr, IpNet, net_eq}
use ipgate.Proto.Entries.{Entry, AllowRequest, Device, is_expired}
use ipgate.Proto.Ports.{PublicPort, range_eq, is_nil}
use ipgate.Proto.Forwards.{ForwardRule, AddForwardRequest}

pub record State : Type 0 where
  pub entries : List Entry
  pub devices : List Device
  pub revision : ℕ
  pub forwards : List ForwardRule
  pub forward_revision : ℕ
  pub resolved : List (ForwardId × Ipv4Addr)
  pub ssh_allowlist_only : Bool
  pub forward_allowlist_only : Bool
  pub public_ports : List PublicPort

pub record RulesetFlags : Type 0 where
  pub ssh_allowlist_only : Bool
  pub forward_allowlist_only : Bool
  pub public_ports : List PublicPort

-- `State::default`, the store of a missing file.
unfoldable pub empty : State
empty = record {
  entries = [];
  devices = [];
  revision = 0;
  forwards = [];
  forward_revision = 0;
  resolved = [];
  ssh_allowlist_only = false;
  forward_allowlist_only = false;
  public_ports = [];
}

-- `+= 1` on a u64.
abbrev pub bump : ℕ → ℕ
bump n = (n + 1) % 18446744073709551616

unfoldable pub find_by_id : State → EntryId → Option Entry
find_by_id s id = find (λ e. e.id == id) s.entries

-- The tests of the `retain` calls.
abbrev pub other_device : Device → Device → Bool
other_device device d = d.id != device.id && d.pubkey != device.pubkey

unfoldable pub add_device : Device → State → State
unfolding retain
add_device device s = record s { devices = retain (other_device device) s.devices ++ device ∷ [] }

unfoldable pub get_device_by_pubkey : State → Text → Option Device
unfolding find
get_device_by_pubkey s pubkey = find (λ d. d.pubkey == pubkey) s.devices

unfoldable pub remove_device : DeviceId → State → Bool × State
unfolding retain
remove_device id s =
    let kept = retain (λ d. d.id != id) s.devices in
    (length kept != length s.devices, record s { devices = kept })

-- The first device with the id, as `iter_mut().find` reaches it.
unfoldable pub touch : DeviceId → DateTime → List Device → List Device
touch id now [] = []
touch id now (d ∷ ds) =
    if d.id == id then record d { last_seen = some now } ∷ ds else d ∷ touch id now ds

unfoldable pub touch_device : DeviceId → DateTime → State → State
unfolding touch
touch_device id now s = record s { devices = touch id now s.devices }

unfoldable pub new_entry : EntryId → AllowRequest → DeviceId → DateTime → Entry
new_entry id req by now = record {
  id = id;
  target = req.target;
  note = req.note;
  expires_at = req.expires_at;
  created_at = now;
  created_by = by;
}

unfoldable pub allow : EntryId → AllowRequest → DeviceId → DateTime → State → Entry × State
unfolding new_entry retain
allow id req by now s =
    let entry = new_entry id req by now in
    (
      entry,
      record s {
        entries = retain (λ e. e.target != req.target) s.entries ++ entry ∷ [];
        revision = bump s.revision;
      },
    )

unfoldable pub set_ssh_allowlist_only : Bool → State → Bool × State
set_ssh_allowlist_only on s = (s.ssh_allowlist_only != on, record s { ssh_allowlist_only = on })

unfoldable pub set_forward_allowlist_only : Bool → State → Bool × State
set_forward_allowlist_only on s =
    (s.forward_allowlist_only != on, record s { forward_allowlist_only = on })

unfoldable pub ruleset_flags : State → RulesetFlags
ruleset_flags s = record {
  ssh_allowlist_only = s.ssh_allowlist_only;
  forward_allowlist_only = s.forward_allowlist_only;
  public_ports = s.public_ports;
}

unfoldable pub set_public_ports : List PublicPort → State → State
set_public_ports ports s = record s { public_ports = ports }

unfoldable pub revoke_by_target : IpNet → State → Bool × State
unfolding retain
revoke_by_target target s =
    let kept = retain (λ e. e.target != target) s.entries in
    let removed = length kept != length s.entries in
    (
      removed,
      record s { entries = kept; revision = if removed then bump s.revision else s.revision },
    )

unfoldable pub find_forward : State → ForwardId → Option ForwardRule
unfolding find
find_forward s id = find (λ f. f.id == id) s.forwards

unfoldable pub new_rule : ForwardId → AddForwardRequest → DeviceId → DateTime → ForwardRule
new_rule id req by now = record {
  id = id;
  proto = req.proto;
  iface = req.iface;
  listen = req.listen;
  dest_host = req.dest_host;
  dest_port = req.dest_port;
  source = req.source;
  note = req.note;
  created_at = now;
  created_by = by;
}

abbrev pub other_listener : AddForwardRequest → ForwardRule → Bool
other_listener req f = not (f.iface == req.iface && f.listen == req.listen)

unfoldable pub add_forward :
    ForwardId → AddForwardRequest → DeviceId → DateTime → State → ForwardRule × State
unfolding new_rule retain
add_forward id req by now s =
    let rule = new_rule id req by now in
    (
      rule,
      record s {
        forwards = retain (other_listener req) s.forwards ++ rule ∷ [];
        forward_revision = bump s.forward_revision;
      },
    )

-- The assignments of `update_forward`: the id and the two creation fields stay.
unfoldable pub edit_rule : AddForwardRequest → ForwardRule → ForwardRule
edit_rule req f = record f {
  proto = req.proto;
  iface = req.iface;
  listen = req.listen;
  dest_host = req.dest_host;
  dest_port = req.dest_port;
  source = req.source;
  note = req.note;
}

-- The edit reaches the first rule with the id.
unfoldable pub edit_first : ForwardId → AddForwardRequest → List ForwardRule → List ForwardRule
unfolding edit_rule
edit_first id req [] = []
edit_first id req (f ∷ fs) = if f.id == id then edit_rule req f ∷ fs else f ∷ edit_first id req fs

unfoldable pub update_forward : ForwardId → AddForwardRequest → State → Option ForwardRule × State
unfolding edit_first find_forward
update_forward id req s = elim (find_forward s id) [
  | none ↦ (none, s)
  | some rule ↦ (
    some (edit_rule req rule),
    record s {
      forwards = edit_first id req s.forwards;
      forward_revision = bump s.forward_revision;
      resolved = if rule.dest_host == req.dest_host then s.resolved else erase id s.resolved;
    },
  )
]

unfoldable pub remove_forward : ForwardId → State → Bool × State
unfolding retain
remove_forward id s =
    let kept = retain (λ f. f.id != id) s.forwards in
    let removed = length kept != length s.forwards in
    (
      removed,
      record s {
        forwards = kept;
        resolved = if removed then erase id s.resolved else s.resolved;
        forward_revision = if removed then bump s.forward_revision else s.forward_revision;
      },
    )

unfoldable pub resolved_ip : State → ForwardId → Option Ipv4Addr
resolved_ip s id = lookup id s.resolved

unfoldable pub set_resolved : List (ForwardId × Ipv4Addr) → State → State
set_resolved m s = record s { resolved = m }

unfoldable pub prune_expired : DateTime → State → List IpNet × State
unfolding retain
prune_expired now s =
    let removed = map (λ e. e.target) (retain (λ e. is_expired e now) s.entries) in
    (
      removed,
      record s {
        entries = retain (λ e. not (is_expired e now)) s.entries;
        revision = if is_nil removed then s.revision else bump s.revision;
      },
    )
