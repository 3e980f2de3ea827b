-- ===== src/Tests/Rules.antt =====
-- The store, the request checks and the address rules at concrete inputs.
use ipgate.Base.{
  ℕ, ◌+◌, ◌-◌, ◌*◌, ◌≡◌, ◌≢◌, ◌≤◌, ◌<◌, ◌⊎◌, ◌↔◌, ◌==◌, ◌!=◌, list_eq, nat_eq, refl, arith, Bool,
  true, false, not, ◌&&◌, ◌||◌, Option, none, some, List, [], ◌∷◌, Text, length, is_some,
  if◌then◌else◌, keep_if, Result, ok, err, IsUnique, All,
}
use ipgate.Proto.Net.{ipv4, net_eq}
use ipgate.Proto.Entries.{AllowRequest, Device}
use ipgate.Proto.Ports.{PortRange, tcp, is_valid}
use ipgate.Proto.Forwards.{AddForwardRequest, ForwardRule, auto, forbidden_forward_target}
use ipgate.Proto.Forwards.Targets.{IsAddress, IsBlocked, value, forbidden_iff}
use ipgate.Store.{
  State, allow, bump, revoke_by_target, prune_expired, add_forward, update_forward, remove_forward,
  find_forward, edit_rule, resolved_ip, add_device, get_device_by_pubkey,
}
use ipgate.Store.Entries.{HasUniqueTargets}
use ipgate.Store.Devices.{HasUniqueDevices}
use ipgate.Store.Forwards.{HasUniqueListeners}
use ipgate.Tests.Data.{store, office}

abbrev visit : AllowRequest
visit = record { target = office; note = []; expires_at = some 100 }

store-HasUniqueTargets : HasUniqueTargets store
unfolding ipgate.Store.empty
store-HasUniqueTargets = (tt, tt)

phone-HasUniqueDevices : HasUniqueDevices store
unfolding ipgate.Store.empty
phone-HasUniqueDevices = record { ids = (tt, tt); keys = (tt, tt) }

abbrev tablet : Device
tablet = record { id = 8; name = []; pubkey = 116 ∷ []; created_at = 5; last_seen = none }

abbrev https : PortRange
https = record { start = 443; end = 443 }

abbrev request : AddForwardRequest
request = record {
  proto = tcp;
  iface = none;
  listen = https;
  dest_host = 104 ∷ [];
  dest_port = https;
  source = auto;
  note = [];
}

store-HasUniqueListeners : HasUniqueListeners store
unfolding ipgate.Store.empty
store-HasUniqueListeners = tt

abbrev forwarding : State
forwarding = (add_forward 3 request 7 5 store).1

abbrev rule : ForwardRule
rule = (add_forward 3 request 7 5 store).0

rule_found : find_forward forwarding 3 ≡ some rule
unfolding find_forward add_forward ipgate.Store.empty ipgate.Base.ℕ_discrete
rule_found = refl

abbrev rule_id : ℕ
rule_id = 3

https_valid : is_valid https ≡ true
unfolding is_valid
https_valid = refl

wide_valid : is_valid (record { start = 400; end = 500 }) ≡ true
unfolding is_valid
wide_valid = refl

metadata-IsAddress : IsAddress (ipv4 169 254 169 254)
metadata-IsAddress = record { a = omega arith; b = omega arith; c = omega arith; d = omega arith }

forbidden_iff_example :
    (forbidden_forward_target (ipv4 169 254 169 254) ≢ none)
    ↔ IsBlocked (value (ipv4 169 254 169 254))
forbidden_iff_example = forbidden_iff (ipv4 169 254 169 254) metadata-IsAddress
