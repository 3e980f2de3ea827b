-- ===== src/Tests/Access.antt =====
-- Pairing, the handshake and the limits at concrete inputs.
use ipgate.Base.{
  ap, sym, ℕ, ◌+◌, ◌-◌, ◌*◌, ◌≡◌, ◌≢◌, ◌≤◌, ◌<◌, ◌⊎◌, ◌==◌, list_eq, nat_eq, refl, arith, Bool,
  true, false, ◌&&◌, ◌||◌, Option, none, some, List, [], ◌∷◌, Text, ltb, length, Result, ok, err,
  Exec, IsUnique, All,
}
use ipgate.Base.Maps.{lookup}
use ipgate.Proto.Net.{IpAddr, ip_eq, ipv4, second, DeviceId}
use ipgate.Proto.Entries.{Device}
use ipgate.Proto.Rpc.{HandshakeHello, HandshakeAck}
use ipgate.Store.{get_device_by_pubkey, add_device}
use ipgate.Reconcile.{World}
use ipgate.Api.Pairing.{PendingCode, consume, take_code}
use ipgate.Api.Pairing.Codes.{copies, is_usable, take_code_lem}
use ipgate.Api.Pairing.Files.{IsCodeFile, IsUsedUp}
use ipgate.Handlers.App.{App}
use ipgate.Api.Access.{authorize, paired_device}
use ipgate.Api.Access.Gatekeeping.{authorize_sound}
use ipgate.Api.Limit.{RateLimiter, Table}
use ipgate.Api.Limit.Window.{served, served_lem}
use ipgate.Api.Conns.{DeviceConns, or_zero, acquire}
use ipgate.Api.Conns.Counts.{start, accepted, held, Reachable-count}
use ipgate.Tests.Data.{Kernel, Disk, app, world, store, phone_key}

abbrev code_hash : Text
code_hash = 5 ∷ []

abbrev codes : List PendingCode
codes =
    record { hash = code_hash; expires_at = 600000000000 }
    ∷ record { hash = 6 ∷ []; expires_at = 3 }
    ∷ []

hashes_differ : (code_hash == (6 ∷ [])) ≡ false
unfolding ipgate.Base.list_dec ipgate.Base.ℕ_discrete
hashes_differ = refl

single_copy : copies code_hash codes < 2
unfolding copies ipgate.Base.list_dec ipgate.Base.ℕ_discrete
single_copy = omega arith

take_code_lem_example :
    ((take_code code_hash 2 codes).0 ≡ is_usable code_hash 2 codes)
    × ((take_code code_hash 2 (take_code code_hash 2 codes).1).0 ≡ false)
    × (is_usable (6 ∷ []) 2 (take_code code_hash 2 codes).1 ≡ is_usable (6 ∷ []) 2 codes)
take_code_lem_example =
    take_code_lem code_hash 2 codes (6 ∷ []) 2 single_copy (omega arith) hashes_differ

abbrev sha : Text → Text
sha s = s

-- A disk with the saved stores and the file of the codes.
abbrev Host : Type 0
Host = Disk × List PendingCode

abbrev load_codes : Exec Host Text (List PendingCode)
load_codes d = (ok d.1, d)

abbrev save_codes : List PendingCode → Exec Host Text (Unit {0})
save_codes cs d = (ok tt, (d.0, cs))

codes-IsCodeFile : IsCodeFile load_codes save_codes
codes-IsCodeFile = record {
  loaded = λ d. refl;
  saved = λ cs d d' h.
      let same : (d.0, cs) ≡ d' = ground (arith, h) in ap (λ x. (load_codes x).0) (sym same);
}

abbrev host_app : App Kernel Host
host_app = record {
  cfg = app.cfg;
  backend = app.backend;
  save = λ s d. (ok tt, (s ∷ d.0, d.1));
  probe = λ d. app.probe d.0;
  set_password_auth = λ on d. (ok tt, d);
  reset_root_password = λ p d. (ok tt, d);
}

abbrev host_world : World Kernel Host
host_world = record {
  store = world.store;
  disk = ([], codes);
  kernel = world.kernel;
  live = world.live;
}

abbrev tablet_key : Text
tablet_key = 116 ∷ []

abbrev hello : HandshakeHello
hello = record { pairing_code = some code_hash; device_name = none }

abbrev joined : Result Text HandshakeAck × World Kernel Host
joined = authorize host_app sha load_codes save_codes tablet_key hello 8 10 host_world

abbrev tablet_ack : HandshakeAck
tablet_ack = record { device_id = 8; paired = true }

joins : joined ≡ (ok tablet_ack, joined.1)
unfolding authorize ipgate.Base.list_dec ipgate.Base.ℕ_discrete consume
joins = refl

authorize_sound_example :
    ((device : Device) × (get_device_by_pubkey store tablet_key ≡ some device)
      × (tablet_ack ≡ record { device_id = device.id; paired = false }))
    ⊎ ((code : Text) × (get_device_by_pubkey store tablet_key ≡ none)
        × (some code_hash ≡ some code)
        × IsUsedUp sha load_codes save_codes code 10 host_world.disk joined.1.disk
        × (tablet_ack ≡ record { device_id = 8; paired = true })
        × (joined.1.store ≡ add_device (paired_device 8 tablet_key hello 10) store))
authorize_sound_example =
    authorize_sound host_app sha load_codes save_codes tablet_key hello 8 10 host_world joined.1
      tablet_ack codes-IsCodeFile (λ s d. refl) joins

abbrev limiter : RateLimiter
limiter = record { max = 2; window = 100 }

abbrev visitor : IpAddr
visitor = IpAddr.v4 (ipv4 203 0 113 5)

abbrev table : Table
table = (visitor, (10, 1)) ∷ []

abbrev calls : List (IpAddr × ℕ)
calls = (visitor, 20) ∷ (visitor, 30) ∷ []

calls_inside : All (λ c. c.1 - 10 < limiter.window) calls
calls_inside = (omega arith, (omega arith, tt))

visitor_counted : lookup visitor table ≡ some (10, 1)
unfolding lookup ipgate.Proto.Net.IpAddr-discrete ipgate.Base.ℕ_discrete
visitor_counted = refl

limiter_on : limiter.max ≢ 0
limiter_on h = omega arith

few_calls : 1 + length calls < 4294967296
unfolding length
few_calls = omega arith

served_lem_example : served limiter visitor calls table ≤ 2 - 1
served_lem_example =
    served_lem limiter visitor calls 10 1 table limiter_on calls_inside few_calls visitor_counted

abbrev one_conn : DeviceConns
one_conn = (acquire phone_key 1 []).1

first_accepted : (acquire phone_key 1 []).0 ≡ true
unfolding acquire
first_accepted = refl

Reachable-count_example :
    (or_zero (lookup phone_key one_conn) ≡ held phone_key (phone_key ∷ []))
    × (held phone_key (phone_key ∷ []) ≤ 1)
Reachable-count_example =
    Reachable-count 1 one_conn (phone_key ∷ []) (accepted phone_key [] [] start first_accepted)
      phone_key
