-- ===== src/Tests/Agent.antt =====
-- The theorems on the agent as a whole.
use ipgate.Base.{
  ℕ, ◌≡◌, ◌≢◌, refl, arith, Bool, true, false, Option, none, some, is_some, List, [], ◌∷◌, Text,
  lit, Result, ok, err, Exec, subst,
}
use ipgate.Proto.Net.{IpAddr, ipv4}
use ipgate.Proto.Errors.{ApiError, api_error, bad_request}
use ipgate.Proto.Rpc.{RpcRequest, HandshakeHello}
use ipgate.Proto.Ports.{tcp, single}
use ipgate.Dnat.Adapter.{DnatHost}
use ipgate.Reconcile.{World}
use ipgate.Handlers.Allowlist.{revoke_device}
use ipgate.Api.Access.{serve_request}
use ipgate.Api.Dispatch.{Moment, Reply}
use ipgate.Agent.{Agent, Reach, Unpaired, handle, greet, copy, pairs, request, handshake, copied}
use ipgate.Base.{bool_dec}
use ipgate.Nft.Apply.{apply_ruleset}
use ipgate.Config.{validate, ruleset_with}
use ipgate.Store.{State, prune_expired, ruleset_flags}
use ipgate.Cli.{Machine}
use ipgate.Agent.Start.{Files, boot, opened, start}
use ipgate.Agent.Start.Safety.{IsTaken, start-Reach}
use ipgate.Agent.WellFormed.{IsWellFormed, Reach-IsWellFormed}
use ipgate.Agent.Revocation.{Unpaired-serve_request}
use ipgate.Tests.Data.{toy-IsAtomic, Kernel, Disk, app, config, store, world, phone, phone_key}

abbrev dnat : DnatHost Disk
dnat = record {
  enabled = false;
  in_place = λ d. false;
  conf_text = λ d. [];
  state_text = λ d. [];
  parse_json = λ t. none;
  encode = λ p. p;
  decode = λ k. some k;
  lock = λ d. (ok tt, d);
  write_tmp = λ text d. (ok tt, d);
  rename = λ d. (ok tt, d);
  apply = λ d. (ok (true, []), d);
}

abbrev agent : Agent Kernel Disk
agent = record {
  app = app;
  nat = record { apply_nat = λ rs k. (ok tt, k); flush_nat = λ k. (ok tt, k) };
  ensure_ip_forward = λ d. d;
  dnat = dnat;
  sha = λ t. t;
  load_codes = λ d. (ok [], d);
  save_codes = λ codes d. (ok tt, d);
  hash_of = λ rs. 0;
}

abbrev at : Moment
at = record {
  entry_id = 3;
  forward_id = 9;
  now = 5;
  host = record {
    default_route_iface = none;
    first_ipv4 = λ i. none;
    iface_has_ipv4 = λ i a. false;
    resolve_ipv4 = λ h. none;
  };
  interface_list = [];
}

abbrev peer : IpAddr
peer = IpAddr.v4 (ipv4 203 0 113 5)

abbrev unread : Text → Result ApiError Reply
unread e = err (api_error bad_request e)

abbrev probed : Result ApiError Reply
probed = unread (lit "no route")

abbrev close_ssh : RpcRequest
close_ssh = RpcRequest.set_ssh_exposure true

abbrev open_ssh_port : RpcRequest
open_ssh_port = RpcRequest.add_public_port (record { proto = tcp; ports = single 22; note = [] })

-- SSH is closed, a public port over it is asked for, and the loops take their turns.
abbrev closed_world : World Kernel Disk
closed_world = (serve_request (handle agent at peer) unread probed phone_key (ok close_ssh) world).1

abbrev asked_world : World Kernel Disk
asked_world =
    (serve_request (handle agent at peer) unread probed phone_key (ok open_ssh_port) closed_world).1

abbrev busy_day : Reach agent world (copy agent 6 asked_world).1
busy_day =
    Reach.next
      (Reach.next
        (Reach.next Reach.here (request at peer unread probed phone_key (ok close_ssh) world))
        (request at peer unread probed phone_key (ok open_ssh_port) closed_world))
      (copied 6 asked_world)

store-IsWellFormed : IsWellFormed config store
unfolding ipgate.Store.empty ipgate.Handlers.Exposure.Safety.is_guarded
store-IsWellFormed =
    ((tt, tt), (record { ids = (tt, tt); keys = (tt, tt) }, (refl, (tt, (tt, tt)))))

Reach-IsWellFormed_example : IsWellFormed config (copy agent 6 asked_world).1.store
Reach-IsWellFormed_example = Reach-IsWellFormed agent store-IsWellFormed busy_day

abbrev day_end : World Kernel Disk
day_end = (copy agent 6 asked_world).1

abbrev stranger : HandshakeHello
stranger = record { pairing_code = none; device_name = none }

abbrev revoked_world : World Kernel Disk
revoked_world = (revoke_device app phone.id world).1

abbrev later_world : World Kernel Disk
later_world = greet agent phone_key stranger 8 9 revoked_world

-- The revoked phone tries the handshake again, without a code.
not_paired : pairs agent (handshake phone_key stranger 8 9 revoked_world) ≢ some phone_key
unfolding pairs
not_paired h = ground (arith, h)

phone_known : ipgate.Store.get_device_by_pubkey world.store phone_key ≡ some phone
unfolding ipgate.Store.get_device_by_pubkey ipgate.Base.find ipgate.Store.empty
phone_known = ground arith

Unpaired-serve_request_example :
    serve_request (handle agent at peer) unread probed phone_key (ok RpcRequest.whoami) later_world
    ≡ (none, later_world)
Unpaired-serve_request_example =
    Unpaired-serve_request agent phone_key phone world later_world store-IsWellFormed phone_known
      (Unpaired.next Unpaired.here (handshake phone_key stranger 8 9 revoked_world) not_paired) at
      peer unread probed (ok RpcRequest.whoami)

abbrev files : Files Disk
files = record {
  load_identity = λ d. (ok tt, d);
  load_store = λ d. ok store;
  load_access_key = λ d. (ok [], d);
}

abbrev before : Machine Kernel Disk
before = record { disk = []; kernel = world.kernel }

abbrev first_world : World Kernel Disk
first_world = (boot agent files 5 at.host (opened agent files store [] world.kernel)).1

starts : start agent files 5 at.host before ≡ ok first_world
unfolding start boot validate apply_ruleset ruleset_flags ruleset_with bool_dec
    ipgate.Base.ℕ_discrete ipgate.Proto.Ports.knock ipgate.Store.empty ipgate.Proto.Ports.is_nil
    ipgate.Proto.Entries.is_expired
starts = refl

start-Reach_example :
    (validate config ≡ ok tt)
    × (s : State) × (files.load_store [] ≡ ok s)
    × IsTaken agent files at.host (prune_expired 5 s).1 world.kernel first_world.kernel
    × IsWellFormed config (copy agent 6 first_world).1.store
start-Reach_example =
    start-Reach agent files 5 at.host before toy-IsAtomic
      (λ s h.
        let same : store ≡ s = ground (arith, h) in
        subst (IsWellFormed config) same store-IsWellFormed)
      starts (Reach.next Reach.here (copied 6 first_world))
