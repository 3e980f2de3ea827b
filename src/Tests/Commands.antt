-- ===== src/Tests/Commands.antt =====
-- The theorems on the commands and on the program nft.
use ipgate.Base.{
  ℕ, ◌≡◌, refl, arith, subst, true, false, none, some, List, [], ◌∷◌, Text, lit, Result, ok, err,
}
use ipgate.Proto.Net.{IpNet, net_eq, ipv4}
use ipgate.Proto.Ports.{default_ruleset}
use ipgate.Store.{State}
use ipgate.Store.File
use ipgate.Nft.Backend.{NatBackend}
use ipgate.Nft.Listing.{Readers}
use ipgate.Nft.Json.{Json}
use ipgate.Nft.Cli.{Output, NftProgram, nft_cli, nat_cli}
use ipgate.Nft.Cli.Backends.{IsTransactional, IsWhole, nft_cli-IsWhole}
use ipgate.Forward.{Host}
use ipgate.Dnat.Adapter.{DnatHost}
use ipgate.Cli.{Machine}
use ipgate.Cli.Forwarding.{forward_add_cli}
use ipgate.Cli.Forwarding.Checks.{save-IsStored, IsStored, IsFitDisk, forward_add_cli-IsFitDisk}
use ipgate.Agent.WellFormed.Rules.{HasFitRules}
use ipgate.Tests.Files.{Files, state_file, state_file-IsStateFile}
use ipgate.Tests.Data.{Kernel, store, kernel, home, home_entry}

-- A kernel that holds the last script, and takes no second one.
abbrev loads : Text → List Text → Result Text Output × List Text
loads s [] = (ok (record { success = true; stdout = []; stderr = [] }), s ∷ [])
loads s (t ∷ k) = (ok (record { success = false; stdout = []; stderr = lit "busy" }), t ∷ k)

abbrev nft : NftProgram (List Text)
nft = record {
  write_private = λ s k. (ok tt, k);
  run_file = loads;
  run = λ args k. (ok (record { success = true; stdout = []; stderr = [] }), k);
}

nft-IsTransactional : IsTransactional nft
nft-IsTransactional = record { written = λ s k. refl; not_started = never; refused = kept }
  where
    never : (s e : Text) (k k' : List Text) → loads s k ≡ (err e, k') → k' ≡ k
    never s e [] k' h = cc
    never s e (t ∷ k) k' h = cc

    kept :
        (s : Text) (out : Output) (k k' : List Text)
        → loads s k ≡ (ok out, k')
        → out.success ≡ false
        → k' ≡ k
    kept s out [] k' h bad = ground (arith, h, bad)
    kept s out (t ∷ k) k' h bad = ground (arith, h)

abbrev json : Json ℕ
json = record {
  from_str = λ s. none;
  show = λ v. [];
  get = λ key v. none;
  as_array = λ v. none;
  as_str = λ v. none;
  as_u64 = λ v. none;
  as_i64 = λ v. none;
  new_net = λ ip len. err [];
}

abbrev readers : Readers
readers = record { parse_net = λ s. none; parse_ip = λ s. none; later = λ t s. t }

abbrev show_net : IpNet → Text
show_net t = lit "203.0.113.5"

-- The kernel is taken by an older script, so that every write is refused.
abbrev taken : List Text
taken = lit "old" ∷ []

nft_cli-IsWhole_example :
    let cli = nft_cli nft json readers show_net 5 in
    IsWhole taken (cli.apply default_ruleset store.entries taken)
    × IsWhole taken (cli.add home_entry taken)
    × IsWhole taken (cli.remove home taken)
    × IsWhole taken (cli.flush taken)
    × IsWhole taken ((nat_cli nft).apply_nat [] taken)
    × IsWhole taken ((nat_cli nft).flush_nat taken)
nft_cli-IsWhole_example =
    nft_cli-IsWhole nft json readers show_net 5 nft-IsTransactional default_ruleset store.entries
      home_entry home [] taken

state_file-IsStored : IsStored (File.load state_file) (File.save state_file) (λ d. d)
state_file-IsStored = save-IsStored state_file (λ d. d) state_file-IsStateFile (λ d. refl)

abbrev nat : NatBackend Kernel
nat = record { apply_nat = λ rs k. (ok tt, k); flush_nat = λ k. (ok tt, k) }

abbrev host : Host
host = record {
  default_route_iface = some (lit "eth0");
  first_ipv4 = λ i. some (ipv4 203 0 113 1);
  iface_has_ipv4 = λ i a. false;
  resolve_ipv4 = λ h. some (ipv4 10 0 0 9);
}

abbrev no_dnat : DnatHost Files
no_dnat = record {
  enabled = false;
  in_place = λ d. false;
  conf_text = λ d. [];
  state_text = λ d. [];
  parse_json = λ t. none;
  encode = λ p. p;
  decode = λ k. some k;
  lock = λ d. (ok tt, d);
  write_tmp = λ text d. (ok tt, d);
  rename = λ d. (ok tt, d);
  apply = λ d. (ok (true, []), d);
}

abbrev machine : Machine Kernel Files
machine = record { disk = (some store, none); kernel = kernel }

stored-IsFitDisk : IsFitDisk (File.load state_file) machine.disk
unfolding IsFitDisk ipgate.Store.empty File.load
stored-IsFitDisk s h = let same : store ≡ s = ground (arith, h) in subst HasFitRules same tt

forward_add_cli-IsFitDisk_example :
    IsFitDisk
      (File.load state_file)
      (forward_add_cli
        (File.save state_file)
        nat
        (λ d. d)
        host
        no_dnat
        (File.load state_file)
        (lit "8443")
        (lit "10.0.0.9:8443")
        (lit "tcp")
        none
        (lit "auto")
        []
        9
        5
        machine).1.disk
forward_add_cli-IsFitDisk_example =
    forward_add_cli-IsFitDisk (File.save state_file) nat (λ d. d) host no_dnat
      (File.load state_file) state_file-IsStored (lit "8443") (lit "10.0.0.9:8443") (lit "tcp") none
      (lit "auto") [] 9 5 machine stored-IsFitDisk
