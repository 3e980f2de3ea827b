-- ===== src/Tests/Kernel.antt =====
-- The ruleset, the reconciliation and the nat table on the small host.
use ipgate.Base.{
  ℕ, ◌+◌, ◌-◌, ◌*◌, ◌≡◌, ◌≢◌, ◌≤◌, ◌<◌, ◌⊎◌, inl, inr, refl, ap, ◌∙◌, arith, Bool, true, false, not,
  ◌&&◌, ◌||◌, bool_dec, Option, none, some, List, [], ◌∷◌, ◌++◌, Text, lit, is_some, retain, Result,
  ok, err, IsUnique, All,
}
use ipgate.Proto.Net.{ipv4, IpNet}
use ipgate.Proto.Ports.{RulesetConfig, PortRange, tcp, both, knock}
use ipgate.Proto.Forwards.{ForwardRule, auto, valid_iface_name}
use ipgate.Store.{State}
use ipgate.Nft.Backend.{NatBackend, Applied, ResolvedForward, active, rejected}
use ipgate.Nft.Apply.{restrict, apply_ruleset, gate_state, redact, candidates, wants}
use ipgate.Nft.Apply.Fallback.{IsFirstAccepted, apply_ruleset_total, apply_ruleset_sound}
use ipgate.Nft.Ports.{merged_ports}
use ipgate.Nft.Ports.Merging.{covers, IsApart, merged_ports_lem}
use ipgate.Reconcile.{diff, member}
use ipgate.Reconcile.Differences.{is_live, in_kernel, diff_lem}
use ipgate.Forward.{Host, resolve_all}
use ipgate.Forward.Resolution.{IsSafe, resolve_all-IsSafe}
use ipgate.Tests.Data.{
  Kernel, toy, toy-IsAtomic, knock_config, store, kernel, home_entry, office, element_of, refusal,
}
use ipgate.Nft.Listing.{parse_nft_duration}
use ipgate.Nft.Listing.Durations.{
  TimeUnit, minutes, seconds, duration_text, total_secs, parse_nft_duration-duration_text,
}

-- A kernel without the knock.
abbrev old_kernel : Kernel
old_kernel = record kernel { knows_knock = false }

abbrev wanted : RulesetConfig
wanted = record {
  ssh_port = 22;
  ssh_allowlist_only = true;
  ssh_knock = some knock_config;
  forward_allowlist_only = true;
  public_tcp = [];
  public_udp = [];
}

abbrev base_kernel : Kernel
base_kernel = (toy.apply (restrict wanted (false, false)) [] old_kernel).1

base_taken : toy.apply (restrict wanted (false, false)) [] old_kernel ≡ (ok tt, base_kernel)
unfolding restrict knock
base_taken = refl

apply_ruleset_total_example :
    (a : Applied) × (k' : Kernel) × (apply_ruleset toy wanted [] old_kernel ≡ (ok a, k'))
apply_ruleset_total_example =
    apply_ruleset_total toy wanted [] old_kernel base_kernel toy-IsAtomic base_taken

abbrev gate_only : Applied
gate_only = record { gate = active; knock = rejected refusal }

falls_back :
    apply_ruleset toy wanted [] old_kernel
    ≡ (ok gate_only, (apply_ruleset toy wanted [] old_kernel).1)
unfolding apply_ruleset bool_dec knock redact ipgate.Base.ℕ_discrete
falls_back = refl

apply_ruleset_sound_example :
    (cand : Bool × Bool) × (reason : Text) × IsFirstAccepted toy
      (redact wanted)
      wanted
      []
      old_kernel
      (candidates (wants wanted))
      cand
      (apply_ruleset toy wanted [] old_kernel).1
    × (gate_only.gate ≡ gate_state true cand.1 reason)
    × (gate_only.knock ≡ gate_state (is_some (knock wanted)) cand.0 reason)
apply_ruleset_sound_example =
    apply_ruleset_sound toy wanted [] old_kernel (apply_ruleset toy wanted [] old_kernel).1
      gate_only toy-IsAtomic falls_back

diff_lem_example :
    ((t : IpNet)
      → (member t (diff (home_entry ∷ []) (element_of office ∷ []) 5).missing_in_kernel
          ≡ (is_live 5 (home_entry ∷ []) t && not (in_kernel (element_of office ∷ []) t)))
        × (member t (diff (home_entry ∷ []) (element_of office ∷ []) 5).stale_in_kernel
            ≡ (in_kernel (element_of office ∷ []) t && not (is_live 5 (home_entry ∷ []) t))))
    × IsUnique (λ t. t) (diff (home_entry ∷ []) (element_of office ∷ []) 5).missing_in_kernel
    × IsUnique (λ t. t) (diff (home_entry ∷ []) (element_of office ∷ []) 5).stale_in_kernel
diff_lem_example = diff_lem (home_entry ∷ []) (element_of office ∷ []) 5

abbrev ranges : List PortRange
ranges =
    record { start = 8000; end = 8010 }
    ∷ record { start = 443; end = 443 }
    ∷ record { start = 8005; end = 8020 }
    ∷ []

merged_ports_lem_example :
    (covers (merged_ports ranges) 8015 ≡ covers ranges 8015) × IsApart (merged_ports ranges)
merged_ports_lem_example = merged_ports_lem ranges 8015

abbrev eth0 : Text
eth0 = 101 ∷ 116 ∷ 104 ∷ 48 ∷ []

abbrev forward : ResolvedForward
forward = record {
  proto = both;
  iface = eth0;
  listen = record { start = 443; end = 443 };
  remote_ip = ipv4 10 0 0 2;
  dest_port = record { start = 443; end = 443 };
  source_ip = ipv4 203 0 113 1;
}

eth0_ok : valid_iface_name eth0 ≡ true
unfolding valid_iface_name ipgate.Base.all ipgate.Base.is_ascii_alphanumeric
eth0_ok = refl

abbrev rule : ForwardRule
rule = record {
  id = 3;
  proto = tcp;
  iface = none;
  listen = record { start = 443; end = 443 };
  dest_host = 104 ∷ [];
  dest_port = record { start = 443; end = 443 };
  source = auto;
  note = [];
  created_at = 0;
  created_by = 7;
}

abbrev host : Host
host = record {
  default_route_iface = some eth0;
  first_ipv4 = λ i. some (ipv4 203 0 113 1);
  iface_has_ipv4 = λ i x. false;
  resolve_ipv4 = λ h. some (ipv4 10 0 0 2);
}

abbrev forwarding : State
forwarding = record store { forwards = rule ∷ [] }

host-HasPlainRoute : (i : Text) → host.default_route_iface ≡ some i → valid_iface_name i ≡ true
host-HasPlainRoute i h = let same : i ≡ eth0 = ground arith in ap valid_iface_name same ∙ eth0_ok

resolve_all-IsSafe_example : All IsSafe (resolve_all host forwarding).0
resolve_all-IsSafe_example = resolve_all-IsSafe host forwarding host-HasPlainRoute

abbrev nat : NatBackend Kernel
nat = record { apply_nat = λ rs k. (ok tt, k); flush_nat = λ k. (ok tt, k) }

duration_fits : total_secs ((58, minutes) ∷ (20, seconds) ∷ []) ≤ 9223372036854775807
unfolding total_secs ipgate.Nft.Listing.Durations.unit_length
duration_fits = omega arith

parse_nft_duration-duration_text_example :
    parse_nft_duration (duration_text ((58, minutes) ∷ (20, seconds) ∷ []))
    ≡ some (total_secs ((58, minutes) ∷ (20, seconds) ∷ []))
parse_nft_duration-duration_text_example =
    parse_nft_duration-duration_text 58 minutes ((20, seconds) ∷ []) duration_fits
