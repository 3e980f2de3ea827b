-- ===== src/Tests/Dnat.antt =====
-- The theorems on the rules of dnat at concrete inputs.
use ipgate.Base.{
  ℕ, ◌≡◌, ◌≢◌, refl, arith, ap, Bool, true, false, not, Option, none, some, List, [], ◌∷◌, ◌++◌,
  ◌==◌, list_eq, nat_eq, Text, lit, Result, ok, err, Exec, any, retain, Returns, All, is_some, inl,
  inr, ◌⊎◌, ◌&&◌,
}
use ipgate.Proto.Net.{ipv4}
use ipgate.Proto.Ports.{both}
use ipgate.Proto.Forwards.{auto, UnifiedForwardView, ipgate_origin, dnat_origin}
use ipgate.Nft.Backend.{NatBackend}
use ipgate.Forward.{Host}
use ipgate.Dnat.Conf.{DnatRule, parse_line}
use ipgate.Dnat.Conf.Reading.{IsRule, line_of, parse_line-line_of}
use ipgate.Dnat.Adapter.{DnatHost, remove_prefix}
use ipgate.Dnat.Adapter.Draining.{IsDnatHost, IsDeletion, remove_prefix-IsDeletion}
use ipgate.Reconcile.{World}
use ipgate.Handlers.App.{App}
use ipgate.Handlers.Dnat.{migrate_dnat_forward}
use ipgate.Handlers.Dnat.Migration.{IsApart, IsServed, migrate_dnat_forward-IsServed}
use ipgate.Handlers.Dnat.Handover.{IsMigrated, migrate_dnat_forward-IsMigrated}
use ipgate.Tests.Data.{Kernel, toy, config, store, kernel}

abbrev web : DnatRule
web = record {
  listen = record { start = 8000; end = 8010 };
  iface = lit "eth0";
  remote_host = lit "ex.com";
  dest_port = record { start = 9000; end = 9010 };
  source = auto;
}

web-IsRule : IsRule web
unfolding lit ipgate.Base.is_whitespace ipgate.Base.ℕ_discrete
web-IsRule = record {
  listen_port = (omega arith, omega arith, omega arith);
  iface_name = (λ h. cc, (refl, (refl, (refl, (refl, tt)))), (refl, (refl, (refl, (refl, tt)))));
  host_name = (
    λ h. cc,
    (refl, (refl, (refl, (refl, (refl, (refl, tt)))))),
    (refl, (refl, (refl, (refl, (refl, (refl, tt)))))),
  );
  dest_ports = (omega arith, omega arith, omega arith);
  same_length = refl;
  source_octets = tt;
}

parse_line-line_of_example : parse_line (line_of web) ≡ ok (some web)
parse_line-line_of_example = parse_line-line_of web web-IsRule

-- A disk with the configuration of dnat and the temporary file beside it.
abbrev Disk : Type 0
Disk = Text × Text

abbrev conf_of : Disk → Text
conf_of (conf, tmp) = conf

abbrev dnat : DnatHost Disk
dnat = record {
  enabled = true;
  in_place = λ d. true;
  conf_text = conf_of;
  state_text = λ d. [];
  parse_json = λ t. none;
  encode = λ p. p;
  decode = λ k. some k;
  lock = λ d. (ok tt, d);
  write_tmp = λ text d. (ok tt, (d.0, text));
  rename = λ d. (ok tt, (d.1, []));
  apply = λ d. (ok (true, []), d);
}

dnat-IsDnatHost : IsDnatHost dnat
dnat-IsDnatHost = record {
  locked = λ d. refl;
  staged = λ text d. refl;
  renamed = λ text d d' e w r.
      let moved : d'.1 ≡ e.0 = ap (λ p. p.1.0) r in
      let staged : text ≡ d'.1 = ap (λ p. p.1.1) w in ground arith;
  kept = λ d e m r. absurd (ground (arith, r));
  applied = λ d. refl;
}

abbrev conf : Text
conf = lit "443>eth0>1.2.3.4:8443>auto\n# keep\n53>eth0>8.8.8.8:53>auto\n"

abbrev disk : Disk
disk = (conf, [])

abbrev https_key : Text
https_key = lit "443>eth0>"

remove_prefix-IsDeletion_example :
    IsDeletion dnat https_key disk (remove_prefix dnat https_key disk)
remove_prefix-IsDeletion_example = remove_prefix-IsDeletion dnat https_key dnat-IsDnatHost disk

abbrev app : App Kernel Disk
app = record {
  cfg = config;
  backend = toy;
  save = λ s d. (ok tt, d);
  probe = λ d. record { password = none; kbd_interactive = none; permit_root = none };
  set_password_auth = λ on d. (ok tt, d);
  reset_root_password = λ p d. (ok tt, d);
}

abbrev nat : NatBackend Kernel
nat = record { apply_nat = λ rs k. (ok tt, k); flush_nat = λ k. (ok tt, k) }

abbrev host : Host
host = record {
  default_route_iface = some (lit "eth0");
  first_ipv4 = λ i. some (ipv4 10 0 0 2);
  iface_has_ipv4 = λ i a. true;
  resolve_ipv4 = λ h. some (ipv4 1 2 3 4);
}

abbrev world : World Kernel Disk
world = record {
  store = store;
  disk = disk;
  kernel = kernel;
  live = record { gate = false; knock = false };
}

abbrev same_disk : Disk → Disk
same_disk d = d

app-IsApart : IsApart app same_disk dnat
app-IsApart = record { saved = λ s d. refl; ensured = λ d. refl }

migrate_dnat_forward-IsServed_example :
    IsServed dnat 9 conf (migrate_dnat_forward app nat same_disk host dnat 9 7 100 https_key world)
migrate_dnat_forward-IsServed_example =
    migrate_dnat_forward-IsServed app nat same_disk host dnat app-IsApart 9 7 100 https_key world

migrate_dnat_forward-IsMigrated_example :
    Returns
      (IsMigrated dnat https_key)
      (migrate_dnat_forward app nat same_disk host dnat 9 7 100 https_key world)
unfolding ipgate.Dnat.Adapter.decode_key
migrate_dnat_forward-IsMigrated_example =
    migrate_dnat_forward-IsMigrated app nat same_disk host dnat dnat-IsDnatHost 9 7 100 https_key
      https_key refl world

abbrev native_view : UnifiedForwardView
native_view = record {
  origin = ipgate_origin;
  proto = both;
  iface = none;
  listen = record { start = 400; end = 500 };
  dest_host = lit "10.0.0.7";
  dest_port = record { start = 400; end = 500 };
  source = auto;
  note = [];
  resolved_ip = none;
  active = false;
  caps = record { can_edit = true; can_delete = true; can_migrate = false };
  conflict = false;
  id = some 4;
  dnat_key = none;
}

abbrev dnat_view : UnifiedForwardView
dnat_view = record native_view {
  origin = dnat_origin;
  iface = some (lit "eth0");
  listen = record { start = 443; end = 443 };
}

abbrev eth0 : Option Text
eth0 = some (lit "eth0")
