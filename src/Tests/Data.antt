-- ===== src/Tests/Data.antt =====
-- A small host: a kernel that holds a set of targets and refuses what it does not know, and a disk
-- that keeps what was saved.
use ipgate.Base.{
  ◌==◌, ◌≡◌, refl, sym, ap, ◌∙◌, arith, nat_eq, Bool, true, false, not, ◌&&◌, ◌||◌, Option, none,
  some, List, [], ◌∷◌, map, if◌then◌else◌, Text, retain, any, is_some, ok, err, Exec,
}
use ipgate.Proto.Net.{IpNet, v4, ipv4, net_eq}
use ipgate.Proto.Entries.{Entry, Device}
use ipgate.Proto.Ports.{RulesetConfig, SshKnock, KernelElement, knock}
use ipgate.Config.{AgentConfig}
use ipgate.Store.{State, empty}
use ipgate.Nft.Backend.{NftBackend}
use ipgate.Nft.Apply.Fallback.{IsAtomic}
use ipgate.Reconcile.{World, member}
use ipgate.Reconcile.Differences.{in_kernel, member-cons}
use ipgate.Reconcile.Convergence.{IsFaithful}
use ipgate.Handlers.App.{App}

pub record Kernel : Type 0 where
  pub knows_gate : Bool
  pub knows_knock : Bool
  pub loaded : Option RulesetConfig
  pub targets : List IpNet

abbrev pub element_of : IpNet → KernelElement
element_of t = record { target = t; expires_at = none }

-- The kernel takes a ruleset when it knows its optional parts.
abbrev pub takes : Kernel → RulesetConfig → Bool
takes k cfg =
    (not cfg.forward_allowlist_only || k.knows_gate) && (not (is_some (knock cfg)) || k.knows_knock)

abbrev pub refusal : Text
refusal = 110 ∷ 102 ∷ 116 ∷ []

abbrev pub toy_apply : RulesetConfig → List Entry → Exec Kernel Text (Unit {0})
toy_apply cfg entries k =
    if takes k cfg
    then (ok tt, record k { loaded = some cfg; targets = map (λ e. e.target) entries })
    else (err refusal, k)

abbrev pub toy : NftBackend Kernel
toy = record {
  apply = toy_apply;
  add = λ e k. (ok tt, record k { targets = e.target ∷ k.targets });
  remove = λ t k. (ok tt, record k { targets = retain (λ u. not (t == u)) k.targets });
  list = λ k. (ok (map element_of k.targets), k);
  flush = λ k. (ok tt, record k { loaded = none; targets = [] });
}

pub toy-IsAtomic : IsAtomic toy
toy-IsAtomic cfg entries k k' e h = ground arith

abbrev pub Disk : Type 0
Disk = List State

abbrev pub save : State → Exec Disk Text (Unit {0})
save s d = (ok tt, s ∷ d)

abbrev pub full_disk : State → Exec Disk Text (Unit {0})
full_disk s d = (err refusal, d)

abbrev pub knock_config : SshKnock
knock_config = record { port = 40000; token = 1 ∷ 2 ∷ [] }

abbrev pub config : AgentConfig
config = record {
  mgmt_port = 9443;
  ssh_port = 22;
  public_tcp = [];
  public_udp = [];
  rate_limit_per_min = 120;
  ssh_knock = some knock_config;
}

abbrev pub app : App Kernel Disk
app = record {
  cfg = config;
  backend = toy;
  save = save;
  probe = λ d. record { password = none; kbd_interactive = none; permit_root = none };
  set_password_auth = λ on d. (ok tt, d);
  reset_root_password = λ p d. (ok tt, d);
}

abbrev pub full_app : App Kernel Disk
full_app = record app { save = full_disk }

abbrev pub home : IpNet
home = v4 (ipv4 203 0 113 5) 32

abbrev pub office : IpNet
office = v4 (ipv4 198 51 100 0) 24

abbrev pub home_entry : Entry
home_entry = record {
  id = 1;
  target = home;
  note = [];
  expires_at = none;
  created_at = 0;
  created_by = 7;
}

abbrev pub phone_key : Text
phone_key = 107 ∷ []

abbrev pub phone : Device
phone = record { id = 7; name = []; pubkey = phone_key; created_at = 0; last_seen = none }

abbrev pub store : State
store = record (empty) { entries = home_entry ∷ []; devices = phone ∷ [] }

abbrev pub kernel : Kernel
kernel = record { knows_gate = true; knows_knock = true; loaded = none; targets = office ∷ [] }

abbrev pub world : World Kernel Disk
world = record {
  store = store;
  disk = [];
  kernel = kernel;
  live = record { gate = false; knock = false };
}

abbrev pub holds : Kernel → IpNet → Bool
holds k t = member t k.targets

in_kernel-elements : (ts : List IpNet) (t : IpNet) → in_kernel (map element_of ts) t ≡ member t ts
unfolding in_kernel member any
in_kernel-elements [] t = refl
in_kernel-elements (u ∷ us) t = ground (arith, in_kernel-elements us t)

member-removed :
    (u : IpNet) (ts : List IpNet) (t : IpNet)
    → member t (retain (λ x. not (u == x)) ts) ≡ (not (u == t) && member t ts)
unfolding member any retain
member-removed u [] t = ground arith
member-removed u (x ∷ xs) t = ground (arith, member-removed u xs t)

pub toy-IsFaithful : IsFaithful toy holds
toy-IsFaithful = record {
  listed = λ k k' elements h.
      let same : map element_of k.targets ≡ elements = ground arith in
      (ground arith, λ t. rw (sym same) (in_kernel-elements k.targets t));
  added = λ e k k' h t.
      let same : record k { targets = e.target ∷ k.targets } ≡ k' = ground (arith, h) in
      ap (λ x. holds x t) (sym same) ∙ member-cons t e.target k.targets;
  add_refused = λ e k k' x h t. cc;
  removed = λ u k k' h t.
      let same : record k { targets = retain (λ v. not (u == v)) k.targets } ≡ k' =
        ground (arith, h) in
      ap (λ x. holds x t) (sym same) ∙ member-removed u k.targets t;
  remove_refused = λ u k k' x h t. cc;
}
