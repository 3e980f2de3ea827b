-- ===== src/Nft/Apply.antt =====
-- `apply_ruleset` of agent/src/nft/mod.rs: the whole ruleset, with a fall-back for the parts that
-- an old kernel may refuse.
pub mod Fallback
use ipgate.Base.{
  ℕ, ◌==◌, bool_eq, Bool, true, false, ◌&&◌, ◌||◌, Option, none, some, List, [], ◌∷◌, ◌++◌,
  if◌then◌else◌, Text, lit, replace, to_hex, any, is_some, or_else, Result, ok, err, Exec,
}
use ipgate.Proto.Entries.{Entry}
use ipgate.Proto.Ports.{RulesetConfig, knock}
use ipgate.Nft.Backend.{NftBackend, Gate, off, active, rejected, Applied}

abbrev pub Cand : Type 0
Cand = Bool × Bool

abbrev pub same_cand : Cand → Cand → Bool
same_cand (k, g) (k', g') = k == k' && g == g'

-- The configuration of a candidate: knock and gate as it says.
unfoldable pub restrict : RulesetConfig → Cand → RulesetConfig
restrict cfg (k, g) = record cfg {
  forward_allowlist_only = g;
  ssh_knock = if k then cfg.ssh_knock else none;
}

-- What a part that was wanted, or not, has become.
unfoldable pub gate_state : Bool → Bool → Text → Gate
gate_state false got reason = off
gate_state true true reason = active
gate_state true false reason = rejected reason

-- The error that the first refusal left, or no text.
abbrev pub reason_of : Option Text → Text
reason_of none = []
reason_of (some e) = e

module _ {K : Type 0} (b : NftBackend K) (redact : Text → Text) (cfg : RulesetConfig)
    (entries : List Entry) (want : Cand) where
  -- The branch of an accepted candidate.
  unfoldable pub applied_by : Cand → Option Text → Applied
  unfolding gate_state
  applied_by (k, g) first = record {
    gate = gate_state want.1 g (reason_of first);
    knock = gate_state want.0 k (reason_of first);
  }

  -- The `for` over the candidates, with `tried` and `first_err`.
  unfoldable pub try_cands : List Cand → List Cand → Option Text → Exec K Text Applied
  unfolding applied_by restrict
  try_cands [] tried first k = (err (reason_of first), k)
  try_cands (cand ∷ cands) tried first k =
      let skip = try_cands cands tried first k in
      let (r, k') = b.apply (restrict cfg cand) entries k in
      let run : Result Text Applied × K = elim r [
        | ok _ ↦ (ok (applied_by cand first), k')
        | err e ↦ elim first [
          | none ↦ try_cands cands (cand ∷ tried) (some (redact e)) k'
          | some f ↦
              let next = try_cands cands (cand ∷ tried) (some f) k' in
              if same_cand cand (false, false) then (err (redact e), k') else next
        ]
      ] in
      if any (same_cand cand) tried then skip else run

abbrev pub wants : RulesetConfig → Cand
wants cfg = (is_some (knock cfg), cfg.forward_allowlist_only)

abbrev pub candidates : Cand → List Cand
candidates (k, g) = (k, g) ∷ (false, g) ∷ (k, false) ∷ (false, false) ∷ []

-- The knock token is taken out of an error text.
unfoldable pub redact : RulesetConfig → Text → Text
unfolding replace to_hex lit
redact cfg e = elim cfg.ssh_knock [ none ↦ e | some k ↦ replace e (to_hex k.token) (lit "<token>") ]

unfoldable pub apply_ruleset :
    {K : Type 0} (b : NftBackend K) (cfg : RulesetConfig) (entries : List Entry)
    → Exec K Text Applied
unfolding try_cands any
apply_ruleset b cfg entries =
    try_cands b (redact cfg) cfg entries (wants cfg) (candidates (wants cfg)) [] none
