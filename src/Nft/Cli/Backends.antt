-- ===== src/Nft/Cli/Backends.antt =====
-- What the program nft has to do for a write of `NftCli` to happen as a whole or not at all.
use ipgate.Base.{
  ◌≡◌, ap, ◌∙◌, sym, false, Bool-cases, inl, inr, List, Text, ok, err, Run-cases, Result,
}
use ipgate.Proto.Net.{IpNet, DateTime}
use ipgate.Proto.Entries.{Entry}
use ipgate.Proto.Ports.{RulesetConfig}
use ipgate.Nft.Backend.{ResolvedForward}
use ipgate.Nft.Listing.{Readers}
use ipgate.Nft.Json.{Json}
use ipgate.Nft.Cli.{Output, NftProgram, with_trailing_newline, run_script, nft_cli, nat_cli}

-- Writing the temporary file leaves the kernel, and so does a run of `nft -f` that does not start or
-- that reports a failure: the file is one transaction.
pub record IsTransactional {K : Type 0} (nft : NftProgram K) : Type 0 where
  pub written : (s : Text) (k : K) → (nft.write_private s k).1 ≡ k
  pub not_started : (s e : Text) (k k' : K) → nft.run_file s k ≡ (err e, k') → k' ≡ k
  pub refused :
      (s : Text) (out : Output) (k k' : K)
      → nft.run_file s k ≡ (ok out, k')
      → out.success ≡ false
      → k' ≡ k

-- A run that reports an error has left the kernel as it was.
abbrev pub IsWhole : {K A : Type 0} → K → Result Text A × K → Type 0
IsWhole k (ok a, k') = Unit
IsWhole k (err e, k') = k' ≡ k

module _ {K : Type 0} (nft : NftProgram K) (laws : IsTransactional nft) where
  run_script-IsWhole : (script : Text) (k : K) → IsWhole k (run_script nft script k)
  unfolding run_script
  run_script-IsWhole script k =
      let text = with_trailing_newline script in
      let unmoved = laws.written text k in
      elim (Run-cases (nft.write_private text k)) [
        | inr (x, k1, w) ↦ rw w (sym (ap (λ p. p.1) w) ∙ unmoved)
        | inl (_, k1, w) ↦
            let first : k1 ≡ k = sym (ap (λ p. p.1) w) ∙ unmoved in
            elim (Run-cases (nft.run_file text k1)) [
              | inr (x, k2, r) ↦ rw (w, r) (laws.not_started text x k1 k2 r ∙ first)
              | inl (out, k2, r) ↦ elim (Bool-cases out.success) [
                | inl good ↦ rw (w, r, good) tt
                | inr bad ↦ rw (w, r, bad) (laws.refused text out k1 k2 r bad ∙ first)
              ]
            ]
      ]

-- Over a program nft whose files are transactions, each write of `NftCli` that reports an error has
-- left the kernel as it was: the load of the table, the change of one element, the removal of the
-- table, and the load and the removal of the nat table.
pub nft_cli-IsWhole :
    {K V : Type 0} (nft : NftProgram K) (json : Json V) (readers : Readers)
    (show_net : IpNet → Text) (now : DateTime)
    → IsTransactional nft
    → (cfg : RulesetConfig) (entries : List Entry) (e : Entry) (target : IpNet)
      (forwards : List ResolvedForward) (k : K)
    → let cli = nft_cli nft json readers show_net now in
      IsWhole k (cli.apply cfg entries k)
      × IsWhole k (cli.add e k)
      × IsWhole k (cli.remove target k)
      × IsWhole k (cli.flush k)
      × IsWhole k ((nat_cli nft).apply_nat forwards k)
      × IsWhole k ((nat_cli nft).flush_nat k)
unfolding nft_cli nat_cli
nft_cli-IsWhole nft json readers show_net now laws cfg entries e target forwards k = (
  run_script-IsWhole nft laws _ k,
  run_script-IsWhole nft laws _ k,
  run_script-IsWhole nft laws _ k,
  run_script-IsWhole nft laws _ k,
  run_script-IsWhole nft laws _ k,
  run_script-IsWhole nft laws _ k,
)
