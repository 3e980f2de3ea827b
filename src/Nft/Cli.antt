-- ===== src/Nft/Cli.antt =====
-- agent/src/nft/cli.rs: `NftCli`, the backend that runs the program nft. Writing the temporary file
-- and running the program are parameters.
pub mod Backends
use ipgate.Base.{
  ℕ, ◌==◌, nat_eq, Bool, true, false, Option, none, some, List, [], ◌∷◌, ◌++◌, Text, lit, trim,
  join, if◌then◌else◌, Result, ok, err, Exec, pure, raise, lift, continue, ◌>>=◌, ◌>>◌,
}
use ipgate.Proto.Net.{IpNet, DateTime}
use ipgate.Proto.Entries.{Entry}
use ipgate.Proto.Ports.{RulesetConfig, KernelElement}
use ipgate.Nft.Backend.{NftBackend, NatBackend, ResolvedForward}
use ipgate.Nft.Ruleset.{render_apply, add_element_script, delete_element_script}
use ipgate.Nft.Nat.{render_nat_apply, render_nat_flush}
use ipgate.Nft.Listing.{Readers, parse_set_elements_text}
use ipgate.Nft.Json.{Json, parse_set_elements}

-- What the program left behind: whether it ended well, its output and its complaints.
pub record Output : Type 0 where
  pub success : Bool
  pub stdout : Text
  pub stderr : Text

-- `run_file` is `nft -f` on the written file, `run` the program with arguments; both may not start.
pub record NftProgram (K : Type 0) : Type 0 where
  pub write_private : Text → Exec K Text (Unit {0})
  pub run_file : Text → Exec K Text Output
  pub run : List Text → Exec K Text Output

unfoldable pub ends_with_newline : Text → Bool
ends_with_newline [] = false
ends_with_newline (c ∷ []) = c == 10
ends_with_newline (c ∷ d ∷ s) = ends_with_newline (d ∷ s)

unfoldable pub with_trailing_newline : Text → Text
unfolding ends_with_newline
with_trailing_newline script = if ends_with_newline script then script else script ++ lit "\n"

abbrev pub script_status : Output → Result Text (Unit {0})
script_status out = if out.success then ok tt else err (lit "nft -f 失败: " ++ trim out.stderr)

abbrev pub capture_status : List Text → Output → Result Text Text
capture_status args out =
    if out.success
    then ok out.stdout
    else err (lit "nft " ++ join (lit " ") args ++ lit " 失败: " ++ trim out.stderr)

abbrev pub list_args : Text → List Text
list_args set = lit "list" ∷ lit "set" ∷ lit "inet" ∷ lit "ipgate" ∷ set ∷ []

module _ {K : Type 0} (nft : NftProgram K) where
  unfoldable pub run_script : Text → Exec K Text (Unit {0})
  run_script script = do
    nft.write_private (with_trailing_newline script)
    out ← nft.run_file (with_trailing_newline script)
    lift (script_status out)

  unfoldable pub run_capture : List Text → Exec K Text Text
  run_capture args = do out ← nft.run args; lift (capture_status args out)

module _ {K V : Type 0} (nft : NftProgram K) (json : Json V) (readers : Readers)
    (show_net : IpNet → Text) (now : DateTime) where
  unfoldable pub text_set : Text → Exec K Text (List KernelElement)
  text_set set = do
    text ← run_capture nft (list_args set)
    lift (parse_set_elements_text readers now text)

  -- One set, in JSON, or as text from a program without `-j`.
  unfoldable pub list_set : Text → Exec K Text (List KernelElement)
  list_set set k =
      let (r, k1) = run_capture nft (lit "-j" ∷ list_args set) k in
      elim r [ ok text ↦ (parse_set_elements json readers text now, k1) | err e ↦ text_set set k1 ]

  unfoldable pub nft_cli : NftBackend K
  nft_cli = record {
    apply = λ cfg entries. run_script nft (render_apply show_net cfg entries now);
    add = λ e. run_script nft (add_element_script show_net e.target e.expires_at now);
    remove = λ t. run_script nft (delete_element_script show_net t);
    list = do
      fours ← list_set (lit "allow4")
      sixes ← list_set (lit "allow6")
      pure (fours ++ sixes);
    flush = run_script nft (lit "delete table inet ipgate");
  }

unfoldable pub nat_cli : {K : Type 0} → NftProgram K → NatBackend K
nat_cli nft = record {
  apply_nat = λ forwards. run_script nft (render_nat_apply forwards);
  flush_nat = run_script nft render_nat_flush;
}
