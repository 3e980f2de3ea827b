-- ===== src/Tests/Host.antt =====
-- The theorems on what the agent reads and edits on its host.
use ipgate.Base.{
  ℕ, ◌≡◌, refl, arith, ap, true, false, Option, some, List, [], ◌∷◌, ◌++◌, take, Text, lit, Result,
  ok,
}
use ipgate.Store.{State}
use ipgate.Sshd.{SshdHost, set_password_auth}
use ipgate.Sshd.Rollback.{IsSshdHost, IsSettled, set_password_auth-IsSettled}
use ipgate.SshKey.{extract_ed25519_seed}
use ipgate.SshKey.Format.{key_bytes, private_bytes, extract_ed25519_seed-key_bytes}
use ipgate.Cli.{Machine, ssh_expose_cli}
use ipgate.Cli.Rescue.{IsSwitched, ssh_expose_cli-IsSwitched}
use ipgate.Tests.Data.{Kernel, Disk, toy, config, store, kernel, save}

abbrev sshd_text : Text
sshd_text = lit "a\nb"

-- A host whose disk is the text of sshd_config, and whose sshd always answers the same.
abbrev sshd : SshdHost Text
sshd = record {
  read_config = λ d. ok d;
  write_atomic = λ t d. (ok tt, t);
  remove_dropin = λ d. d;
  validate_sshd_config = λ d. (ok tt, d);
  reload_sshd = λ d. (ok tt, d);
  sshd_t = λ d. some (lit "passwordauthentication no");
}

sshd-IsSshdHost : IsSshdHost sshd
sshd-IsSshdHost = record {
  written = λ t d d' w. let same : d' ≡ t = ground (arith, w) in ap ok same;
  unwritten = λ t x d d' w. absurd (ground (arith, w));
  dropped = λ d. refl;
  validated = λ d. refl;
  reloaded = λ d. refl;
}

set_password_auth-IsSettled_example :
    IsSettled sshd sshd-IsSshdHost true sshd_text (set_password_auth sshd true sshd_text)
set_password_auth-IsSettled_example =
    set_password_auth-IsSettled sshd sshd-IsSshdHost true sshd_text

abbrev seed : List ℕ
seed =
    1 ∷ 2 ∷ 3 ∷ 4 ∷ 5 ∷ 6 ∷ 7 ∷ 8 ∷ 9 ∷ 10 ∷ 11 ∷ 12 ∷ 13 ∷ 14 ∷ 15 ∷ 16 ∷ 17 ∷ 18 ∷ 19 ∷ 20 ∷ 21
    ∷ 22 ∷ 23 ∷ 24 ∷ 25 ∷ 26 ∷ 27 ∷ 28 ∷ 29 ∷ 30 ∷ 31 ∷ 32 ∷ []

abbrev public : List ℕ
public = 200 ∷ 201 ∷ []

abbrev key : List ℕ
key = key_bytes [] public (private_bytes 77 public (seed ++ public) []) []

-- base64 of the one text that matters here.
abbrev decode : Text → Option (List ℕ)
decode t = some key

extract_ed25519_seed-key_bytes_example :
    extract_ed25519_seed decode (lit "AAAA") ≡ ok (take 32 (seed ++ public))
unfolding lit
extract_ed25519_seed-key_bytes_example =
    extract_ed25519_seed-key_bytes decode (lit "AAAA") [] public 77 public (seed ++ public) [] []
      refl (omega arith) (omega arith) (omega arith) (omega arith) (omega arith) (omega arith)
      (omega arith)

abbrev machine : Machine Kernel Disk
machine = record { disk = []; kernel = kernel }

abbrev load : Disk → Result Text State
load d = ok store

ssh_expose_cli-IsSwitched_example :
    IsSwitched config toy load save false true machine
      (ssh_expose_cli config toy load save false true machine)
ssh_expose_cli-IsSwitched_example =
    ssh_expose_cli-IsSwitched config toy load save false true machine
