-- ===== src/Tests/Files.antt =====
-- The theorems on the files of the store and of the access key.
use ipgate.Base.{
  to_hex, ℕ, ◌≡◌, refl, arith, true, none, some, List, [], ◌∷◌, Text, lit, Result, ok, err, Option,
  Exec, is_some, ap, sym, ◌+◌, ◌≤◌, ◌<◌,
}
use ipgate.Proto.Net.{net_eq}
use ipgate.Proto.Ports.{SshKnock, knock_port_base, knock_port_span}
use ipgate.Config.{AgentConfig}
use ipgate.Store.{State}
use ipgate.Store.File
use ipgate.Store.File.{StateFile}
use ipgate.Store.File.Whole.{IsStateFile, IsWritten, save-IsWritten}
use ipgate.Api.AccessKey.{KeyFile, derive_knock, with_knock, try_with_knock}
use ipgate.Api.AccessKey.Restart.{IsKeyFile, with_knock_again}
use ipgate.Tests.Data.{config, store}

-- The file, and the one beside it; a state is its own text.
abbrev pub Files : Type 0
Files = Option State × Option State

abbrev read_state : Files → Result Text State
read_state (none, t) = err (lit "no file")
read_state (some s, t) = ok s

abbrev rename_state : Exec Files Text (Unit {0})
rename_state (f, none) = (err (lit "no file"), (f, none))
rename_state (f, some t) = (ok tt, (some t, none))

abbrev pub state_file : StateFile Files State
state_file = record {
  path = lit "state.json";
  exists = λ d. is_some d.0;
  read = read_state;
  from_str = λ s. ok s;
  to_text = λ s. ok s;
  create_dir_all = λ d. (ok tt, d);
  write_tmp = λ t d. (ok tt, (d.0, some t));
  rename = rename_state;
}

abbrev LoadsSame : Files → Files → Type 0
LoadsSame d d' = ipgate.Store.File.load state_file d' ≡ ipgate.Store.File.load state_file d

created : (d : Files) → LoadsSame d (state_file.create_dir_all d).1
created d = refl

tmp_kept : (t : State) (d : Files) → LoadsSame d (d.0, some t)
unfolding ipgate.Store.File.load
tmp_kept t (none, u) = refl
tmp_kept t (some s, u) = refl

not_renamed : (d d' : Files) (e : Text) → rename_state d ≡ (err e, d') → LoadsSame d d'
not_renamed (f, none) d' e h =
    let same : d' ≡ (f, none) = ground (arith, h) in ap (ipgate.Store.File.load state_file) same
not_renamed (f, some t) d' e h = absurd (ground (arith, h))

renamed :
    (t : State) (d d1 d2 : Files)
    → state_file.write_tmp t d ≡ (ok tt, d1)
    → rename_state d1 ≡ (ok tt, d2)
    → (is_some d2.0 ≡ true) × (read_state d2 ≡ ok t)
renamed t (f, u) d1 d2 w n =
    let same : d2 ≡ (some t, none) = ground (arith, w, n) in
    (ap (λ d. is_some d.0) same, ap read_state same)

printed : (s t : State) → state_file.to_text s ≡ ok t → state_file.from_str t ≡ ok s
printed s t h = let same : s ≡ t = ground (arith, h) in ap (λ x. ok x) (sym same)

pub state_file-IsStateFile : IsStateFile state_file
state_file-IsStateFile = record {
  created = created;
  tmp_kept = tmp_kept;
  not_renamed = not_renamed;
  renamed = renamed;
  printed = printed;
}

save-IsWritten_example :
    IsWritten state_file store (none, none) (ipgate.Store.File.save state_file store (none, none))
save-IsWritten_example = save-IsWritten state_file state_file-IsStateFile store (none, none)

abbrev written_text : Option Text → Result Text Text
written_text none = err (lit "no file")
written_text (some t) = ok t

abbrev key_file : KeyFile (Option Text)
key_file = record {
  exists = λ d. is_some d;
  read_to_string = λ d. written_text d;
  create_dir_all = λ d. (ok tt, d);
  write_private = λ t d. (ok tt, some t);
}

key_file-IsKeyFile : IsKeyFile key_file
key_file-IsKeyFile = record { written = written }
  where
    written :
        (t : Text) (d d' : Option Text)
        → key_file.write_private t d ≡ (ok tt, d')
        → (is_some d' ≡ true) × (written_text d' ≡ ok t)
    written t d d' h =
        let same : d' ≡ some t = ground (arith, h) in (ap is_some same, ap written_text same)

abbrev sha : Text → List ℕ
sha t = []

-- The knock of a key file that was missing.
abbrev drawn_key : Text
drawn_key = lit "abcd"

abbrev filled : AgentConfig
filled = record config { ssh_knock = some (derive_knock sha drawn_key) }

first_start : with_knock key_file sha (171 ∷ 205 ∷ []) config none ≡ (ok filled, some drawn_key)
unfolding with_knock ipgate.Api.AccessKey.load_or_generate to_hex lit
first_start = refl

with_knock_again_example :
    (with_knock key_file sha (1 ∷ []) config (some drawn_key) ≡ (ok filled, some drawn_key))
    × (try_with_knock key_file sha config (some drawn_key) ≡ filled)
    × (k : SshKnock) × (filled.ssh_knock ≡ some k)
    × (knock_port_base ≤ k.port)
    × (k.port < knock_port_base + knock_port_span)
with_knock_again_example =
    with_knock_again key_file key_file-IsKeyFile sha 171 (205 ∷ []) (1 ∷ []) config filled none
      (some drawn_key) (omega arith, (omega arith, tt)) first_start
