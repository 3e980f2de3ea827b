-- ===== src/SshKey.antt =====
-- `extract_ed25519_seed` of agent/src/util.rs: the seed in an OpenSSH private key that is not
-- encrypted. base64 is a parameter.
pub mod Format
use ipgate.Base.{
  ℕ, ◌+◌, ◌*◌, ◌==◌, ◌!=◌, nat_eq, list_eq, Bool, true, false, not, ◌&&◌, ◌||◌, Option, none, some,
  List, [], ◌∷◌, ◌++◌, map, length, take, drop, leb, if◌then◌else◌, Text, lit, trim, starts_with,
  lines, retain, Result, ok, err, Exec, pure, raise, gets, lift, continue, ◌>>=◌, ◌>>◌,
}
use ipgate.Proto.Ports.{is_nil}
use ipgate.Noise.{from_be_bytes4}

abbrev pub Bytes : Type 0
Bytes = List ℕ

pub data KeyError : Type 0 where
  bad_base64 out_of_range bad_magic encrypted wrong_check wrong_type short_key : KeyError
  key_count : ℕ → KeyError

pub record SshReader : Type 0 where
  pub buf : Bytes
  pub pos : ℕ

abbrev pub new : Bytes → SshReader
new buf = record { buf = buf; pos = 0 }

abbrev pub Reading : Type 0 → Type 0
Reading A = Exec SshReader KeyError A

-- `SshReader::take`; the sum of a position and of a length that fits 32 bits does not overflow.
unfoldable pub take_bytes : ℕ → Reading Bytes
take_bytes n r =
    let end = r.pos + n in
    if leb end (length r.buf)
    then (ok (take n (drop r.pos r.buf)), record r { pos = end })
    else (err out_of_range, r)

abbrev pub word : Bytes → Result KeyError ℕ
word (a ∷ b ∷ c ∷ d ∷ []) = ok (from_be_bytes4 a b c d)
word _ = err out_of_range

unfoldable pub u32 : Reading ℕ
u32 = do b ← take_bytes 4; lift (word b)

unfoldable pub string : Reading Bytes
string = do n ← u32; take_bytes n

abbrev pub ensure : Bool → KeyError → Result KeyError (Unit {0})
ensure b e = if b then ok tt else err e

abbrev pub magic : Bytes
magic = lit "openssh-key-v1" ++ 0 ∷ []

abbrev pub none_name : Bytes
none_name = lit "none"

abbrev pub ed25519_name : Bytes
ed25519_name = lit "ssh-ed25519"

-- The outer structure, up to the private section.
unfoldable pub private_section : Reading Bytes
private_section = do
  m ← take_bytes 15
  lift (ensure (m == magic) bad_magic)
  cipher ← string
  kdf ← string
  kdfopts ← string
  lift (ensure (cipher == none_name && kdf == none_name) encrypted)
  nkeys ← u32
  lift (ensure (nkeys == 1) (key_count nkeys))
  pub_blob ← string
  string

-- `privfield.get(..32)`
abbrev pub first32 : Bytes → Result KeyError Bytes
first32 b = if leb 32 (length b) then ok (take 32 b) else err short_key

unfoldable pub seed_in : Reading Bytes
seed_in = do
  check1 ← u32
  check2 ← u32
  lift (ensure (check1 == check2) wrong_check)
  keytype ← string
  lift (ensure (keytype == ed25519_name) wrong_type)
  pub32 ← string
  privfield ← string
  lift (first32 privfield)

-- `collect` of texts into one.
abbrev pub concat_texts : List Text → Text
concat_texts [] = []
concat_texts (t ∷ ts) = t ++ concat_texts ts

abbrev pub is_body : Text → Bool
is_body l = not (starts_with (lit "-----") l) && not (is_nil l)

unfoldable pub pem_body : Text → Text
unfolding retain
pem_body pem = concat_texts (retain is_body (map trim (lines pem)))

abbrev pub decoded : Option Bytes → Result KeyError Bytes
decoded none = err bad_base64
decoded (some raw) = ok raw

abbrev pub read_seed : Result KeyError Bytes → Result KeyError Bytes
read_seed (err e) = err e
read_seed (ok section) = (seed_in (new section)).0

abbrev pub read_raw : Result KeyError Bytes → Result KeyError Bytes
read_raw (err e) = err e
read_raw (ok raw) = read_seed (private_section (new raw)).0

unfoldable pub extract_ed25519_seed : (Text → Option Bytes) → Text → Result KeyError Bytes
extract_ed25519_seed decode pem = read_raw (decoded (decode (pem_body pem)))
