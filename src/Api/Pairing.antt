-- ===== src/Api/Pairing.antt =====
-- agent/src/auth/pairing.rs: pairing codes, of which only the hash is stored. The hash function
-- (SHA-256 in hexadecimal) and the file `pairing.json` are parameters; the code drawn at random is an
-- argument.
pub mod Codes
pub mod Files
use ipgate.Base.{
  ℕ, ◌+◌, ◌*◌, ◌==◌, ◌!=◌, nat_eq, list_eq, Bool, true, false, not, ◌||◌, List, [], ◌∷◌, ◌++◌,
  if◌then◌else◌, Text, length, ltb, retain, any, Result, ok, err, Exec, pure, continue, ◌>>=◌, ◌>>◌,
}
use ipgate.Proto.Net.{DateTime, second}

pub record PendingCode : Type 0 where
  pub hash : Text
  pub expires_at : DateTime

-- `codes.retain(|c| c.expires_at > now)`
unfoldable pub unexpired : DateTime → List PendingCode → List PendingCode
unfolding retain
unexpired now codes = retain (λ c. ltb now c.expires_at) codes

-- `Vec::remove` at the first position with the hash.
unfoldable pub remove_first : Text → List PendingCode → List PendingCode
remove_first h [] = []
remove_first h (c ∷ cs) = let rest = remove_first h cs in if c.hash == h then cs else c ∷ rest

-- The codes after `create`.
unfoldable pub with_code : Text → ℕ → DateTime → List PendingCode → List PendingCode
unfolding unexpired
with_code h ttl_secs now codes =
    unexpired now codes ++ record { hash = h; expires_at = now + ttl_secs * second } ∷ []

-- Whether `consume` hits, and the codes after it.
unfoldable pub take_code : Text → DateTime → List PendingCode → Bool × List PendingCode
unfolding unexpired remove_first any
take_code h now codes =
    let live = unexpired now codes in
    if any (λ c. c.hash == h) live then (true, remove_first h live) else (false, live)

module _ {D : Type 0} (sha : Text → Text) (load : Exec D Text (List PendingCode))
    (save : List PendingCode → Exec D Text (Unit {0})) where
  unfoldable pub create : Text → ℕ → DateTime → Exec D Text Text
  unfolding with_code
  create code ttl_secs now = do
    codes ← load
    save (with_code (sha code) ttl_secs now codes)
    pure code

  -- The file is written when a code was hit or something had expired.
  unfoldable pub save_taken : List PendingCode → Bool × List PendingCode → Exec D Text (Unit {0})
  save_taken before (hit, after) =
      if hit || length after != length before then save after else pure tt

  unfoldable pub consume : Text → DateTime → Exec D Text Bool
  unfolding take_code save_taken
  consume code now = do
    codes ← load
    save_taken codes (take_code (sha code) now codes)
    pure (take_code (sha code) now codes).0
