-- ===== src/Api/AccessKey.antt =====
-- agent/src/auth/access.rs, agent/src/auth/mod.rs and the two ways in which agent/src/config.rs
-- fills in the knock: the access key and what is derived from it. The file `access.key`, SHA-256
-- and the bytes drawn at random are parameters.
pub mod Restart
use ipgate.Base.{
  ℕ, ◌+◌, ◌*◌, ◌%◌, Bool, Option, some, List, [], ◌∷◌, ◌++◌, Text, lit, trim, to_hex, take, drop,
  if◌then◌else◌, Result, ok, err, ◌>>=?◌, Exec, pure, lift, continue, ◌>>=◌, ◌>>◌,
}
use ipgate.Proto.Ports.{SshKnock, knock_port_base, knock_port_span, is_nil}
use ipgate.Config.{AgentConfig}

pub record KeyFile (D : Type 0) : Type 0 where
  pub exists : D → Bool
  pub read_to_string : D → Result Text Text
  pub create_dir_all : Exec D Text (Unit {0})
  pub write_private : Text → Exec D Text (Unit {0})

module _ {D : Type 0} (file : KeyFile D) where
  -- An empty file is damaged.
  unfoldable pub not_empty : Text → Result Text Text
  unfolding is_nil
  not_empty s = if is_nil s then err (lit "access.key 为空（已损坏）；用 access-key --reset 重置") else ok s

  unfoldable pub load : D → Result Text Text
  unfolding not_empty
  load d = file.read_to_string d >>=? λ text. not_empty (trim text)

  -- `bytes` are the 16 random ones; `reset` is the same.
  unfoldable pub generate : (bytes : List ℕ) → Exec D Text Text
  unfolding to_hex
  generate bytes = do file.create_dir_all; file.write_private (to_hex bytes); pure (to_hex bytes)

  unfoldable pub load_or_generate : (bytes : List ℕ) → Exec D Text Text
  unfolding load generate
  load_or_generate bytes d = if file.exists d then (load d, d) else generate bytes d

-- `u16::from_be_bytes` of the bytes at the front; a SHA-256 has 32 of them.
unfoldable pub be_u16 : List ℕ → ℕ
be_u16 (h ∷ l ∷ rest) = h * 256 + l
be_u16 (h ∷ []) = 0
be_u16 [] = 0

-- The sum is one of u16.
unfoldable pub derive_knock : (sha : Text → List ℕ) → Text → SshKnock
unfolding be_u16
derive_knock sha key =
    let h = sha (lit "ipgate-knock-v1" ++ key) in
    record {
      port = (knock_port_base + be_u16 (drop 16 h) % knock_port_span) % 65536;
      token = take 16 h;
    }

module _ {D : Type 0} (file : KeyFile D) (sha : Text → List ℕ) where
  unfoldable pub with_knock : (bytes : List ℕ) → AgentConfig → Exec D Text AgentConfig
  unfolding load_or_generate derive_knock
  with_knock bytes cfg = do
    key ← load_or_generate file bytes
    pure (record cfg { ssh_knock = some (derive_knock sha key) })

  -- A key that cannot be read leaves the knock out, with a warning.
  unfoldable pub try_with_knock : AgentConfig → D → AgentConfig
  unfolding load derive_knock
  try_with_knock cfg d = elim (load file d) [
    | ok key ↦ record cfg { ssh_knock = some (derive_knock sha key) }
    | err e ↦ cfg
  ]
