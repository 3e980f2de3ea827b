-- ===== src/Store/File.antt =====
-- The file `state.json` of agent/src/store.rs: `load` and `save`. The file system and what serde
-- makes of a state are parameters.
pub mod Whole
use ipgate.Base.{
  Bool, Text, lit, ◌++◌, if◌then◌else◌, Result, ok, err, map_err, ◌>>=?◌, Exec, pure, lift,
  continue, ◌>>=◌, ◌>>◌,
}
use ipgate.Store.{State, empty}

-- `T` is the text that serde prints and reads.
-- `write_tmp` and `rename` are about `state.json.tmp`, `exists` and `read` about the file itself.
pub record StateFile (D T : Type 0) : Type 0 where
  pub path : Text
  pub exists : D → Bool
  pub read : D → Result Text T
  pub from_str : T → Result Text State
  pub to_text : State → Result Text T
  pub create_dir_all : Exec D Text (Unit {0})
  pub write_tmp : T → Exec D Text (Unit {0})
  pub rename : Exec D Text (Unit {0})

module _ {D T : Type 0} (file : StateFile D T) where
  abbrev with_path : Text → Text → Text
  with_path why e = why ++ file.path

  abbrev parsed : T → Result Text State
  parsed text = map_err (with_path (lit "解析存储失败: ")) (file.from_str text)

  unfoldable pub load : D → Result Text State
  load d =
      if file.exists d
      then (map_err (with_path (lit "读取存储失败: ")) (file.read d) >>=? parsed)
      else ok empty

  -- The path has a parent, the data directory.
  unfoldable pub save : State → Exec D Text (Unit {0})
  save s = do file.create_dir_all; text ← lift (file.to_text s); file.write_tmp text; file.rename
