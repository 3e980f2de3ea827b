-- ===== src/Sshd.antt =====
-- agent/src/sshd.rs: what `sshd -T` prints, and the managed block at the top of sshd_config.
pub mod Block
pub mod Rollback
use ipgate.Base.{
  ℕ, ◌==◌, nat_eq, list_eq, option_eq, bool_eq, Bool, true, false, not, ◌&&◌, ◌||◌, Option, none,
  some, List, [], ◌∷◌, ◌++◌, if◌then◌else◌, leb, ◌+◌, map, Text, lit, trim, is_whitespace, is_some,
  lines, newline, unlines, Result, ok, err, Exec, pure, raise, gets, lift, continue, ◌>>=◌, ◌>>◌,
}
use ipgate.Proto.Ports.{is_nil}
use ipgate.Handlers.App.{SshAuth}

-- `split_whitespace`: the words between white space, none of them empty.
unfoldable pub words_from : Text → Text × List Text
unfolding is_whitespace is_nil
words_from [] = ([], [])
words_from (c ∷ s) =
    let (word, rest) = words_from s in
    if is_whitespace c then ([], if is_nil word then rest else word ∷ rest) else (c ∷ word, rest)

unfoldable pub split_whitespace : Text → List Text
unfolding words_from
split_whitespace s = let (word, rest) = words_from s in if is_nil word then rest else word ∷ rest

-- `eq_ignore_ascii_case`
abbrev pub to_lower : ℕ → ℕ
to_lower c = if leb b'A' c && leb c b'Z' then c + 32 else c

abbrev pub eq_ignore_ascii_case : Text → Text → Bool
eq_ignore_ascii_case a b = map to_lower a == map to_lower b

-- The arms of the match on the key.
unfoldable pub read_key : Text → Text → SshAuth → SshAuth
read_key key val a =
    let yes_value = eq_ignore_ascii_case val (lit "yes") in
    if key == lit "passwordauthentication"
    then record a { password = some yes_value }
    else if key == lit "kbdinteractiveauthentication"
    then record a { kbd_interactive = some yes_value }
    else if key == lit "challengeresponseauthentication" && not (is_some a.kbd_interactive)
    then record a { kbd_interactive = some yes_value }
    else if key == lit "permitrootlogin"
    then record a { permit_root = some val }
    else a

abbrev pub read_words : List Text → SshAuth → SshAuth
read_words (key ∷ val ∷ _) a = read_key key val a
read_words _ a = a

unfoldable pub parse_lines : List Text → SshAuth → SshAuth
parse_lines [] a = a
parse_lines (l ∷ ls) a = parse_lines ls (read_words (split_whitespace l) a)

abbrev pub unknown : SshAuth
unknown = record { password = none; kbd_interactive = none; permit_root = none }

unfoldable pub parse : Text → SshAuth
unfolding parse_lines
parse text = parse_lines (lines text) unknown

abbrev pub mark_begin : Text
mark_begin = lit "# >>> ipgate-agent managed (ssh password auth) >>>"

abbrev pub mark_end : Text
mark_end = lit "# <<< ipgate-agent managed <<<"

abbrev pub block_note : Text
block_note = lit "# 由 ipgate 客户端管理，勿手改；删除本块即恢复你原本的设置。"

-- The lines of the block's body.
abbrev pub block_body : Bool → List Text
block_body true = lit "PasswordAuthentication yes" ∷ []
block_body false = lit "PasswordAuthentication no" ∷ lit "KbdInteractiveAuthentication no" ∷ []

unfoldable pub managed_block : Bool → Text
unfolding unlines
managed_block enabled = unlines (mark_begin ∷ block_note ∷ block_body enabled ++ mark_end ∷ [])

-- The loop over the lines: what is kept, as text.
unfoldable pub keep_outside : Bool → List Text → List Text
unfolding trim
keep_outside skipping [] = []
keep_outside skipping (l ∷ ls) =
    let inside = keep_outside true ls in
    let outside = keep_outside false ls in
    if trim l == mark_begin
    then inside
    else if trim l == mark_end
    then outside
    else if skipping
    then inside
    else l ∷ outside

unfoldable pub strip_managed_block : Text → Text
strip_managed_block text = unlines (keep_outside false (lines text))

-- The host: `read_config` reads sshd_config, `write_atomic` replaces it, `remove_dropin` deletes
-- the old file beside it, and `sshd_t` is what `sshd -T` prints.
pub record SshdHost (D : Type 0) : Type 0 where
  pub read_config : D → Result Text Text
  pub write_atomic : Text → Exec D Text (Unit {0})
  pub remove_dropin : D → D
  pub validate_sshd_config : Exec D Text (Unit {0})
  pub reload_sshd : Exec D Text (Unit {0})
  pub sshd_t : D → Option Text

-- A failure is ignored.
abbrev pub ignored : {D : Type 0} → Exec D Text (Unit {0}) → D → D
ignored m d = (m d).1

module _ {D : Type 0} (host : SshdHost D) where
  unfoldable pub probe : D → SshAuth
  probe d = elim (host.sshd_t d) [ none ↦ unknown | some text ↦ parse text ]

  -- The closure `outcome`.
  unfoldable pub outcome : Bool → Exec D Text (Unit {0})
  outcome enabled = do
    host.validate_sshd_config
    host.reload_sshd
    got ← gets (λ d. (probe d).password)
    if got == some enabled then pure tt else raise (lit "reload 后 PasswordAuthentication 仍为其它值")

  -- Back to the text before the call when the outcome is an error.
  unfoldable pub settled : Text → Result Text (Unit {0}) × D → Result Text (Unit {0}) × D
  settled prev (ok u, d) = (ok u, d)
  settled prev (err e, d) = (err e, ignored host.reload_sshd (ignored (host.write_atomic prev) d))

  unfoldable pub set_password_auth : Bool → Exec D Text (Unit {0})
  set_password_auth enabled = do
    read ← gets host.read_config
    prev_main ← lift read
    host.write_atomic (managed_block enabled ++ strip_managed_block prev_main)
    (λ d. settled prev_main (outcome enabled (host.remove_dropin d)))
