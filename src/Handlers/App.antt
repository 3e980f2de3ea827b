-- ===== src/Handlers/App.antt =====
-- `AppState` of agent/src/api/mod.rs: what the handlers are given, and the ways in which a handler
-- reaches the store, the disk and the kernel. The operations of the host are parameters: `save` is
-- `Store::save`, `probe` is `sshd::probe`, and both work on the host's disk.
use ipgate.Base.{Bool, Option, Text, Result, ok, err, map_err, Exec, if◌then◌else◌}
use ipgate.Proto.Errors.{internal_error, nft_failure, ApiError, api_error}
use ipgate.Config.{AgentConfig}
use ipgate.Store.{State}
use ipgate.Nft.Backend.{NftBackend}
use ipgate.Reconcile.{World}

pub record SshAuth : Type 0 where
  pub password : Option Bool
  pub kbd_interactive : Option Bool
  pub permit_root : Option Text

pub record App (K D : Type 0) : Type 0 where
  pub cfg : AgentConfig
  pub backend : NftBackend K
  pub save : State → Exec D Text (Unit {0})
  pub probe : D → SshAuth
  pub set_password_auth : Bool → Exec D Text (Unit {0})
  pub reset_root_password : Text → Exec D Text (Unit {0})

abbrev pub Handler : Type 0 → Type 0 → Type 0 → Type 0
Handler K D A = Exec (World K D) ApiError A

unfoldable pub internal : Text → ApiError
unfolding api_error
internal e = api_error internal_error e

unfoldable pub nft_error : Text → ApiError
unfolding api_error
nft_error e = api_error nft_failure e

module _ {K D : Type 0} where
  abbrev pub with_store : {A : Type 0} → (State → A × State) → Handler K D A
  with_store f w = let (a, s) = f w.store in (ok a, record w { store = s })

  abbrev pub set_store : (State → State) → Handler K D (Unit {0})
  set_store f w = (ok tt, record w { store = f w.store })

  abbrev pub on_disk : {A : Type 0} → (Text → ApiError) → Exec D Text A → Handler K D A
  on_disk f m w = let (r, d) = m w.disk in (map_err f r, record w { disk = d })

  abbrev pub on_kernel : {A : Type 0} → Exec K Text A → Handler K D A
  on_kernel m w = let (r, k) = m w.kernel in (map_err nft_error r, record w { kernel = k })

  -- `store.save().map_err(internal)?`
  abbrev pub save_store : App K D → Handler K D (Unit {0})
  save_store app w = on_disk internal (app.save w.store) w

-- `return Err(e)` unless the test holds.
abbrev pub require : Bool → ApiError → Result ApiError (Unit {0})
require b e = if b then ok tt else err e
