-- ===== src/Agent.antt =====
-- The agent as a whole (`run` of agent/src/main.rs, `serve` of agent/src/api/mod.rs): connections,
-- the loop that compares the kernel with the store and the loop that resolves the forwards take
-- turns on one world. A request is served in one turn; the two sections of the comparing loop are
-- two turns, so that anything may come between them.
pub mod WellFormed
pub mod Revocation
pub mod Recovery
pub mod Start
use ipgate.Base.{ℕ, Bool, Option, none, some, is_some, List, Text, Result, ok, Exec, ◌≡◌, ◌≢◌}
use ipgate.Proto.Net.{DeviceId, IpAddr, DateTime}
use ipgate.Proto.Errors.{ApiError}
use ipgate.Proto.Entries.{Entry}
use ipgate.Proto.Rpc.{HandshakeHello, RpcRequest}
use ipgate.Config.{ruleset_with}
use ipgate.Nft.Backend.{NatBackend, ResolvedForward}
use ipgate.Forward.{Host, resolve_round}
use ipgate.Dnat.Adapter.{DnatHost}
use ipgate.Reconcile.{World, snapshot, settle}
use ipgate.Handlers.App.{App}
use ipgate.Api.Pairing.{PendingCode}
use ipgate.Api.Access.{authorize, serve_request}
use ipgate.Api.Dispatch.{Moment, Reply, dispatch}

-- What the agent is started with.
pub record Agent (K D : Type 0) : Type 0 where
  pub app : App K D
  pub nat : NatBackend K
  pub ensure_ip_forward : D → D
  pub dnat : DnatHost D
  pub sha : Text → Text
  pub load_codes : Exec D Text (List PendingCode)
  pub save_codes : List PendingCode → Exec D Text (Unit {0})
  pub hash_of : List ResolvedForward → ℕ

module _ {K D : Type 0} (agent : Agent K D) where
  -- A request of a connection, the handshake of another, and the turns of the two loops.
  abbrev pub handle :
      Moment → IpAddr → DeviceId → RpcRequest → World K D → Result ApiError Reply × World K D
  handle at peer device req =
      dispatch agent.app agent.nat agent.ensure_ip_forward agent.dnat at device peer req

  abbrev pub greet : Text → HandshakeHello → DeviceId → DateTime → World K D → World K D
  greet key hello id now w =
      (authorize agent.app agent.sha agent.load_codes agent.save_codes key hello id now w).1

  abbrev pub copy : DateTime → World K D → List Entry × World K D
  copy now w = snapshot agent.app.backend agent.app.save (ruleset_with agent.app.cfg) now w

  abbrev pub mend : List Entry → DateTime → World K D → World K D
  mend entries now w =
      settle agent.app.backend agent.app.save (ruleset_with agent.app.cfg) entries now w

  pub data Step : World K D → World K D → Type 0 where
    request :
        (at : Moment) (peer : IpAddr) (unread : Text → Result ApiError Reply)
        (probed : Result ApiError Reply) (key : Text) (raw : Result Text RpcRequest) (w : World K D)
        → Step w (serve_request (handle at peer) unread probed key raw w).1
    handshake :
        (key : Text) (hello : HandshakeHello) (id : DeviceId) (now : DateTime) (w : World K D)
        → Step w (greet key hello id now w)
    copied : (now : DateTime) (w : World K D) → Step w (copy now w).1
    mended : (entries : List Entry) (now : DateTime) (w : World K D) → Step w (mend entries now w)
    resolved :
        (host : Host) (last : Option ℕ) (w : World K D)
        → Step w
            (resolve_round agent.nat agent.ensure_ip_forward agent.app.save agent.hash_of host last
              w).1

  pub data Reach (s : World K D) : World K D → Type 0 where
    here : Reach s s
    next : {t u : World K D} → Reach s t → Step t u → Reach s u

  -- The key that comes with a pairing code in a turn.
  unfoldable pub pairs : {t u : World K D} → Step t u → Option Text
  pairs (handshake key hello id now w) = elim hello.pairing_code [ some _ ↦ some key | none ↦ none ]
  pairs (request at peer unread probed key raw w) = none
  pairs (copied now w) = none
  pairs (mended entries now w) = none
  pairs (resolved host last w) = none

  -- Turns in which the key does not come with a pairing code.
  pub data Unpaired (key : Text) (s : World K D) : World K D → Type 0 where
    here : Unpaired key s s
    next :
        {t u : World K D}
        → Unpaired key s t
        → (st : Step t u) → pairs st ≢ some key
        → Unpaired key s u
