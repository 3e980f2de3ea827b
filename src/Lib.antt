-- ===== src/Lib.antt =====
-- ipgate keeps a host's firewall: an agent with an allowlist of addresses, a management channel that
-- only paired devices can use, and port forwards. The crates are proto (types and checks that agent
-- and clients share) and agent (the service).
--
-- A device connects through SSH and Noise; agent/src/api admits it (a known key or a pairing code) and
-- hands its requests to the handlers, which change the store (agent/src/store.rs), save it, and load
-- the kernel through agent/src/nft. A host may have forwards of the tool dnat too; agent/src/dnat
-- reads and drains its configuration. The command line has a rescue switch that edits the saved store.
-- A loop (agent/src/reconcile.rs, agent/src/main.rs) compares the kernel with the store and repairs
-- it; agent/src/forward.rs resolves the forwards and loads the nat table.
--
--   Base       tests, lists, maps, text, and `Exec S E A`, a method that changes S and may fail
--   Proto      proto/src: Entries (entry.rs), Ports (ruleset.rs), Forwards (forward.rs), Rpc (rpc.rs),
--              Errors (error.rs), Net (addresses and ids.rs)
--   Store      agent/src/store.rs: `State` and its operations, with what they mean in Store/; File has
--              `load` and `save`
--   Nft        agent/src/nft: Backend and Apply (mod.rs), Ports and Ruleset (ruleset.rs), Nat (nat.rs),
--              Listing and Json (the text form and the JSON form of parse.rs), Cli (cli.rs)
--   Reconcile  agent/src/reconcile.rs and `reconcile_loop`
--   Config     agent/src/config.rs
--   Dnat       agent/src/dnat: Conf (conf.rs), Adapter (mod.rs)
--   Forward    agent/src/forward.rs
--   Handlers   agent/src/api/handlers.rs: Allowlist, Exposure, PublicPorts, Forwards, Dnat and Unified
--              (the list of all forwards) over App
--   Noise      agent/src/noise.rs: frames, `send` and `recv`; Handshake has `accept`
--   Sshd       agent/src/sshd.rs: the report of sshd, the managed block, `set_password_auth`
--   SshKey     agent/src/util.rs: `SshReader` and `extract_ed25519_seed`
--   SshPeer    agent/src/sshpeer.rs: the tables of connections and `pick_client`
--   NetInfo    agent/src/netinfo.rs: the reading of what `ip` prints
--   Cli        agent/src/main.rs: the parsers of arguments, `ssh_expose_cli`, `forward_expose_cli`, and
--              in Offline `allow_cli`, `revoke_cli` and `dnat_rm_cli`, in Forwarding `forward_add_cli`,
--              `forward_rm_cli` and `dnat_migrate_cli`
--   Api        agent/src/auth/pairing.rs (Pairing), agent/src/api/limit.rs (Limit), and of
--              agent/src/api/mod.rs `authorize` and the turn of a connection (Access), `dispatch`
--              (Dispatch) and `DeviceConnGuard` (Conns); AccessKey has agent/src/auth/access.rs and
--              `derive_knock` of agent/src/auth/mod.rs
--   Agent      the whole: connections (agent/src/api/mod.rs) and the loops of agent/src/main.rs and
--              agent/src/forward.rs as steps on one world, with the worlds that steps reach; Start has `run`
--              up to them
--   Tests      the theorems on a small host
--
-- A handler is a function of the `World`: the store, the disk, the kernel and what the agent reports
-- of the optional rules. What was written before a failure stays written. The kernel (`NftBackend`,
-- `NatBackend`), the saving of the store, sshd, the resolver, the interfaces, the hash function and
-- the file of the pairing codes are parameters; what a theorem needs of them is a hypothesis:
-- `IsAtomic` (a refused nft transaction changes nothing), `IsFaithful` (a listing that succeeds
-- shows the set and changes nothing; an addition or removal that is accepted changes one target, and
-- one that is refused changes none), `HasPlainRoute` (the name of the default interface passes the
-- white list), `IsDnatHost` (the lock and `dnat apply` leave the configuration alone), `IsApart`
-- (the other files lie apart from it), `IsPaired` (the two ends of a Noise transport decrypt what
-- the other encrypts), `IsSshdHost` (a write replaces the file or leaves it), `IsTransactional`
-- (`nft -f` is one transaction), `IsCodeFile` (the file of the pairing codes is read as it was
-- written), `IsStored` (a save writes the whole store or nothing), `IsStateFile` and `IsKeyFile`
-- (what was written is read back, and a rename is whole). Fresh identifiers and the time are
-- arguments.
--
-- A step of `Agent` is a request, a handshake, one of the two sections of a round of the comparing loop,
-- or a round of the resolving loop. The source gives up the lock of the store between some statements of
-- one request; a step takes a request as a whole.
--
-- Numbers are natural numbers; the u64 revisions and the u32 counter of the limiter wrap as written.
-- Times are nanoseconds. Maps are association lists. The loops are structural recursions, but for
-- the printing of numbers (fuel n + 1, enough since each step divides by ten), the cutting of a
-- message into chunks (fuel its length, since a chunk is not empty) and the loop of `recv` (one turn
-- more than the stream has bytes, since each turn reads some; `Noise/Turns` shows that a message
-- ends after a number of frames that does not depend on the stream).
--
-- Not modelled: the JSON of requests and files (a listing of nft is read from a parsed value), the
-- cryptography of the crate snow, the programs nft, sshd and ip themselves, the resolver, the file of the
-- Noise identity, the loading of the configuration, the reset of the root password, and what the commands
-- print.
pub mod Base
pub mod Proto
pub mod Store
pub mod Nft
pub mod Reconcile
pub mod Config
pub mod Dnat
pub mod Forward
pub mod Handlers
pub mod Noise
pub mod Sshd
pub mod SshKey
pub mod SshPeer
pub mod NetInfo
pub mod Cli
pub mod Api
pub mod Agent
pub mod Tests
