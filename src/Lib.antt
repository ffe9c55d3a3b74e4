-- ===== src/Lib.antt =====
-- Ashfall: a multiplayer server for a single-player game. A client runs beside the game, the server keeps
-- the world, and they speak over datagrams. The paths below are from the repository's root.
--
-- The parts, from the wire up:
-- - Transport models crates/ashfall-core/src/protocol/transport.rs: sequence numbers of one or three
--   bytes, and the ACK and NACK frames, as lists of bytes.
-- - Channel and Packet model protocol/channel.rs and protocol/mod.rs: every packet with its fields, the
--   channel that it travels on (Packet/Routing), and the pass that replaces strings (Packet/Strings).
-- - StringCache models string_cache.rs: the table of each connection, `intern` and `resolve`.
-- - Reliable models `ReliableChannel` of crates/ashfall-server/src/network.rs: the sending side with its
--   window, acknowledgements and retransmissions (Reliable/Send), the receiving side with its buffer
--   (Reliable/Receive), and the timeout (Reliable/Rtt). Reliable/Receive/Delivery/Trace has the life of a
--   receiver as a relation: frames arrive in any order, packets are taken, control frames are sent.
-- - Network models `NetworkManager` of the same file: a channel for each address, `send_reliable`,
--   `try_recv`, `broadcast` and `tick`.
-- - ClientNetwork models crates/ashfall-client/src/network.rs: the client's sends and acknowledgements, to
--   the server (ClientNetwork/Uplink) and from it (ClientNetwork/Downlink).
-- - World models crates/ashfall-server/src/world: the kinds of objects of crates/ashfall-core/src/types.rs
--   (World/Kind), the objects (World/Objects), the registry of them with its owners and cells
--   (World/Registry, with its calls as steps in World/Registry/Steps), the grid of cells (World/Cell), and
--   past positions (World/PositionHistory).
-- - AntiCheat models anti_cheat.rs and the tests of ashfall-core/src/math.rs; Session models session.rs.
-- - Handlers models handlers/actor.rs, object.rs, item.rs, auth.rs, physics.rs and chat.rs (Handlers/Physics),
--   player.rs, and game.rs, quest.rs and gui.rs with the state they keep (Handlers/Game): what
--   a client's packet does to the registry and what is relayed. Handlers/Actor/Guard and
--   Handlers/Object/Frame take the requests for actors and for the updates of objects together, and
--   Handlers/Rights says whom the tests of owners let through. Dispatch
--   models dispatch.rs: which handler a packet goes to, and to whom the answers are sent.
-- - Pipe models crates/ashfall-core/src/event.rs: the frames of the byte stream between the game's
--   process and the client, and the events in them (Pipe/Events); Pipe/Ipc is the client's end of it,
--   crates/ashfall-client/src/ipc. ClientSync models crates/ashfall-client/src/sync.rs, which turns
--   events into packets and packets into commands of the game.
-- - ClientWorld models crates/ashfall-client/src/world: the registry that packets are applied to, and
--   the interpolation of positions (ClientWorld/Interp). ClientWorld/Mirror sets it beside the server's.
-- - Esm models crates/ashfall-server/src/db/esm_import.rs: the reader of plugin files, the rows that
--   records become (Esm/Rows), the walk over groups (Esm/Import), and the layout of a file as a tree
--   (Esm/Plugin).
-- - Crc32 models crates/ashfall-core/src/crc32.rs, whole and in pieces.
-- - Combat models crates/ashfall-server/src/combat and handlers/combat.rs: the damage of a hit, and what a hit
--   that a client reports does; Combat/Expected has the same as formulas.
-- - Script models crates/ashfall-server/src/script: the state that the server shares with its scripts, the
--   timers, the clock (Script/Clock), and how the modules are asked and told. Network/Rate is the rate
--   limiter of crates/ashfall-server/src/network.rs.
-- - Server models crates/ashfall-server/src/dedicated.rs and the announcer of master.rs, on top of Network,
--   Dispatch and Script: what a datagram does (Server/Recv), what a tick does (Server/Tick), the end of a
--   session. Server/Frame has what every part keeps, Server/Room, Sends and Leave what follows from it.
-- - Bridge models crates/ashfall-bridge/src/network.rs and commands.rs with the hooks of hooks/mod.rs: the
--   commands of the client (Bridge/Commands, Bridge/Debug), the turn of the connection (Bridge/Serve), a command there
--   and back (Bridge/Answer), the actors that come and go (Bridge/Discovery), and what the server's packets come to in the game (Bridge/Apply).
-- - Prelude has the shared tests, list lemmas, machine words and integers, Map the standard library's
--   maps, Float the operations of `f32`. Examples has runs at concrete inputs.
--
-- How code becomes a definition: a method that changes its object returns the object after it. A lock, an
-- atomic or a concurrent map is one step of one state. An `Instant` is a number of nanoseconds and the
-- clock an argument. Unsigned integers are natural numbers with their wrap-around written out, signed
-- ones are Prelude/Int. A string is the list of its UTF-8 bytes. An address and a network id are numbers.
--
-- Bounds: the loop of `recv` that hands over buffered packets (`drain`) has the size of the buffer and one
-- more as fuel; each round removes an entry, so that the loop ends before the fuel does. The loop over a
-- NACK's gaps runs as often as the gap. The cut of the
-- pipe's stream into frames and of a record's body into subrecords has the length of the bytes as fuel,
-- and each round takes some. The import of a plugin has twice the length of the file and three more: each
-- level of groups and each round of a loop stands further on in the file.
--
-- Parameters: `Codec` stands for postcard's serialisation, `Float` for the arithmetic of `f32`, whose
-- rounding is not described. `Layout` has the bits of a float and the reading of a byte as a `bool`,
-- `Formats` the zlib decoder and the decoding of text and of floats in plugin files. The pieces in which
-- the pipe's bytes arrive, the clock and the file's bytes are arguments. `Platform` collects what the server
-- is built on; its `Runtime` is the call of a module that wasmtime runs, which may change all that a script
-- is given. What the database answers to BEGIN and COMMIT is an argument of an import; what its tables hold
-- after an `INSERT OR REPLACE` is not modelled. `Engine` is the game's process: its memory, its routines, and the accessors of
-- crates/ashfall-bridge/src/hooks/vtable.rs.
--
-- Not modelled: the sockets and the start of the server, its configuration file, the factions and AI, the
-- inventory, the SQL of the database, the functions that wasmtime links for scripts, the client's interface
-- and game loop, the master server, and the patches that the bridge makes in the code of the game.
pub mod Prelude
pub mod Map
pub mod Float
pub mod Transport
pub mod Channel
pub mod Packet
pub mod StringCache
pub mod Reliable
pub mod Network
pub mod World
pub mod AntiCheat
pub mod Session
pub mod Handlers
pub mod Examples
pub mod Bridge
pub mod ClientNetwork
pub mod ClientSync
pub mod ClientWorld
pub mod Combat
pub mod Crc32
pub mod Dispatch
pub mod Esm
pub mod Pipe
pub mod Script
pub mod Server
