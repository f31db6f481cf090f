-- ===== src/Lib.antt =====
-- A model of plexpaper, a proxy that starts a Minecraft server when a player joins, puts it to sleep
-- when nobody is on it, and answers for it in between.
--
-- The program's tasks share one record, `Server` of src/server.rs: the listener routes connections
-- (src/service/server.rs), to the server while it runs and else to a task that answers status
-- requests and starts the server at a login (src/status.rs); the monitor polls the server and
-- decides when it sleeps or is killed (src/monitor.rs); a task waits for the server's process;
-- others handle Ctrl-C, the files of the server directory and the probe.
--
-- Where the code is modelled:
--   Prelude: lists, tests, `Outcome` (a value, an `Err` or a panic), the signed 32-bit integers and
--   the casts of Rust, the bit masks, and the methods of `str`.
--   Types: src/types.rs. `Wire` holds the codec of numbers and zlib; `IsWire` says what the protocol
--   documents of them.
--   Proto/Client, Proto/Action, Proto/Packet: src/proto/client.rs, action.rs and packet.rs. A
--   connection is its buffer and the events that the reads will return, so that a property of every
--   list of events is one of every way in which the network cuts the bytes.
--   Mc: src/mc/ban.rs, whitelist.rs, uuid.rs, favicon.rs.
--   Config: src/config.rs, with the environment as a function.
--   Server: src/server.rs and src/os/mod.rs. Server/Model has the record and the operations on it
--   alone, Server/Stop those that signal the process, Server/Process `invoke_server_cmd`, cut where
--   it waits, and Server/Events the operations of all tasks as one list of events in the order in
--   which they take effect.
--   Status: src/status.rs; Monitor: src/monitor.rs, with its requests in Monitor/Asking.
--   Service: src/service/server.rs, signal.rs and probe.rs, with `ProxyHeader` of src/proxy.rs.
--   Proxy: src/proxy.rs and src/net.rs, what is written before a proxied connection is copied.
--   Proto/Packet/Loop: the loop that the lobby and the probe run over the packets of a connection,
--   with its body as a parameter, and its specification over lists of packets.
--   Proto/Login, Proto/Play, Mc/Dimension: the packets of src/proto/packets, those of a playing
--   client with the version of the protocol that they are for, and src/mc/dimension.rs.
--   Forge: src/forge.rs; Probe: src/probe.rs. What the probe records is replayed to the clients of
--   the lobby.
--   Lobby: src/lobby.rs. Lobby/Guest is what the client is sent, Lobby/Connect the connection to the
--   server, and Lobby itself the way of a client through both.
--   Join: src/join. A held client is the list of states that its receiver sees before the timeout.
--   Service/Files, Service/Watching and Mc/Properties: src/service/file_watcher.rs and
--   src/mc/server_properties.rs; Mc/Properties/Files has src/action/start.rs too. Service/Looks
--   describes what the watcher looks at, Probe/LoggedIn and Probe/Told what the probe's connection
--   reads.
--   Mc/Rcon: src/mc/rcon.rs.
--   Examples: a concrete codec and concrete data.
--
-- Conventions. The target is 64-bit Unix with the features of the default build and the release
-- profile, in which sums wrap. One operation on `Server` takes effect at once and reads the clock
-- once; what other tasks do between two packets of a connection is a function in `Moment`. Times are
-- in milliseconds. Text is a list of code points, an address a number. Logging is left out. The
-- crates (minecraft_protocol, nbt, proxy_protocol, flate2, chrono, serde_json, base64, md5, shlex,
-- notify, rust_rcon), kill(2) and the file system are parameters. `signals` in `Server` is no field
-- of the source: it records the signals that were sent.
--
-- The loops on fuel are `serve` of the status service, the two waits of the monitor, the drain of the
-- Forge responses and the loops over packets of the lobby and the probe; `none` is the end of the
-- fuel. For all but the waits of the monitor one round more than the connection has bytes is enough.
-- The loop of `read_var_int` is bounded by five in the source.
--
-- A wait for a state of the server is the list of states that its receiver sees in time, and other
-- timeouts are parameters that say whether they hold. A wait in the lobby ends between two rounds of
-- keep-alive packets, and the close of the probe's stream is in time.
--
-- Not modelled: the copying of a proxied connection, the protocol behind RCON, the notifications of
-- the file system, and logging and the program's entry, which are input and output.
pub mod Prelude
pub mod Types
pub mod Proto
pub mod Mc
pub mod Config
pub mod Server
pub mod Status
pub mod Monitor
pub mod Service
pub mod Join
pub mod Forge
pub mod Proxy
pub mod Probe
pub mod Lobby
pub mod Examples
