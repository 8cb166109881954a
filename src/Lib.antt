-- ===== src/Lib.antt =====
-- nexal: models of the parts that keep state, and the theorems that make them correct.
--
-- The agent, crates/nexal-agent, runs inside a container and starts processes for a client. The
-- gateway, crates/nexal-gateway, starts containers, connects to the agent in each and gives
-- frontends access to them.
-- * Process models crates/nexal-agent/src/process/local.rs with the types of
--   crates/nexal-agent/src/protocol/wire.rs. `Process.Types` has the records, `Process.Output` the
--   retained output, `Process.Read` a page of a read, `Process.Lifecycle` the sections that a
--   process's tasks run under the lock, `Process.Server` the calls of the client, and
--   `Process.Tasks` the tasks and their interleaving with the calls, with the reaping of an exited
--   process in `Process.Tasks.Ending`.
-- * Pty models crates/utils/pty/src/process.rs: who ends the child and the helper tasks.
-- * Wire has what both ends of a connection share: MessagePack values by their operations, with
--   `map_get`, and the balance of the table of requests that wait.
-- * Agent models the agent's end of its channel to the gateway,
--   crates/nexal-agent/src/server/channel/dispatch.rs: the requests that it makes and their answers.
-- * Gateway models the gateway, crates/nexal-gateway/src. `Gateway.Proxies` is proxy/registry.rs,
--   `Gateway.ProxyServer` proxy/server.rs, `Gateway.TcpProxies` proxy/tcp.rs, `Gateway.Pool` pool.rs,
--   `Gateway.Agents` registry.rs, `Gateway.Conn` agent_conn.rs, whose requests are split at their
--   locks in `Gateway.Conn.Calls`, and `Gateway.Hello` and
--   `Gateway.Session` are server/session.rs with the helpers of server.rs. `Gateway.Methods` is
--   crates/utils/transport/src/gateway/methods.rs. A session calls the agent registry, which owns
--   the two proxy registries and the pool; the proxy server looks tokens up in the first of them,
--   and the hello's cache of nonces is shared by the sessions.
-- * Transport models crates/utils/transport/src/transport.rs, the task under a connection:
--   `Transport.Handle` is the handle that queues commands, `Transport.Frames` the frames of the
--   heartbeat, `Transport.Driver` the loop over one socket, and `Transport.Client` the loop that
--   dials again. `Transport.MessageChannel` is the framing of message_channel.rs beside it.
-- * Connection models crates/utils/transport/src/connection.rs on such a transport, with the
--   envelope of crates/utils/transport/src/lib.rs in `Connection.Envelope`: `Connection.Channel` is
--   the state of one channel, `Connection.Store` the states that the connection shares with the
--   handles of its streams, and `Connection.Frames` what is sent and what arrives.
-- * Skills models the files that the gateway shows to an agent. `Skills.Service` is the read of
--   crates/nexal-gateway/src/skills.rs. `Skills.Tree` and `Skills.Reading` are
--   crates/nexal-agent/src/fs/skills.rs, the tree that is mounted and the calls of the kernel on it,
--   with the paths of `Skills.Paths`.
--
-- State is passed explicitly. Each section that the source runs under its lock is one function on
-- the state, and an interleaving of tasks is a list of sections, in any order. A call that awaits
-- between two locks is a function for each lock, or, in the gateway, takes what the outer world
-- answers in it as an argument and gives the calls that it makes. Numbers are natural numbers;
-- where the source counts in 64 bits without a check for overflow, the model wraps in the same
-- way and the theorems carry the bound; the times of the hello are patterns of 64 bits. A wait
-- and the loop that fills the pool are lists of their turns, each with what it sees, so no fuel is
-- needed: the theorems say which turns suffice. The transport's loop is a list of turns too, each
-- with the clock and with what the socket does, and a client's sockets are a list of phases. The
-- reader of frames in a byte stream runs on fuel, and fuel for one frame more than there are is
-- enough. A hash map is an association list, and what a
-- theorem says of a map is said of its lookups.
--
-- Parameters of the model: the values of rmpv, with the laws that a value which was built is read
-- back; the codecs of serde, with the fields that its derived code writes and reads; what serde
-- decodes; the headers that reqwest makes of registered ones; the HMAC test and the printing of
-- numbers; the answers of upstream servers, of the container backend and of the disk; the random
-- tokens and ids, which the theorems take to be new where they need it.
--
-- Not modelled: the spawn of a child and its pipes, the sockets and their dial, the delay between
-- two dials, JSON and MessagePack encoding, the listing of directories on the host, the agent's
-- other file system calls, and the container backends.
pub mod Prelude
pub mod Pty
pub mod Process
pub mod Wire
pub mod Agent
pub mod Gateway
pub mod Transport
pub mod Connection
pub mod Skills
