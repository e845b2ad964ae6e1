-- ===== src/Lib.antt =====
-- The broker iotd: a model of its MQTT 3.1.1 codec, its router, its storage and its sessions, with
-- the theorems that make them correct.
--
-- Parts, and the files that model them:
-- - Protocol (src/protocol/packet.rs, src/protocol/v3.rs): the packets (Protocol/Packet), decoding
--   (Protocol/Decode) and encoding (Protocol/Encode). Both are over the operations of the `bytes` and
--   tokio libraries, a parameter (Protocol/Io) with its documented laws and a list as an instance;
--   Protocol/Wire writes down, as MQTT does, the packets that a client sends and the broker only
--   reads, and Protocol/Ends is a rule for what a reading may do. A
--   read past the end of a buffer is a panic, a result of its own (Protocol/Result). A stream that
--   ends is an I/O error. Texts are their UTF-8 bytes.
-- - Storage (src/storage/traits.rs, types.rs, memory.rs, sqlite.rs): the trait is the record `Storage`
--   of operations over a state. `InMemoryStorage` (Storage/Memory) is one instance, and fills the
--   contract of the retained messages that the router's lookups take. `SqliteStorage`
--   (Storage/Sqlite) is another, over a connection with one operation for each SQL statement of the
--   source, a parameter (Storage/Sqlite/Database) whose laws say what a statement does to the tables
--   if it succeeds; rows (Storage/Sqlite/Rows, Storage/Sqlite/Columns), the chain of calls under `?`
--   and the transaction (Storage/Sqlite/Run), the operations (Storage/Sqlite/Store).
--   Storage/Refinement is the abstract view of the retained messages of a backend that may fail, which
--   both backends have, and which `handle_retained_message` of the router takes.
-- - Router (src/router.rs): the two maps behind the lock (Router/Index), topic matching (Router/Topic),
--   SUBSCRIBE (Router/Subscribe), the retained messages (Router/Retained) and routing (Router/Route).
--   Each method holds the lock, so that it is one function on the state; Router/Lifecycle has the
--   methods as a step relation, and Router/Lock the read lock that `route` keeps while it waits.
-- - Session (src/session.rs, with the registry of names of src/broker.rs): the fields of `Runtime`
--   (Session/Types); the effects of a handler, which writes packets, sends to mailboxes and calls the
--   broker, as a function from a world to an outcome and a world (Session/Effect); the handlers
--   (Session/Outbound, Session/Inbound, Session/Subscribing, Session/Connect, and Session/Persist, which
--   saves and restores over any backend); and the
--   state machine, in which each branch of a `select!` is an event (Session/Run). A handler is one
--   step; between two steps other tasks may change the router, the storage, the names and the mailbox.
-- - Auth (src/auth): the reading of the lines of the file of rules and of the file of users (Auth/Text,
--   Auth/AclFile, Auth/PasswordFile), and the checks against the rules and the users (Auth/Acl,
--   Auth/Password). The session takes them as parameters, which Server/Start fills.
-- - Config (src/config.rs): the configuration with its defaults.
-- - Server (src/server.rs, src/main.rs, src/transport.rs, and `new` of src/storage/mod.rs and
--   src/auth/mod.rs): the listeners for the configured addresses (Server/Listen, Server/Address, Server/Bound), the
--   parts that the configuration chooses (Server/Start), the command line (Server/Args), and `serve`
--   as a step relation: the listeners with their handshakes, the accept loops, the channel between
--   them and the loop of `serve` (Server/Accept), which keeps the sessions (Server/Serve,
--   Server/Shutdown).
-- The module Prelude has tests, lists over the native numbers and hash maps as association lists.
--
-- Parameters: the storage, the authenticator and the authorizer, the clock, the success of each write
-- to a stream, the bounded channels of tokio, whose documented behaviour is `IsChannel`, SQLite
-- (`IsSqlite`), the text of a date, which is parsed back (`IsChrono`), the contents of the files, and the
-- sockets and acceptors (`Net`, `Sockets`), and new session ids.
--
-- Bounds and fuel: the loop of `decode_remaining_length_async` has four rounds and that of
-- `encode_remaining_length` five, as many as the source's test and a `u32` allow. The loops of SUBSCRIBE
-- and UNSUBSCRIBE have one round for each byte of the packet; every round takes at least two. `trim`
-- has one round for each byte of the line; every round takes one at least.
--
-- Not modelled: the waiting of the server's loop for the lock on the sessions and for the channels of
-- their commands, and the clearing of the names at its end; the signal handler of `main`; what the
-- streams of src/transport.rs pass on to their sockets (`close`, `peer_addr`, `into_split` and the poll
-- functions) and the reading of the certificates; how serde and TOML find the fields of the configuration; the opening of the database
-- file; and log lines.
pub mod Prelude
pub mod Protocol
pub mod Config
pub mod Storage
pub mod Router
pub mod Auth
pub mod Session
pub mod Server
