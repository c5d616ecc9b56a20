-- ===== src/Lib.antt =====
-- bevy_quinnet: a networking library for the Bevy engine over QUIC. A peer keeps one connection
-- per remote peer. A connection has up to 256 send channels, each served by an async task, and
-- buffers of received payloads. The server's endpoint keeps all its clients' connections in step;
-- a client keeps a registry of its connections. Sync code and async tasks exchange messages over
-- `tokio` queues.
--
-- The files and what they model (paths from the repository's root):
-- - Base: lists, tests on numbers, results; BTreeSet for the ordered set of ids; HashMap, as a
--   list of entries in the order of an iteration, for the maps with integer keys; Padded for
--   vectors that are extended up to an index.
-- - Error: src/shared/error.rs.
-- - Config: the configurations of src/shared/channels.rs and the constants beside them; Bounds.
-- - IdPool: ChannelsIdsPool of src/shared/peer_connection.rs. Allocation states who holds which
--   id; Defaults and Counting.
-- - Buffer: the calls on the `bytes` crate, as a parameter with laws, and one instance.
-- - Codec: QuinnetProtocolCodecEncoder and -Decoder of src/shared/channels/reliable/codec.rs, the
--   messages of reliable/recv.rs, and the datagrams of src/shared/channels/unreliable. Wire
--   describes the stream, Fragments its arrival in parts, Messages all sends of a channel, Limits
--   the edges.
-- - Bincode: the two calls on the `bincode` crate, as a parameter with a law.
-- - Net: the queues of `tokio`, as a parameter with laws, over a world that holds them; Example.
-- - Tasks: the async tasks of a connection. The three send tasks of
--   src/shared/channels/reliable/send.rs and unreliable/send.rs are handlers; Schedule is every
--   interleaving of their await points with other tasks, and Accounting what each schedule keeps.
--   Ordered, Delivery, Unordered, Message and Unreliable are about one kind each. Spawner is
--   src/shared/channels/tasks.rs, and Receiver the tasks of reliable/recv.rs and
--   unreliable/recv.rs. EndToEnd leads from one queue to the peer's. Quinn is the parameter for
--   the streams; Example.
-- - Peer: Channel of src/shared/channels.rs and PeerConnection of src/shared/peer_connection.rs;
--   Receive is src/shared/peer_connection/recv_channels.rs. Slots and Opening are about the send
--   channels; Buffers, Refusals, Dispatch and Reading about the received payloads.
-- - Server: the Endpoint of src/server/endpoint.rs in Channels, Send, Connections and Logged; the
--   systems of src/server.rs in Events and Conditions, and `start_endpoint` in Start; Certificates
--   is src/server/certificate.rs, and Messages src/server/messages.rs. Sending is about
--   broadcasts; Consistency, Registering, Admission and Closing are about the channels that all
--   clients have open, Quiet and Updating about `handle_server_events`. Accepting is the tasks
--   that accept connections; Announced.
-- - ClientId: src/server/client_id.rs and src/client/connection/client_id.rs; Exchange.
-- - Certificate: the data of src/client/certificate.rs.
-- - Client: src/client/connection.rs in Connection, QuinnetClient of src/client.rs in Registry,
--   its systems in Events and Conditions; Messages is src/client/connection/messages.rs. Lifecycle
--   is about the events, Ids about the channel ids, Tracking about opening a connection.
--   Verification is TofuServerVerification of src/client/certificate.rs; Untrusted.
-- - Connecting: `async_connection_task` and `configure_client` of src/client/connection.rs;
--   Reported and Outcomes are about what the client hears of them.
-- - KnownHosts: the file of known hosts of src/client/certificate.rs; Lines and Loading.
--
-- A function takes the state and the world and answers its result, the new state and the new
-- world. A function that logs an error instead of returning it drops the result. `none` stands for
-- a panic, and, where a loop takes messages from a queue, for the lack of fuel: such a loop needs
-- one unit of fuel more than there are messages, since each round takes one. The counters and the
-- generated ids wrap at their width; channel ids are numbers below 256.
--
-- `quinn`, `rustls`, the parsing of addresses and Bevy's schedule are not modelled: they are calls
-- of code that is not in the repository, or wrap such calls. `HashMap`'s order of iteration is
-- arbitrary, and every statement is about all orders.
pub mod Base
pub mod Error
pub mod Config
pub mod IdPool
pub mod Buffer
pub mod Bincode
pub mod Codec
pub mod Net
pub mod Peer
pub mod Server
pub mod Tasks
pub mod Certificate
pub mod KnownHosts
pub mod Connecting
pub mod Client
pub mod ClientId
