-- ===== src/Lib.antt =====
-- StellarConduit Core: a mesh network that carries Stellar transactions between devices until one of
-- them, a relay node, reaches the Stellar network. This library models the core of it and proves what
-- makes it correct.
--
-- The parts, and the file that models each:
--
-- Prelude models what the program uses of Rust's standard library: byte arrays and their order, words
-- with wrap-around, stable sorting and `HashMap` as an association list (any order of iteration that
-- the standard library may choose is one of its orders).
--
-- Message models src/message/types.rs (records and enums with the source's names; Message.Signatures
-- the serialization of a signature), Message.Signing
-- models src/message/signing.rs and Message.Envelope src/message/envelope.rs. SHA-256 and Ed25519 are
-- the record `Crypto`; `SignatureLaws` and `BindsMessage` state what is documented of them.
--
-- Peer models src/peer/peer_node.rs, Peer.Identity src/peer/identity.rs, and Peer.Reputation
-- src/peer/reputation.rs; Peer.Bans proves how long a ban lasts. Discovery.PeerList models
-- src/discovery/peer_list.rs with its children Keys, Expiry and Bans for the proofs.
--
-- Gossip models src/gossip: Queue (queue.rs), Bloom (bloom.rs, over a Bloom filter as an interface),
-- Strikes (strike_tracker.rs), Fanout (fanout.rs), Round (round.rs), Errors (errors.rs) and State
-- (protocol.rs: the state, anti-entropy and paced recovery). A node pushes what it receives into the
-- queue, drains it by urgency in rounds, and asks a neighbour from time to time for what it lacks.
--
-- Gossip.Ingress models `process_transaction_envelope` of protocol.rs: the check of a received envelope
-- with strikes, penalties and bans. Gossip.FanoutRound models `execute_fanout_round`; the choice of
-- recipients is a parameter, and what is sent is listed, since a failed send is only logged.
--
-- Gossip.Loop models the other branches of `run_gossip_loop` as steps: the check of bans, anti-entropy
-- and the topology events. Gossip.Run is the loop as a relation of steps, with those of other tasks.
--
-- Metrics models the counters of src/metrics.rs. Security.RateLimit models src/security/rate_limit.rs
-- and Security.PeerBan src/security/peer_ban.rs, over the tables of Persistence (src/persistence/db.rs),
-- which are maps by primary key; whether a statement is executed is an argument.
--
-- Topology models src/topology (events.rs, hop_counter.rs, graph.rs), with the events that are
-- published as results. Router.PathFinder models src/router/path_finder.rs and relay_router.rs. Its
-- search runs on fuel, one more than the entries of all neighbour lists: each entry can be queued once.
-- Router.Table models src/router/table.rs over the LRU cache as an interface.
--
-- Message.Encoding is the interface of the encoding of messages. Persistence holds the five tables of
-- db.rs: bans and proofs, and in its children Peers, Edges and Pending the peers, the topology edges
-- and the messages that wait. Topology.Health models the sweeps of src/topology/health.rs over the peer
-- list, the graph and these tables.
--
-- Transport.Wire models the bytes of a frame, Transport.Wifi src/transport/wifi_transport.rs (a stream
-- is its bytes; a loop that receives has the bytes that are left for fuel, since a frame has four at
-- least), and Transport.Ble src/transport/ble_transport.rs. Transport.Manager models the manager of
-- src/transport/unified.rs over connections as an interface, Links, with a state of the world outside:
-- Calls has the calls that follow the power state, and Listeners the events of the tasks that listen.
-- Security.Encryption models src/security/encryption.rs over Links, with the Noise protocol and SHA-512
-- as parameters, Handshake its two handshakes and Channel its sending and receiving. Relay.Horizon models src/relay/rpc_client.rs.
--
-- Transport.Chunks models the chunker and the reassembler of src/transport/unified.rs; the loop that
-- cuts frames has the length of the message for fuel, since each frame has one byte at least. Relay
-- models src/relay/mod.rs and dedup.rs, with the RPC client, the LRU cache and hex decoding as
-- parameters; the loop of attempts is recursion on the attempts that are left.
--
-- Power models src/transport/power.rs, which a scheduler of rounds may consult.
--
-- State passes explicitly: an operation that mutates takes the state and returns the new one, with its
-- result beside it. A clock is an argument, in milliseconds for monotonic instants and in seconds
-- for system time. Loops are structural recursion, but for the search of Router.PathFinder and
-- the receiving of Transport.Wifi. Times that the source adds in
-- 64 bits wrap around, or are bounded by a hypothesis.
--
-- Not modelled: the encoding of messages (a third-party library), the start and the end of background
-- tasks, platform discovery, foreign bindings and logging.
pub mod Prelude
pub mod Message
pub mod Metrics
pub mod Peer
pub mod Persistence
pub mod Power
pub mod Discovery
pub mod Security
pub mod Topology
pub mod Router
pub mod Transport
pub mod Relay
pub mod Gossip
mod Witness
