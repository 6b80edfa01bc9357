-- ===== src/Message.antt =====
-- src/message/types.rs: the messages that peers exchange. A `[u8; n]` and a `String` are their
-- bytes.
pub mod Signing
pub mod Envelope
pub mod RelayProof
pub mod Encoding
pub mod Signatures
use stellarconduit_core.Prelude.{ℕ, List, Bytes}

pub record TransactionEnvelope : Type 0 where
  pub message_id : Bytes
  pub origin_pubkey : Bytes
  pub tx_xdr : Bytes
  pub ttl_hops : ℕ  -- u8
  pub timestamp : ℕ  -- u64
  pub signature : Bytes

pub data TopologyFlag : Type 0 where
  go_to_sleep low_power_mode deep_sleep_pending mac_rotated : TopologyFlag

pub record TopologyUpdate : Type 0 where
  pub origin_pubkey : Bytes
  pub directly_connected_peers : List Bytes
  pub hops_to_relay : ℕ  -- u8
  pub topology_flags : List TopologyFlag

pub record SyncRequest : Type 0 where
  pub known_message_ids : List Bytes

pub record SyncResponse : Type 0 where
  pub missing_envelopes : List TransactionEnvelope

pub data ProtocolMessage : Type 0 where
  transaction : TransactionEnvelope → ProtocolMessage
  topology_update : TopologyUpdate → ProtocolMessage
  sync_request : SyncRequest → ProtocolMessage
  sync_response : SyncResponse → ProtocolMessage
  handshake : Bytes → ProtocolMessage
