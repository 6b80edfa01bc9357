-- ===== src/Security/Encryption.antt =====
-- src/security/encryption.rs: encrypted sessions over another connection. The Noise protocol (the
-- crate snow), SHA-512 and the encoding of messages are parameters; the connection underneath is one
-- of `Links`. The texts of the errors are left out.
pub mod Handshake
pub mod Channel
pub mod Sessions
pub mod Keys
use Prim.Native.Nat.{bit_and, bit_or}
use stellarconduit_core.Prelude.{
  ℕ, ◌*◌, [], ◌∷◌, ◌++◌, Bytes, Bool, true, false, Option, none, some, Result, ok, err,
  if◌then◌else◌, ltb, length, take, drop, zeros, bytes_eq, to_be_bytes,
}
use stellarconduit_core.Message.{TransactionEnvelope, ProtocolMessage, transaction}
use stellarconduit_core.Message.Encoding.{Encoding}
use stellarconduit_core.Peer.Identity.{PeerIdentity}
use stellarconduit_core.Transport.Connection.{TransportError, timeout, broken_pipe, ConnectionState}
use stellarconduit_core.Transport.Manager.{Links}

abbrev pub max_noise_message_size : ℕ
max_noise_message_size = 65535

abbrev pub handshake_timeout_secs : ℕ
handshake_timeout_secs = 2

pub data EncryptionError : Type 0 where
  handshake_failed handshake_timeout authentication_failed encryption_failed : EncryptionError
  decryption_failed key_conversion_failed invalid_message_size : EncryptionError
  peer_public_key_mismatch : EncryptionError
  transport_error : TransportError → EncryptionError

-- `From<EncryptionError> for TransportError`.
unfoldable pub to_transport : EncryptionError → TransportError
to_transport (transport_error e) = e
to_transport handshake_timeout = timeout
to_transport handshake_failed = broken_pipe
to_transport authentication_failed = broken_pipe
to_transport encryption_failed = broken_pipe
to_transport decryption_failed = broken_pipe
to_transport key_conversion_failed = broken_pipe
to_transport invalid_message_size = broken_pipe
to_transport peer_public_key_mismatch = broken_pipe

-- What the program calls of snow: a handshake and a session write and read messages, and may refuse.
-- The handshake writes empty payloads, and reads those of the peer.
pub record Noise : Type 1 where
  pub Handshake : Type 0
  pub Session : Type 0
  pub initiator : Bytes → Option Handshake
  pub responder : Bytes → Option Handshake
  pub write_handshake : Handshake → Option (Handshake × Bytes)
  pub read_handshake : Handshake → Bytes → Option (Handshake × Bytes)
  pub into_transport : Handshake → Option Session
  pub write_message : Session → Bytes → Option (Session × Bytes)
  pub read_message : Session → Bytes → Option (Session × Bytes)

abbrev pub clamp_last : Bytes → Bytes
clamp_last [] = []
clamp_last (c ∷ cs) = bit_or (bit_and c 127) 64 ∷ cs

-- The bytes 0 and 31 of the hash are clamped.
unfoldable pub clamp : Bytes → Bytes
clamp [] = []
clamp (b ∷ bs) = bit_and b 248 ∷ (take 30 bs ++ clamp_last (drop 30 bs))

-- `seed` is that of the signing key.
unfoldable pub ed25519_to_x25519 : (Bytes → Bytes) → Bytes → Bytes
ed25519_to_x25519 sha512 seed = clamp (take 32 (sha512 seed))

unfoldable pub frame_noise_message : Bytes → Result Bytes EncryptionError
frame_noise_message msg =
    if ltb max_noise_message_size (length msg)
    then err invalid_message_size
    else ok (to_be_bytes 2 (length msg) ++ msg)

-- The message is not looked at.
unfoldable pub unframe_noise_message : ProtocolMessage → Result Bytes EncryptionError
unframe_noise_message msg = ok []

-- The envelope that is sent in place of what was written.
abbrev pub placeholder : ProtocolMessage
placeholder = transaction (record {
  message_id = zeros 32;
  origin_pubkey = zeros 32;
  tx_xdr = [];
  ttl_hops = 0;
  timestamp = 0;
  signature = zeros 64;
})

pub record EncryptedConnection (Conn Session : Type 0) : Type 0 where
  pub inner : Conn
  pub noise_state : Session
  pub remote_public_key : Bytes

unfoldable pub verify_peer_identity :
    {Conn Session : Type 0}
    → EncryptedConnection Conn Session
    → PeerIdentity
    → Option EncryptionError
verify_peer_identity c expected =
    if bytes_eq c.remote_public_key expected.pubkey then none else some peer_public_key_mismatch

abbrev pub Encrypted : Links → Noise → Type 0
Encrypted l n = EncryptedConnection l.Conn n.Session
