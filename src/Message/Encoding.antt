-- ===== src/Message/Encoding.antt =====
-- The encoding of messages (MessagePack, by serde and rmp_serde) as an interface.
use stellarconduit_core.Prelude.{Bytes, Option, some, ◌≡◌}
use stellarconduit_core.Message.{ProtocolMessage}

pub record Encoding : Type 0 where
  pub to_vec : ProtocolMessage → Option Bytes
  pub from_slice : Bytes → Option ProtocolMessage

-- What is encoded is read back.
pub record EncodingLaws (e : Encoding) : Type 0 where
  pub round :
      (m : ProtocolMessage) (bytes : Bytes) → e.to_vec m ≡ some bytes → e.from_slice bytes ≡ some m
