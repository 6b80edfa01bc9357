-- ===== src/Message/RelayProof.antt =====
-- src/message/relay_proof.rs: the proof that a relay signs for a transaction.
pub mod Binding
use stellarconduit_core.Prelude.{ℕ, Bytes, Bool, true, false, ◌≡◌, ◌++◌, to_be_bytes}
use stellarconduit_core.Message.Signing.{Crypto}

pub record RelayChainProof : Type 0 where
  pub signature : Bytes
  pub chain_hash : Bytes
  pub sequence : ℕ

unfoldable pub proof_message_bytes : Bytes → Bytes → ℕ → Bytes
proof_message_bytes tx_id chain_hash sequence = tx_id ++ (chain_hash ++ to_be_bytes 8 sequence)

module _ (c : Crypto) where
  unfoldable pub sign : Bytes → Bytes → Bytes → ℕ → RelayChainProof
  sign key tx_id chain_hash sequence = record {
    signature = c.sign key (proof_message_bytes tx_id chain_hash sequence);
    chain_hash = chain_hash;
    sequence = sequence;
  }

  -- The verifying key is its bytes.
  unfoldable pub verify : RelayChainProof → Bytes → Bytes → Bool
  verify p verifying_key tx_id =
      c.verify verifying_key (proof_message_bytes tx_id p.chain_hash p.sequence) p.signature
