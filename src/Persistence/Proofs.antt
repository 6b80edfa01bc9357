-- ===== src/Persistence/Proofs.antt =====
-- src/persistence/db.rs: a relay proof that was saved is read back.
use stellarconduit_core.Prelude.{
  ◌<◌, ◌^◌, Bytes, none, some, ok, ◌≡◌, arith, if◌then◌else◌, length, bytes_eq,
}
use stellarconduit_core.Prelude.HashMap.{get-insert}
use stellarconduit_core.Message.RelayProof.{RelayChainProof}
use stellarconduit_core.Persistence.{MeshDatabase, RelayProofRow, save_relay_proof, get_relay_proof}

-- Where the statements are executed, a proof whose sequence number fits a signed integer is read back
-- as it was saved, and the proof of another transaction as before.
pub get_relay_proof-save_relay_proof :
    (db : MeshDatabase) (tx_id other : Bytes) (proof : RelayChainProof)
    → length proof.signature ≡ 64
    → length proof.chain_hash ≡ 32
    → proof.sequence < 2 ^ 63
    → get_relay_proof (save_relay_proof db tx_id proof none).0 other none
      ≡ (if bytes_eq tx_id other then ok (some proof) else get_relay_proof db other none)
unfolding save_relay_proof get_relay_proof
get_relay_proof-save_relay_proof db tx_id other proof s c n =
    let row : RelayProofRow = record {
      signature = proof.signature;
      chain_hash = proof.chain_hash;
      sequence = proof.sequence;
    } in
    ground (arith, get-insert tx_id other row db.relay_proofs)
