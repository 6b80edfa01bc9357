-- ===== src/Persistence.antt =====
-- src/persistence/db.rs: the tables of the database, with the operations on bans and relay proofs. A table is a map by its
-- primary key. A statement that SQLite refuses leaves the table as it is: what the connection
-- answers (`none` where it executes the statement) is an argument of each operation.
pub mod Proofs
pub mod Peers
pub mod Pending
pub mod Edges
use stellarconduit_core.Prelude.{
  ℕ, ◌+◌, ◌^◌, ◌<◌, List, [], ◌∷◌, map, Bytes, Bool, true, false, Option, none, some, Result, ok,
  err, if◌then◌else◌, ltb, leb, ◌==◌, u64, zeros, length, retain,
}
use stellarconduit_core.Prelude.HashMap
use stellarconduit_core.Prelude.HashMap.{HashMap}
use stellarconduit_core.Message.RelayProof.{RelayChainProof}

-- The texts of the errors are left out.
pub data DbError : Type 0 where
  connection_error sqlite_error serialization_error deserialization_error : DbError
  invalid_pubkey invalid_message_id invalid_relay_proof : DbError

-- A `u64` is not accepted as a parameter of a statement from 2^63 on.
abbrev pub fits : ℕ → Bool
fits n = ltb n (2 ^ 63)

abbrev pub is_absent : {A : Type 0} → Option A → Bool
is_absent none = true
is_absent (some a) = false

-- A 64-bit integer of a table, signed, as its bits: `n as i64` and back keeps them.
abbrev pub i64_ltb : ℕ → ℕ → Bool
i64_ltb a b = ltb (u64 (a + 2 ^ 63)) (u64 (b + 2 ^ 63))

pub record BanRow : Type 0 where
  pub banned_at : ℕ
  pub expires_at : ℕ
  pub reason : Bytes

pub record RelayProofRow : Type 0 where
  pub signature : Bytes
  pub chain_hash : Bytes
  pub sequence : ℕ

pub record PersistedBan : Type 0 where
  pub pubkey : Bytes
  pub expires_at : ℕ
  pub reason : Bytes

pub record PeerRow : Type 0 where
  pub reputation : ℕ
  pub last_seen_sec : ℕ
  pub is_banned : Bool
  pub supported_transports : ℕ
  pub is_relay_node : Bool
  pub bytes_sent : ℕ
  pub bytes_received : ℕ

pub record PendingRow : Type 0 where
  pub envelope_bytes : Bytes
  pub ttl_hops : ℕ
  pub timestamp_sec : ℕ

-- An edge is under its source and its target, one after the other.
pub record MeshDatabase : Type 0 where
  pub peers : HashMap PeerRow
  pub topology_edges : HashMap ℕ
  pub pending_messages : HashMap PendingRow
  pub banned_peers : HashMap BanRow
  pub relay_proofs : HashMap RelayProofRow

-- A database opened on a path that holds none; reopening an existing file, and
-- failing to, are left out.
unfoldable pub init : MeshDatabase
init = record {
  peers = [];
  topology_edges = [];
  pending_messages = [];
  banned_peers = [];
  relay_proofs = [];
}

unfoldable pub save_ban :
    MeshDatabase → Bytes → ℕ → Bytes → ℕ → Option DbError → MeshDatabase × Option DbError
save_ban db pubkey expires_at reason now refused = elim refused [
  | some e ↦ (db, some e)
  | none ↦
      let row : BanRow = record { banned_at = now; expires_at = expires_at; reason = reason } in
      (record db { banned_peers = HashMap.insert pubkey row db.banned_peers }, none)
]

unfoldable pub remove_ban : MeshDatabase → Bytes → Option DbError → MeshDatabase × Option DbError
remove_ban db pubkey refused = elim refused [
  | some e ↦ (db, some e)
  | none ↦ (record db { banned_peers = HashMap.remove pubkey db.banned_peers }, none)
]

-- A blob that is not of the array's length is read as zeros.
abbrev pub to_pubkey : Bytes → Bytes
to_pubkey blob = if length blob == 32 then blob else zeros 32

abbrev pub to_ban : Bytes × BanRow → PersistedBan
to_ban r = record { pubkey = to_pubkey r.0; expires_at = r.1.expires_at; reason = r.1.reason }

unfoldable pub load_active_bans :
    MeshDatabase → ℕ → Option DbError → Result (List PersistedBan) DbError
load_active_bans db now refused = elim refused [
  | some e ↦ err e
  | none ↦ ok (map to_ban (retain (λ r. i64_ltb now r.1.expires_at) db.banned_peers))
]

unfoldable pub save_relay_proof :
    MeshDatabase → Bytes → RelayChainProof → Option DbError → MeshDatabase × Option DbError
save_relay_proof db tx_id proof refused =
    if leb (2 ^ 63) proof.sequence then (db, some invalid_relay_proof) else elim refused [
      | some e ↦ (db, some e)
      | none ↦
          let row : RelayProofRow = record {
            signature = proof.signature;
            chain_hash = proof.chain_hash;
            sequence = proof.sequence;
          } in
          (record db { relay_proofs = HashMap.insert tx_id row db.relay_proofs }, none)
    ]

abbrev proof_of : RelayProofRow → RelayChainProof
proof_of row = record {
  signature = row.signature;
  chain_hash = row.chain_hash;
  sequence = row.sequence;
}

-- `row.map(..).transpose()`: the lengths of the blobs are checked, then the sign.
abbrev pub to_proof : Option RelayProofRow → Result (Option RelayChainProof) DbError
to_proof none = ok none
to_proof (some row) =
    if length row.signature == 64
    then (if length row.chain_hash == 32
        then (if leb (2 ^ 63) row.sequence
            then err invalid_relay_proof
            else ok (some (proof_of row)))
        else err invalid_relay_proof)
    else err invalid_relay_proof

unfoldable pub get_relay_proof :
    MeshDatabase → Bytes → Option DbError → Result (Option RelayChainProof) DbError
get_relay_proof db tx_id refused = elim refused [
  | some e ↦ err e
  | none ↦ to_proof (HashMap.get tx_id db.relay_proofs)
]
