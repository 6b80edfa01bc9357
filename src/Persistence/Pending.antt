-- ===== src/Persistence/Pending.antt =====
-- src/persistence/db.rs: the table of pending messages. The encoding is a parameter.
pub mod Refinement
pub mod Loading
use stellarconduit_core.Prelude.{
  ℕ, ◌-◌, List, [], ◌∷◌, map, Bytes, Bool, true, false, not, Option, none, some, Result, ok, err,
  if◌then◌else◌, length, retain,
}
use stellarconduit_core.Prelude.HashMap
use stellarconduit_core.Message.{
  TransactionEnvelope, ProtocolMessage, transaction, topology_update, sync_request, sync_response,
  handshake,
}
use stellarconduit_core.Message.Encoding.{Encoding}
use stellarconduit_core.Persistence.{
  MeshDatabase, PendingRow, DbError, connection_error, serialization_error, deserialization_error,
  invalid_message_id, fits, is_absent, i64_ltb,
}

-- `ON CONFLICT(message_id) DO NOTHING`.
abbrev pub insert_new : MeshDatabase → Bytes → PendingRow → MeshDatabase
insert_new db id row =
    if is_absent (HashMap.get id db.pending_messages)
    then record db { pending_messages = HashMap.insert id row db.pending_messages }
    else db

unfoldable pub save_envelope :
    Encoding → MeshDatabase → TransactionEnvelope → Option DbError → MeshDatabase × Option DbError
save_envelope e db env refused = elim (e.to_vec (transaction env)) [
  | none ↦ (db, some serialization_error)
  | some bytes ↦
      if fits env.timestamp
      then elim refused [
        | some x ↦ (db, some x)
        | none ↦
            let row : PendingRow = record {
              envelope_bytes = bytes;
              ttl_hops = env.ttl_hops;
              timestamp_sec = env.timestamp;
            } in
            (insert_new db env.message_id row, none)
      ]
      else (db, some connection_error)
]

abbrev pub to_envelope : Option ProtocolMessage → Result TransactionEnvelope DbError
to_envelope none = err deserialization_error
to_envelope (some (transaction env)) = ok env
to_envelope (some (topology_update u)) = err invalid_message_id
to_envelope (some (sync_request q)) = err invalid_message_id
to_envelope (some (sync_response q)) = err invalid_message_id
to_envelope (some (handshake k)) = err invalid_message_id

abbrev pub cons_ok :
    Result TransactionEnvelope DbError
    → Result (List TransactionEnvelope) DbError
    → Result (List TransactionEnvelope) DbError
cons_ok (err x) rest = err x
cons_ok (ok env) (err x) = err x
cons_ok (ok env) (ok envs) = ok (env ∷ envs)

-- `collect` of the results: the first error, or all envelopes.
unfoldable pub collect :
    Encoding → HashMap.HashMap PendingRow → Result (List TransactionEnvelope) DbError
collect e [] = ok []
collect e ((id, row) ∷ rows) =
    cons_ok (to_envelope (e.from_slice row.envelope_bytes)) (collect e rows)

unfoldable pub load_pending_envelopes :
    Encoding → MeshDatabase → Option DbError → Result (List TransactionEnvelope) DbError
load_pending_envelopes e db refused = elim refused [
  | some x ↦ err x
  | none ↦ collect e db.pending_messages
]

unfoldable pub delete_envelope :
    MeshDatabase → Bytes → Option DbError → MeshDatabase × Result ℕ DbError
delete_envelope db id refused = elim refused [
  | some x ↦ (db, err x)
  | none ↦ (
    record db { pending_messages = HashMap.remove id db.pending_messages },
    ok (if is_absent (HashMap.get id db.pending_messages) then 0 else 1),
  )
]

unfoldable pub delete_messages_older_than :
    MeshDatabase → ℕ → Option DbError → MeshDatabase × Result ℕ DbError
delete_messages_older_than db cutoff_ts refused = elim refused [
  | some x ↦ (db, err x)
  | none ↦
      let kept = retain (λ r. not (i64_ltb r.1.timestamp_sec cutoff_ts)) db.pending_messages in
      (record db { pending_messages = kept }, ok (length db.pending_messages - length kept))
]
