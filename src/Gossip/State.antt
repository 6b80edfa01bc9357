-- ===== src/Gossip/State.antt =====
-- src/gossip/protocol.rs: `GossipState`, the queue with the backlog of a large merge, and the two
-- sides of an anti-entropy exchange.
pub mod Sync
pub mod Recovery
use stellarconduit_core.Prelude.{
  ℕ, zero, suc, ◌+◌, List, [], ◌∷◌, map, Bytes, Bool, true, false, not, Option, none, some,
  if◌then◌else◌, leb, length, any, take, retain, bytes_eq,
}
use stellarconduit_core.Prelude.Sort.{sort_by}
use stellarconduit_core.Message.{
  TransactionEnvelope, ProtocolMessage, transaction, topology_update, sync_request, sync_response,
  handshake, SyncRequest, SyncResponse,
}
use stellarconduit_core.Gossip.Queue
use stellarconduit_core.Gossip.Queue.{PriorityQueue, push, iter_envelopes}
use stellarconduit_core.Gossip.Errors.{GossipError, normal_queue_overflow}

abbrev pub macro_merge_threshold : ℕ
macro_merge_threshold = 500

pub record GossipState : Type 0 where
  pub active_queue : PriorityQueue
  pub macro_merge_backlog : List TransactionEnvelope

unfoldable pub new : GossipState
unfolding Queue.new
new = record { active_queue = Queue.new; macro_merge_backlog = [] }

-- The error for a dropped message; only a transaction is reported.
abbrev pub overflow : Option ProtocolMessage → Option GossipError
overflow none = none
overflow (some (transaction e)) = some (normal_queue_overflow e.message_id)
overflow (some (topology_update u)) = none
overflow (some (sync_request r)) = none
overflow (some (sync_response r)) = none
overflow (some (handshake k)) = none

-- `none` is `Ok(())`. The envelope is queued in either case.
unfoldable pub add_envelope : GossipState → TransactionEnvelope → GossipState × Option GossipError
add_envelope s e =
    let (q, dropped) = push s.active_queue (transaction e) in
    (record s { active_queue = q }, overflow dropped)

unfoldable pub pending_macro_merge_len : GossipState → ℕ
pending_macro_merge_len s = length s.macro_merge_backlog

-- The `while` loop makes at most `batch_size` rounds.
unfoldable pub process_paced_recovery_batch : GossipState → ℕ → GossipState × ℕ
process_paced_recovery_batch s zero = (s, 0)
process_paced_recovery_batch s (suc n) = elim s.macro_merge_backlog [
  | [] ↦ (s, 0)
  | e ∷ es ↦
      let (s', moved) =
        process_paced_recovery_batch (add_envelope (record s { macro_merge_backlog = es }) e).0 n in
      (s', moved + 1)
]

-- The first four bytes of the id, in which the two sides compare.
abbrev pub prefix : TransactionEnvelope → Bytes
prefix e = take 4 e.message_id

unfoldable pub generate_sync_request : GossipState → SyncRequest
unfolding iter_envelopes
generate_sync_request s = record { known_message_ids = map prefix (iter_envelopes s.active_queue) }

-- `Vec::contains`.
abbrev pub contains : List Bytes → Bytes → Bool
contains ids p = any (λ id. bytes_eq id p) ids

unfoldable pub handle_sync_request : GossipState → SyncRequest → SyncResponse
unfolding iter_envelopes
handle_sync_request s req = record {
  missing_envelopes =
      retain (λ e. not (contains req.known_message_ids (prefix e))) (iter_envelopes s.active_queue);
}

unfoldable pub add_all : GossipState → List TransactionEnvelope → GossipState
add_all s [] = s
add_all s (e ∷ es) = add_all (add_envelope s e).0 es

-- Oldest first.
abbrev pub by_timestamp : TransactionEnvelope → TransactionEnvelope → Bool
by_timestamp a b = leb a.timestamp b.timestamp

unfoldable pub handle_sync_response : GossipState → SyncResponse → GossipState
unfolding add_all
handle_sync_response s resp =
    if leb (length resp.missing_envelopes) macro_merge_threshold
    then add_all s resp.missing_envelopes
    else record s { macro_merge_backlog = sort_by by_timestamp resp.missing_envelopes }
