-- ===== src/Witness/Stores.antt =====
-- The theorems on the database, the pruner and the Horizon client at concrete inputs.
use stellarconduit_core.Prelude.{
  ℕ, List, [], ◌∷◌, Bytes, Bool, true, false, ◌&&◌, Option, none, some, Result, ok, err, ◌≡◌, refl,
  ◌↔◌, arith, In, All, bytes_eq, bytes_eq_iff, ◌==◌, zeros, if◌then◌else◌,
}
use stellarconduit_core.Prelude.HashMap
use mathlib.Core.Option
use stellarconduit_core.Message.{
  TransactionEnvelope, ProtocolMessage, transaction, topology_update, sync_request, sync_response,
  handshake,
}
use stellarconduit_core.Message.Encoding.{Encoding, EncodingLaws}
use stellarconduit_core.Peer
use stellarconduit_core.Peer.{Peer}
use stellarconduit_core.Peer.Identity
use stellarconduit_core.Discovery.PeerList.{get_peer}
use stellarconduit_core.Persistence
use stellarconduit_core.Persistence.{MeshDatabase}
use stellarconduit_core.Persistence.Peers.{save_peer}
use stellarconduit_core.Persistence.Pending.{load_pending_envelopes}
use stellarconduit_core.Persistence.Pending.Refinement.{
  Call, saves, deletes, expires, Storable, empty, apply_all, run,
}
use stellarconduit_core.Persistence.Pending.Loading.{load_pending_envelopes-run}
use stellarconduit_core.Topology.Health.{StatePruner, prune_peers}
use stellarconduit_core.Topology.Health.Sweeps.{banned_row, healthy, was_lost, prune_peers-lost}
use stellarconduit_core.Relay.{RpcError, network, timeout, transaction_rejected}
use stellarconduit_core.Witness.{alice, bob, envelope}

-- Whether an envelope is one of the test envelopes.
abbrev is_known : TransactionEnvelope → Bool
is_known e =
    bytes_eq e.message_id (envelope e.timestamp).message_id
    && (bytes_eq e.origin_pubkey alice
        && (bytes_eq e.tx_xdr (65 ∷ 66 ∷ [])
            && (e.ttl_hops == 5 && bytes_eq e.signature (zeros 4))))

-- An encoding that knows the test envelopes, by their time.
abbrev by_time : Encoding
by_time = record { to_vec = to; from_slice = from }
  where
    to : ProtocolMessage → Option Bytes
    to (transaction e) = if is_known e then some (e.timestamp ∷ []) else none
    to (handshake k) = none
    to (topology_update u) = none
    to (sync_request q) = none
    to (sync_response q) = none

    from : Bytes → Option ProtocolMessage
    from [] = none
    from (n ∷ bytes) = some (transaction (envelope n))

known : (e : TransactionEnvelope) → is_known e ≡ true → envelope e.timestamp ≡ e
known e h = ground (
  arith,
  h,
  bytes_eq_iff e.message_id (envelope e.timestamp).message_id,
  bytes_eq_iff e.origin_pubkey alice,
  bytes_eq_iff e.tx_xdr (65 ∷ 66 ∷ []),
  bytes_eq_iff e.signature (zeros 4),
)

by_time-EncodingLaws : EncodingLaws by_time
by_time-EncodingLaws = record { round = round }
  where
    round :
        (m : ProtocolMessage) (bytes : Bytes)
        → by_time.to_vec m ≡ some bytes
        → by_time.from_slice bytes ≡ some m
    round (transaction e) bytes h = ground (arith, h, known e)
    round (handshake k) bytes h = absurd (ground (arith, h))
    round (topology_update u) bytes h = absurd (ground (arith, h))
    round (sync_request q) bytes h = absurd (ground (arith, h))
    round (sync_response q) bytes h = absurd (ground (arith, h))

abbrev calls : List Call
calls =
    saves (envelope 1)
    ∷ saves (envelope 2)
    ∷ saves (envelope 9)
    ∷ deletes (2 ∷ 2 ∷ 3 ∷ 4 ∷ 5 ∷ [])
    ∷ expires 5
    ∷ []

calls-Storable : All (Storable by_time) calls
unfolding bytes_eq
calls-Storable = (
  ((1 ∷ [], refl), omega arith),
  (((2 ∷ [], refl), omega arith), (((9 ∷ [], refl), omega arith), (tt, (omega arith, tt)))),
)

load_pending_envelopes-run_example :
    (xs : List TransactionEnvelope) × (load_pending_envelopes by_time
        (run by_time Persistence.init calls)
        none
      ≡ ok xs)
    × ((env : TransactionEnvelope) → In env xs ↔ (apply_all empty calls env.message_id ≡ some env))
load_pending_envelopes-run_example =
    load_pending_envelopes-run by_time calls by_time-EncodingLaws calls-Storable

abbrev banned : Peer
banned = record {
  identity = Identity.new (zeros 32);
  reputation = 40;
  is_banned = true;
  ban_expires_at_unix_sec = 5000;
  last_seen_unix_sec = 100;
  supported_transports = 0;
  is_relay_node = false;
  bytes_sent = 0;
  bytes_received = 0;
}

abbrev pruner : StatePruner
unfolding Peer.new Identity.new
pruner = record {
  graph = record { edges = []; last_updated = [] };
  peer_list = record {
    peers = (alice, Peer.new alice) ∷ (bob, banned_by_key) ∷ [];
    expiry_seconds = 60;
  };
  db = (save_peer Persistence.init (Peer.new alice) none).0;
}
  where
    banned_by_key : Peer
    banned_by_key = record banned { identity = Identity.new bob }

prune_peers-lost_example :
    let lost = was_lost 60 100 (get_peer pruner.peer_list alice) in
    (get_peer (prune_peers pruner 100 healthy).peer_list alice
      ≡ (if lost then none else get_peer pruner.peer_list alice))
    × (HashMap.get alice (prune_peers pruner 100 healthy).db.peers ≡ (
        if lost
        then Option.map banned_row (HashMap.get alice pruner.db.peers)
        else HashMap.get alice pruner.db.peers))
unfolding Peer.new Identity.new HashMap.get bytes_eq
prune_peers-lost_example = prune_peers-lost pruner 100 alice (refl, (refl, tt)) (refl, (refl, tt))

-- Two attempts fail and the third is rejected.
abbrev answer : ℕ → Result Bytes RpcError
answer n =
    if n == 0
    then err network
    else (if n == 1 then err (timeout 10000) else err transaction_rejected)
