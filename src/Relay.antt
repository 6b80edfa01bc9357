-- ===== src/Relay.antt =====
-- src/relay: the node that submits transactions to the Stellar network. This file models
-- src/relay/mod.rs and src/relay/dedup.rs. The RPC client, the LRU cache (the crate lru) and hex
-- decoding are parameters: a client answers each request from its own state.
pub mod Retries
pub mod Duplicates
pub mod Horizon
use stellarconduit_core.Prelude.{
  ℕ, zero, suc, ◌-◌, [], ◌∷◌, Bytes, Bool, true, false, Option, none, some, Result, ok, err,
  if◌then◌else◌, ◌≡◌, ◌==◌, length,
}
use stellarconduit_core.Prelude.LruCache.{LruCache}
use stellarconduit_core.Message.{TransactionEnvelope}
use stellarconduit_core.Message.Signing.{Crypto}
use stellarconduit_core.Message.RelayProof.{RelayChainProof, sign}
use stellarconduit_core.Metrics.{Metrics, fetch_add}
use stellarconduit_core.Peer.{Peer}
use stellarconduit_core.Peer.Reputation.{apply_reward, successfully_routed_tx}
use stellarconduit_core.Gossip.Bloom as Dedup
use stellarconduit_core.Gossip.Bloom.{Bloom, SlidingBloomFilter, add}

-- The texts of the errors are left out.
pub data RpcError : Type 0 where
  http : ℕ → RpcError
  transaction_rejected network : RpcError
  timeout : ℕ → RpcError

-- A client of the Stellar RPC interface, with whatever state it and the network have, and
-- `hex::decode`.
pub record RpcClient : Type 1 where
  pub State : Type 0
  pub submit_transaction : State → Bytes → State × Result Bytes RpcError
  pub get_ledger_sequence : State → State × Result ℕ RpcError
  pub get_ledger_hash : State → State × Result Bytes RpcError
  pub hex_decode : Bytes → Option Bytes

-- `strip_prefix("0x")`, or the hash as it is.
abbrev strip_prefix : Bytes → Bytes
strip_prefix [] = []
strip_prefix (a ∷ []) = a ∷ []
strip_prefix (a ∷ b ∷ hash) =
    if a == 48 then (if b == 120 then hash else a ∷ b ∷ hash) else a ∷ b ∷ hash

abbrev sized_32 : Option Bytes → Result Bytes RpcError
sized_32 none = err network
sized_32 (some bytes) = if length bytes == 32 then ok bytes else err network

-- With `map_err(RpcError::Network)`, as every caller uses it.
unfoldable pub decode_hash_32 : (Bytes → Option Bytes) → Bytes → Result Bytes RpcError
decode_hash_32 hex_decode hash = sized_32 (hex_decode (strip_prefix hash))

module _ (b : Bloom) (cache : LruCache RelayChainProof) where
  pub record RelayDeduplicator : Type 0 where
    pub seen_ids : SlidingBloomFilter b
    pub result_cache : cache.Cache

  unfoldable pub new : ℕ → RelayDeduplicator
  new capacity = record {
    seen_ids = Dedup.new b capacity b.one_percent;
    result_cache = cache.empty (if capacity == 0 then 1000 else capacity);
  }

  unfoldable pub check : RelayDeduplicator → Bytes → RelayDeduplicator × Option RelayChainProof
  check d id =
      let (found, proof) = cache.get id d.result_cache in (record d { result_cache = found }, proof)

  unfoldable pub mark_submitted : RelayDeduplicator → Bytes → RelayChainProof → RelayDeduplicator
  mark_submitted d id proof = record {
    seen_ids = add b d.seen_ids id;
    result_cache = cache.put id proof d.result_cache;
  }

  module _ (c : Crypto) (rpc : RpcClient) where
    abbrev retrying : Metrics → Metrics
    retrying m = record m { relay_submission_retries = fetch_add m.relay_submission_retries 1 }

    -- The loop, with `left` attempts after this one. The backoff only delays the next attempt and is
    -- left out.
    unfoldable pub attempts :
        ℕ → rpc.State → Metrics → Bytes → rpc.State × Metrics × Result Bytes RpcError
    attempts zero s m tx_xdr = let (s', answer) = rpc.submit_transaction s tx_xdr in (s', m, answer)
    attempts (suc left) s m tx_xdr =
        let (s', answer) = rpc.submit_transaction s tx_xdr in
        elim answer [
          | ok hash ↦ (s', m, ok hash)
          | err transaction_rejected ↦ (s', m, err transaction_rejected)
          | err (http status) ↦ attempts left s' (retrying m) tx_xdr
          | err network ↦ attempts left s' (retrying m) tx_xdr
          | err (timeout ms) ↦ attempts left s' (retrying m) tx_xdr
        ]

    -- The first attempt is made whatever the limit.
    unfoldable pub submit_with_retry :
        ℕ → rpc.State → Metrics → Bytes → rpc.State × Metrics × Result Bytes RpcError
    unfolding attempts
    submit_with_retry max_attempts s m tx_xdr = attempts (max_attempts - 1) s m tx_xdr

    pub record RelayNode : Type 0 where
      pub deduplicator : RelayDeduplicator
      pub rpc_client : rpc.State
      pub signing_key : Bytes
      pub metrics : Metrics
      pub max_attempts : ℕ

    abbrev counted : Result Bytes RpcError → Metrics → Metrics
    counted (ok hash) m = record m { transactions_submitted = fetch_add m.transactions_submitted 1 }
    counted (err transaction_rejected) m = record m {
      transactions_rejected = fetch_add m.transactions_rejected 1;
    }
    counted (err (http status)) m = m
    counted (err network) m = m
    counted (err (timeout ms)) m = m

    -- The node once the submission has its answer.
    abbrev pub noted : RelayNode → rpc.State → Metrics → Result Bytes RpcError → RelayNode
    noted n s m answer = record n { rpc_client = s; metrics = counted answer m }

    -- The proof for a submitted transaction, and the client after the two requests that it needs.
    unfoldable pub prove : Bytes → rpc.State → Bytes → rpc.State × Result RelayChainProof RpcError
    unfolding decode_hash_32
    prove key s tx_hash = elim (decode_hash_32 rpc.hex_decode tx_hash) [
      | err e ↦ (s, err e)
      | ok tx_id ↦
          let (s₁, answer₁) = rpc.get_ledger_sequence s in
          elim answer₁ [
            | err e ↦ (s₁, err e)
            | ok sequence ↦
                let (s₂, answer₂) = rpc.get_ledger_hash s₁ in
                elim answer₂ [
                  | err e ↦ (s₂, err e)
                  | ok hash ↦ elim (decode_hash_32 rpc.hex_decode hash) [
                    | err e ↦ (s₂, err e)
                    | ok chain_hash ↦ (s₂, ok (sign c key tx_id chain_hash sequence))
                  ]
                ]
          ]
    ]

    abbrev rewarded : Option Peer → Option Peer
    rewarded none = none
    rewarded (some p) = some (apply_reward p successfully_routed_tx)

    -- The end of a submission: the proof is stored and the peer rewarded, or neither.
    unfoldable pub conclude :
        RelayNode
        → Bytes
        → Option Peer
        → rpc.State × Result RelayChainProof RpcError
        → RelayNode × Option Peer × Result RelayChainProof RpcError
    unfolding mark_submitted
    conclude n id peer (s, err e) = (record n { rpc_client = s }, peer, err e)
    conclude n id peer (s, ok proof) = (
      record n { rpc_client = s; deduplicator = mark_submitted n.deduplicator id proof },
      rewarded peer,
      ok proof,
    )

    -- What follows the submission, given its outcome.
    unfoldable pub finish_submission :
        RelayNode
        → TransactionEnvelope
        → Option Peer
        → rpc.State × Metrics × Result Bytes RpcError
        → RelayNode × Option Peer × Result RelayChainProof RpcError
    unfolding prove conclude
    finish_submission n e peer (s, m, err why) = (noted n s m (err why), peer, err why)
    finish_submission n e peer (s, m, ok tx_hash) =
        conclude (noted n s m (ok tx_hash)) e.message_id peer (prove n.signing_key s tx_hash)

    unfoldable pub submit :
        RelayNode
        → TransactionEnvelope
        → Option Peer
        → RelayNode × Option Peer × Result RelayChainProof RpcError
    unfolding submit_with_retry finish_submission
    submit n e peer =
        finish_submission n e peer
          (submit_with_retry n.max_attempts n.rpc_client n.metrics e.tx_xdr)

    unfoldable pub process_envelope :
        RelayNode
        → TransactionEnvelope
        → Option Peer
        → RelayNode × Option Peer × Result RelayChainProof RpcError
    unfolding check submit
    process_envelope n e peer =
        let (d, existing) = check n.deduplicator e.message_id in
        let n' : RelayNode = record n { deduplicator = d } in
        elim existing [ some proof ↦ (n', peer, ok proof) | none ↦ submit n' e peer ]
