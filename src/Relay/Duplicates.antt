-- ===== src/Relay/Duplicates.antt =====
-- src/relay/mod.rs: a transaction is submitted once.
use stellarconduit_core.Prelude.{Option, ok, ◌≡◌}
use stellarconduit_core.Message.{TransactionEnvelope}
use stellarconduit_core.Message.RelayProof.{RelayChainProof}
use stellarconduit_core.Message.Signing.{Crypto}
use stellarconduit_core.Metrics.{Metrics}
use stellarconduit_core.Peer.{Peer}
use stellarconduit_core.Gossip.Bloom.{Bloom}
use stellarconduit_core.Prelude.LruCache.{LruCache, Recalls}
use stellarconduit_core.Relay.{RpcClient, RelayNode, process_envelope}

module _ (b : Bloom) (cache : LruCache RelayChainProof) (c : Crypto) (rpc : RpcClient)
    (recalls : Recalls cache) where
  -- What a duplicate comes to: the proof again, and only the order of use of the cache changes.
  pub record Duplicate (n : RelayNode b cache c rpc) (e : TransactionEnvelope) (peer : Option Peer)
      (proof : RelayChainProof) : Type 0 where
    pub answered : (process_envelope b cache c rpc n e peer).2 ≡ ok proof
    pub peer_kept : (process_envelope b cache c rpc n e peer).1 ≡ peer
    pub client_kept : (process_envelope b cache c rpc n e peer).0.rpc_client ≡ n.rpc_client
    pub metrics_kept : (process_envelope b cache c rpc n e peer).0.metrics ≡ n.metrics
