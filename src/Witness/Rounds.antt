-- ===== src/Witness/Rounds.antt =====
-- The theorems on rounds and on received envelopes at concrete inputs.
use stellarconduit_core.Prelude.{ℕ, [], ◌∷◌, ◌≡◌, refl, arith, none, take, bytes_eq, to_be_bytes}
use stellarconduit_core.Message.{transaction}
use stellarconduit_core.Message.Signing.{
  verify_signature, err, invalid_signature, generate_payload_hash,
}
use stellarconduit_core.Metrics
use stellarconduit_core.Metrics.{Metrics}
use stellarconduit_core.Peer
use stellarconduit_core.Peer.{Peer}
use stellarconduit_core.Peer.Identity
use stellarconduit_core.Peer.Identity.{PeerIdentity}
use stellarconduit_core.Discovery.PeerList.{PeerList}
use stellarconduit_core.Gossip.Bloom
use stellarconduit_core.Gossip.Fanout
use stellarconduit_core.Gossip.Fanout.{Choice}
use stellarconduit_core.Gossip.Strikes
use stellarconduit_core.Gossip.Strikes.{clear_peer}
use stellarconduit_core.Gossip.Strikes.History
use stellarconduit_core.Gossip.Strikes.History.{Event, fails}
use stellarconduit_core.Gossip.State.{GossipState}
use stellarconduit_core.Gossip.FanoutRound.Once.{Distinct, forwarded_by, forwarded_by-Distinct}
use stellarconduit_core.Gossip.Ingress.{Ingress, Moment, process_transaction_envelope}
use stellarconduit_core.Gossip.Ingress.Verdicts.{Banned, process_transaction_envelope-Banned}
use stellarconduit_core.Witness.{alice, bob, envelope, exact, exact-NoFalseNegatives, plain}

forwarded_by-Distinct_example : Distinct (
    forwarded_by exact exact-NoFalseNegatives
      (Bloom.new exact 10 1)
      (([], Metrics.new, envelope 1 ∷ envelope 2 ∷ []) ∷ ([], Metrics.new, envelope 1 ∷ []) ∷ []))
unfolding Bloom.new
forwarded_by-Distinct_example =
    forwarded_by-Distinct exact exact-NoFalseNegatives
      (([], Metrics.new, envelope 1 ∷ envelope 2 ∷ []) ∷ ([], Metrics.new, envelope 1 ∷ []) ∷ [])
      (Bloom.new exact 10 1) (omega arith, omega arith) (omega arith)

abbrev carol : PeerIdentity
carol = Identity.new bob

-- A choice that takes the first ones.
abbrev pub first_ones : Choice PeerIdentity
first_ones n ps = take n ps

abbrev pub one_peer : PeerList
one_peer = record { peers = (bob, Peer.new bob) ∷ []; expiry_seconds = 60 }

abbrev pub one_waiting : GossipState
one_waiting = record {
  active_queue = record { high = []; normal = transaction (envelope 1) ∷ []; low = [] };
  macro_merge_backlog = [];
}

abbrev strikes : ℕ × Event
strikes = (1, fails alice)

abbrev node : Ingress
node = record {
  strike_tracker = History.run Strikes.new (strikes ∷ strikes ∷ strikes ∷ []);
  peer_list = one_peer;
  db = none;
  metrics = Metrics.new;
  disconnected = [];
}

abbrev moment : Moment
moment = record { now_ms = 9; unix = (50, 50, 50); refused = none }

forged : verify_signature plain (envelope 1) ≡ err invalid_signature
unfolding verify_signature generate_payload_hash to_be_bytes bytes_eq
forged = refl

process_transaction_envelope-Banned_example :
    Banned node
      (process_transaction_envelope plain node (envelope 1) moment).0
      (process_transaction_envelope plain node (envelope 1) moment).1
      alice
unfolding bytes_eq
process_transaction_envelope-Banned_example =
    process_transaction_envelope-Banned plain node (envelope 1) moment invalid_signature
      (strikes ∷ strikes ∷ strikes ∷ []) (omega arith) forged refl
      (omega arith, (omega arith, (omega arith, omega arith))) (omega arith)

abbrev node_after_one : Ingress
node_after_one = record node { strike_tracker = History.run Strikes.new (strikes ∷ []) }
