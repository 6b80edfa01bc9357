-- ===== src/Gossip/Ingress/Verdicts.antt =====
-- src/gossip/protocol.rs: which envelopes are accepted, and when their origin is banned.
use stellarconduit_core.Prelude.{
  ℕ, ◌≤◌, ◌<◌, List, ◌∷◌, Bytes, true, Option, none, some, ◌≡◌, arith, length,
}
use stellarconduit_core.Message.{TransactionEnvelope}
use stellarconduit_core.Message.Signing.{
  Crypto, SignatureLaws, SignError, err, verify_signature, sign_envelope,
  verify_signature-sign_envelope,
}
use stellarconduit_core.Metrics.{fetch_add}
use stellarconduit_core.Peer
use stellarconduit_core.Peer.{Peer}
use stellarconduit_core.Peer.Identity
use stellarconduit_core.Peer.Identity.{PeerIdentity}
use stellarconduit_core.Discovery.PeerList.{PeerList, is_peer_banned, get_peer}
use stellarconduit_core.Security.PeerBan.{ban_and_persist, ban_known}
use stellarconduit_core.Security.PeerBan.Restart.{ban_known_self}
use stellarconduit_core.Gossip.Errors.{GossipError, peer_banned}
use stellarconduit_core.Gossip.Strikes
use stellarconduit_core.Gossip.Strikes.{StrikeTracker, clear_peer}
use stellarconduit_core.Gossip.Strikes.History
use stellarconduit_core.Gossip.Strikes.History.{Event, Ordered}
use stellarconduit_core.Gossip.Strikes.Window.{recent, record_failure-run}
use stellarconduit_core.Gossip.Ingress.{
  Ingress, Moment, penalize, ban_origin, reject, process_transaction_envelope, ban_duration_sec,
}

-- An envelope that its origin signed and that may still hop is accepted; it clears the strikes of the
-- origin and changes nothing else.
pub process_transaction_envelope-sign_envelope :
    (c : Crypto) (laws : SignatureLaws c) (s : Ingress) (key : Bytes) (e : TransactionEnvelope)
    (t : Moment)
    → e.origin_pubkey ≡ c.public key
    → 0 < e.ttl_hops
    → process_transaction_envelope c s (sign_envelope c key e) t
      ≡ (record s { strike_tracker = clear_peer s.strike_tracker e.origin_pubkey }, none)
unfolding process_transaction_envelope sign_envelope
process_transaction_envelope-sign_envelope c laws s key e t o h =
    ground (arith, verify_signature-sign_envelope c laws key e)

process-rejects :
    (c : Crypto) (s : Ingress) (e : TransactionEnvelope) (t : Moment) (why : SignError)
    → 0 < e.ttl_hops
    → verify_signature c e ≡ err why
    → process_transaction_envelope c s e t ≡ reject s e.origin_pubkey t
unfolding process_transaction_envelope
process-rejects c s e t why h v = ground arith

is_peer_banned-ban_known :
    (l : PeerList) (k : Bytes) (d now : ℕ) → is_peer_banned (ban_known l k d now) k ≡ true
unfolding is_peer_banned get_peer Peer.ban
is_peer_banned-ban_known l k d now = let (p, e) = ban_known_self l k d now in ground (arith, e)

-- What a ban of the origin comes to.
pub record Banned (s s' : Ingress) (answer : Option GossipError) (k : Bytes) : Type 0 where
  pub answered : answer ≡ some (peer_banned (Identity.new k))
  pub listed : is_peer_banned s'.peer_list k ≡ true
  pub disconnects : s'.disconnected ≡ k ∷ s.disconnected
  pub counted : s'.metrics.peers_banned ≡ fetch_add s.metrics.peers_banned 1

-- After failures, clearings and cleanups with a clock that does not run backwards, an envelope whose
-- signature does not verify bans its origin if three failures of it or more are not older than
-- ten minutes: the answer is the error, the list holds the ban, the transport drops the peer and the
-- counter of bans moves by one.
pub process_transaction_envelope-Banned :
    (c : Crypto) (s : Ingress) (e : TransactionEnvelope) (t : Moment) (why : SignError)
    (es : List (ℕ × Event))
    → 0 < e.ttl_hops
    → verify_signature c e ≡ err why
    → s.strike_tracker ≡ History.run Strikes.new es
    → Ordered 0 es t.now_ms
    → 3 ≤ length (recent e.origin_pubkey t.now_ms es)
    → Banned s
        (process_transaction_envelope c s e t).0
        (process_transaction_envelope c s e t).1
        e.origin_pubkey
unfolding reject ban_origin ban_and_persist
process_transaction_envelope-Banned c s e t why es h v r o n =
    let k = e.origin_pubkey in
    let eq = process-rejects c s e t why h v in
    let b = record_failure-run es k t.now_ms o in
    let banned = is_peer_banned-ban_known (penalize s k).peer_list k ban_duration_sec t.unix.1 in
    record {
      answered = ground (arith, eq, b);
      listed = ground (arith, eq, b, banned);
      disconnects = ground (arith, eq, b);
      counted = ground (arith, eq, b);
    }
