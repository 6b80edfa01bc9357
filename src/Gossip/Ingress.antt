-- ===== src/Gossip/Ingress.antt =====
-- src/gossip/protocol.rs: `process_transaction_envelope`, what a node does with an envelope that it
-- received.
pub mod Verdicts
use stellarconduit_core.Prelude.{
  ℕ, List, [], ◌∷◌, Bytes, Bool, true, false, Option, none, some, if◌then◌else◌, ◌==◌,
}
use stellarconduit_core.Message.{TransactionEnvelope}
use stellarconduit_core.Message.Signing.{Crypto, SignError, VerifyResult, ok, err, verify_signature}
use stellarconduit_core.Metrics.{Metrics, fetch_add}
use stellarconduit_core.Peer.Identity
use stellarconduit_core.Peer.Reputation
use stellarconduit_core.Peer.Reputation.{apply_penalty}
use stellarconduit_core.Discovery.PeerList.{PeerList, update_peer}
use stellarconduit_core.Persistence.{MeshDatabase, DbError}
use stellarconduit_core.Security.PeerBan.{ban_and_persist}
use stellarconduit_core.Gossip.Errors.{GossipError, invalid_signature, peer_banned, ttl_expired}
use stellarconduit_core.Gossip.Strikes.{StrikeTracker, record_failure, clear_peer}

-- One day.
abbrev pub ban_duration_sec : ℕ
ban_duration_sec = 86400

-- "repeated invalid signatures", in ASCII.
abbrev ban_reason : Bytes
ban_reason =
    114 ∷ 101 ∷ 112 ∷ 101 ∷ 97 ∷ 116 ∷ 101 ∷ 100 ∷ 32 ∷ 105 ∷ 110 ∷ 118 ∷ 97 ∷ 108 ∷ 105 ∷ 100 ∷ 32
    ∷ 115 ∷ 105 ∷ 103 ∷ 110 ∷ 97 ∷ 116 ∷ 117 ∷ 114 ∷ 101 ∷ 115 ∷ []

-- What the function shares with the rest of the node; `disconnected` lists the peers that it asked
-- the transport to disconnect.
pub record Ingress : Type 0 where
  pub strike_tracker : StrikeTracker
  pub peer_list : PeerList
  pub db : Option MeshDatabase
  pub metrics : Metrics
  pub disconnected : List Bytes

-- The instants at which the clocks are read, and what the database answers.
pub record Moment : Type 0 where
  pub now_ms : ℕ
  pub unix : ℕ × ℕ × ℕ
  pub refused : Option DbError

abbrev pub penalize : Ingress → Bytes → Ingress
penalize s pubkey = record s {
  peer_list = update_peer s.peer_list pubkey (λ p. apply_penalty p Reputation.invalid_signature);
}

-- The branch of the ban.
unfoldable pub ban_origin : Ingress → Bytes → Moment → Ingress
ban_origin s pubkey t =
    let (l, db) =
      ban_and_persist s.peer_list s.db pubkey ban_duration_sec ban_reason t.unix t.refused in
    record s {
      peer_list = l;
      db = db;
      metrics = record s.metrics { peers_banned = fetch_add s.metrics.peers_banned 1 };
      disconnected = pubkey ∷ s.disconnected;
    }

-- The branch of a signature that does not verify.
unfoldable pub reject : Ingress → Bytes → Moment → Ingress × Option GossipError
unfolding ban_origin
reject s pubkey t =
    let s₁ = penalize s pubkey in
    let (tracker, should_ban) = record_failure s₁.strike_tracker pubkey t.now_ms in
    let s₂ : Ingress = record s₁ { strike_tracker = tracker } in
    if should_ban
    then (ban_origin s₂ pubkey t, some (peer_banned (Identity.new pubkey)))
    else (s₂, none)

-- `none` is `Ok(())`.
unfoldable pub process_transaction_envelope :
    Crypto → Ingress → TransactionEnvelope → Moment → Ingress × Option GossipError
unfolding reject
process_transaction_envelope c s e t =
    if e.ttl_hops == 0 then (s, some ttl_expired) else elim (verify_signature c e) [
      | ok true ↦ (record s { strike_tracker = clear_peer s.strike_tracker e.origin_pubkey }, none)
      | ok false ↦
          (penalize s e.origin_pubkey, some (invalid_signature (Identity.new e.origin_pubkey)))
      | err _ ↦ reject s e.origin_pubkey t
    ]
