-- ===== src/Witness/Mesh.antt =====
-- The theorems on peers, strikes, rounds, power and messages at concrete inputs.
use stellarconduit_core.Prelude.{
  to_be_bytes, to_le_bytes, ℕ, ◌+◌, ◌<◌, ◌≤◌, List, [], ◌∷◌, true, false, ◌≡◌, ◌≢◌, refl, arith,
  length, leb,
}
use stellarconduit_core.Message.Signing.{
  verify_signature, generate_payload_hash, err, invalid_signature,
}
use stellarconduit_core.Message.Envelope.{
  EnvelopeBuilder, validate_envelope, IsCanonical, build, validate_envelope_iff,
  verify_signature-build,
}
use stellarconduit_core.Message.Envelope
use stellarconduit_core.Peer
use stellarconduit_core.Peer.{Peer, ban, check_ban_expiration}
use stellarconduit_core.Peer.Reputation.{
  invalid_signature as bad_signature, apply_penalty, check_ban_expiration-apply_penalty,
}
use stellarconduit_core.Power.{
  PowerManager, tick, set_state, next_awake_barrier, awake, active, synchronized_low_power,
  low_power,
}
use stellarconduit_core.Power.Cycle.{tick-next_awake_barrier, tick-set_state_silent}
use stellarconduit_core.Gossip.Round
use stellarconduit_core.Gossip.Round.Pace.{rounds, Spaced, rounds-Spaced}
use stellarconduit_core.Gossip.Strikes
use stellarconduit_core.Gossip.Strikes.{record_failure, get_strike_count}
use stellarconduit_core.Gossip.Strikes.Window.{recent, record_failure-run}
use stellarconduit_core.Gossip.Strikes.History
use stellarconduit_core.Gossip.Strikes.History.{Event, fails, clears, cleans}
use stellarconduit_core.Witness.{alice, bob, plain, plain-SignatureLaws, plain-BindsMessage}

abbrev strikes : List (ℕ × Event)
strikes = (1, fails alice) ∷ (2, fails bob) ∷ (3, clears bob) ∷ (4, fails alice) ∷ (5, cleans) ∷ []

record_failure-run_example :
    (record_failure (History.run Strikes.new strikes) alice 6).1
    ≡ leb 3 (length (recent alice 6 strikes))
record_failure-run_example =
    record_failure-run strikes alice 6
      (omega arith, (omega arith, (omega arith, (omega arith, (omega arith, omega arith)))))

rounds-Spaced_example : Spaced 500 0 (rounds (Round.new 0) (400 ∷ 600 ∷ 900 ∷ 1200 ∷ []))
unfolding Round.new
rounds-Spaced_example = rounds-Spaced (Round.new 0) (400 ∷ 600 ∷ 900 ∷ 1200 ∷ [])

abbrev asleep : PowerManager
asleep = record {
  state = low_power;
  mode = synchronized_low_power;
  last_incoming_activity_at = 0;
  pending_outbound_transaction = true;
  sleep_flag_emitted = true;
  now_ms = 300600;
}

tick-next_awake_barrier_example :
    let barrier = next_awake_barrier 300600 in
    (300600 < barrier)
    × (barrier ≤ 300600 + 5000)
    × ((tick asleep barrier).1.wake_network ≡ true)
    × ((tick asleep barrier).1.interface_state ≡ awake)
    × ((tick asleep barrier).0.pending_outbound_transaction ≡ false)
    × ((tick asleep barrier).0.state ≡ active)
tick-next_awake_barrier_example = tick-next_awake_barrier asleep 300600 (omega arith) refl refl

abbrev quiet : PowerManager
quiet = record asleep { pending_outbound_transaction = false }

tick-set_state_silent_example :
    ((tick (set_state quiet active).0 300700).0.mode ≡ synchronized_low_power)
    × ((tick (set_state quiet active).0 300700).1.topology_flags ≡ [])
tick-set_state_silent_example = tick-set_state_silent quiet 300700 refl (omega arith) refl

abbrev weak : Peer
unfolding Peer.new
weak = record (Peer.new bob) { reputation = 20 }

check_ban_expiration-apply_penalty_example :
    ((apply_penalty weak bad_signature).is_banned ≡ true)
    × ((check_ban_expiration (apply_penalty weak bad_signature) 0).1 ≡ true)
    × ((check_ban_expiration (apply_penalty weak bad_signature) 0).0.is_banned ≡ false)
    × ((check_ban_expiration (apply_penalty weak bad_signature) 0).0.reputation ≡ 0)
unfolding Peer.new
check_ban_expiration-apply_penalty_example =
    check_ban_expiration-apply_penalty weak bad_signature 0 refl (omega arith)

abbrev builder : EnvelopeBuilder
unfolding Envelope.new
builder = Envelope.new alice (65 ∷ [])

different :
    generate_payload_hash plain (build plain builder alice 258)
    ≢ (build plain builder alice 258).message_id
unfolding Envelope.new generate_payload_hash build Envelope.compute_message_id to_be_bytes
    to_le_bytes
different = ground arith

verify_signature-build_example :
    verify_signature plain (build plain builder alice 258) ≡ err invalid_signature
unfolding Envelope.new
verify_signature-build_example =
    verify_signature-build plain plain-SignatureLaws plain-BindsMessage builder alice 258 refl
      different
