-- ===== src/Metrics.antt =====
-- src/metrics.rs: the counters of the node. Each is 64 bits wide, and `fetch_add` wraps around.
use stellarconduit_core.Prelude.{ℕ, ◌+◌, u64}

pub record Metrics : Type 0 where
  pub gossip_rounds_fired : ℕ
  pub envelopes_forwarded : ℕ
  pub envelopes_dropped_ttl : ℕ
  pub envelopes_dropped_bloom : ℕ
  pub envelopes_dropped_dampened : ℕ
  pub messages_rate_limited : ℕ
  pub peer_violations_recorded : ℕ
  pub sync_requests_sent : ℕ
  pub sync_responses_received : ℕ
  pub envelopes_merged_from_sync : ℕ
  pub macro_merge_events : ℕ
  pub routing_table_hits : ℕ
  pub routing_table_misses : ℕ
  pub routing_table_refreshes : ℕ
  pub routing_table_invalidations : ℕ
  pub peers_banned : ℕ
  pub peers_unbanned : ℕ
  pub peers_connected : ℕ
  pub peers_disconnected : ℕ
  pub transactions_submitted : ℕ
  pub transactions_rejected : ℕ
  pub relay_submission_retries : ℕ

-- `counter.fetch_add(n)`: what the counter holds then.
abbrev pub fetch_add : ℕ → ℕ → ℕ
fetch_add counter n = u64 (counter + n)

unfoldable pub new : Metrics
new = record {
  gossip_rounds_fired = 0;
  envelopes_forwarded = 0;
  envelopes_dropped_ttl = 0;
  envelopes_dropped_bloom = 0;
  envelopes_dropped_dampened = 0;
  messages_rate_limited = 0;
  peer_violations_recorded = 0;
  sync_requests_sent = 0;
  sync_responses_received = 0;
  envelopes_merged_from_sync = 0;
  macro_merge_events = 0;
  routing_table_hits = 0;
  routing_table_misses = 0;
  routing_table_refreshes = 0;
  routing_table_invalidations = 0;
  peers_banned = 0;
  peers_unbanned = 0;
  peers_connected = 0;
  peers_disconnected = 0;
  transactions_submitted = 0;
  transactions_rejected = 0;
  relay_submission_retries = 0;
}

pub record MetricsSnapshot : Type 0 where
  pub gossip_rounds_fired : ℕ
  pub envelopes_forwarded : ℕ
  pub envelopes_dropped_ttl : ℕ
  pub envelopes_dropped_bloom : ℕ
  pub envelopes_dropped_dampened : ℕ
  pub messages_rate_limited : ℕ
  pub peer_violations_recorded : ℕ
  pub sync_requests_sent : ℕ
  pub sync_responses_received : ℕ
  pub envelopes_merged_from_sync : ℕ
  pub macro_merge_events : ℕ
  pub routing_table_hits : ℕ
  pub routing_table_misses : ℕ
  pub routing_table_refreshes : ℕ
  pub routing_table_invalidations : ℕ
  pub peers_banned : ℕ
  pub peers_unbanned : ℕ
  pub peers_connected : ℕ
  pub peers_disconnected : ℕ
  pub transactions_submitted : ℕ
  pub transactions_rejected : ℕ
  pub relay_submission_retries : ℕ

-- Every counter is loaded.
unfoldable pub snapshot : Metrics → MetricsSnapshot
snapshot m = record {
  gossip_rounds_fired = m.gossip_rounds_fired;
  envelopes_forwarded = m.envelopes_forwarded;
  envelopes_dropped_ttl = m.envelopes_dropped_ttl;
  envelopes_dropped_bloom = m.envelopes_dropped_bloom;
  envelopes_dropped_dampened = m.envelopes_dropped_dampened;
  messages_rate_limited = m.messages_rate_limited;
  peer_violations_recorded = m.peer_violations_recorded;
  sync_requests_sent = m.sync_requests_sent;
  sync_responses_received = m.sync_responses_received;
  envelopes_merged_from_sync = m.envelopes_merged_from_sync;
  macro_merge_events = m.macro_merge_events;
  routing_table_hits = m.routing_table_hits;
  routing_table_misses = m.routing_table_misses;
  routing_table_refreshes = m.routing_table_refreshes;
  routing_table_invalidations = m.routing_table_invalidations;
  peers_banned = m.peers_banned;
  peers_unbanned = m.peers_unbanned;
  peers_connected = m.peers_connected;
  peers_disconnected = m.peers_disconnected;
  transactions_submitted = m.transactions_submitted;
  transactions_rejected = m.transactions_rejected;
  relay_submission_retries = m.relay_submission_retries;
}
