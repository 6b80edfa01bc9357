-- ===== src/Peer/Reputation.antt =====
-- src/peer/reputation.rs: penalties, rewards and the ranking.
use stellarconduit_core.Prelude.{
  ℕ, ◌+◌, ◌-◌, ◌≤◌, ◌≡◌, min, List, Bytes, true, false, if◌then◌else◌, ◌==◌, leb, arith,
}
use stellarconduit_core.Prelude.Sort.{sort_by, Sorted, sort_by-Sorted}
use stellarconduit_core.Peer.{Peer, check_ban_expiration}

pub data PenaltyReason : Type 0 where
  invalid_signature duplicate_message_flood connection_dropped : PenaltyReason

pub data RewardReason : Type 0 where
  successfully_routed_tx valid_new_gossip_envelope : RewardReason

abbrev pub penalty_points : PenaltyReason → ℕ
penalty_points invalid_signature = 20
penalty_points duplicate_message_flood = 10
penalty_points connection_dropped = 2

abbrev pub reward_points : RewardReason → ℕ
reward_points successfully_routed_tx = 5
reward_points valid_new_gossip_envelope = 2

-- `-` stops at 0, as `saturating_sub` does.
unfoldable pub apply_penalty : Peer → PenaltyReason → Peer
apply_penalty p reason =
    let p' = record p { reputation = p.reputation - penalty_points reason } in
    if p'.reputation == 0 then record p' { is_banned = true } else p'

unfoldable pub apply_reward : Peer → RewardReason → Peer
apply_reward p reason = record p { reputation = min (p.reputation + reward_points reason) 100 }

-- Pairs of a key and a reputation. The source's sort is unstable; this order is one that it allows.
pub rank_by_reputation : List (Bytes × ℕ) → List (Bytes × ℕ)
rank_by_reputation = sort_by (λ a b. leb b.1 a.1)

-- The reputation stays in 0..=100, and a peer with none left is banned.
pub record IsValid (p : Peer) : Type 0 where
  pub capped : p.reputation ≤ 100
  pub spent_banned : p.reputation ≡ 0 → p.is_banned ≡ true

-- A penalty keeps a peer valid: its reputation is at most 100, and without reputation it is banned.
pub apply_penalty-IsValid : (p : Peer) (r : PenaltyReason) → IsValid p → IsValid (apply_penalty p r)
unfolding apply_penalty
apply_penalty-IsValid p r v = ground arith

pub apply_reward-IsValid : (p : Peer) (r : RewardReason) → IsValid p → IsValid (apply_reward p r)
unfolding apply_reward
apply_reward-IsValid p r v = ground arith

pub rank_by_reputation-Sorted :
    (ps : List (Bytes × ℕ)) → Sorted (λ a b. leb b.1 a.1) (rank_by_reputation ps)
unfolding rank_by_reputation
rank_by_reputation-Sorted = sort_by-Sorted _ (λ a b h. ground arith) (λ a b c h k. ground arith)

-- A ban that a penalty imposed carries no expiry of its own, so the next check lifts it and leaves the
-- peer without reputation.
pub check_ban_expiration-apply_penalty :
    (p : Peer) (r : PenaltyReason) (now : ℕ)
    → p.ban_expires_at_unix_sec ≡ 0
    → p.reputation ≤ penalty_points r
    → ((apply_penalty p r).is_banned ≡ true)
      × ((check_ban_expiration (apply_penalty p r) now).1 ≡ true)
      × ((check_ban_expiration (apply_penalty p r) now).0.is_banned ≡ false)
      × ((check_ban_expiration (apply_penalty p r) now).0.reputation ≡ 0)
unfolding apply_penalty check_ban_expiration
check_ban_expiration-apply_penalty p r now e h = ground arith
