-- ===== src/Gossip/Queue.antt =====
-- src/gossip/queue.rs: the priority queue of three tiers. The front of a `VecDeque` is the head of
-- the list; the clock is the argument `now`, in seconds.
pub mod Runs
pub mod Capacity
pub mod Order
pub mod Tiers
pub mod Contents
use stellarconduit_core.Prelude.{
  ℕ, ◌+◌, ◌-◌, ◌/◌, min, List, [], ◌∷◌, ◌++◌, Bool, Option, none, some, if◌then◌else◌, ltb, leb,
  ◌==◌, length, take, drop,
}
use stellarconduit_core.Prelude.Sort.{sort_by}
use stellarconduit_core.Message.{
  TransactionEnvelope, ProtocolMessage, transaction, topology_update, sync_request, sync_response,
  handshake,
}

abbrev pub normal_capacity : ℕ
normal_capacity = 10000

abbrev pub low_capacity : ℕ
low_capacity = 500

pub data MessagePriority : Type 0 where
  high normal low : MessagePriority

unfoldable pub for_topology_update : ℕ → MessagePriority
for_topology_update hops_to_relay = if ltb 5 hops_to_relay then low else high

unfoldable pub for_message : ProtocolMessage → MessagePriority
unfolding for_topology_update
for_message (topology_update u) = for_topology_update u.hops_to_relay
for_message (sync_request r) = high
for_message (sync_response r) = high
for_message (transaction e) = normal
for_message (handshake k) = low

-- Both differences stop at 0, as `saturating_sub` does.
unfoldable pub urgency_score : ℕ → ProtocolMessage → ℕ
urgency_score now (transaction e) = (16 - e.ttl_hops) + min ((now - e.timestamp) / 60) 10
urgency_score now (topology_update u) = 0
urgency_score now (sync_request r) = 0
urgency_score now (sync_response r) = 0
urgency_score now (handshake k) = 0

pub record PriorityQueue : Type 0 where
  pub high : List ProtocolMessage
  pub normal : List ProtocolMessage
  pub low : List ProtocolMessage

unfoldable pub new : PriorityQueue
new = record { high = []; normal = []; low = [] }

abbrev pub pop_front : List ProtocolMessage → List ProtocolMessage × Option ProtocolMessage
pop_front [] = ([], none)
pop_front (m ∷ ms) = (ms, some m)

-- `push_back`, then `pop_front` if the tier is over its capacity.
unfoldable pub push_bounded :
    ℕ → List ProtocolMessage → ProtocolMessage → List ProtocolMessage × Option ProtocolMessage
push_bounded capacity tier msg =
    let tier' = tier ++ msg ∷ [] in
    if ltb capacity (length tier') then pop_front tier' else (tier', none)

push_tier :
    MessagePriority → PriorityQueue → ProtocolMessage → PriorityQueue × Option ProtocolMessage
unfolding push_bounded
push_tier MessagePriority.high q msg = (record q { high = q.high ++ msg ∷ [] }, none)
push_tier MessagePriority.normal q msg =
    let (tier, dropped) = push_bounded normal_capacity q.normal msg in
    (record q { normal = tier }, dropped)
push_tier MessagePriority.low q msg =
    let (tier, dropped) = push_bounded low_capacity q.low msg in (record q { low = tier }, dropped)

-- The queue, and the message that was dropped to make room.
unfoldable pub push : PriorityQueue → ProtocolMessage → PriorityQueue × Option ProtocolMessage
unfolding push_tier for_message
push q msg = push_tier (for_message msg) q msg

unfoldable pub pop : PriorityQueue → PriorityQueue × Option ProtocolMessage
pop q = elim q.high [
  | m ∷ ms ↦ (record q { high = ms }, some m)
  | [] ↦ elim q.normal [
    | m ∷ ms ↦ (record q { normal = ms }, some m)
    | [] ↦ elim q.low [ m ∷ ms ↦ (record q { low = ms }, some m) | [] ↦ (q, none) ]
  ]
]

-- Most urgent first.
abbrev pub by_urgency : ℕ → ProtocolMessage → ProtocolMessage → Bool
by_urgency now a b = leb (urgency_score now b) (urgency_score now a)

unfoldable pub drain_batch : PriorityQueue → ℕ → ℕ → PriorityQueue × List ProtocolMessage
drain_batch q batch_size now =
    if batch_size == 0
    then (q, [])
    else let all_normal = sort_by (by_urgency now) q.normal in
      let n = min batch_size (length all_normal) in
      (record q { normal = drop n all_normal }, take n all_normal)

unfoldable pub len : PriorityQueue → ℕ
len q = length q.high + length q.normal + length q.low

unfoldable pub is_empty : PriorityQueue → Bool
unfolding len
is_empty q = len q == 0

abbrev pub envelopes : List ProtocolMessage → List TransactionEnvelope
envelopes [] = []
envelopes (transaction e ∷ ms) = e ∷ envelopes ms
envelopes (topology_update u ∷ ms) = envelopes ms
envelopes (sync_request r ∷ ms) = envelopes ms
envelopes (sync_response r ∷ ms) = envelopes ms
envelopes (handshake k ∷ ms) = envelopes ms

unfoldable pub iter_envelopes : PriorityQueue → List TransactionEnvelope
iter_envelopes q = envelopes (q.high ++ (q.normal ++ q.low))
