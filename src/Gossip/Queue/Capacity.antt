-- ===== src/Gossip/Queue/Capacity.antt =====
-- src/gossip/queue.rs: the bounds on the Normal and the Low tier.
use stellarconduit_core.Prelude.{
  ℕ, ◌≤◌, ◌≡◌, List, [], ◌∷◌, ◌++◌, some, arith, ◌⊎◌, inl, inr, length, length-append, length-drop,
  min,
}
use stellarconduit_core.Prelude.Sort.{length-sort_by, sort_by}
use stellarconduit_core.Message.{ProtocolMessage}
use stellarconduit_core.Gossip.Queue.{
  PriorityQueue, MessagePriority, for_message, normal_capacity, low_capacity, new, push, push_tier,
  push_bounded, pop, pop_front, drain_batch, by_urgency,
}
use stellarconduit_core.Gossip.Queue.Runs.{Call, pushes, pops, drains, step, run}

pub record IsBounded (q : PriorityQueue) : Type 0 where
  pub normal_le : length q.normal ≤ normal_capacity
  pub low_le : length q.low ≤ low_capacity

pop_front_shrinks :
    (ms : List ProtocolMessage) (m : ProtocolMessage)
    → length (pop_front (ms ++ m ∷ [])).0 ≡ length ms
pop_front_shrinks [] m = omega arith
pop_front_shrinks (x ∷ ms) m = omega (arith, length-append ms (m ∷ []))

push_bounded-le :
    (capacity : ℕ) (tier : List ProtocolMessage) (m : ProtocolMessage)
    → length tier ≤ capacity
    → length (push_bounded capacity tier m).0 ≤ capacity
unfolding push_bounded
push_bounded-le capacity tier m h =
    ground (arith, pop_front_shrinks tier m, length-append tier (m ∷ []))

push_tier-IsBounded :
    (t : MessagePriority) (q : PriorityQueue) (m : ProtocolMessage)
    → IsBounded q
    → IsBounded (push_tier t q m).0
unfolding push_tier
push_tier-IsBounded MessagePriority.high q m b = record {
  normal_le = b.normal_le;
  low_le = b.low_le;
}
push_tier-IsBounded MessagePriority.normal q m b = record {
  normal_le = push_bounded-le normal_capacity q.normal m b.normal_le;
  low_le = b.low_le;
}
push_tier-IsBounded MessagePriority.low q m b = record {
  normal_le = b.normal_le;
  low_le = push_bounded-le low_capacity q.low m b.low_le;
}

pub push-IsBounded :
    (q : PriorityQueue) (m : ProtocolMessage) → IsBounded q → IsBounded (push q m).0
unfolding push
push-IsBounded q m b = push_tier-IsBounded (for_message m) q m b

pop-IsBounded : (q : PriorityQueue) → IsBounded q → IsBounded (pop q).0
unfolding pop
pop-IsBounded q b = ground arith

pub drain_batch-IsBounded :
    (q : PriorityQueue) (n now : ℕ) → IsBounded q → IsBounded (drain_batch q n now).0
unfolding drain_batch
drain_batch-IsBounded q n now b = ground (
  arith,
  length-drop (min n (length (sort_by (by_urgency now) q.normal)))
      (sort_by (by_urgency now) q.normal),
  length-sort_by (by_urgency now) q.normal,
)

step-IsBounded : (q : PriorityQueue) (c : Call) → IsBounded q → IsBounded (step q c).0
unfolding step
step-IsBounded q (pushes m) b = push-IsBounded q m b
step-IsBounded q pops b = pop-IsBounded q b
step-IsBounded q (drains n now) b = drain_batch-IsBounded q n now b

run-IsBounded : (q : PriorityQueue) (cs : List Call) → IsBounded q → IsBounded (run q cs).0
unfolding run
run-IsBounded q [] b = b
run-IsBounded q (c ∷ cs) b = run-IsBounded (step q c).0 cs (step-IsBounded q c b)

-- After any calls on a new queue, the Normal tier holds 10,000 messages at most and the Low tier 500.
pub run-new-IsBounded : (cs : List Call) → IsBounded (run new cs).0
unfolding new
run-new-IsBounded cs = run-IsBounded new cs (omega arith)

-- `old` heads a full tier that `m` is appended to, and `q'` has that tier without it.
abbrev pub DropsOldest : PriorityQueue → PriorityQueue → ProtocolMessage → ProtocolMessage → Type 0
DropsOldest q q' m old =
    ((rest : List ProtocolMessage) × (q.normal ++ m ∷ [] ≡ old ∷ rest)
      × (q'.normal ≡ rest)
      × (normal_capacity ≤ length q.normal))
    ⊎ ((rest : List ProtocolMessage) × (q.low ++ m ∷ [] ≡ old ∷ rest)
        × (q'.low ≡ rest)
        × (low_capacity ≤ length q.low))

push_bounded_drops :
    (capacity : ℕ) (tier : List ProtocolMessage) (m old : ProtocolMessage)
    → (push_bounded capacity tier m).1 ≡ some old
    → (rest : List ProtocolMessage) × (tier ++ m ∷ [] ≡ old ∷ rest)
      × ((push_bounded capacity tier m).0 ≡ rest)
      × (capacity ≤ length tier)
unfolding push_bounded
push_bounded_drops capacity [] m old h = ([], ground arith, ground arith, ground arith)
push_bounded_drops capacity (x ∷ tier) m old h =
    (tier ++ m ∷ [], ground arith, ground arith, ground (arith, length-append tier (m ∷ [])))

push_tier_drops :
    (t : MessagePriority) (q : PriorityQueue) (m old : ProtocolMessage)
    → (push_tier t q m).1 ≡ some old
    → DropsOldest q (push_tier t q m).0 m old
unfolding push_tier
push_tier_drops MessagePriority.high q m old h = absurd (ground arith)
push_tier_drops MessagePriority.normal q m old h =
    inl (push_bounded_drops normal_capacity q.normal m old h)
push_tier_drops MessagePriority.low q m old h = inr (push_bounded_drops low_capacity q.low m old h)

-- A push drops a message only from a tier that is full, and then the oldest of that tier.
pub push-DropsOldest :
    (q : PriorityQueue) (m old : ProtocolMessage)
    → (push q m).1 ≡ some old
    → DropsOldest q (push q m).0 m old
unfolding push
push-DropsOldest q m old h = push_tier_drops (for_message m) q m old h
