-- ===== src/Gossip/Queue/Order.antt =====
-- src/gossip/queue.rs: the order in which messages leave the queue.
use stellarconduit_core.Prelude.{
  ℕ, ◌<◌, ◌≡◌, refl, min, List, [], ◌∷◌, ◌++◌, arith, length, Perm, take-append-drop, length-take,
  take, drop,
}
use stellarconduit_core.Prelude.Sort.{sort_by, Sorted, sort_by-Sorted, sort_by-perm, length-sort_by}
use stellarconduit_core.Message.{ProtocolMessage}
use stellarconduit_core.Gossip.Queue.{PriorityQueue, pop, pop_front, drain_batch, by_urgency}

-- The order of service.
abbrev pub all : PriorityQueue → List ProtocolMessage
all q = q.high ++ (q.normal ++ q.low)

pop_tiers :
    (hs ns ls : List ProtocolMessage)
    → (
      all (pop (record { high = hs; normal = ns; low = ls })).0,
      (pop (record { high = hs; normal = ns; low = ls })).1,
    )
      ≡ pop_front (hs ++ (ns ++ ls))
unfolding pop
pop_tiers [] [] [] = refl
pop_tiers [] [] (l ∷ ls) = refl
pop_tiers [] (n ∷ ns) ls = refl
pop_tiers (h ∷ hs) ns ls = refl

-- `pop` takes the first message in the order of service, if there is one, and leaves the rest as it is.
pub pop_lem : (q : PriorityQueue) → (all (pop q).0, (pop q).1) ≡ pop_front (all q)
pop_lem q = pop_tiers q.high q.normal q.low

-- What a drain leaves and takes: all of the Normal tier and only that, the most urgent first.
pub record Drains (q : PriorityQueue) (n now : ℕ) : Type 0 where
  pub same_messages : Perm ((drain_batch q n now).1 ++ (drain_batch q n now).0.normal) q.normal
  pub in_order : Sorted (by_urgency now) ((drain_batch q n now).1 ++ (drain_batch q n now).0.normal)
  pub batch_length : length (drain_batch q n now).1 ≡ min n (length q.normal)
  pub high_kept : (drain_batch q n now).0.high ≡ q.high
  pub low_kept : (drain_batch q n now).0.low ≡ q.low

by_urgency-Sorted :
    (now : ℕ) (ms : List ProtocolMessage) → Sorted (by_urgency now) (sort_by (by_urgency now) ms)
by_urgency-Sorted now =
    sort_by-Sorted (by_urgency now) (λ a b h. ground arith) (λ a b c h k. ground arith)

-- The Normal tier as a drain sorts it.
abbrev pub sorted_normal : PriorityQueue → ℕ → List ProtocolMessage
sorted_normal q now = sort_by (by_urgency now) q.normal

pub drain_batch_pos :
    (q : PriorityQueue) (n now : ℕ)
    → 0 < n
    → drain_batch q n now ≡ (
      record q { normal = drop (min n (length (sorted_normal q now))) (sorted_normal q now) },
      take (min n (length (sorted_normal q now))) (sorted_normal q now),
    )
unfolding drain_batch
drain_batch_pos q n now h = ground arith

pub drain_batch_zero : (q : PriorityQueue) (now : ℕ) → drain_batch q 0 now ≡ (q, [])
unfolding drain_batch
drain_batch_zero q now = refl

pub drain_batch-Drains : (q : PriorityQueue) (n now : ℕ) → 0 < n → Drains q n now
drain_batch-Drains q n now h =
    let ms = sorted_normal q now in
    let k = min n (length ms) in
    let e = drain_batch_pos q n now h in
    record {
      same_messages = rw (e, take-append-drop k ms) (sort_by-perm (by_urgency now) q.normal);
      in_order = rw (e, take-append-drop k ms) (by_urgency-Sorted now q.normal);
      batch_length =
          rw e (omega (arith, length-take k ms, length-sort_by (by_urgency now) q.normal));
      high_kept = rw e;
      low_kept = rw e;
    }
