-- ===== src/Gossip/Queue/Tiers.antt =====
-- src/gossip/queue.rs: every message stands in the tier of its priority, so `pop` serves by priority.
use stellarconduit_core.Prelude.{
  ℕ, zero, suc, ◌≤◌, ◌≡◌, refl, sym, subst, min, List, [], ◌∷◌, ◌++◌, All, All-append, All-imp,
  arith, length, drop, some, ltb, Bool-cases, inl, inr,
}
use stellarconduit_core.Prelude.Sort.{All-sort_by}
use stellarconduit_core.Message.{ProtocolMessage}
use stellarconduit_core.Gossip.Queue.{
  PriorityQueue, MessagePriority, for_message, new, push, push_tier, push_bounded, pop, pop_front,
  drain_batch, by_urgency, normal_capacity, low_capacity,
}
use stellarconduit_core.Gossip.Queue.Order.{all, drain_batch_pos, drain_batch_zero, sorted_normal}
use stellarconduit_core.Gossip.Queue.Runs.{Call, pushes, pops, drains, step, run}

-- High is served first.
abbrev pub rank : MessagePriority → ℕ
rank MessagePriority.high = 0
rank MessagePriority.normal = 1
rank MessagePriority.low = 2

abbrev pub Ranked : ℕ → ProtocolMessage → Type 0
Ranked n m = rank (for_message m) ≡ n

-- Each message stands in the tier of its priority.
record IsTiered (q : PriorityQueue) : Type 0 where
  high_tier : All (Ranked 0) q.high
  normal_tier : All (Ranked 1) q.normal
  low_tier : All (Ranked 2) q.low

All-drop :
    (P : ProtocolMessage → Type 0) (n : ℕ) (ms : List ProtocolMessage)
    → All P ms
    → All P (drop n ms)
All-drop P zero ms h = h
All-drop P (suc n) [] h = h
All-drop P (suc n) (m ∷ ms) h = All-drop P n ms h.1

All-pop_front :
    (P : ProtocolMessage → Type 0) (ms : List ProtocolMessage) → All P ms → All P (pop_front ms).0
All-pop_front P [] h = h
All-pop_front P (m ∷ ms) h = h.1

All-push_bounded :
    (P : ProtocolMessage → Type 0) (capacity : ℕ) (ms : List ProtocolMessage) (m : ProtocolMessage)
    → All P ms
    → P m
    → All P (push_bounded capacity ms m).0
unfolding push_bounded
All-push_bounded P capacity ms m h p =
    let a = All-append P ms (m ∷ []) h (p, tt) in
    elim (Bool-cases (ltb capacity (length (ms ++ m ∷ [])))) [
      | inl full ↦ rw full (All-pop_front P (ms ++ m ∷ []) a)
      | inr room ↦ rw room a
    ]

push_tier-IsTiered :
    (t : MessagePriority) (q : PriorityQueue) (m : ProtocolMessage)
    → Ranked (rank t) m
    → IsTiered q
    → IsTiered (push_tier t q m).0
unfolding push_tier
push_tier-IsTiered MessagePriority.high q m r i = record {
  high_tier = All-append (Ranked 0) q.high (m ∷ []) i.high_tier (r, tt);
  normal_tier = i.normal_tier;
  low_tier = i.low_tier;
}
push_tier-IsTiered MessagePriority.normal q m r i = record {
  high_tier = i.high_tier;
  normal_tier = All-push_bounded (Ranked 1) normal_capacity q.normal m i.normal_tier r;
  low_tier = i.low_tier;
}
push_tier-IsTiered MessagePriority.low q m r i = record {
  high_tier = i.high_tier;
  normal_tier = i.normal_tier;
  low_tier = All-push_bounded (Ranked 2) low_capacity q.low m i.low_tier r;
}

pop-IsTiered :
    (hs ns ls : List ProtocolMessage)
    → All (Ranked 0) hs
    → All (Ranked 1) ns
    → All (Ranked 2) ls
    → IsTiered (pop (record { high = hs; normal = ns; low = ls })).0
unfolding pop
pop-IsTiered (x ∷ hs) ns ls h n l = record { high_tier = h.1; normal_tier = n; low_tier = l }
pop-IsTiered [] (x ∷ ns) ls h n l = record { high_tier = h; normal_tier = n.1; low_tier = l }
pop-IsTiered [] [] (x ∷ ls) h n l = record { high_tier = h; normal_tier = n; low_tier = l.1 }
pop-IsTiered [] [] [] h n l = record { high_tier = h; normal_tier = n; low_tier = l }

drain_batch-IsTiered :
    (q : PriorityQueue) (n now : ℕ) → IsTiered q → IsTiered (drain_batch q n now).0
drain_batch-IsTiered q zero now i =
    subst (λ (d : PriorityQueue × List ProtocolMessage). IsTiered d.0)
      (sym (drain_batch_zero q now)) i
drain_batch-IsTiered q (suc n) now i =
    subst (λ (d : PriorityQueue × List ProtocolMessage). IsTiered d.0)
      (sym (drain_batch_pos q (suc n) now (omega arith)))
      (record {
        high_tier = i.high_tier;
        normal_tier =
            All-drop (Ranked 1) (min (suc n) (length (sorted_normal q now))) (sorted_normal q now)
              (All-sort_by (by_urgency now) (Ranked 1) q.normal i.normal_tier);
        low_tier = i.low_tier;
      })

step-IsTiered : (q : PriorityQueue) (c : Call) → IsTiered q → IsTiered (step q c).0
unfolding step push
step-IsTiered q (pushes m) i = push_tier-IsTiered (for_message m) q m refl i
step-IsTiered q pops i = pop-IsTiered q.high q.normal q.low i.high_tier i.normal_tier i.low_tier
step-IsTiered q (drains n now) i = drain_batch-IsTiered q n now i

run-IsTiered : (q : PriorityQueue) (cs : List Call) → IsTiered q → IsTiered (run q cs).0
unfolding run
run-IsTiered q [] i = i
run-IsTiered q (c ∷ cs) i = run-IsTiered (step q c).0 cs (step-IsTiered q c i)

new-IsTiered : IsTiered new
unfolding new
new-IsTiered = record { high_tier = tt; normal_tier = tt; low_tier = tt }

-- `x` is served after a message of rank `n` or with it.
abbrev pub After : ℕ → ProtocolMessage → Type 0
After n x = n ≤ rank (for_message x)

pop_first :
    (hs ns ls : List ProtocolMessage) (m : ProtocolMessage)
    → All (Ranked 0) hs
    → All (Ranked 1) ns
    → All (Ranked 2) ls
    → (pop (record { high = hs; normal = ns; low = ls })).1 ≡ some m
    → All (After (rank (for_message m))) (all (pop (record { high = hs; normal = ns; low = ls })).0)
unfolding pop
pop_first (x ∷ hs) ns ls m h n l e =
    All-append _ hs (ns ++ ls) (All-imp (Ranked 0) _ (λ y r. ground (arith, h.0)) hs h.1) (
      All-append _ ns ls (All-imp (Ranked 1) _ (λ y r. ground (arith, h.0)) ns n)
        (All-imp (Ranked 2) _ (λ y r. ground (arith, h.0)) ls l))
pop_first [] (x ∷ ns) ls m h n l e =
    All-append _ ns ls (All-imp (Ranked 1) _ (λ y r. ground (arith, n.0)) ns n.1)
      (All-imp (Ranked 2) _ (λ y r. ground (arith, n.0)) ls l)
pop_first [] [] (x ∷ ls) m h n l e = All-imp (Ranked 2) _ (λ y r. ground (arith, l.0)) ls l.1
pop_first [] [] [] m h n l e = absurd (ground arith)

-- After any calls on a new queue, the message that `pop` takes has the highest priority of all: no
-- message that stays is of a higher one.
pub pop-run :
    (cs : List Call) (m : ProtocolMessage)
    → (pop (run new cs).0).1 ≡ some m
    → All (After (rank (for_message m))) (all (pop (run new cs).0).0)
pop-run cs m e =
    let i = run-IsTiered new cs new-IsTiered in
    let q = (run new cs).0 in
    pop_first q.high q.normal q.low m i.high_tier i.normal_tier i.low_tier e
