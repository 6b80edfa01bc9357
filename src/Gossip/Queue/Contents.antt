-- ===== src/Gossip/Queue/Contents.antt =====
-- src/gossip/queue.rs: no message is lost or made up.
use mathlib.Core.List.Perm
use mathlib.Core.List.{perm_middle}
use stellarconduit_core.Prelude.{
  ℕ, zero, suc, List, [], ◌∷◌, ◌++◌, Option, ◌≡◌, refl, sym, subst, subst₂, arith, Perm,
  append_assoc, append-nil,
}
use stellarconduit_core.Prelude.Sort.{perm_append_swap}
use stellarconduit_core.Message.{ProtocolMessage}
use stellarconduit_core.Gossip.Queue.{
  PriorityQueue, MessagePriority, for_message, normal_capacity, low_capacity, push, push_tier,
  push_bounded, pop_front, drain_batch,
}
use stellarconduit_core.Gossip.Queue.Order.{all, pop_lem, drain_batch_zero, drain_batch-Drains}
use stellarconduit_core.Gossip.Queue.Runs.{Call, pushes, pops, drains, of_option, step, run, pushed}

of_option-pop_front :
    (ms : List ProtocolMessage) → of_option (pop_front ms).1 ++ (pop_front ms).0 ≡ ms
of_option-pop_front [] = refl
of_option-pop_front (m ∷ ms) = refl

push_bounded_contents :
    (capacity : ℕ) (tier : List ProtocolMessage) (m : ProtocolMessage)
    → of_option (push_bounded capacity tier m).1 ++ (push_bounded capacity tier m).0
      ≡ tier ++ m ∷ []
unfolding push_bounded
push_bounded_contents capacity tier m = ground (arith, of_option-pop_front (tier ++ m ∷ []))

regroup :
    (out tier tier' after : List ProtocolMessage) (m : ProtocolMessage)
    → out ++ tier' ≡ tier ++ m ∷ []
    → Perm (out ++ (tier' ++ after)) (tier ++ m ∷ after)
regroup out tier tier' after m e =
    rw (← append_assoc out tier' after, e, append_assoc tier (m ∷ []) after) (Perm.refl _)

-- Moving `m` from inside to the front, and a tier's dropped message before the tier.
tier_move :
    (before out tier tier' after : List ProtocolMessage) (m : ProtocolMessage)
    → out ++ tier' ≡ tier ++ m ∷ []
    → Perm (out ++ (before ++ (tier' ++ after))) (m ∷ (before ++ (tier ++ after)))
tier_move before out tier tier' after m e =
    Perm.trans (perm_append_swap out before (tier' ++ after)) (
      Perm.trans (Perm.append_left before (regroup out tier tier' after m e)) (
        rw (← append_assoc before tier (m ∷ after), ← append_assoc before tier after)
          (perm_middle (before ++ tier) after)))

last_tier_move :
    (before out tier tier' : List ProtocolMessage) (m : ProtocolMessage)
    → out ++ tier' ≡ tier ++ m ∷ []
    → Perm (out ++ (before ++ tier')) (m ∷ (before ++ tier))
last_tier_move before out tier tier' m e =
    subst₂ (λ s t. Perm (out ++ (before ++ s)) (m ∷ (before ++ t))) (append-nil tier')
      (append-nil tier) (tier_move before out tier tier' [] m e)

push_tier_contents :
    (t : MessagePriority) (q : PriorityQueue) (m : ProtocolMessage)
    → Perm (of_option (push_tier t q m).1 ++ all (push_tier t q m).0) (m ∷ all q)
unfolding push_tier
push_tier_contents MessagePriority.high q m =
    tier_move [] [] q.high (q.high ++ m ∷ []) (q.normal ++ q.low) m refl
push_tier_contents MessagePriority.normal q m =
    tier_move q.high (of_option (push_bounded normal_capacity q.normal m).1) q.normal
      (push_bounded normal_capacity q.normal m).0 q.low m
      (push_bounded_contents normal_capacity q.normal m)
push_tier_contents MessagePriority.low q m =
    let out = of_option (push_bounded low_capacity q.low m).1 in
    let tier = (push_bounded low_capacity q.low m).0 in
    rw (← append_assoc q.high q.normal q.low, ← append_assoc q.high q.normal tier)
      (last_tier_move (q.high ++ q.normal) out q.low tier m
        (push_bounded_contents low_capacity q.low m))

drain_contents :
    (q : PriorityQueue) (n now : ℕ)
    → Perm ((drain_batch q n now).1 ++ all (drain_batch q n now).0) (all q)
drain_contents q zero now = rw (drain_batch_zero q now) (Perm.refl _)
drain_contents q (suc n) now =
    let d = drain_batch-Drains q (suc n) now (omega arith) in
    let batch = (drain_batch q (suc n) now).1 in
    let left = (drain_batch q (suc n) now).0.normal in
    rw (d.high_kept, d.low_kept)
      (Perm.trans (perm_append_swap batch q.high (left ++ q.low)) (
        Perm.append_left q.high
          (rw (← append_assoc batch left q.low) (Perm.append_right q.low d.same_messages))))

step_contents :
    (q : PriorityQueue) (c : Call)
    → Perm ((step q c).1 ++ all (step q c).0) (pushed (c ∷ []) ++ all q)
unfolding step push
step_contents q (pushes m) = push_tier_contents (for_message m) q m
step_contents q pops =
    subst
      (λ (s : List ProtocolMessage × Option ProtocolMessage). Perm (of_option s.1 ++ s.0) (all q))
      (sym (pop_lem q)) (rw (of_option-pop_front (all q)) (Perm.refl _))
step_contents q (drains n now) = drain_contents q n now

pushed-cons : (c : Call) (cs : List Call) → pushed (c ∷ cs) ≡ pushed (c ∷ []) ++ pushed cs
pushed-cons (pushes m) cs = refl
pushed-cons pops cs = refl
pushed-cons (drains n now) cs = refl

-- Over any calls, what leaves the queue (popped, drained, or dropped at a capacity) and what it holds at
-- the end are together what was pushed and what it held at the start, each message as often.
pub run_contents :
    (q : PriorityQueue) (cs : List Call)
    → Perm ((run q cs).1 ++ all (run q cs).0) (pushed cs ++ all q)
unfolding run
run_contents q [] = Perm.refl _
run_contents q (c ∷ cs) =
    let out = (step q c).1 in
    let q' = (step q c).0 in
    let rest = (run q' cs).1 in
    let end = all (run q' cs).0 in
    rw (append_assoc out rest end, pushed-cons c cs)
      (Perm.trans (Perm.append_left out (run_contents q' cs)) (
        Perm.trans (perm_append_swap out (pushed cs) (all q')) (
          Perm.trans (Perm.append_left (pushed cs) (step_contents q c)) (
            Perm.trans (perm_append_swap (pushed cs) (pushed (c ∷ [])) (all q))
              (rw (append_assoc (pushed (c ∷ [])) (pushed cs) (all q)) (Perm.refl _))))))
