-- ===== src/Gossip/State/Recovery.antt =====
-- src/gossip/protocol.rs: a large merge waits in the backlog and enters the queue in batches.
use stellarconduit_core.Prelude.{
  ℕ, zero, suc, ◌+◌, ◌≤◌, ◌<◌, List, [], ◌∷◌, ◌++◌, map, ◌≡◌, refl, ap, ◌∙◌, arith, length, take,
  drop, subst, append_assoc, append-nil, min, length-append, Perm,
}
use mathlib.Core.List.{map-append}
use stellarconduit_core.Prelude.Sort.{sort_by, Sorted, sort_by-Sorted, sort_by-perm, length-sort_by}
use stellarconduit_core.Message.{TransactionEnvelope, transaction, SyncResponse}
use stellarconduit_core.Gossip.Queue.{PriorityQueue, normal_capacity, push}
use stellarconduit_core.Gossip.State.{
  GossipState, add_envelope, add_all, process_paced_recovery_batch, handle_sync_response,
  by_timestamp, macro_merge_threshold,
}

-- The state with envelopes appended to the Normal tier.
abbrev pub append_normal : GossipState → List TransactionEnvelope → GossipState
append_normal s es = record s {
  active_queue = record s.active_queue { normal = s.active_queue.normal ++ map transaction es };
}

push_fits :
    (q : PriorityQueue) (e : TransactionEnvelope)
    → length q.normal < normal_capacity
    → (push q (transaction e)).0 ≡ record q { normal = q.normal ++ transaction e ∷ [] }
unfolding push
push_fits q e h = ground (arith, length-append q.normal (transaction e ∷ []))

pub add_envelope_fits :
    (s : GossipState) (e : TransactionEnvelope)
    → length s.active_queue.normal < normal_capacity
    → (add_envelope s e).0 ≡ append_normal s (e ∷ [])
unfolding add_envelope
add_envelope_fits s e h = rw (push_fits s.active_queue e h)

append_normal-append_normal :
    (s : GossipState) (xs ys : List TransactionEnvelope)
    → append_normal (append_normal s xs) ys ≡ append_normal s (xs ++ ys)
append_normal-append_normal s xs ys = rw (
  append_assoc s.active_queue.normal (map transaction xs) (map transaction ys),
  ← map-append transaction xs ys,
)

-- Where the tier has room for them all, envelopes are added in order.
pub add_all_fits :
    (s : GossipState) (es : List TransactionEnvelope)
    → length s.active_queue.normal + length es ≤ normal_capacity
    → add_all s es ≡ append_normal s es
unfolding add_all
add_all_fits s [] h = rw (append-nil s.active_queue.normal)
add_all_fits s (e ∷ es) h =
    ap (λ s'. add_all s' es) (add_envelope_fits s e (omega arith))
    ∙ add_all_fits (append_normal s (e ∷ [])) es
        (omega (arith, length-append s.active_queue.normal (transaction e ∷ [])))
    ∙ append_normal-append_normal s (e ∷ []) es

state : PriorityQueue → List TransactionEnvelope → GossipState
state q backlog = record { active_queue = q; macro_merge_backlog = backlog }

-- The state after a batch that fits, with what it moved taken off the backlog.
abbrev pub moved : GossipState → ℕ → GossipState
moved s n = record (append_normal s (take n s.macro_merge_backlog)) {
  macro_merge_backlog = drop n s.macro_merge_backlog;
}

batch_fits :
    (q : PriorityQueue) (backlog : List TransactionEnvelope) (n : ℕ)
    → length q.normal + min n (length backlog) ≤ normal_capacity
    → process_paced_recovery_batch (state q backlog) n
      ≡ (moved (state q backlog) n, min n (length backlog))
unfolding process_paced_recovery_batch state
batch_fits q [] zero h = ground (arith, append-nil q.normal)
batch_fits q (e ∷ es) zero h = ground (arith, append-nil q.normal)
batch_fits q [] (suc n) h = ground (arith, append-nil q.normal)
batch_fits q (e ∷ es) (suc n) h =
    let q' : PriorityQueue = record q { normal = q.normal ++ transaction e ∷ [] } in
    let fits : length q'.normal + min n (length es) ≤ normal_capacity =
      omega (arith, length-append q.normal (transaction e ∷ [])) in
    ground (
      arith,
      add_envelope_fits (state q es) e (omega arith),
      batch_fits q' es n fits,
      append_assoc q.normal (transaction e ∷ []) (map transaction (take n es)),
    )

-- Where the Normal tier has room, a batch moves that many envelopes from the front of the backlog, or
-- all of them, to the end of the tier in their order, and returns how many it moved.
pub process_paced_recovery_batch_fits :
    (s : GossipState) (n : ℕ)
    → length s.active_queue.normal + min n (length s.macro_merge_backlog) ≤ normal_capacity
    → process_paced_recovery_batch s n ≡ (moved s n, min n (length s.macro_merge_backlog))
unfolding state
process_paced_recovery_batch_fits s n h = batch_fits s.active_queue s.macro_merge_backlog n h

-- The response replaces whatever backlog there was: envelopes of an earlier merge that have not been
-- moved yet are gone.
pub handle_sync_response_replaces :
    (s : GossipState) (resp : SyncResponse)
    → macro_merge_threshold < length resp.missing_envelopes
    → handle_sync_response s resp
      ≡ record s { macro_merge_backlog = sort_by by_timestamp resp.missing_envelopes }
unfolding handle_sync_response
handle_sync_response_replaces s resp h = ground arith

take-length : (es : List TransactionEnvelope) → take (length es) es ≡ es
take-length [] = refl
take-length (e ∷ es) = ap (◌∷◌ e) (take-length es)

drop-length : (es : List TransactionEnvelope) → drop (length es) es ≡ []
drop-length [] = refl
drop-length (e ∷ es) = drop-length es

-- What the recovery of a large merge leaves: the envelopes of the response behind the Normal tier,
-- oldest first, each as often, and no backlog.
pub record Recovered (s s' : GossipState) (resp : SyncResponse) : Type 0 where
  pub merged : List TransactionEnvelope
  pub all_merged : Perm merged resp.missing_envelopes
  pub oldest_first : Sorted by_timestamp merged
  pub queued : s'.active_queue ≡ (append_normal s merged).active_queue
  pub backlog_empty : s'.macro_merge_backlog ≡ []

-- A response too large to queue at once is queued by one batch of its size, where there is room.
pub handle_sync_response-Recovered :
    (s : GossipState) (resp : SyncResponse)
    → macro_merge_threshold < length resp.missing_envelopes
    → length s.active_queue.normal + length resp.missing_envelopes ≤ normal_capacity
    → Recovered s
        (process_paced_recovery_batch
          (handle_sync_response s resp)
          (length resp.missing_envelopes)).0
        resp
handle_sync_response-Recovered s resp h room =
    let es = sort_by by_timestamp resp.missing_envelopes in
    let n = length resp.missing_envelopes in
    let e = length-sort_by by_timestamp resp.missing_envelopes in
    let s₁ : GossipState = record s { macro_merge_backlog = es } in
    let run =
      ap (λ t. (process_paced_recovery_batch t n).0) (handle_sync_response_replaces s resp h)
      ∙ ap (λ r. r.0) (process_paced_recovery_batch_fits s₁ n (omega arith)) in
    record {
      merged = es;
      all_merged = sort_by-perm by_timestamp resp.missing_envelopes;
      oldest_first =
          sort_by-Sorted by_timestamp (λ a b h. ground arith) (λ a b c h k. ground arith)
            resp.missing_envelopes;
      queued =
          ap (λ t. t.active_queue) run
          ∙ ap (λ l. (append_normal s l).active_queue)
              (subst (λ k. take k es ≡ es) e (take-length es));
      backlog_empty =
          ap (λ t. t.macro_merge_backlog) run ∙ subst (λ k. drop k es ≡ []) e (drop-length es);
    }
