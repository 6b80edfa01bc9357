-- ===== src/Witness/Gossip.antt =====
-- The theorems of the gossip modules at concrete inputs.
use stellarconduit_core.Prelude.{
  All, bytes_eq, ℕ, zero, suc, ap, ◌+◌, ◌<◌, ◌≤◌, List, [], ◌∷◌, ◌++◌, true, ◌≡◌, refl, arith, Perm,
  length,
}
use stellarconduit_core.Message.{transaction, SyncResponse}
use stellarconduit_core.Gossip.Queue
use stellarconduit_core.Gossip.Queue.{
  for_message, pop, PriorityQueue, low_capacity, push, drain_batch, pop, pop_front, iter_envelopes,
}
use stellarconduit_core.Gossip.Queue.Runs.{Call, pushes, pops, drains, pushed}
use stellarconduit_core.Gossip.Queue.Runs
use stellarconduit_core.Gossip.Queue.Order.{all}
use stellarconduit_core.Gossip.Queue.Tiers.{After, rank, pop-run}
use stellarconduit_core.Gossip.Queue.Contents.{run_contents}
use stellarconduit_core.Gossip.State.{
  GossipState, add_all, handle_sync_request, handle_sync_response, generate_sync_request,
  process_paced_recovery_batch, prefix, contains, by_timestamp, macro_merge_threshold,
}
use stellarconduit_core.Gossip.State
use stellarconduit_core.Gossip.State.Sync.{synced, answer, synced-answer_empty}
use stellarconduit_core.Gossip.State.Recovery.{Recovered, handle_sync_response-Recovered}
use stellarconduit_core.Gossip.Bloom
use stellarconduit_core.Gossip.Bloom.{SlidingBloomFilter, check, check_and_add}
use stellarconduit_core.Gossip.Bloom.Window
use stellarconduit_core.Gossip.Bloom.Window.{check-run, run-insert_count-le}
use stellarconduit_core.Witness.{alice, bob, envelope, exact, exact-NoFalseNegatives}

abbrev two_states : GossipState × GossipState
unfolding State.new add_all
two_states = (add_all State.new (envelope 1 ∷ envelope 2 ∷ []), add_all State.new (envelope 2 ∷ []))

synced-answer_empty_example : answer two_states.0 (synced two_states.0 two_states.1) ≡ []
unfolding State.new add_all handle_sync_request generate_sync_request State.add_envelope push
    bytes_eq
synced-answer_empty_example =
    synced-answer_empty two_states.0 two_states.1 (omega arith) (omega arith)

abbrev calls : List Call
calls =
    pushes (transaction (envelope 3)) ∷ pushes (transaction (envelope 1)) ∷ pops ∷ drains 1 9 ∷ []

run_contents_example :
    Perm
      ((Runs.run Queue.new calls).1 ++ all (Runs.run Queue.new calls).0)
      (pushed calls ++ all Queue.new)
run_contents_example = run_contents Queue.new calls

abbrev three : PriorityQueue
three = record {
  high = [];
  normal = transaction (envelope 1) ∷ transaction (envelope 2) ∷ transaction (envelope 3) ∷ [];
  low = [];
}

check-run_example :
    check exact
      (Window.run exact (check_and_add exact (Bloom.new exact 2 1) alice).0 (bob ∷ bob ∷ []))
      alice
    ≡ true
unfolding Bloom.new check_and_add
check-run_example =
    check-run exact exact-NoFalseNegatives (Bloom.new exact 2 1) alice (bob ∷ bob ∷ [])
      (omega arith) (omega arith) refl (omega arith)

abbrev copies : {A : Type 0} → ℕ → A → List A
copies zero x = []
copies (suc n) x = x ∷ copies n x

length-copies : {A : Type 0} (n : ℕ) (x : A) → length (copies n x) ≡ n
length-copies zero x = refl
length-copies (suc n) x = ap suc (length-copies n x)

abbrev merging : GossipState
merging = record {
  active_queue = Queue.new;
  macro_merge_backlog = envelope 1 ∷ envelope 2 ∷ envelope 3 ∷ [];
}

abbrev large : SyncResponse
large = record { missing_envelopes = copies 501 (envelope 4) }

large_length : 500 < length large.missing_envelopes
large_length = omega (arith, length-copies 501 (envelope 4))

large_fits : length merging.active_queue.normal + length large.missing_envelopes ≤ 10000
unfolding Queue.new
large_fits = omega (arith, length-copies 501 (envelope 4))

handle_sync_response-Recovered_example :
    Recovered merging
      (process_paced_recovery_batch
        (handle_sync_response merging large)
        (length large.missing_envelopes)).0
      large
handle_sync_response-Recovered_example =
    handle_sync_response-Recovered merging large large_length large_fits

abbrev waiting : List Call
waiting = pushes (transaction (envelope 3)) ∷ pushes (transaction (envelope 1)) ∷ []

pop-run_example :
    All
      (After (rank (for_message (transaction (envelope 3)))))
      (all (pop (Runs.run Queue.new waiting).0).0)
unfolding Queue.new Runs.run Runs.step push pop for_message
pop-run_example = pop-run waiting (transaction (envelope 3)) refl
