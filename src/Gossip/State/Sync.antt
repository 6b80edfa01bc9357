-- ===== src/Gossip/State/Sync.antt =====
-- src/gossip/protocol.rs: an anti-entropy exchange between two nodes.
use mathlib.Core.List.{map-append}
use stellarconduit_core.Prelude.{
  ◌+◌, ◌≤◌, List, [], ◌∷◌, ◌++◌, map, Bytes, Bool, true, false, not, ◌≡◌, refl, ap, ◌∙◌, ◌↔◌, inl,
  inr, arith, length, retain, In, In-retain, bytes_eq_refl, Bool-cases, ◌||◌,
}
use stellarconduit_core.Message.{
  TransactionEnvelope, ProtocolMessage, transaction, topology_update, sync_request, sync_response,
  handshake,
}
use stellarconduit_core.Gossip.Queue.{normal_capacity, envelopes, iter_envelopes}
use stellarconduit_core.Gossip.State.{
  GossipState, prefix, contains, generate_sync_request, handle_sync_request, handle_sync_response,
  macro_merge_threshold,
}
use stellarconduit_core.Gossip.State.Recovery.{append_normal, add_all_fits}

-- The envelopes that a node holds in its queue.
abbrev pub held : GossipState → List TransactionEnvelope
held s = iter_envelopes s.active_queue

-- A node answers a request with the envelopes that it holds and whose prefix the request lacks, and with no
-- others.
pub In-handle_sync_request :
    (a b : GossipState) (e : TransactionEnvelope)
    → In e (handle_sync_request a (generate_sync_request b)).missing_envelopes
      ↔ (In e (held a) × (contains (map prefix (held b)) (prefix e) ≡ false))
unfolding handle_sync_request generate_sync_request
In-handle_sync_request a b e = (
  λ m. ground (arith, (In-retain _ e (held a)).0 m),
  λ h. (In-retain _ e (held a)).1 (h.0, ground arith),
)

contains-append :
    (xs ys : List Bytes) (p : Bytes) → contains (xs ++ ys) p ≡ (contains xs p || contains ys p)
contains-append [] ys p = refl
contains-append (x ∷ xs) ys p = ground (arith, contains-append xs ys p)

envelopes-append :
    (xs ys : List ProtocolMessage) → envelopes (xs ++ ys) ≡ envelopes xs ++ envelopes ys
envelopes-append [] ys = refl
envelopes-append (transaction e ∷ xs) ys = ap (◌∷◌ e) (envelopes-append xs ys)
envelopes-append (topology_update u ∷ xs) ys = envelopes-append xs ys
envelopes-append (sync_request r ∷ xs) ys = envelopes-append xs ys
envelopes-append (sync_response r ∷ xs) ys = envelopes-append xs ys
envelopes-append (handshake k ∷ xs) ys = envelopes-append xs ys

envelopes-map : (es : List TransactionEnvelope) → envelopes (map transaction es) ≡ es
envelopes-map [] = refl
envelopes-map (e ∷ es) = ap (◌∷◌ e) (envelopes-map es)

contains_of-In :
    (e : TransactionEnvelope) (es : List TransactionEnvelope)
    → In e es
    → contains (map prefix es) (prefix e) ≡ true
contains_of-In e [] h = absurd h
contains_of-In e (x ∷ es) (inl h) = rw (h, bytes_eq_refl (prefix x))
contains_of-In e (x ∷ es) (inr h) = ground (arith, contains_of-In e es h)

-- Whether a node holds an envelope with the prefix.
abbrev pub knows : GossipState → Bytes → Bool
knows s p = contains (map prefix (held s)) p

knows_split :
    (hs ns ls : List ProtocolMessage) (p : Bytes)
    → contains (map prefix (envelopes (hs ++ (ns ++ ls)))) p ≡ (
        contains (map prefix (envelopes hs)) p
        || (contains (map prefix (envelopes ns)) p || contains (map prefix (envelopes ls)) p))
knows_split hs ns ls p = rw (
  envelopes-append hs (ns ++ ls),
  envelopes-append ns ls,
  map-append prefix (envelopes hs) (envelopes ns ++ envelopes ls),
  map-append prefix (envelopes ns) (envelopes ls),
  contains-append (map prefix (envelopes hs))
      (map prefix (envelopes ns) ++ map prefix (envelopes ls)) p,
  contains-append (map prefix (envelopes ns)) (map prefix (envelopes ls)) p,
)

contains-normal :
    (ns : List ProtocolMessage) (es : List TransactionEnvelope) (p : Bytes)
    → contains (map prefix (envelopes (ns ++ map transaction es))) p
      ≡ (contains (map prefix (envelopes ns)) p || contains (map prefix es) p)
contains-normal ns es p = rw (
  envelopes-append ns (map transaction es),
  envelopes-map es,
  map-append prefix (envelopes ns) es,
  contains-append (map prefix (envelopes ns)) (map prefix es) p,
)

knows-append_normal :
    (s : GossipState) (es : List TransactionEnvelope) (p : Bytes)
    → knows (append_normal s es) p ≡ (knows s p || contains (map prefix es) p)
unfolding iter_envelopes
knows-append_normal s es p = ground (
  arith,
  knows_split s.active_queue.high (s.active_queue.normal ++ map transaction es) s.active_queue.low
      p,
  knows_split s.active_queue.high s.active_queue.normal s.active_queue.low p,
  contains-normal s.active_queue.normal es p,
)

retain_nothing :
    (p : TransactionEnvelope → Bool) (es : List TransactionEnvelope)
    → ((e : TransactionEnvelope) → In e es → p e ≡ false)
    → retain p es ≡ []
retain_nothing p [] h = refl
retain_nothing p (e ∷ es) h = rw (h e (inl refl)) (retain_nothing p es (λ x m. h x (inr m)))

-- The node `b` after it asked `a` and merged the answer.
abbrev pub synced : GossipState → GossipState → GossipState
synced a b = handle_sync_response b (handle_sync_request a (generate_sync_request b))

abbrev pub answer : GossipState → GossipState → List TransactionEnvelope
answer a b = (handle_sync_request a (generate_sync_request b)).missing_envelopes

synced_eq :
    (a b : GossipState)
    → length (answer a b) ≤ macro_merge_threshold
    → length b.active_queue.normal + length (answer a b) ≤ normal_capacity
    → synced a b ≡ append_normal b (answer a b)
unfolding handle_sync_response
synced_eq a b small room = ground (arith, add_all_fits b (answer a b) room)

knows-synced :
    (a b : GossipState) (e : TransactionEnvelope)
    → length (answer a b) ≤ macro_merge_threshold
    → length b.active_queue.normal + length (answer a b) ≤ normal_capacity
    → In e (held a)
    → knows (synced a b) (prefix e) ≡ true
knows-synced a b e small room m =
    ap (λ s. knows s (prefix e)) (synced_eq a b small room)
    ∙ knows-append_normal b (answer a b) (prefix e)
    ∙ known
  where
    missing : knows b (prefix e) ≡ false → contains (map prefix (answer a b)) (prefix e) ≡ true
    missing f = contains_of-In e (answer a b) ((In-handle_sync_request a b e).1 (m, f))

    known : (knows b (prefix e) || contains (map prefix (answer a b)) (prefix e)) ≡ true
    known = elim (Bool-cases (knows b (prefix e))) [ inl t ↦ rw t | inr f ↦ rw (f, missing f) ]

-- One exchange closes the gap: where the answer is small enough to be queued at once and there is room
-- for it, asking the same node again brings nothing.
pub synced-answer_empty :
    (a b : GossipState)
    → length (answer a b) ≤ macro_merge_threshold
    → length b.active_queue.normal + length (answer a b) ≤ normal_capacity
    → answer a (synced a b) ≡ []
unfolding handle_sync_request generate_sync_request
synced-answer_empty a b small room =
    retain_nothing _ (held a) (λ e m. ap not (knows-synced a b e small room m))
