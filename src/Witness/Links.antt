-- ===== src/Witness/Links.antt =====
-- The theorems on links and relays at concrete inputs.
use stellarconduit_core.Prelude.{
  length, zero, suc, some, Result, ok, err, zeros, ℕ, List, [], ◌∷◌, Bytes, ◌≡◌, refl, sym, ap,
  subst, arith, In, inl, inr, All,
}
use stellarconduit_core.Prelude.HashMap
use stellarconduit_core.Message.RelayProof.{RelayChainProof, sign}
use stellarconduit_core.Metrics
use stellarconduit_core.Relay
use stellarconduit_core.Prelude.LruCache.{LruCache}
use stellarconduit_core.Relay.{RpcClient, RpcError, network, RelayNode}
use stellarconduit_core.Witness.{alice, exact, plain}
use stellarconduit_core.Transport.Chunks
use stellarconduit_core.Transport.Chunks.{ChunkFrame, frame, frames, chunk}
use stellarconduit_core.Transport.Chunks.Delivery.{delivered, In-delivered}
use stellarconduit_core.Transport.Wire.Codec.{IsFrame}
use stellarconduit_core.Transport.Ble.{BlePeripheral, peripheral}
use stellarconduit_core.Transport.Ble.Inbox.{ingest_all, In-ingest_all}
use stellarconduit_core.Peer.Identity

abbrev word : Bytes
word = 7 ∷ 8 ∷ 9 ∷ []

abbrev first_frame : ChunkFrame
first_frame = frame word 5 0 2

abbrev last_frame : ChunkFrame
last_frame = frame word 5 2 3

word_frames : chunk 16 word 5 ≡ first_frame ∷ last_frame ∷ []
unfolding chunk
word_frames = refl

-- The frames arrive in reverse order.
abbrev arrivals : List (ℕ × ChunkFrame)
arrivals = (1, last_frame) ∷ (2, first_frame) ∷ []

arrivals_only : (x : ℕ × ChunkFrame) → In x arrivals → x.1.message_id ≡ 5 → In x.1 (chunk 16 word 5)
arrivals_only x (inl e) h =
    subst (λ fs. In x.1 fs) (sym word_frames) (inr (inl (ap (λ (y : ℕ × ChunkFrame). y.1) e)))
arrivals_only x (inr (inl e)) h =
    subst (λ fs. In x.1 fs) (sym word_frames) (inl (ap (λ (y : ℕ × ChunkFrame). y.1) e))
arrivals_only x (inr (inr i)) h = absurd i

arrivals_all : (c : ChunkFrame) → In c (chunk 16 word 5) → (now : ℕ) × In (now, c) arrivals
arrivals_all c i = among (subst (λ fs. In c fs) word_frames i)
  where
    among : In c (first_frame ∷ last_frame ∷ []) → (now : ℕ) × In (now, c) arrivals
    among (inl e) = (2, inr (inl (ap (λ f. (2, f)) e)))
    among (inr (inl e)) = (1, inl (ap (λ f. (1, f)) e))
    among (inr (inr j)) = absurd j

In-delivered_example :
    In word (delivered Chunks.new 5 arrivals)
    × All (λ m. m ≡ word) (delivered Chunks.new 5 arrivals)
unfolding Chunks.new HashMap.get
In-delivered_example =
    In-delivered Chunks.new 16 word 5 arrivals (omega arith) (omega arith) (omega arith) refl
      arrivals_only arrivals_all

arrivals-IsFrame : All (λ x. IsFrame x.1) arrivals
arrivals-IsFrame = (
  record {
    id_range = omega arith;
    total_range = omega arith;
    offset_range = omega arith;
    size_range = omega arith;
    sized = refl;
  },
  (
    record {
      id_range = omega arith;
      total_range = omega arith;
      offset_range = omega arith;
      size_range = omega arith;
      sized = refl;
    },
    tt,
  ),
)

abbrev receiver : BlePeripheral
receiver = peripheral (Identity.new alice)

In-ingest_all_example :
    (p' : BlePeripheral) × (ingest_all receiver arrivals ≡ some p') × In word p'.inbox
unfolding peripheral Chunks.new HashMap.get
In-ingest_all_example =
    In-ingest_all receiver 16 word 5 arrivals (omega arith) (omega arith) (omega arith) refl
      arrivals_only arrivals_all arrivals-IsFrame (omega arith)

-- A cache that forgets nothing.
abbrev keep_all : LruCache RelayChainProof
keep_all = record {
  Cache = HashMap.HashMap RelayChainProof;
  empty = λ n. [];
  get = λ k s. (s, HashMap.get k s);
  put = HashMap.insert;
  pop = HashMap.remove;
  clear = λ s. [];
  entries = λ s. s;
  len = λ s. length s;
}

abbrev answer : ℕ → ℕ × Result Bytes RpcError
answer zero = (0, ok (zeros 32))
answer (suc n) = (n, err network)

-- A client that fails so many times before it accepts a transaction.
abbrev flaky : RpcClient
flaky = record {
  State = ℕ;
  submit_transaction = λ s tx. answer s;
  get_ledger_sequence = λ s. (s, ok 7);
  get_ledger_hash = λ s. (s, ok (zeros 32));
  hex_decode = λ h. some h;
}

abbrev relay : RelayNode exact keep_all plain flaky
relay = record {
  deduplicator = Relay.new exact keep_all 10;
  rpc_client = 1;
  signing_key = alice;
  metrics = Metrics.new;
  max_attempts = 5;
}

abbrev relayed : RelayChainProof
relayed = sign plain alice (zeros 32) (zeros 32) 7
