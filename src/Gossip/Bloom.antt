-- ===== src/Gossip/Bloom.antt =====
-- src/gossip/bloom.rs: duplicate suppression over two windows. The filter itself (`Bloom` of the
-- crate bloomfilter) is a parameter.
pub mod Window
use stellarconduit_core.Prelude.{
  ℕ, zero, suc, ◌+◌, ◌*◌, ◌%◌, List, [], ◌∷◌, Bytes, Bool, true, false, ◌≡◌, if◌then◌else◌, leb,
  ◌||◌, u8, zeros,
}
use Prim.Native.Nat.{bit_xor}

-- What the program calls of the crate: an empty filter for a capacity and a
-- false-positive rate, a test and an insertion.
pub record Bloom : Type 1 where
  pub Filter : Type 0
  pub Rate : Type 0
  pub one_percent : Rate
  pub new_for_fp_rate : ℕ → Rate → Filter
  pub check : Filter → Bytes → Bool
  pub set : Filter → Bytes → Filter

-- Documented of a Bloom filter: no false negatives.
pub record NoFalseNegatives (b : Bloom) : Type 0 where
  pub check-set : (f : b.Filter) (k : Bytes) → b.check (b.set f k) k ≡ true
  pub check-set_keeps :
      (f : b.Filter) (k j : Bytes) → b.check f k ≡ true → b.check (b.set f j) k ≡ true

-- The index is below the array's length, so the write is in range.
xor_at : Bytes → ℕ → ℕ → Bytes
xor_at [] i b = []
xor_at (x ∷ xs) zero b = bit_xor x b ∷ xs
xor_at (x ∷ xs) (suc i) b = x ∷ xor_at xs i b

-- The loop over the data: `key[i % 32] ^= b.wrapping_add((i as u8).wrapping_mul(31))`.
fold_bytes : ℕ → Bytes → Bytes → Bytes
unfolding xor_at
fold_bytes i [] key = key
fold_bytes i (b ∷ bs) key = fold_bytes (i + 1) bs (xor_at key (i % 32) (u8 (b + u8 (u8 i * 31))))

unfoldable pub bytes_to_key : Bytes → Bytes
unfolding fold_bytes
bytes_to_key bs = fold_bytes 0 bs (zeros 32)

module _ (b : Bloom) where
  open b use {Filter, Rate}

  pub record MessageFilter : Type 0 where
    pub filter : Filter

  unfoldable pub message_filter : ℕ → Rate → MessageFilter
  message_filter capacity fp_rate = record { filter = b.new_for_fp_rate capacity fp_rate }

  unfoldable pub message_filter_check_and_add : MessageFilter → Bytes → MessageFilter × Bool
  message_filter_check_and_add m id =
      if b.check m.filter id then (m, true) else (record { filter = b.set m.filter id }, false)

  pub record SlidingBloomFilter : Type 0 where
    pub current : Filter
    pub previous : Filter
    pub capacity : ℕ
    pub fp_rate : Rate
    pub insert_count : ℕ

  unfoldable pub new : ℕ → Rate → SlidingBloomFilter
  new capacity fp_rate = record {
    current = b.new_for_fp_rate capacity fp_rate;
    previous = b.new_for_fp_rate capacity fp_rate;
    capacity = capacity;
    fp_rate = fp_rate;
    insert_count = 0;
  }

  unfoldable pub check : SlidingBloomFilter → Bytes → Bool
  check s id = b.check s.current id || b.check s.previous id

  unfoldable pub rotate_if_full : SlidingBloomFilter → SlidingBloomFilter
  rotate_if_full s =
      if leb s.capacity s.insert_count
      then record s {
        current = b.new_for_fp_rate s.capacity s.fp_rate;
        previous = s.current;
        insert_count = 0;
      }
      else s

  unfoldable pub add : SlidingBloomFilter → Bytes → SlidingBloomFilter
  unfolding check rotate_if_full
  add s id =
      if check s id
      then s
      else let s' = rotate_if_full s in
        record s' { current = b.set s'.current id; insert_count = s'.insert_count + 1 }

  unfoldable pub check_and_add : SlidingBloomFilter → Bytes → SlidingBloomFilter × Bool
  unfolding rotate_if_full
  check_and_add s id =
      if b.check s.current id || b.check s.previous id
      then (s, true)
      else let s' = rotate_if_full s in
        (record s' { current = b.set s'.current id; insert_count = s'.insert_count + 1 }, false)

  -- `BloomFilter::new` and its `check_and_add`, which takes any bytes.
  unfoldable pub bloom_filter : ℕ → SlidingBloomFilter
  unfolding new
  bloom_filter capacity = new capacity b.one_percent

  unfoldable pub bloom_filter_check_and_add : SlidingBloomFilter → Bytes → SlidingBloomFilter × Bool
  unfolding check_and_add
  bloom_filter_check_and_add s bytes = check_and_add s (bytes_to_key bytes)
