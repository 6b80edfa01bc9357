-- ===== src/Message/Signatures.antt =====
-- src/message/types.rs: how the 64 bytes of a signature are serialized and read back, one element of a
-- sequence after the other.
use stellarconduit_core.Prelude.{
  ℕ, zero, suc, List, [], ◌∷◌, ◌++◌, Bytes, Option, none, some, ◌≡◌, refl, sym, append-nil, ap, ◌∙◌,
  arith, append_assoc, length,
}

-- The elements that a serializer has, and those of the signature.
unfoldable pub serialize : Bytes → List ℕ → List ℕ
serialize [] seq = seq
serialize (byte ∷ bytes) seq = serialize bytes (seq ++ byte ∷ [])

-- The elements that are left, and the array; `none` where the sequence ends before.
unfoldable pub visit_seq : ℕ → List ℕ → Option (Bytes × List ℕ)
visit_seq zero seq = some ([], seq)
visit_seq (suc n) [] = none
visit_seq (suc n) (item ∷ seq) = elim (visit_seq n seq) [
  | none ↦ none
  | some (arr, rest) ↦ some (item ∷ arr, rest)
]

unfoldable pub deserialize : List ℕ → Option (Bytes × List ℕ)
deserialize seq = visit_seq 64 seq

serialize_lem : (bytes : Bytes) (seq : List ℕ) → serialize bytes seq ≡ seq ++ bytes
unfolding serialize
serialize_lem [] seq = sym (append-nil seq)
serialize_lem (byte ∷ bytes) seq =
    serialize_lem bytes (seq ++ byte ∷ []) ∙ append_assoc seq (byte ∷ []) bytes

visit_seq-append :
    (n : ℕ) (bytes : Bytes) (rest : List ℕ)
    → length bytes ≡ n
    → visit_seq n (bytes ++ rest) ≡ some (bytes, rest)
unfolding visit_seq
visit_seq-append zero [] rest e = refl
visit_seq-append zero (b ∷ bytes) rest e = absurd (omega arith)
visit_seq-append (suc n) [] rest e = absurd (omega arith)
visit_seq-append (suc n) (b ∷ bytes) rest e = rw (visit_seq-append n bytes rest (omega arith))

-- A signature of 64 bytes is read back, and what follows it is left.
pub deserialize-serialize :
    (sig : Bytes) (rest : List ℕ)
    → length sig ≡ 64
    → deserialize (serialize sig [] ++ rest) ≡ some (sig, rest)
unfolding deserialize
deserialize-serialize sig rest e =
    ap (λ w. visit_seq 64 (w ++ rest)) (serialize_lem sig []) ∙ visit_seq-append 64 sig rest e
