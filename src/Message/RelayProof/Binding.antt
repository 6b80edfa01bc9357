-- ===== src/Message/RelayProof/Binding.antt =====
-- src/message/relay_proof.rs: a proof verifies for exactly what was signed.
use stellarconduit_core.Prelude.{
  ℕ, suc, zero, ◌^◌, ◌<◌, ◌%◌, ◌/◌, List, [], ◌∷◌, ◌++◌, Bytes, true, ◌≡◌, ◌↔◌, refl, sym, arith,
  length, to_be_bytes, length-append, subst,
}
use stellarconduit_core.Message.Signing.{Crypto, SignatureLaws, BindsMessage}
use stellarconduit_core.Message.RelayProof.{RelayChainProof, proof_message_bytes, sign, verify}

append_injective :
    {A : Type 0} (xs xs' ys ys' : List A)
    → length xs ≡ length xs'
    → xs ++ ys ≡ xs' ++ ys'
    → (xs ≡ xs') × (ys ≡ ys')
append_injective [] [] ys ys' n e = (refl, e)
append_injective [] (x ∷ xs') ys ys' n e = absurd (omega (arith, n))
append_injective (x ∷ xs) [] ys ys' n e = absurd (omega (arith, n))
append_injective (x ∷ xs) (x' ∷ xs') ys ys' n e = ground (arith, append_injective xs xs' ys ys')

length-to_be_bytes : (k m : ℕ) → length (to_be_bytes k m) ≡ k
unfolding to_be_bytes
length-to_be_bytes zero m = refl
length-to_be_bytes (suc k) m =
    ground (
      arith,
      length-append (to_be_bytes k (m / 256)) (m % 256 ∷ []),
      length-to_be_bytes k (m / 256),
    )

to_be_bytes-injective :
    (k m n : ℕ) → m < 256 ^ k → n < 256 ^ k → to_be_bytes k m ≡ to_be_bytes k n → m ≡ n
unfolding to_be_bytes
to_be_bytes-injective zero m n p q e = omega arith
to_be_bytes-injective (suc k) m n p q e = ground (
  arith,
  append_injective (to_be_bytes k (m / 256)) (to_be_bytes k (n / 256)) (m % 256 ∷ [])
      (n % 256 ∷ []),
  length-to_be_bytes k (m / 256),
  length-to_be_bytes k (n / 256),
  to_be_bytes-injective k (m / 256) (n / 256),
)

proof_message_bytes-injective :
    (t t' h h' : Bytes) (m n : ℕ)
    → length t ≡ length t'
    → length h ≡ length h'
    → m < 2 ^ 64
    → n < 2 ^ 64
    → proof_message_bytes t h m ≡ proof_message_bytes t' h' n
    → (t ≡ t') × (h ≡ h') × (m ≡ n)
unfolding proof_message_bytes
proof_message_bytes-injective t t' h h' m n p q b b' e =
    let (et, e₁) = append_injective t t' (h ++ to_be_bytes 8 m) (h' ++ to_be_bytes 8 n) p e in
    let (eh, e₂) = append_injective h h' (to_be_bytes 8 m) (to_be_bytes 8 n) q e₁ in
    (et, eh, to_be_bytes-injective 8 m n b b' e₂)

-- A proof that carries the signature of `key` for a transaction, a chain hash and a sequence number
-- verifies for a transaction exactly when all three are those that were signed.
pub verify-sign_iff :
    (c : Crypto) (laws : SignatureLaws c) (binds : BindsMessage c) (key t t' : Bytes)
    (p : RelayChainProof) (h : Bytes) (n : ℕ)
    → length t ≡ length t'
    → length h ≡ length p.chain_hash
    → n < 2 ^ 64
    → p.sequence < 2 ^ 64
    → p.signature ≡ (sign c key t h n).signature
    → (verify c p (c.public key) t' ≡ true) ↔ ((t' ≡ t) × (p.chain_hash ≡ h) × (p.sequence ≡ n))
unfolding sign verify
verify-sign_iff c laws binds key t t' p h n lt lh bn bp s = (
  λ v. proof_message_bytes-injective t' t p.chain_hash h p.sequence n (sym lt) (sym lh) bp bn (
      binds key (proof_message_bytes t h n) (proof_message_bytes t' p.chain_hash p.sequence) (
        subst
          (λ g. c.verify (c.public key) (proof_message_bytes t' p.chain_hash p.sequence) g ≡ true) s
          v)),
  λ e. rw (s, e.0, e.1, e.2) (laws.verify-sign key (proof_message_bytes t h n)),
)
