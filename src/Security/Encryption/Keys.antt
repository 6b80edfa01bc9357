-- ===== src/Security/Encryption/Keys.antt =====
-- src/security/encryption.rs: the key that a signing key is converted to.
use Prim.Native.Nat.{bit_and, bit_or}
use stellarconduit_core.Prelude.{
  ℕ, suc, ◌+◌, ◌-◌, ◌%◌, ◌<◌, [], ◌∷◌, ◌++◌, Bytes, true, ◌≡◌, refl, sym, ap, ◌∙◌, arith, all_below,
  all_below_lem, ◌==◌, length, take-append, drop-append, take, drop,
}
use stellarconduit_core.Security.Encryption.{clamp, ed25519_to_x25519}

first_bytes : all_below 256 (λ b. bit_and b 248 == b - b % 8) ≡ true
unfolding all_below
first_bytes = refl

last_bytes : all_below 256 (λ c. bit_or (bit_and c 127) 64 == c % 64 + 64) ≡ true
unfolding all_below
last_bytes = refl

take_one_more :
    (mid rest : Bytes) (c : ℕ) → take (suc (length mid)) (mid ++ c ∷ rest) ≡ mid ++ c ∷ []
take_one_more [] rest c = refl
take_one_more (x ∷ mid) rest c = ap (◌∷◌ x) (take_one_more mid rest c)

-- The key has 32 bytes: those of the hash, of which the first is rounded down to a multiple of 8, and
-- the last is put between 64 and 127.
pub ed25519_to_x25519_lem :
    (sha512 : Bytes → Bytes) (seed mid rest : Bytes) (b c : ℕ)
    → sha512 seed ≡ b ∷ (mid ++ c ∷ rest)
    → length mid ≡ 30
    → b < 256
    → c < 256
    → ed25519_to_x25519 sha512 seed ≡ (b - b % 8) ∷ (mid ++ (c % 64 + 64) ∷ [])
unfolding ed25519_to_x25519 clamp
ed25519_to_x25519_lem sha512 seed mid rest b c hash long low high =
    let first = all_below_lem 256 _ b first_bytes low in
    let last = all_below_lem 256 _ c last_bytes high in
    let cut : take 31 (mid ++ c ∷ rest) ≡ mid ++ c ∷ [] =
      ap (λ n. take (suc n) (mid ++ c ∷ rest)) (sym long) ∙ take_one_more mid rest c in
    let kept : take 30 (mid ++ c ∷ []) ≡ mid =
      ap (λ n. take n (mid ++ c ∷ [])) (sym long) ∙ take-append mid (c ∷ []) in
    let left : drop 30 (mid ++ c ∷ []) ≡ c ∷ [] =
      ap (λ n. drop n (mid ++ c ∷ [])) (sym long) ∙ drop-append mid (c ∷ []) in
    rw (hash, cut, kept, left) (ground (arith, first, last))
