-- ===== src/Message/Signing.antt =====
-- src/message/signing.rs: the signature over an envelope's payload. SHA-256 and Ed25519 (the
-- crates sha2 and ed25519-dalek) are a parameter.
use stellarconduit_core.Prelude.{
  Bytes, Bool, true, false, ◌≡◌, ◌++◌, if◌then◌else◌, to_be_bytes, arith,
}
use stellarconduit_core.Message.{TransactionEnvelope}

-- What the program calls of the two crates. `key_ok` says whether `VerifyingKey::from_bytes`
-- succeeds, and a signing key is its 32-byte seed.
pub record Crypto : Type 0 where
  pub sha256 : Bytes → Bytes
  pub public : Bytes → Bytes
  pub sign : Bytes → Bytes → Bytes
  pub key_ok : Bytes → Bool
  pub verify : Bytes → Bytes → Bytes → Bool

-- Documented of Ed25519: a signature made with a key verifies under its public key.
pub record SignatureLaws (c : Crypto) : Type 0 where
  pub public_ok : (k : Bytes) → c.key_ok (c.public k) ≡ true
  pub verify-sign : (k m : Bytes) → c.verify (c.public k) m (c.sign k m) ≡ true

-- Unforgeability as far as it is used here: a signature verifies for its own message only.
abbrev pub BindsMessage : Crypto → Type 0
BindsMessage c = (k m n : Bytes) → c.verify (c.public k) n (c.sign k m) ≡ true → n ≡ m

pub data SignError : Type 0 where
  malformed_public_key invalid_signature : SignError

pub data VerifyResult : Type 0 where
  ok : Bool → VerifyResult
  err : SignError → VerifyResult

module _ (c : Crypto) where
  unfoldable pub generate_payload_hash : TransactionEnvelope → Bytes
  generate_payload_hash e = c.sha256 (e.origin_pubkey ++ (to_be_bytes 8 e.timestamp ++ e.tx_xdr))

  unfoldable pub sign_envelope : Bytes → TransactionEnvelope → TransactionEnvelope
  sign_envelope key e = record e { signature = c.sign key (generate_payload_hash e) }

  unfoldable pub verify_signature : TransactionEnvelope → VerifyResult
  verify_signature e =
      if c.key_ok e.origin_pubkey
      then (if c.verify e.origin_pubkey (generate_payload_hash e) e.signature
          then ok true
          else err invalid_signature)
      else err malformed_public_key

  -- An envelope signed by the key of its origin verifies.
  pub verify_signature-sign_envelope :
      (laws : SignatureLaws c) (key : Bytes) (e : TransactionEnvelope)
      → e.origin_pubkey ≡ c.public key
      → verify_signature (sign_envelope key e) ≡ ok true
  unfolding verify_signature sign_envelope generate_payload_hash
  verify_signature-sign_envelope laws key e h =
      ground (arith, laws.public_ok key, laws.verify-sign key (generate_payload_hash e))

  -- The code has no way to answer `Ok(false)`.
  pub verify_signature-ne-false : (e : TransactionEnvelope) → ¬ (verify_signature e ≡ ok false)
  unfolding verify_signature
  verify_signature-ne-false e = ground arith
