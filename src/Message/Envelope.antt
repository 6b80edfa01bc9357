-- ===== src/Message/Envelope.antt =====
-- src/message/envelope.rs: the canonical message id, validation, and the builder.
use stellarconduit_core.Prelude.{
  ℕ, Bytes, Bool, true, false, ◌≡◌, ◌≢◌, ◌↔◌, ◌++◌, [], ◌∷◌, Option, none, some, if◌then◌else◌,
  ◌==◌, not, bytes_eq, bytes_eq_iff, to_le_bytes, zeros, arith,
}
use stellarconduit_core.Message.{TransactionEnvelope}
use stellarconduit_core.Message.Signing.{
  Crypto, SignatureLaws, BindsMessage, generate_payload_hash, verify_signature, err,
  invalid_signature,
}

pub data EnvelopeError : Type 0 where
  zero_message_id empty_xdr zero_ttl zero_timestamp message_id_mismatch : EnvelopeError

abbrev pub is_empty : Bytes → Bool
is_empty [] = true
is_empty (b ∷ bs) = false

pub record EnvelopeBuilder : Type 0 where
  pub origin_pubkey : Bytes
  pub tx_xdr : Bytes
  pub ttl_hops : ℕ
  pub timestamp : Option ℕ

-- `EnvelopeBuilder::new`, `ttl` and `timestamp`.
unfoldable pub new : Bytes → Bytes → EnvelopeBuilder
new origin xdr = record { origin_pubkey = origin; tx_xdr = xdr; ttl_hops = 10; timestamp = none }

unfoldable pub ttl : EnvelopeBuilder → ℕ → EnvelopeBuilder
ttl b hops = record b { ttl_hops = hops }

unfoldable pub timestamp : EnvelopeBuilder → ℕ → EnvelopeBuilder
timestamp b ts = record b { timestamp = some ts }

abbrev unwrap_or : Option ℕ → ℕ → ℕ
unwrap_or none d = d
unwrap_or (some n) d = n

module _ (c : Crypto) where
  unfoldable pub compute_message_id : Bytes → Bytes → ℕ → Bytes
  compute_message_id origin xdr ts = c.sha256 (origin ++ (xdr ++ to_le_bytes 8 ts))

  -- The id is the canonical hash and is not zero, and the transaction, the hops and the timestamp
  -- are not empty or zero.
  pub record IsCanonical (e : TransactionEnvelope) : Type 0 where
    pub id_hash : e.message_id ≡ compute_message_id e.origin_pubkey e.tx_xdr e.timestamp
    pub id_nonzero : e.message_id ≢ zeros 32
    pub xdr_nonempty : e.tx_xdr ≢ []
    pub ttl_nonzero : e.ttl_hops ≢ 0
    pub timestamp_nonzero : e.timestamp ≢ 0

  -- `none` is `Ok(())`.
  unfoldable pub validate_envelope : TransactionEnvelope → Option EnvelopeError
  validate_envelope e =
      if bytes_eq e.message_id (zeros 32)
      then some zero_message_id
      else if is_empty e.tx_xdr
      then some empty_xdr
      else if e.ttl_hops == 0
      then some zero_ttl
      else if e.timestamp == 0
      then some zero_timestamp
      else if not (bytes_eq e.message_id (compute_message_id e.origin_pubkey e.tx_xdr e.timestamp))
      then some message_id_mismatch
      else none

  -- `now` is the clock, read only where no timestamp was given.
  unfoldable pub build : EnvelopeBuilder → Bytes → ℕ → TransactionEnvelope
  build b key now =
      let ts = unwrap_or b.timestamp now in
      let id = compute_message_id b.origin_pubkey b.tx_xdr ts in
      record {
        message_id = id;
        origin_pubkey = b.origin_pubkey;
        tx_xdr = b.tx_xdr;
        ttl_hops = b.ttl_hops;
        timestamp = ts;
        signature = c.sign key id;
      }

  validate_envelope_sound : (e : TransactionEnvelope) → validate_envelope e ≡ none → IsCanonical e
  unfolding validate_envelope
  validate_envelope_sound e h = ground (
    arith,
    bytes_eq_iff e.message_id (zeros 32),
    bytes_eq_iff e.message_id (compute_message_id e.origin_pubkey e.tx_xdr e.timestamp),
  )

  validate_envelope_complete :
      (e : TransactionEnvelope) → IsCanonical e → validate_envelope e ≡ none
  unfolding validate_envelope
  validate_envelope_complete e h = ground (
    arith,
    bytes_eq_iff e.message_id (zeros 32),
    bytes_eq_iff e.message_id (compute_message_id e.origin_pubkey e.tx_xdr e.timestamp),
  )

  -- Validation accepts an envelope exactly when it is canonical.
  pub validate_envelope_iff :
      (e : TransactionEnvelope) → (validate_envelope e ≡ none) ↔ IsCanonical e
  validate_envelope_iff e = (validate_envelope_sound e, validate_envelope_complete e)

  -- An envelope from the builder does not verify, unless its two hashes collide: `build` signs the
  -- message id, and `verify_signature` checks the payload hash.
  pub verify_signature-build :
      (laws : SignatureLaws c) (binds : BindsMessage c) (b : EnvelopeBuilder) (key : Bytes)
      (now : ℕ)
      → b.origin_pubkey ≡ c.public key
      → generate_payload_hash c (build b key now) ≢ (build b key now).message_id
      → verify_signature c (build b key now) ≡ err invalid_signature
  unfolding verify_signature build
  verify_signature-build laws binds b key now h ne = ground (
    arith,
    laws.public_ok key,
    binds key (build b key now).message_id (generate_payload_hash c (build b key now)),
  )
