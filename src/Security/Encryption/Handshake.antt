-- ===== src/Security/Encryption/Handshake.antt =====
-- src/security/encryption.rs: the handshakes of the two sides.
use stellarconduit_core.Prelude.{
  ℕ, ◌*◌, ◌++◌, Bytes, Option, none, some, Result, ok, err, if◌then◌else◌, ltb, length, take, drop,
  zeros,
}
use stellarconduit_core.Message.{ProtocolMessage}
use stellarconduit_core.Transport.Connection.{TransportError}
use stellarconduit_core.Transport.Manager.{Links}
use stellarconduit_core.Security.Encryption.{
  EncryptionError, handshake_failed, handshake_timeout, transport_error, Noise, ed25519_to_x25519,
  frame_noise_message, unframe_noise_message, placeholder, handshake_timeout_secs, Encrypted,
}

-- A computation on a state that fails, or answers nothing where it waits for a message.
abbrev pub Answer : Type 0 → Type 0 → Type 0
Answer S A = S × Option (Result A EncryptionError)

unfoldable pub goes_on : {S A B : Type 0} → (A → S → Answer S B) → Answer S A → Answer S B
goes_on next (s, none) = (s, none)
goes_on next (s, some (err x)) = (s, some (err x))
goes_on next (s, some (ok a)) = next a s

infixl 1 ◌>>=◌ ◌>>◌
abbrev pub ◌>>=◌ : {S A B : Type 0} → (S → Answer S A) → (A → S → Answer S B) → S → Answer S B
◌>>=◌ first next s = goes_on next (first s)

abbrev pub ◌>>◌ : {S A B : Type 0} → (S → Answer S A) → (S → Answer S B) → S → Answer S B
◌>>◌ first next s = goes_on (λ a. next) (first s)

abbrev pub of_result : {S A : Type 0} → Result A EncryptionError → S → Answer S A
of_result r s = (s, some r)

-- A call of snow while the handshake goes on.
abbrev pub tried : {S A : Type 0} → Option A → S → Answer S A
tried none s = (s, some (err handshake_failed))
tried (some a) s = (s, some (ok a))

-- The check of the time since the start, in milliseconds.
abbrev pub in_time : {S : Type 0} → ℕ → S → Answer S (Unit {0})
in_time elapsed s =
    if ltb (handshake_timeout_secs * 1000) elapsed
    then (s, some (err handshake_timeout))
    else (s, some (ok tt))

-- The payload in an array of 32 zeros.
abbrev pub key_of : Bytes → Bytes
key_of payload = take 32 payload ++ drop (length (take 32 payload)) (zeros 32)

module _ (l : Links) where
  open l use {Env, Conn}

  abbrev pub told : Env × Conn × Option TransportError → Answer (Env × Conn) (Unit {0})
  told (env, conn, none) = ((env, conn), some (ok tt))
  told (env, conn, some e) = ((env, conn), some (err (transport_error e)))

  -- `inner.send` of the placeholder.
  abbrev pub tell : Env × Conn → Answer (Env × Conn) (Unit {0})
  tell (env, conn) = told (l.send env conn placeholder)

  abbrev pub heard :
      Env × Conn × Option (Result ProtocolMessage TransportError)
      → Answer (Env × Conn) ProtocolMessage
  heard (env, conn, none) = ((env, conn), none)
  heard (env, conn, some (err e)) = ((env, conn), some (err (transport_error e)))
  heard (env, conn, some (ok msg)) = ((env, conn), some (ok msg))

  -- `inner.recv`.
  abbrev pub hear : Env × Conn → Answer (Env × Conn) ProtocolMessage
  hear (env, conn) = heard (l.recv env conn)

module _ (l : Links) (n : Noise) where
  open l use {Env, Conn}
  open n use {Session}

  abbrev pub established : Session → Bytes → Env × Conn → Answer (Env × Conn) (Encrypted l n)
  established session payload (env, conn) = (
    (env, conn),
    some (ok (record { inner = conn; noise_state = session; remote_public_key = key_of payload })),
  )

  -- `elapsed` is the time at the two checks.
  unfoldable pub handshake_initiator :
      (Bytes → Bytes) → Bytes → ℕ × ℕ → Env × Conn → Answer (Env × Conn) (Encrypted l n)
  handshake_initiator sha512 seed elapsed = do
    h ← tried (n.initiator (ed25519_to_x25519 sha512 seed))
    (h₁, msg1) ← tried (n.write_handshake h)
    framed_msg1 ← of_result (frame_noise_message msg1)
    tell l
    in_time elapsed.0
    msg2_framed ← hear l
    msg2 ← of_result (unframe_noise_message msg2_framed)
    (h₂, payload) ← tried (n.read_handshake h₁ msg2)
    in_time elapsed.1
    (h₃, msg3) ← tried (n.write_handshake h₂)
    framed_msg3 ← of_result (frame_noise_message msg3)
    tell l
    session ← tried (n.into_transport h₃)
    established session payload

  unfoldable pub handshake_responder :
      (Bytes → Bytes) → Bytes → ℕ × ℕ → Env × Conn → Answer (Env × Conn) (Encrypted l n)
  handshake_responder sha512 seed elapsed = do
    h ← tried (n.responder (ed25519_to_x25519 sha512 seed))
    msg1_framed ← hear l
    msg1 ← of_result (unframe_noise_message msg1_framed)
    (h₁, ignored) ← tried (n.read_handshake h msg1)
    in_time elapsed.0
    (h₂, msg2) ← tried (n.write_handshake h₁)
    framed_msg2 ← of_result (frame_noise_message msg2)
    tell l
    in_time elapsed.1
    msg3_framed ← hear l
    msg3 ← of_result (unframe_noise_message msg3_framed)
    (h₃, payload) ← tried (n.read_handshake h₂ msg3)
    session ← tried (n.into_transport h₃)
    established session payload
