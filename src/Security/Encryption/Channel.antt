-- ===== src/Security/Encryption/Channel.antt =====
-- src/security/encryption.rs: sending and receiving over a session.
use stellarconduit_core.Prelude.{
  Bytes, Option, none, some, Result, ok, err, if◌then◌else◌, ltb, length,
}
use stellarconduit_core.Message.{ProtocolMessage}
use stellarconduit_core.Message.Encoding.{Encoding}
use stellarconduit_core.Transport.Connection.{TransportError}
use stellarconduit_core.Transport.Manager.{Links}
use stellarconduit_core.Security.Encryption.{
  EncryptionError, authentication_failed, encryption_failed, decryption_failed,
  invalid_message_size, to_transport, Noise, frame_noise_message, unframe_noise_message,
  placeholder, max_noise_message_size, Encrypted,
}

module _ (l : Links) (n : Noise) where
  open l use {Env, Conn}
  open n use {Session}

  abbrev encrypted :
      Encrypted l n → Option (Session × Bytes) → Encrypted l n × Result Bytes EncryptionError
  encrypted c none = (c, err encryption_failed)
  encrypted c (some (session, ciphertext)) = (record c { noise_state = session }, ok ciphertext)

  unfoldable pub encrypt_message :
      Encoding → Encrypted l n → ProtocolMessage → Encrypted l n × Result Bytes EncryptionError
  encrypt_message e c msg = elim (e.to_vec msg) [
    | none ↦ (c, err encryption_failed)
    | some plaintext ↦
        if ltb max_noise_message_size (length plaintext)
        then (c, err invalid_message_size)
        else encrypted c (n.write_message c.noise_state plaintext)
  ]

  abbrev deserialized : Option ProtocolMessage → Result ProtocolMessage EncryptionError
  deserialized none = err decryption_failed
  deserialized (some msg) = ok msg

  abbrev decrypted :
      Encoding
      → Encrypted l n
      → Option (Session × Bytes)
      → Encrypted l n × Result ProtocolMessage EncryptionError
  decrypted e c none = (c, err authentication_failed)
  decrypted e c (some (session, plaintext)) =
      (record c { noise_state = session }, deserialized (e.from_slice plaintext))

  unfoldable pub decrypt_message :
      Encoding → Encrypted l n → Bytes → Encrypted l n × Result ProtocolMessage EncryptionError
  decrypt_message e c ciphertext = decrypted e c (n.read_message c.noise_state ciphertext)

  abbrev send_framed :
      Env
      → Encrypted l n
      → Result Bytes EncryptionError
      → Env × Encrypted l n × Option TransportError
  send_framed env c (err x) = (env, c, some (to_transport x))
  send_framed env c (ok framed) =
      let (env', conn, refused) = l.send env c.inner placeholder in
      (env', record c { inner = conn }, refused)

  abbrev send_encrypted :
      Env
      → Encrypted l n × Result Bytes EncryptionError
      → Env × Encrypted l n × Option TransportError
  send_encrypted env (c, err x) = (env, c, some (to_transport x))
  send_encrypted env (c, ok ciphertext) = send_framed env c (frame_noise_message ciphertext)

  unfoldable pub send :
      Encoding → Env → Encrypted l n → ProtocolMessage → Env × Encrypted l n × Option TransportError
  send e env c msg = send_encrypted env (encrypt_message e c msg)

  abbrev as_transport : {A : Type 0} → Result A EncryptionError → Result A TransportError
  as_transport (err x) = err (to_transport x)
  as_transport (ok a) = ok a

  abbrev recv_framed :
      Encoding
      → Env
      → Encrypted l n
      → Result Bytes EncryptionError
      → Env × Encrypted l n × Option (Result ProtocolMessage TransportError)
  recv_framed e env c (err x) = (env, c, some (err (to_transport x)))
  recv_framed e env c (ok ciphertext) =
      let (c', msg) = decrypt_message e c ciphertext in (env, c', some (as_transport msg))

  abbrev pub recv_on :
      Encoding
      → Encrypted l n
      → Env × Conn × Option (Result ProtocolMessage TransportError)
      → Env × Encrypted l n × Option (Result ProtocolMessage TransportError)
  recv_on e c (env, conn, none) = (env, record c { inner = conn }, none)
  recv_on e c (env, conn, some (err x)) = (env, record c { inner = conn }, some (err x))
  recv_on e c (env, conn, some (ok framed)) =
      recv_framed e env (record c { inner = conn }) (unframe_noise_message framed)

  unfoldable pub recv :
      Encoding
      → Env
      → Encrypted l n
      → Env × Encrypted l n × Option (Result ProtocolMessage TransportError)
  recv e env c = recv_on e c (l.recv env c.inner)

  unfoldable pub disconnect : Env → Encrypted l n → Env
  disconnect env c = l.disconnect env c.inner
