-- ===== src/Security/Encryption/Sessions.antt =====
-- src/security/encryption.rs: what comes of handshakes and of receiving.
use stellarconduit_core.Prelude.{
  ℕ, List, [], ◌∷◌, ◌++◌, Bytes, Option, none, some, Result, ok, err, ◌≡◌, refl, sym, subst, ◌∙◌,
  ◌⊎◌, inl, inr, ltb, append-nil, Bool-cases,
}
use stellarconduit_core.Message.{ProtocolMessage}
use stellarconduit_core.Message.Encoding.{Encoding}
use stellarconduit_core.Transport.Connection.{TransportError}
use stellarconduit_core.Transport.Manager.{Links}
use stellarconduit_core.Transport.Manager.Log.{LinksLaws, accepted}
use stellarconduit_core.Security.Encryption.{
  EncryptionError, Noise, placeholder, frame_noise_message, unframe_noise_message, Encrypted,
  ed25519_to_x25519,
}
use stellarconduit_core.Security.Encryption.Handshake.{
  Answer, goes_on, of_result, tried, in_time, tell, hear, told, heard, handshake_initiator,
  handshake_responder,
}
use stellarconduit_core.Security.Encryption.Channel.{recv, recv_on, decrypt_message}

-- No message of the protocol is empty: that of a handshake has a key or a tag, and that of a session
-- has a tag.
pub record RefusesEmpty (n : Noise) : Type 0 where
  pub handshake : (h : n.Handshake) → n.read_handshake h [] ≡ none
  pub session : (s : n.Session) → n.read_message s [] ≡ none

-- An error, or no answer.
abbrev pub IsRefused : {A E : Type 0} → Option (Result A E) → Type 0
IsRefused none = Unit {0}
IsRefused (some (err x)) = Unit {0}
IsRefused (some (ok a)) = ⊥

-- The log before, or with the placeholder after it.
abbrev pub OnePlaceholder : List ProtocolMessage → List ProtocolMessage → Type 0
OnePlaceholder before after = (after ≡ before) ⊎ (after ≡ before ++ placeholder ∷ [])

module _ (l : Links) (laws : LinksLaws l) where
  open l use {Env, Conn}
  open laws use {log}

  -- A computation is refused, and leaves a log as `P` says.
  pub record Refused {A : Type 0} (P : List ProtocolMessage → Type 0) (r : Answer (Env × Conn) A)
      : Type 0 where
    pub refused : IsRefused r.1
    pub left : P (log r.0.0)

  tried-Refused :
      {A B : Type 0} (P : List ProtocolMessage → Type 0)
      (next : A → Env × Conn → Answer (Env × Conn) B) (o : Option A) (s : Env × Conn)
      → P (log s.0)
      → ((a : A) → Refused P (next a s))
      → Refused P (goes_on next (tried o s))
  unfolding goes_on
  tried-Refused P next none s h go = record { refused = tt; left = h }
  tried-Refused P next (some a) s h go = go a

  fails-Refused :
      {A B : Type 0} (P : List ProtocolMessage → Type 0)
      (next : A → Env × Conn → Answer (Env × Conn) B) (o : Option A) (s : Env × Conn)
      → o ≡ none
      → P (log s.0)
      → Refused P (goes_on next (tried o s))
  unfolding goes_on
  fails-Refused P next o s e h = rw e (record { refused = tt; left = h })

  of_result-Refused :
      {A B : Type 0} (P : List ProtocolMessage → Type 0)
      (next : A → Env × Conn → Answer (Env × Conn) B) (r : Result A EncryptionError)
      (s : Env × Conn)
      → P (log s.0)
      → ((a : A) → Refused P (next a s))
      → Refused P (goes_on next (of_result r s))
  unfolding goes_on
  of_result-Refused P next (err x) s h go = record { refused = tt; left = h }
  of_result-Refused P next (ok a) s h go = go a

  unframed-Refused :
      {B : Type 0} (P : List ProtocolMessage → Type 0)
      (next : Bytes → Env × Conn → Answer (Env × Conn) B) (msg : ProtocolMessage) (s : Env × Conn)
      → Refused P (next [] s)
      → Refused P (goes_on next (of_result (unframe_noise_message msg) s))
  unfolding goes_on unframe_noise_message
  unframed-Refused P next msg s go = go

  in_time-Refused :
      {B : Type 0} (P : List ProtocolMessage → Type 0)
      (next : Unit {0} → Env × Conn → Answer (Env × Conn) B) (elapsed : ℕ) (s : Env × Conn)
      → P (log s.0)
      → Refused P (next tt s)
      → Refused P (goes_on next (in_time elapsed s))
  unfolding goes_on
  in_time-Refused P next elapsed s h go = elim (Bool-cases (ltb 2000 elapsed)) [
    | inl late ↦ rw late (record { refused = tt; left = h })
    | inr early ↦ rw early go
  ]

  hear-Refused :
      {B : Type 0} (P : List ProtocolMessage → Type 0)
      (next : ProtocolMessage → Env × Conn → Answer (Env × Conn) B) (s : Env × Conn)
      → P (log s.0)
      → ((msg : ProtocolMessage) (s' : Env × Conn) → P (log s'.0) → Refused P (next msg s'))
      → Refused P (goes_on next (hear l s))
  unfolding goes_on
  hear-Refused P next (env, conn) h go =
      answered (l.recv env conn) (subst P (sym (laws.recv_log env conn)) h)
    where
      answered :
          (r : Env × Conn × Option (Result ProtocolMessage TransportError))
          → P (log r.0)
          → Refused P (goes_on next (heard l r))
      answered (env', conn', none) k = record { refused = tt; left = k }
      answered (env', conn', some (err x)) k = record { refused = tt; left = k }
      answered (env', conn', some (ok msg)) k = go msg (env', conn') k

  tell-Refused :
      {B : Type 0} (next : Unit {0} → Env × Conn → Answer (Env × Conn) B) (s : Env × Conn)
      → ((s' : Env × Conn)
          → OnePlaceholder (log s.0) (log s'.0)
          → Refused (OnePlaceholder (log s.0)) (next tt s'))
      → Refused (OnePlaceholder (log s.0)) (goes_on next (tell l s))
  unfolding goes_on
  tell-Refused next (env, conn) go =
      answered (l.send env conn placeholder) (laws.send_log env conn placeholder)
    where
      answered :
          (r : Env × Conn × Option TransportError)
          → log r.0 ≡ log env ++ accepted r.2 placeholder
          → Refused (OnePlaceholder (log env)) (goes_on next (told l r))
      answered (env', conn', none) k = go (env', conn') (inr k)
      answered (env', conn', some e) k = record {
        refused = tt;
        left = inl (k ∙ append-nil (log env));
      }

  module _ (n : Noise) (refuses : RefusesEmpty n) where
    initiator-Refused :
        (sha512 : Bytes → Bytes) (seed : Bytes) (elapsed : ℕ × ℕ) (s : Env × Conn)
        → Refused (OnePlaceholder (log s.0)) (handshake_initiator l n sha512 seed elapsed s)
    unfolding handshake_initiator
    initiator-Refused sha512 seed elapsed s =
        let P = OnePlaceholder (log s.0) in
        tried-Refused P _ (n.initiator (ed25519_to_x25519 sha512 seed)) s (inl refl) (λ h.
          tried-Refused P _ (n.write_handshake h) s (inl refl) (λ w.
            of_result-Refused P _ (frame_noise_message w.1) s (inl refl) (λ framed.
              tell-Refused _ s (λ s' k. in_time-Refused P _ elapsed.0 s' k (
                hear-Refused P _ s' k (λ msg s'' k'.
                  unframed-Refused P _ msg s'' (
                    fails-Refused P _ (n.read_handshake w.0 []) s'' (refuses.handshake w.0)
                      k')))))))

    responder-Refused :
        (sha512 : Bytes → Bytes) (seed : Bytes) (elapsed : ℕ × ℕ) (s : Env × Conn)
        → Refused (λ after. after ≡ log s.0) (handshake_responder l n sha512 seed elapsed s)
    unfolding handshake_responder
    responder-Refused sha512 seed elapsed s =
        let P : List ProtocolMessage → Type 0 = λ after. after ≡ log s.0 in
        tried-Refused P _ (n.responder (ed25519_to_x25519 sha512 seed)) s refl (λ h.
          hear-Refused P _ s refl (λ msg s' k.
            unframed-Refused P _ msg s'
              (fails-Refused P _ (n.read_handshake h []) s' (refuses.handshake h) k)))

    -- No handshake comes to a session, on either side, whatever the peer sends and whatever the keys:
    -- each is refused or waits. The initiator has sent one placeholder at most, and the responder
    -- nothing.
    pub handshakes-Refused :
        (sha512 : Bytes → Bytes) (seed : Bytes) (elapsed : ℕ × ℕ) (s : Env × Conn)
        → Refused (OnePlaceholder (log s.0)) (handshake_initiator l n sha512 seed elapsed s)
          × Refused (λ after. after ≡ log s.0) (handshake_responder l n sha512 seed elapsed s)
    handshakes-Refused sha512 seed elapsed s =
        (initiator-Refused sha512 seed elapsed s, responder-Refused sha512 seed elapsed s)

    -- An encrypted connection never receives a message.
    pub recv-Refused :
        (e : Encoding) (env : Env) (c : Encrypted l n) → IsRefused (recv l n e env c).2
    unfolding recv unframe_noise_message decrypt_message
    recv-Refused e env c = answered (l.recv env c.inner)
      where
        answered :
            (r : Env × Conn × Option (Result ProtocolMessage TransportError))
            → IsRefused (recv_on l n e c r).2
        answered (env', conn, none) = tt
        answered (env', conn, some (err x)) = tt
        answered (env', conn, some (ok framed)) = rw (refuses.session c.noise_state) tt
