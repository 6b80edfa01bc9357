-- ===== src/Witness/Sessions.antt =====
-- The theorem on encrypted sessions at a concrete input.
use stellarconduit_core.Prelude.{ℕ, suc, [], ◌∷◌, Bytes, Option, none, some, ◌≡◌, refl}
use stellarconduit_core.Security.Encryption.{Noise}
use stellarconduit_core.Security.Encryption.Handshake.{handshake_initiator, handshake_responder}
use stellarconduit_core.Security.Encryption.Sessions.{
  RefusesEmpty, Refused, OnePlaceholder, handshakes-Refused,
}
use stellarconduit_core.Witness.{alice}
use stellarconduit_core.Witness.Managers.{radio, radio-LinksLaws, friend}

-- A protocol that counts its messages, and reads any message that is not empty.
abbrev counting : Noise
counting = record {
  Handshake = ℕ;
  Session = ℕ;
  initiator = λ key. some 0;
  responder = λ key. some 0;
  write_handshake = λ h. some (suc h, 1 ∷ []);
  read_handshake = read;
  into_transport = λ h. some h;
  write_message = λ s bytes. some (suc s, 1 ∷ bytes);
  read_message = read;
}
  where
    read : ℕ → Bytes → Option (ℕ × Bytes)
    read n [] = none
    read n (b ∷ bytes) = some (suc n, bytes)

counting-RefusesEmpty : RefusesEmpty counting
counting-RefusesEmpty = record { handshake = λ h. refl; session = λ s. refl }

handshakes-Refused_example :
    Refused radio radio-LinksLaws
      (OnePlaceholder (radio-LinksLaws.log []))
      (handshake_initiator radio counting (λ m. m) alice (100, 200) ([], friend))
    × Refused radio radio-LinksLaws
        (λ after. after ≡ radio-LinksLaws.log [])
        (handshake_responder radio counting (λ m. m) alice (100, 200) ([], friend))
handshakes-Refused_example =
    handshakes-Refused radio radio-LinksLaws counting counting-RefusesEmpty (λ m. m) alice
      (100, 200) ([], friend)
