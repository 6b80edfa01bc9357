-- ===== src/Witness.antt =====
-- Concrete data at which the theorems are applied.
mod Gossip
mod Mesh
mod Rounds
mod Runs
mod Routes
mod Links
mod Tables
mod Wires
mod Stores
mod Managers
mod Sessions
use stellarconduit_core.Prelude.{
  ℕ, List, [], ◌∷◌, ◌++◌, Bytes, Bool, true, false, any, bytes_eq, bytes_eq_refl, ◌≡◌, refl, sym,
  arith, zeros, ◌||◌, bytes_eq_iff,
}
use stellarconduit_core.Message.{TransactionEnvelope}
use stellarconduit_core.Message.Signing.{Crypto, SignatureLaws, BindsMessage}
use stellarconduit_core.Gossip.Bloom.{Bloom, NoFalseNegatives}

abbrev pub alice : Bytes
alice = 10 ∷ 11 ∷ []

abbrev pub bob : Bytes
bob = 20 ∷ 21 ∷ []

abbrev pub envelope : ℕ → TransactionEnvelope
envelope n = record {
  message_id = n ∷ 2 ∷ 3 ∷ 4 ∷ 5 ∷ [];
  origin_pubkey = alice;
  tx_xdr = 65 ∷ 66 ∷ [];
  ttl_hops = 5;
  timestamp = n;
  signature = zeros 4;
}

-- A filter that remembers every key.
abbrev pub exact : Bloom
exact = record {
  Filter = List Bytes;
  Rate = ℕ;
  one_percent = 1;
  new_for_fp_rate = λ n r. [];
  check = λ f k. any (bytes_eq k) f;
  set = λ f k. k ∷ f;
}

pub exact-NoFalseNegatives : NoFalseNegatives exact
exact-NoFalseNegatives = record {
  check-set = λ f k. ground (arith, bytes_eq_refl k);
  check-set_keeps = λ f k j. ground arith;
}

-- A scheme whose signature is the message.
abbrev pub plain : Crypto
plain = record {
  sha256 = λ m. m;
  public = λ k. k;
  sign = λ k m. m;
  key_ok = λ p. true;
  verify = λ p m s. bytes_eq m s;
}

pub plain-SignatureLaws : SignatureLaws plain
plain-SignatureLaws = record { public_ok = λ k. refl; verify-sign = λ k m. bytes_eq_refl m }

pub plain-BindsMessage : BindsMessage plain
plain-BindsMessage k m n h = (bytes_eq_iff n m).0 h
