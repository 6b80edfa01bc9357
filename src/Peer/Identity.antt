-- ===== src/Peer/Identity.antt =====
-- src/peer/identity.rs: a peer is known by its Ed25519 public key.
use stellarconduit_core.Prelude.{
  ℕ, ◌+◌, ◌/◌, ◌%◌, Bytes, Bool, false, [], ◌∷◌, if◌then◌else◌, ltb, take,
}
use stellarconduit_core.Message.Signing.{Crypto}

pub record PeerIdentity : Type 0 where
  pub pubkey : Bytes
  pub display_id : Bytes  -- ASCII

hex_digit : ℕ → ℕ
hex_digit n = if ltb n 10 then b'0' + n else 87 + n

-- `format!("{:02x}", b)` of each byte, joined.
hex : Bytes → Bytes
unfolding hex_digit
hex [] = []
hex (b ∷ bs) = hex_digit (b / 16) ∷ hex_digit (b % 16) ∷ hex bs

unfoldable pub new : Bytes → PeerIdentity
unfolding hex
new pubkey = record { pubkey = pubkey; display_id = hex pubkey }

unfoldable pub verify_signature : Crypto → PeerIdentity → Bytes → Bytes → Bool
verify_signature c p message signature =
    if c.key_ok p.pubkey then c.verify p.pubkey message signature else false

-- `Display`: the first 16 characters.
unfoldable pub fmt : PeerIdentity → Bytes
fmt p = take 16 p.display_id
