-- ===== src/Peer.antt =====
-- src/peer/peer_node.rs: what a node remembers of a peer. The clock is the argument `now`, in
-- seconds.
pub mod Identity
pub mod Reputation
pub mod Bans
use stellarconduit_core.Prelude.{ℕ, ◌+◌, Bytes, Bool, true, false, if◌then◌else◌, leb, not, u64}
use stellarconduit_core.Peer.Identity
use stellarconduit_core.Peer.Identity.{PeerIdentity}

pub record Peer : Type 0 where
  pub identity : PeerIdentity
  pub reputation : ℕ  -- u32
  pub is_banned : Bool
  pub ban_expires_at_unix_sec : ℕ  -- u64
  pub last_seen_unix_sec : ℕ  -- u64
  pub supported_transports : ℕ  -- u8
  pub is_relay_node : Bool
  pub bytes_sent : ℕ  -- u64
  pub bytes_received : ℕ  -- u64

unfoldable pub new : Bytes → Peer
new pubkey = record {
  identity = Identity.new pubkey;
  reputation = 100;
  is_banned = false;
  ban_expires_at_unix_sec = 0;
  last_seen_unix_sec = 0;
  supported_transports = 0;
  is_relay_node = false;
  bytes_sent = 0;
  bytes_received = 0;
}

-- The sum wraps, as it does in a release build.
unfoldable pub ban : Peer → ℕ → ℕ → Peer
ban p duration_sec now = record p {
  is_banned = true;
  ban_expires_at_unix_sec = u64 (now + duration_sec);
}

-- Whether the ban was lifted just now.
unfoldable pub check_ban_expiration : Peer → ℕ → Peer × Bool
check_ban_expiration p now =
    if not p.is_banned
    then (p, false)
    else if leb p.ban_expires_at_unix_sec now
    then (record p { is_banned = false; ban_expires_at_unix_sec = 0 }, true)
    else (p, false)
