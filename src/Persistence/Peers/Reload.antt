-- ===== src/Persistence/Peers/Reload.antt =====
-- src/persistence/db.rs: a peer that was saved is loaded, and its ban is not.
use stellarconduit_core.Prelude.HashMap
use stellarconduit_core.Prelude.HashMap.{HashMap, get-modify}
use stellarconduit_core.Peer
use stellarconduit_core.Peer.{Peer}
use stellarconduit_core.Peer.Identity

-- The peer with the expiry of its ban lost.
abbrev pub without_expiry : Peer → Peer
without_expiry p = record p { ban_expires_at_unix_sec = 0 }
