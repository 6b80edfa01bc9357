-- ===== src/Peer/Bans.antt =====
-- src/peer/peer_node.rs: how long a ban lasts.
use stellarconduit_core.Prelude.{ℕ, ◌+◌, ◌<◌, ◌^◌, ◌≡◌, true, false, arith, if◌then◌else◌, leb}
use stellarconduit_core.Peer.{Peer, ban, check_ban_expiration}

-- Where the end of the ban does not overflow the clock, a check leaves the banned peer as it is before
-- that second, and from then on lifts the ban and says so.
pub check_ban_expiration-ban :
    (p : Peer) (d now later : ℕ)
    → now + d < 2 ^ 64
    → check_ban_expiration (ban p d now) later ≡ (
        if leb (now + d) later
        then (record p { is_banned = false; ban_expires_at_unix_sec = 0 }, true)
        else (ban p d now, false))
unfolding ban check_ban_expiration
check_ban_expiration-ban p d now later h = ground arith
