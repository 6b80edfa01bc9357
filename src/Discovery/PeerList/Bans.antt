-- ===== src/Discovery/PeerList/Bans.antt =====
-- src/discovery/peer_list.rs: bans set, looked up and lifted through the list.
use mathlib.Core.Option
use stellarconduit_core.Prelude.{
  ℕ, ◌+◌, ◌<◌, ◌^◌, [], ◌∷◌, map, Bytes, true, false, some, ◌≡◌, refl, arith, if◌then◌else◌, leb,
  retain, bytes_eq_refl,
}
use stellarconduit_core.Prelude.HashMap
use stellarconduit_core.Prelude.HashMap.{HashMap, values, get-modify}
use stellarconduit_core.Peer
use stellarconduit_core.Peer.{Peer, check_ban_expiration}
use stellarconduit_core.Peer.Bans.{check_ban_expiration-ban}
use stellarconduit_core.Discovery.PeerList.{
  PeerList, get_peer, ban_peer, is_peer_banned, check_all, check_ban_expirations,
}

abbrev after_check : ℕ → Peer → Peer
after_check now p = (check_ban_expiration p now).0

get-check_all :
    (m : HashMap Peer) (now : ℕ) (k : Bytes)
    → HashMap.get k (check_all m now).0 ≡ Option.map (after_check now) (HashMap.get k m)
unfolding HashMap.get check_all
get-check_all [] now k = refl
get-check_all ((j, p) ∷ m) now k = ground (arith, get-check_all m now k)

lifted-check_all :
    (m : HashMap Peer) (now : ℕ)
    → (check_all m now).1
      ≡ map (λ p. p.identity) (retain (λ p. (check_ban_expiration p now).1) (values m))
unfolding check_all check_ban_expiration
lifted-check_all [] now = refl
lifted-check_all ((j, p) ∷ m) now = ground (arith, lifted-check_all m now)

-- The check of all bans checks the ban of every peer, and returns the identities of the peers whose
-- ban it lifted.
pub check_ban_expirations_lem :
    (l : PeerList) (now : ℕ) (k : Bytes)
    → (get_peer (check_ban_expirations l now).0 k
        ≡ Option.map (λ p. (check_ban_expiration p now).0) (get_peer l k))
      × ((check_ban_expirations l now).1
          ≡ map (λ p. p.identity) (retain (λ p. (check_ban_expiration p now).1) (values l.peers)))
unfolding get_peer check_ban_expirations
check_ban_expirations_lem l now k = (get-check_all l.peers now k, lifted-check_all l.peers now)

get_peer-ban_peer :
    (l : PeerList) (k : Bytes) (d now : ℕ)
    → get_peer (ban_peer l k d now).0 k ≡ Option.map (λ p. Peer.ban p d now) (get_peer l k)
unfolding get_peer ban_peer
get_peer-ban_peer l k d now =
    ground (arith, get-modify k k (λ p. Peer.ban p d now) l.peers, bytes_eq_refl k)

-- A known peer that is banned for `d` seconds is banned after every check before they are over, and
-- free after the first check from then on, if the sum does not overflow.
pub is_peer_banned-ban_peer :
    (l : PeerList) (k : Bytes) (p : Peer) (d now later : ℕ)
    → get_peer l k ≡ some p
    → now + d < 2 ^ 64
    → is_peer_banned (check_ban_expirations (ban_peer l k d now).0 later).0 k
      ≡ (if leb (now + d) later then false else true)
unfolding is_peer_banned get_peer Peer.ban
is_peer_banned-ban_peer l k p d now later e h = ground (
  arith,
  (check_ban_expirations_lem (ban_peer l k d now).0 later k).0,
  get_peer-ban_peer l k d now,
  check_ban_expiration-ban p d now later h,
)
