-- ===== src/Discovery/PeerList.antt =====
-- src/discovery/peer_list.rs: the known peers, their expiry and their bans. The clock is the
-- argument `now`.
pub mod Keys
pub mod Expiry
pub mod Bans
use mathlib.Core.Option
use stellarconduit_core.Prelude.{
  ℕ, ◌+◌, ◌-◌, List, [], ◌∷◌, map, Bytes, Bool, true, false, Option, none, some, if◌then◌else◌, leb,
  ltb, length, retain,
}
use stellarconduit_core.Prelude.HashMap
use stellarconduit_core.Prelude.HashMap.{HashMap, values, modify, remove}
use stellarconduit_core.Peer
use stellarconduit_core.Peer.{Peer, check_ban_expiration}
use stellarconduit_core.Peer.Identity.{PeerIdentity}
use stellarconduit_core.Discovery.{DiscoveryEvent, peer_discovered, peer_updated, peer_lost}

pub record PeerList : Type 0 where
  pub peers : HashMap Peer
  pub expiry_seconds : ℕ

unfoldable pub new : ℕ → PeerList
new expiry_seconds = record { peers = []; expiry_seconds = expiry_seconds }

unfoldable pub get_peer : PeerList → Bytes → Option Peer
get_peer l pubkey = HashMap.get pubkey l.peers

-- `get_peer_mut`, with what the caller does to the peer.
unfoldable pub update_peer : PeerList → Bytes → (Peer → Peer) → PeerList
update_peer l pubkey f = record l { peers = modify pubkey f l.peers }

unfoldable pub insert_or_update : PeerList → Bytes → ℕ → ℕ → PeerList × Option DiscoveryEvent
insert_or_update l pubkey signal_strength now = elim (HashMap.get pubkey l.peers) [
  | some p ↦ (
    record l { peers = modify pubkey (λ q. record q { last_seen_unix_sec = now }) l.peers },
    some (peer_updated p.identity signal_strength),
  )
  | none ↦
      let p = Peer.new pubkey in
      (
        record l { peers = HashMap.insert pubkey (record p { last_seen_unix_sec = now }) l.peers },
        some (peer_discovered p.identity),
      )
]

-- `now.saturating_sub(last_seen) <= expiry_seconds`.
abbrev pub is_active : ℕ → ℕ → Peer → Bool
is_active expiry now p = leb (now - p.last_seen_unix_sec) expiry

unfoldable pub get_active_peers : PeerList → ℕ → List Peer
get_active_peers l now = retain (is_active l.expiry_seconds now) (values l.peers)

abbrev pub is_stale : ℕ → ℕ → Bytes × Peer → Bool
is_stale expiry now e = ltb expiry (now - e.1.last_seen_unix_sec)

-- The second pass: each stale key is removed, and the removed peer reported.
unfoldable pub remove_stale : List Bytes → HashMap Peer → HashMap Peer × List DiscoveryEvent
remove_stale [] m = (m, [])
remove_stale (k ∷ ks) m =
    let (m', events) = remove_stale ks (remove k m) in
    elim (HashMap.get k m) [ none ↦ (m', events) | some p ↦ (m', peer_lost p.identity ∷ events) ]

unfoldable pub prune_stale_peers : PeerList → ℕ → PeerList × List DiscoveryEvent
unfolding remove_stale
prune_stale_peers l now =
    let stale_keys = map (λ e. e.0) (retain (is_stale l.expiry_seconds now) l.peers) in
    let (peers, events) = remove_stale stale_keys l.peers in (record l { peers = peers }, events)

unfoldable pub set_last_seen : PeerList → Bytes → ℕ → PeerList
unfolding update_peer
set_last_seen l pubkey ts = update_peer l pubkey (λ p. record p { last_seen_unix_sec = ts })

unfoldable pub ban_peer : PeerList → Bytes → ℕ → ℕ → PeerList × Bool
ban_peer l pubkey duration_sec now = elim (HashMap.get pubkey l.peers) [
  | some _ ↦ (record l { peers = modify pubkey (λ p. Peer.ban p duration_sec now) l.peers }, true)
  | none ↦ (l, false)
]

abbrev unwrap_or : Option Bool → Bool → Bool
unwrap_or none d = d
unwrap_or (some b) d = b

unfoldable pub is_peer_banned : PeerList → Bytes → Bool
is_peer_banned l pubkey =
    unwrap_or (Option.map (λ p. p.is_banned) (HashMap.get pubkey l.peers)) false

unfoldable pub unban_peer : PeerList → Bytes → PeerList × Bool
unban_peer l pubkey = elim (HashMap.get pubkey l.peers) [
  | some _ ↦ (
    record l {
      peers =
          modify pubkey (λ p. record p { is_banned = false; ban_expires_at_unix_sec = 0 }) l.peers;
    },
    true,
  )
  | none ↦ (l, false)
]

-- The loop over `values_mut`.
unfoldable pub check_all : HashMap Peer → ℕ → HashMap Peer × List PeerIdentity
check_all [] now = ([], [])
check_all ((k, p) ∷ m) now =
    let (p', lifted) = check_ban_expiration p now in
    let (m', unbanned) = check_all m now in
    ((k, p') ∷ m', if lifted then p'.identity ∷ unbanned else unbanned)

unfoldable pub check_ban_expirations : PeerList → ℕ → PeerList × List PeerIdentity
unfolding check_all
check_ban_expirations l now =
    let (peers, unbanned) = check_all l.peers now in (record l { peers = peers }, unbanned)

unfoldable pub is_empty : PeerList → Bool
is_empty l = elim l.peers [ [] ↦ true | _ ∷ _ ↦ false ]

-- A round of `background_pruning_loop`, which drops the events.
unfoldable pub background_pruning_round : PeerList → ℕ → PeerList
background_pruning_round l now = (prune_stale_peers l now).0
