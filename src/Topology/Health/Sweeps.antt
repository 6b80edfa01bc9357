-- ===== src/Topology/Health/Sweeps.antt =====
-- src/topology/health.rs: what a sweep of the peers leaves in the list and in the database.
use mathlib.Core.Option
use stellarconduit_core.Prelude.{
  ℕ, ◌-◌, [], ◌∷◌, map, any, Bytes, Bool, true, false, not, ◌||◌, Option, none, some, ◌≡◌, refl, ap,
  ◌∙◌, arith, ltb, retain, All, bytes_eq, bytes_eq_iff, if◌then◌else◌,
}
use stellarconduit_core.Prelude.HashMap
use stellarconduit_core.Prelude.HashMap.{HashMap, Unique, kept, get-modify, get-retain}
use stellarconduit_core.Peer.{Peer}
use stellarconduit_core.Discovery.{peer_lost}
use stellarconduit_core.Discovery.PeerList.{is_stale, get_peer}
use stellarconduit_core.Discovery.PeerList.Expiry.{prune_stale_peers_lem}
use stellarconduit_core.Persistence.{MeshDatabase, PeerRow, DbError}
use stellarconduit_core.Persistence.Peers.{mark_peer_offline}
use stellarconduit_core.Topology.Health.{StatePruner, mark_lost, prune_peers}

-- Every peer stands under its own key.
abbrev pub OwnKeys : HashMap Peer → Type 0
OwnKeys m = All (λ e. e.1.identity.pubkey ≡ e.0) m

abbrev pub banned_row : PeerRow → PeerRow
banned_row r = record r { is_banned = true }

abbrev pub healthy : Bytes → Option DbError
healthy k = none

-- Whether the peer of a key was not seen for longer than the expiry.
abbrev pub was_lost : ℕ → ℕ → Option Peer → Bool
was_lost expiry now none = false
was_lost expiry now (some p) = ltb expiry (now - p.last_seen_unix_sec)

get-mark_lost :
    (es : HashMap Peer) (db : MeshDatabase) (k : Bytes)
    → HashMap.get k (mark_lost (map (λ e. peer_lost e.1.identity) es) db healthy).peers ≡ (
        if any (λ e. bytes_eq e.1.identity.pubkey k) es
        then Option.map banned_row (HashMap.get k db.peers)
        else HashMap.get k db.peers)
unfolding mark_lost mark_peer_offline
get-mark_lost [] db k = refl
get-mark_lost ((j, p) ∷ es) db k =
    get-mark_lost es (mark_peer_offline db p.identity.pubkey none).0 k
    ∙ twice (any (λ e. bytes_eq e.1.identity.pubkey k) es) (bytes_eq p.identity.pubkey k)
        (HashMap.get k db.peers) _ (get-modify p.identity.pubkey k banned_row db.peers)
  where
    twice :
        (later now : Bool) (o o' : Option PeerRow)
        → o' ≡ (if now then Option.map banned_row o else o)
        → (if later then Option.map banned_row o' else o')
          ≡ (if now || later then Option.map banned_row o else o)
    twice later now none o' e = ground (arith, e)
    twice later now (some r) o' e = ground (arith, e)

any_lost :
    (expiry now : ℕ) (k : Bytes) (m : HashMap Peer)
    → Unique m
    → OwnKeys m
    → any (λ e. bytes_eq e.1.identity.pubkey k) (retain (is_stale expiry now) m)
      ≡ was_lost expiry now (HashMap.get k m)
unfolding HashMap.get
any_lost expiry now k [] u o = refl
any_lost expiry now k ((j, p) ∷ m) u o = ground (
  arith,
  bytes_eq_iff j k,
  bytes_eq_iff p.identity.pubkey k,
  o.0,
  u.0,
  any_lost expiry now k m u.1 o.1,
)

-- A sweep of the peers removes those that were not seen for longer than the expiry of the list, and no
-- other, and marks their rows in the database as banned, and no other. The statements are executed,
-- and every peer stands once, under its own key.
pub prune_peers-lost :
    (s : StatePruner) (now : ℕ) (k : Bytes)
    → Unique s.peer_list.peers
    → OwnKeys s.peer_list.peers
    → let lost = was_lost s.peer_list.expiry_seconds now (get_peer s.peer_list k) in
      (get_peer (prune_peers s now healthy).peer_list k
        ≡ (if lost then none else get_peer s.peer_list k))
      × (HashMap.get k (prune_peers s now healthy).db.peers ≡ (
          if lost
          then Option.map banned_row (HashMap.get k s.db.peers)
          else HashMap.get k s.db.peers))
unfolding prune_peers get_peer
prune_peers-lost s now k u o =
    let l = s.peer_list in
    let stale = is_stale l.expiry_seconds now in
    rw (prune_stale_peers_lem l now u) (
      get-retain (λ e. not (stale e)) k l.peers u ∙ left (HashMap.get k l.peers),
      get-mark_lost (retain stale l.peers) s.db k
          ∙ ap
              (λ b.
                if b
                then Option.map banned_row (HashMap.get k s.db.peers)
                else HashMap.get k s.db.peers)
              (any_lost l.expiry_seconds now k l.peers u o),
    )
  where
    left :
        (p : Option Peer)
        → kept (λ e. not (is_stale s.peer_list.expiry_seconds now e)) k p
          ≡ (if was_lost s.peer_list.expiry_seconds now p then none else p)
    left none = refl
    left (some p) = ground arith
