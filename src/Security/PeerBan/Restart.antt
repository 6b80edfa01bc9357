-- ===== src/Security/PeerBan/Restart.antt =====
-- src/security/peer_ban.rs: a ban outlives a restart of the node.
use stellarconduit_core.Prelude.{
  ℕ, ◌+◌, ◌-◌, ◌<◌, ◌^◌, List, [], ◌∷◌, Bytes, true, false, ◌&&◌, Option, none, some, ◌≡◌, refl,
  arith, if◌then◌else◌, leb, ltb, bytes_eq, bytes_eq_iff, bytes_eq_refl, Bool-cases, inl, inr,
  Option-cases, All, length, map, retain, u64,
}
use stellarconduit_core.Prelude.HashMap
use stellarconduit_core.Prelude.HashMap.{
  HashMap, get-insert, get-modify, Unique, insert-Unique, get-insert_self,
}
use stellarconduit_core.Peer
use stellarconduit_core.Peer.{Peer, check_ban_expiration}
use stellarconduit_core.Peer.Bans.{check_ban_expiration-ban}
use stellarconduit_core.Discovery.PeerList.{
  PeerList, get_peer, insert_or_update, ban_peer, is_peer_banned, check_ban_expirations,
}
use stellarconduit_core.Discovery.PeerList.Bans.{check_ban_expirations_lem}
use stellarconduit_core.Persistence.{
  MeshDatabase, BanRow, PersistedBan, to_ban, i64_ltb, save_ban, load_active_bans,
}
use stellarconduit_core.Security.PeerBan.{
  ban_known, ban_and_persist, restore_all, restore_bans_from_db,
}

-- What a ban does to each peer: the banned one is in the list, banned for the duration.
pub ban_known_self :
    (l : PeerList) (k : Bytes) (d now : ℕ)
    → (p : Peer) × (get_peer (ban_known l k d now) k ≡ some (Peer.ban p d now))
unfolding ban_known get_peer insert_or_update ban_peer
ban_known_self l k d now = elim (Option-cases (HashMap.get k l.peers)) [
  | inl e ↦
      let p = record (Peer.new k) { last_seen_unix_sec = now } in
      (
        p,
        ground (
          arith,
          bytes_eq_refl k,
          get-insert k k p l.peers,
          get-modify k k (λ q. Peer.ban q d now) (HashMap.insert k p l.peers),
        ),
      )
  | inr (p, e) ↦
      (p, ground (arith, bytes_eq_refl k, get-modify k k (λ q. Peer.ban q d now) l.peers))
]

ban_known_other :
    (l : PeerList) (j k : Bytes) (d now : ℕ)
    → bytes_eq j k ≡ false
    → get_peer (ban_known l j d now) k ≡ get_peer l k
unfolding ban_known get_peer insert_or_update ban_peer
ban_known_other l j k d now h =
    let p = record (Peer.new j) { last_seen_unix_sec = now } in
    ground (
      arith,
      get-insert j k p l.peers,
      get-modify j k (λ q. Peer.ban q d now) (HashMap.insert j p l.peers),
      get-modify j k (λ q. Peer.ban q d now) l.peers,
    )

-- Bans of other peers do not matter.
restore_all-other :
    (bans : List PersistedBan) (l : PeerList) (k : Bytes) (now : ℕ)
    → All (λ b. bytes_eq b.pubkey k ≡ false) bans
    → get_peer (restore_all bans l now) k ≡ get_peer l k
unfolding restore_all
restore_all-other [] l k now h = refl
restore_all-other (b ∷ bans) l k now h =
    let l' = ban_known l b.pubkey (b.expires_at - now) now in
    ground (
      arith,
      ban_known_other l b.pubkey k (b.expires_at - now) now,
      restore_all-other bans l k now,
      restore_all-other bans l' k now,
    )

abbrev Stored32 : HashMap BanRow → Type 0
Stored32 = All (λ r. length r.0 ≡ 32)

abbrev active_bans : HashMap BanRow → ℕ → List PersistedBan
active_bans rows loaded = map to_ban (retain (λ r. i64_ltb loaded r.1.expires_at) rows)

other_keys :
    (rows : HashMap BanRow) (k : Bytes) (loaded : ℕ)
    → Stored32 rows
    → HashMap.get k rows ≡ none
    → All (λ b. bytes_eq b.pubkey k ≡ false) (active_bans rows loaded)
unfolding HashMap.get
other_keys [] k loaded w h = tt
other_keys ((j, r) ∷ rows) k loaded w h = ground (arith, other_keys rows k loaded)

restored :
    (rows : HashMap BanRow) (l : PeerList) (k : Bytes) (row : BanRow) (loaded now : ℕ)
    → Unique rows
    → Stored32 rows
    → HashMap.get k rows ≡ some row
    → i64_ltb loaded row.expires_at ≡ true
    → now < row.expires_at
    → (p : Peer) × (get_peer (restore_all (active_bans rows loaded) l now) k
        ≡ some (Peer.ban p (row.expires_at - now) now))
unfolding HashMap.get restore_all
restored [] l k row loaded now u w e a h = absurd (ground arith)
restored ((j, r) ∷ rows) l k row loaded now u w e a h = elim (Bool-cases (bytes_eq j k)) [
  | inl same ↦
      let (p, q) = ban_known_self l k (row.expires_at - now) now in
      let l' = ban_known l k (row.expires_at - now) now in
      (
        p,
        ground (
          arith,
          bytes_eq_iff j k,
          other_keys rows k loaded,
          restore_all-other (active_bans rows loaded) l' k now,
        ),
      )
  | inr other ↦
      let l' = ban_known l j (r.expires_at - now) now in
      let (p, q) = restored rows l k row loaded now u.1 w.1 (ground arith) a h in
      let (p', q') = restored rows l' k row loaded now u.1 w.1 (ground arith) a h in
      elim (Bool-cases (i64_ltb loaded r.expires_at && ltb now r.expires_at)) [
        | inl taken ↦ (p', ground arith)
        | inr skipped ↦ (p, ground arith)
      ]
]

insert-Stored32 :
    (k : Bytes) (row : BanRow) (rows : HashMap BanRow)
    → length k ≡ 32
    → Stored32 rows
    → Stored32 (HashMap.insert k row rows)
unfolding HashMap.insert
insert-Stored32 k row [] n w = (n, tt)
insert-Stored32 k row ((j, r) ∷ rows) n w = ground (arith, insert-Stored32 k row rows)

-- A new run of the node, with the list `fresh`, restores the bans of the database if there is one.
abbrev pub restarted : PeerList → Option MeshDatabase → ℕ × ℕ → PeerList
restarted fresh none times = fresh
restarted fresh (some db) times = (restore_bans_from_db fresh db times none).0

-- A ban whose end fits a signed integer, saved and restored after a restart before it is over, bans
-- the peer before every check until that second, and is lifted by the first check from then on. The
-- database held no key twice and 32-byte keys only.
pub is_peer_banned-restarted :
    (l fresh : PeerList) (db : MeshDatabase) (k reason : Bytes)
    (d now locked saved loaded restart later : ℕ)
    → Unique db.banned_peers
    → Stored32 db.banned_peers
    → length k ≡ 32
    → now + d < 2 ^ 63
    → loaded < now + d
    → restart < now + d
    → let after = (ban_and_persist l (some db) k d reason (now, locked, saved) none).1 in
      is_peer_banned (check_ban_expirations (restarted fresh after (loaded, restart)) later).0 k
      ≡ (if leb (now + d) later then false else true)
unfolding ban_and_persist restore_bans_from_db save_ban load_active_bans is_peer_banned get_peer
    Peer.ban
is_peer_banned-restarted l fresh db k reason d now locked saved loaded restart later u w n fits ld
      rs =
    let row : BanRow = record { banned_at = saved; expires_at = u64 (now + d); reason = reason } in
    let rows = HashMap.insert k row db.banned_peers in
    let (p, q) =
      restored rows fresh k row loaded restart (insert-Unique k row db.banned_peers u)
        (insert-Stored32 k row db.banned_peers n w) (get-insert_self k row db.banned_peers)
        (ground arith) (omega arith) in
    let back = restore_all (active_bans rows loaded) fresh restart in
    ground (
      arith,
      q,
      (check_ban_expirations_lem back later k).0,
      check_ban_expiration-ban p (now + d - restart) restart later (omega arith),
    )
