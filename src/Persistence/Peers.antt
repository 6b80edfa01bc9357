-- ===== src/Persistence/Peers.antt =====
-- src/persistence/db.rs: the table of peers.
pub mod Reload
use stellarconduit_core.Prelude.{
  ℕ, List, map, Bytes, Bool, true, false, Option, none, some, Result, ok, err, if◌then◌else◌,
}
use stellarconduit_core.Prelude.HashMap
use stellarconduit_core.Peer
use stellarconduit_core.Peer.{Peer}
use stellarconduit_core.Persistence.{
  MeshDatabase, PeerRow, DbError, connection_error, fits, is_absent, to_pubkey,
}

abbrev pub row_of : Peer → PeerRow
row_of p = record {
  reputation = p.reputation;
  last_seen_sec = p.last_seen_unix_sec;
  is_banned = p.is_banned;
  supported_transports = p.supported_transports;
  is_relay_node = p.is_relay_node;
  bytes_sent = p.bytes_sent;
  bytes_received = p.bytes_received;
}

-- The counters of bytes are stored as signed numbers with the same bits.
unfoldable pub save_peer : MeshDatabase → Peer → Option DbError → MeshDatabase × Option DbError
save_peer db p refused =
    if fits p.last_seen_unix_sec
    then elim refused [
      | some e ↦ (db, some e)
      | none ↦ (record db { peers = HashMap.insert p.identity.pubkey (row_of p) db.peers }, none)
    ]
    else (db, some connection_error)

-- `Peer::new` of the key, with the columns of the row; there is none for the expiry of a ban.
unfoldable pub to_peer : Bytes × PeerRow → Peer
to_peer r =
    let p = Peer.new (to_pubkey r.0) in
    record p {
      reputation = r.1.reputation;
      last_seen_unix_sec = r.1.last_seen_sec;
      is_banned = r.1.is_banned;
      supported_transports = r.1.supported_transports;
      is_relay_node = r.1.is_relay_node;
      bytes_sent = r.1.bytes_sent;
      bytes_received = r.1.bytes_received;
    }

unfoldable pub load_all_peers : MeshDatabase → Option DbError → Result (List Peer) DbError
load_all_peers db refused = elim refused [ some e ↦ err e | none ↦ ok (map to_peer db.peers) ]

-- The number of rows that are changed.
unfoldable pub mark_peer_offline :
    MeshDatabase → Bytes → Option DbError → MeshDatabase × Result ℕ DbError
mark_peer_offline db pubkey refused = elim refused [
  | some e ↦ (db, err e)
  | none ↦ (
    record db { peers = HashMap.modify pubkey (λ r. record r { is_banned = true }) db.peers },
    ok (if is_absent (HashMap.get pubkey db.peers) then 0 else 1),
  )
]
