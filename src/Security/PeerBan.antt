-- ===== src/Security/PeerBan.antt =====
-- src/security/peer_ban.rs: bans in memory and in the database. Every reading of the clock, and
-- what the connection answers, is an argument.
pub mod Restart
use stellarconduit_core.Prelude.{
  ℕ, ◌+◌, ◌-◌, List, [], ◌∷◌, Bytes, Bool, true, false, Option, none, some, Result, ok, err,
  if◌then◌else◌, ltb, u64, length,
}
use stellarconduit_core.Discovery.PeerList.{PeerList, get_peer, insert_or_update, ban_peer}
use stellarconduit_core.Persistence.{
  MeshDatabase, DbError, PersistedBan, save_ban, load_active_bans,
}

-- The peer is added first where the list does not know it, with a signal strength of 0.
unfoldable pub ban_known : PeerList → Bytes → ℕ → ℕ → PeerList
ban_known l pubkey duration_sec now =
    let known : PeerList = elim (get_peer l pubkey) [
      | some _ ↦ l
      | none ↦ (insert_or_update l pubkey 0 now).0
    ] in
    (ban_peer known pubkey duration_sec now).0

abbrev pub persist :
    Option MeshDatabase → Bytes → ℕ → Bytes → ℕ → Option DbError → Option MeshDatabase
persist none pubkey expires_at reason now refused = none
persist (some db) pubkey expires_at reason now refused =
    some (save_ban db pubkey expires_at reason now refused).0

-- The clock is read for the expiry, then under the lock, then by the database. A failure to save is
-- only logged.
unfoldable pub ban_and_persist :
    PeerList
    → Option MeshDatabase
    → Bytes
    → ℕ
    → Bytes
    → (ℕ × ℕ × ℕ)
    → Option DbError
    → PeerList × Option MeshDatabase
unfolding ban_known
ban_and_persist l db pubkey duration_sec reason (now, now_locked, now_saved) refused = (
  ban_known l pubkey duration_sec now_locked,
  persist db pubkey (u64 (now + duration_sec)) reason now_saved refused,
)

-- The loop over the loaded bans.
unfoldable pub restore_all : List PersistedBan → PeerList → ℕ → PeerList
unfolding ban_known
restore_all [] l now = l
restore_all (ban ∷ bans) l now =
    let rest = restore_all bans (ban_known l ban.pubkey (ban.expires_at - now) now) now in
    let skipped = restore_all bans l now in if ltb now ban.expires_at then rest else skipped

unfoldable pub restore_bans_from_db :
    PeerList → MeshDatabase → ℕ × ℕ → Option DbError → PeerList × Result ℕ DbError
unfolding restore_all
restore_bans_from_db l db (now_loaded, now) refused =
    elim (load_active_bans db now_loaded refused) [
      | err e ↦ (l, err e)
      | ok bans ↦ (restore_all bans l now, ok (length bans))
    ]
