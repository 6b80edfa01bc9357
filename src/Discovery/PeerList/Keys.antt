-- ===== src/Discovery/PeerList/Keys.antt =====
-- src/discovery/peer_list.rs: the peers as a map, over any sequence of the list's operations.
use stellarconduit_core.Prelude.{
  ℕ, List, [], ◌∷◌, Bytes, none, ◌≡◌, false, sym, subst, some, arith, inl, inr, Option-cases,
}
use stellarconduit_core.Prelude.HashMap
use stellarconduit_core.Prelude.HashMap.{
  HashMap, Unique, insert-Unique, modify-Unique, remove-Unique,
}
use stellarconduit_core.Peer
use stellarconduit_core.Peer.{Peer}
use stellarconduit_core.Discovery.PeerList.{
  PeerList, new, insert_or_update, prune_stale_peers, remove_stale, set_last_seen, ban_peer,
  unban_peer, update_peer, check_all, check_ban_expirations,
}

-- A call of an operation that changes the list.
pub data Call : Type 0 where
  inserts : Bytes → ℕ → Call
  prunes : Call
  sets_last_seen : Bytes → ℕ → Call
  bans : Bytes → ℕ → Call
  unbans : Bytes → Call
  checks_bans : Call
  updates : Bytes → (Peer → Peer) → Call

pub step : PeerList → ℕ × Call → PeerList
step l (now, inserts k signal) = (insert_or_update l k signal now).0
step l (now, prunes) = (prune_stale_peers l now).0
step l (now, sets_last_seen k ts) = set_last_seen l k ts
step l (now, bans k d) = (ban_peer l k d now).0
step l (now, unbans k) = (unban_peer l k).0
step l (now, checks_bans) = (check_ban_expirations l now).0
step l (now, updates k f) = update_peer l k f

pub run : PeerList → List (ℕ × Call) → PeerList
run l [] = l
run l (c ∷ cs) = run (step l c) cs

remove_stale-Unique : (ks : List Bytes) (m : HashMap Peer) → Unique m → Unique (remove_stale ks m).0
unfolding remove_stale
remove_stale-Unique [] m u = u
remove_stale-Unique (k ∷ ks) m u =
    ground (arith, remove_stale-Unique ks (HashMap.remove k m), remove-Unique k m)

check_all-none :
    (m : HashMap Peer) (now : ℕ) (k : Bytes)
    → HashMap.get k m ≡ none
    → HashMap.get k (check_all m now).0 ≡ none
unfolding HashMap.get check_all
check_all-none [] now k h = h
check_all-none ((j, p) ∷ m) now k h = ground (arith, check_all-none m now k)

pub check_all-Unique : (m : HashMap Peer) (now : ℕ) → Unique m → Unique (check_all m now).0
unfolding check_all
check_all-Unique [] now u = u
check_all-Unique ((j, p) ∷ m) now u = (check_all-none m now j u.0, check_all-Unique m now u.1)

inserted :
    (l : PeerList) (k : Bytes) (signal now : ℕ)
    → HashMap.get k l.peers ≡ none
    → (insert_or_update l k signal now).0.peers
      ≡ HashMap.insert k (record (Peer.new k) { last_seen_unix_sec = now }) l.peers
unfolding insert_or_update
inserted l k signal now e = rw (e, insert_or_update)

seen_again :
    (l : PeerList) (k : Bytes) (signal now : ℕ) (p : Peer)
    → HashMap.get k l.peers ≡ some p
    → (insert_or_update l k signal now).0.peers
      ≡ HashMap.modify k (λ q. record q { last_seen_unix_sec = now }) l.peers
unfolding insert_or_update
seen_again l k signal now p e = rw (e, insert_or_update)

pub step-Unique : (l : PeerList) (c : ℕ × Call) → Unique l.peers → Unique (step l c).peers
unfolding step insert_or_update prune_stale_peers set_last_seen ban_peer unban_peer
    check_ban_expirations
step-Unique l (now, inserts k signal) u = elim (Option-cases (HashMap.get k l.peers)) [
  | inl e ↦ subst Unique (sym (inserted l k signal now e)) (insert-Unique k _ l.peers u)
  | inr (p, e) ↦ subst Unique (sym (seen_again l k signal now p e)) (modify-Unique k _ l.peers u)
]
step-Unique l (now, prunes) u = remove_stale-Unique _ l.peers u
step-Unique l (now, sets_last_seen k ts) u = modify-Unique k _ l.peers u
step-Unique l (now, bans k d) u = ground (arith, modify-Unique k (λ p. Peer.ban p d now) l.peers u)
step-Unique l (now, unbans k) u = ground (
  arith,
  modify-Unique k (λ p. record p { is_banned = false; ban_expires_at_unix_sec = 0 }) l.peers u,
)
step-Unique l (now, checks_bans) u = check_all-Unique l.peers now u
step-Unique l (now, updates k f) u = modify-Unique k f l.peers u

run-Unique : (l : PeerList) (cs : List (ℕ × Call)) → Unique l.peers → Unique (run l cs).peers
unfolding run
run-Unique l [] u = u
run-Unique l (c ∷ cs) u = run-Unique (step l c) cs (step-Unique l c u)

-- After any operations on a new list, no key has two peers.
pub run-new-Unique : (expiry : ℕ) (cs : List (ℕ × Call)) → Unique (run (new expiry) cs).peers
unfolding new
run-new-Unique expiry cs = run-Unique (new expiry) cs tt
