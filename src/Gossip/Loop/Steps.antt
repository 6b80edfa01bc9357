-- ===== src/Gossip/Loop/Steps.antt =====
-- src/gossip/protocol.rs: what the branches of the loop leave.
use stellarconduit_core.Prelude.{
  ℕ, List, [], ◌∷◌, Bytes, Option, none, some, ◌≡◌, refl, ap, sym, subst, arith, bytes_eq_refl, In,
  inl, inr,
}
use stellarconduit_core.Prelude.HashMap
use stellarconduit_core.Prelude.HashMap.{HashMap, get-remove}
use stellarconduit_core.Peer.Identity.{PeerIdentity}
use stellarconduit_core.Discovery.PeerList.{PeerList, check_ban_expirations}
use stellarconduit_core.Persistence.{MeshDatabase, BanRow, DbError, remove_ban}
use stellarconduit_core.Gossip.Strikes.{StrikeTracker, clear_peer, get_strike_count}
use stellarconduit_core.Gossip.Loop.{
  Bans, Answers, removed, forgive, counted, after_check, on_ban_check,
}

-- The ban of a peer in the database, if there is one.
abbrev pub saved_ban : Option MeshDatabase → Bytes → Option BanRow
saved_ban none k = none
saved_ban (some db) k = HashMap.get k db.banned_peers

abbrev failures_of : Bans → Bytes → Option (List ℕ)
failures_of s k = HashMap.get k s.strike_tracker.failures

removed_kept :
    (db : Option MeshDatabase) (j k : Bytes) (o : Option DbError)
    → saved_ban db k ≡ none
    → saved_ban (removed db j o) k ≡ none
unfolding removed remove_ban
removed_kept none j k o e = refl
removed_kept (some d) j k none e = ground (arith, get-remove j k d.banned_peers)
removed_kept (some d) j k (some why) e = e

removed_self : (db : Option MeshDatabase) (k : Bytes) → saved_ban (removed db k none) k ≡ none
unfolding removed remove_ban
removed_self none k = refl
removed_self (some d) k = ground (arith, get-remove k k d.banned_peers, bytes_eq_refl k)

-- The state after one round of the loop.
abbrev forgiven : Bans → PeerIdentity → Answers → Bans
forgiven s p refused = record s {
  strike_tracker = clear_peer s.strike_tracker p.pubkey;
  db = removed s.db p.pubkey (refused p.pubkey);
}

-- A peer without strikes and without a saved ban stays so.
forgive-kept :
    (ps : List PeerIdentity) (refused : Answers) (s : Bans) (k : Bytes)
    → failures_of s k ≡ none
    → saved_ban s.db k ≡ none
    → (failures_of (forgive ps refused s) k ≡ none) × (saved_ban (forgive ps refused s).db k ≡ none)
unfolding forgive clear_peer
forgive-kept [] refused s k h b = (h, b)
forgive-kept (p ∷ ps) refused s k h b =
    forgive-kept ps refused (forgiven s p refused) k
      (ground (arith, get-remove p.pubkey k s.strike_tracker.failures))
      (removed_kept s.db p.pubkey k (refused p.pubkey) b)

In-forgive :
    (ps : List PeerIdentity) (refused : Answers) (s : Bans) (p : PeerIdentity)
    → In p ps
    → refused p.pubkey ≡ none
    → (failures_of (forgive ps refused s) p.pubkey ≡ none)
      × (saved_ban (forgive ps refused s).db p.pubkey ≡ none)
unfolding forgive clear_peer
In-forgive [] refused s p i r = absurd i
In-forgive (q ∷ ps) refused s p (inl e) r =
    forgive-kept ps refused (forgiven s q refused) p.pubkey
      (ground (
        arith,
        get-remove q.pubkey p.pubkey s.strike_tracker.failures,
        ap (λ x. x.pubkey) e,
        bytes_eq_refl p.pubkey,
      ))
      (subst (λ x. saved_ban (removed s.db x.pubkey (refused x.pubkey)) p.pubkey ≡ none) e
        (subst (λ o. saved_ban (removed s.db p.pubkey o) p.pubkey ≡ none) (sym r)
          (removed_self s.db p.pubkey)))
In-forgive (q ∷ ps) refused s p (inr i) r = In-forgive ps refused (forgiven s q refused) p i r

no_strikes :
    (t : StrikeTracker) (k : Bytes) (now : ℕ)
    → HashMap.get k t.failures ≡ none
    → get_strike_count t k now ≡ 0
unfolding get_strike_count
no_strikes t k now h = ground (arith, h)

-- A check of the bans clears the strikes of every peer whose ban it lifts, and where the database
-- executes the statement, its saved ban is gone.
pub In-on_ban_check :
    (s : Bans) (now : ℕ) (refused : Answers) (p : PeerIdentity) (now_ms : ℕ)
    → In p (check_ban_expirations s.peer_list now).1
    → refused p.pubkey ≡ none
    → (get_strike_count (on_ban_check s now refused).strike_tracker p.pubkey now_ms ≡ 0)
      × (saved_ban (on_ban_check s now refused).db p.pubkey ≡ none)
unfolding on_ban_check
In-on_ban_check s now refused p now_ms i r = go (check_ban_expirations s.peer_list now) i
  where
    go :
        (c : PeerList × List PeerIdentity)
        → In p c.1
        → (get_strike_count (after_check s c refused).strike_tracker p.pubkey now_ms ≡ 0)
          × (saved_ban (after_check s c refused).db p.pubkey ≡ none)
    go (l, []) i = absurd i
    go (l, q ∷ ps) i =
        let (f, b) = In-forgive (q ∷ ps) refused (counted s l (q ∷ ps)) p i r in
        (
          no_strikes (forgive (q ∷ ps) refused (counted s l (q ∷ ps))).strike_tracker p.pubkey
              now_ms f,
          b,
        )
