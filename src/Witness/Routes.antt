-- ===== src/Witness/Routes.antt =====
-- The theorems on routes, topology and security at concrete inputs.
use stellarconduit_core.Prelude.{
  ℕ, ◌+◌, ◌*◌, ◌≤◌, ◌↔◌, [], ◌∷◌, Bytes, true, false, not, ◌≡◌, refl, arith, none, some, In, inl,
  zeros, bytes_eq, bytes_leb, if◌then◌else◌, leb,
}
use stellarconduit_core.Prelude.Sort.{Sorted}
use stellarconduit_core.Prelude.HashMap
use stellarconduit_core.Message.{TopologyUpdate}
use stellarconduit_core.Message.RelayProof.{sign, verify}
use stellarconduit_core.Message.RelayProof.Binding.{verify-sign_iff}
use stellarconduit_core.Metrics
use stellarconduit_core.Discovery.PeerList
use stellarconduit_core.Discovery.PeerList.{PeerList, is_peer_banned, check_ban_expirations}
use stellarconduit_core.Persistence
use stellarconduit_core.Persistence.{MeshDatabase, get_relay_proof, save_relay_proof}
use stellarconduit_core.Security.PeerBan.{ban_and_persist}
use stellarconduit_core.Security.PeerBan.Restart.{restarted, is_peer_banned-restarted}
use stellarconduit_core.Security.RateLimit
use stellarconduit_core.Security.RateLimit.Window.{passed, passed-new-le}
use stellarconduit_core.Topology.HopCounter.{HopCounter}
use stellarconduit_core.Topology.Graph.{MeshGraph, get_neighbors, neighbor_list, apply_update}
use stellarconduit_core.Topology.Graph.Updates.{get_neighbors-apply_update}
use stellarconduit_core.Router.PathFinder.{shortest_from}
use stellarconduit_core.Router.PathFinder.Walks.{here, step, Reaches}
use stellarconduit_core.Router.PathFinder.Shortest.{shortest_from-Reaches, shortest_from-least}
use stellarconduit_core.Witness.{alice, bob, plain, plain-SignatureLaws, plain-BindsMessage}

-- Alice is a neighbour of Bob, who announced three hops to a relay.
abbrev mesh : MeshGraph
mesh = record { edges = (alice, bob ∷ []) ∷ []; last_updated = (alice, 5) ∷ [] }

abbrev hops : HopCounter
hops = record { peer_distances = (bob, 3) ∷ [] }

alice-Reaches : Reaches mesh hops alice 4
unfolding HashMap.get get_neighbors bytes_eq
alice-Reaches = record {
  node = bob;
  steps = 1;
  hops = 3;
  walk = step here (inl refl);
  announced = refl;
  total = refl;
}

shortest_from-least_example : (y : ℕ) × (shortest_from mesh hops alice ≡ some (some y)) × (y ≤ 4)
shortest_from-least_example = shortest_from-least mesh hops alice 4 alice-Reaches

found : shortest_from mesh hops alice ≡ some (some 4)
unfolding shortest_from HashMap.get get_neighbors bytes_eq
found = refl

shortest_from-Reaches_example : Reaches mesh hops alice 4
shortest_from-Reaches_example = shortest_from-Reaches mesh hops alice 4 found

abbrev news : TopologyUpdate
news = record {
  origin_pubkey = bob;
  directly_connected_peers = bob ∷ alice ∷ alice ∷ [];
  hops_to_relay = 3;
  topology_flags = [];
}

get_neighbors-apply_update_example :
    (get_neighbors (apply_update (λ m n. true) mesh news true 9).0 alice ≡ (
      if bytes_eq bob alice
      then some (neighbor_list bob (bob ∷ alice ∷ alice ∷ []))
      else get_neighbors mesh alice))
    × Sorted bytes_leb (neighbor_list bob (bob ∷ alice ∷ alice ∷ []))
    × (In alice (neighbor_list bob (bob ∷ alice ∷ alice ∷ []))
        ↔ (In alice (bob ∷ alice ∷ alice ∷ []) × (not (bytes_eq alice bob) ≡ true)))
get_neighbors-apply_update_example = get_neighbors-apply_update (λ m n. true) mesh news true 9 alice

passed-new-le_example :
    passed (RateLimit.new 1 10 Metrics.new) alice 3 ((1, alice) ∷ (5, alice) ∷ (12, alice) ∷ [])
    ≤ 2 * 1
passed-new-le_example =
    passed-new-le 1 10 Metrics.new alice 3 ((1, alice) ∷ (5, alice) ∷ (12, alice) ∷ [])
      (omega arith, (omega arith, (omega arith, tt)))

abbrev key : Bytes
key = zeros 32

is_peer_banned-restarted_example :
    is_peer_banned
      (check_ban_expirations
        (restarted
          (PeerList.new 60)
          (ban_and_persist
            (PeerList.new 60)
            (some Persistence.init)
            key
            100
            []
            (1000, 1000, 1000)
            none).1
          (1010, 1010))
        1099).0
      key
    ≡ (if leb (1000 + 100) 1099 then false else true)
unfolding Persistence.init
is_peer_banned-restarted_example =
    is_peer_banned-restarted (PeerList.new 60) (PeerList.new 60) Persistence.init key [] 100 1000
      1000 1000 1010 1010 1099 tt tt refl (omega arith) (omega arith) (omega arith)

verify-sign_iff_example : (verify plain (sign plain alice key key 7) alice key ≡ true) ↔ (
    (key ≡ key)
    × ((sign plain alice key key 7).chain_hash ≡ key)
    × ((sign plain alice key key 7).sequence ≡ 7))
unfolding sign
verify-sign_iff_example =
    verify-sign_iff plain plain-SignatureLaws plain-BindsMessage alice key key
      (sign plain alice key key 7) key 7 refl refl (omega arith) (omega arith) refl
