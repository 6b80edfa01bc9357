-- ===== src/Topology/Graph/Updates.antt =====
-- src/topology/graph.rs: what an announcement and a prune leave.
use stellarconduit_core.Prelude.{
  ℕ, ◌-◌, List, [], ◌∷◌, map, Bytes, Bool, true, false, not, Option, none, some, ◌≡◌, ◌↔◌, refl,
  arith, if◌then◌else◌, ltb, any, retain, bytes_eq, bytes_eq_iff, bytes_leb, bytes_leb_total,
  bytes_leb_trans, In, In-retain, ap, ◌∙◌,
}
use stellarconduit_core.Prelude.Sort.{Sorted, sort_by-Sorted, In-sort_by}
use stellarconduit_core.Prelude.HashMap
use stellarconduit_core.Prelude.HashMap.{HashMap, get-insert, get-remove, Unique, get-retain, kept}
use stellarconduit_core.Message.{TopologyUpdate}
use stellarconduit_core.Topology.Graph.{
  MeshGraph, get_neighbors, distinct, neighbor_list, apply_update, remove_keys, prune_stale_edges,
}

In-of-any : (p : Bytes) (ps : List Bytes) → any (bytes_eq p) ps ≡ true → In p ps
In-of-any p [] h = absurd (ground arith)
In-of-any p (q ∷ ps) h = ground (arith, bytes_eq_iff p q, In-of-any p ps)

In-distinct : (p : Bytes) (ps : List Bytes) → In p (distinct ps) ↔ In p ps
unfolding distinct
In-distinct p [] = (λ h. h, λ h. h)
In-distinct p (q ∷ ps) = ground (arith, In-of-any q (distinct ps), In-distinct p ps)

-- After an announcement its origin has the announced peers for neighbours, without itself and in
-- order, and every other node the neighbours that it had.
pub get_neighbors-apply_update :
    (big : ℕ → ℕ → Bool) (g : MeshGraph) (u : TopologyUpdate) (bus : Bool) (now : ℕ) (k : Bytes)
    → (get_neighbors (apply_update big g u bus now).0 k ≡ (
        if bytes_eq u.origin_pubkey k
        then some (neighbor_list u.origin_pubkey u.directly_connected_peers)
        else get_neighbors g k))
      × Sorted bytes_leb (neighbor_list u.origin_pubkey u.directly_connected_peers)
      × (In k (neighbor_list u.origin_pubkey u.directly_connected_peers)
          ↔ (In k u.directly_connected_peers × (not (bytes_eq k u.origin_pubkey) ≡ true)))
unfolding apply_update get_neighbors
get_neighbors-apply_update big g u bus now k =
    let o = u.origin_pubkey in
    let ps = retain (λ p. not (bytes_eq p o)) u.directly_connected_peers in
    (
      get-insert o k (neighbor_list o u.directly_connected_peers) g.edges,
      sort_by-Sorted bytes_leb bytes_leb_total bytes_leb_trans (distinct ps),
      (
        λ m.
            (In-retain _ k u.directly_connected_peers).0
              ((In-distinct k ps).0 ((In-sort_by bytes_leb k (distinct ps)).0 m)),
        λ m.
            (In-sort_by bytes_leb k (distinct ps)).1
              ((In-distinct k ps).1 ((In-retain _ k u.directly_connected_peers).1 m)),
      ),
    )

get-remove_keys :
    {V : Type 0} (ks : List Bytes) (k : Bytes) (m : HashMap V)
    → HashMap.get k (remove_keys ks m)
      ≡ (if any (λ j. bytes_eq j k) ks then none else HashMap.get k m)
unfolding remove_keys
get-remove_keys [] k m = refl
get-remove_keys (j ∷ ks) k m =
    ground (arith, get-remove_keys ks k (HashMap.remove j m), get-remove j k m)

-- Whether the entry of a key is stale.
abbrev pub stale_at : ℕ → ℕ → Option ℕ → Bool
stale_at timeout now none = false
stale_at timeout now (some t) = ltb timeout (now - t)

any-stale_keys :
    (timeout now : ℕ) (k : Bytes) (m : HashMap ℕ)
    → Unique m
    → any (λ j. bytes_eq j k) (map (λ e. e.0) (retain (λ e. ltb timeout (now - e.1)) m))
      ≡ stale_at timeout now (HashMap.get k m)
unfolding HashMap.get
any-stale_keys timeout now k [] u = refl
any-stale_keys timeout now k ((j, t) ∷ m) u =
    ground (arith, bytes_eq_iff j k, any-stale_keys timeout now k m)

-- Where no node has two times, a prune leaves a node without neighbours if its announcement is older
-- than the timeout, and with the neighbours that it had otherwise.
pub get_neighbors-prune_stale_edges :
    (big : ℕ → ℕ → Bool) (g : MeshGraph) (timeout now : ℕ) (bus : Bool) (k : Bytes)
    → Unique g.last_updated
    → get_neighbors (prune_stale_edges big g timeout bus now).0 k
      ≡ (if stale_at timeout now (HashMap.get k g.last_updated) then none else get_neighbors g k)
unfolding prune_stale_edges get_neighbors
get_neighbors-prune_stale_edges big g timeout now bus k u =
    let ks = map (λ e. e.0) (retain (λ e. ltb timeout (now - e.1)) g.last_updated) in
    get-remove_keys ks k g.edges
    ∙ ap (λ b. if b then none else HashMap.get k g.edges)
        (any-stale_keys timeout now k g.last_updated u)
