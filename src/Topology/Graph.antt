-- ===== src/Topology/Graph.antt =====
-- src/topology/graph.rs: the neighbours that each node announced. The comparison of a change of size
-- with 0.20 in floating point is a parameter.
pub mod Updates
use stellarconduit_core.Prelude.{
  ℕ, ◌+◌, ◌-◌, List, [], ◌∷◌, ◌++◌, map, Bytes, Bool, true, false, not, ◌&&◌, Option, none, some,
  if◌then◌else◌, ◌==◌, ltb, any, retain, length, bytes_eq, bytes_leb,
}
use stellarconduit_core.Prelude.Sort.{sort_by}
use stellarconduit_core.Prelude.HashMap
use stellarconduit_core.Prelude.HashMap.{HashMap}
use stellarconduit_core.Message.{TopologyUpdate}
use stellarconduit_core.Topology.{TopologyEvent, peer_updated, peer_pruned, mesh_size_changed}

pub record MeshGraph : Type 0 where
  pub edges : HashMap (List Bytes)
  pub last_updated : HashMap ℕ

unfoldable pub new : MeshGraph
new = record { edges = []; last_updated = [] }

unfoldable pub get_neighbors : MeshGraph → Bytes → Option (List Bytes)
get_neighbors g target = HashMap.get target g.edges

unfoldable pub node_count : MeshGraph → ℕ
node_count g = length g.edges

-- A `HashSet` of the peers, as a list without repetitions.
unfoldable pub distinct : List Bytes → List Bytes
distinct [] = []
distinct (p ∷ ps) = let rest = distinct ps in if any (bytes_eq p) rest then rest else p ∷ rest

abbrev pub neighbor_list : Bytes → List Bytes → List Bytes
neighbor_list origin peers =
    sort_by bytes_leb (distinct (retain (λ p. not (bytes_eq p origin)) peers))

abbrev size_change : (ℕ → ℕ → Bool) → ℕ → ℕ → List TopologyEvent
size_change big previous current =
    if not (previous == current) && ltb 0 previous && big previous current
    then mesh_size_changed previous current ∷ []
    else []

abbrev degree : Option (List Bytes) → ℕ
degree none = 0
degree (some ps) = length ps

unfoldable pub apply_update :
    (ℕ → ℕ → Bool) → MeshGraph → TopologyUpdate → Bool → ℕ → MeshGraph × List TopologyEvent
unfolding distinct node_count
apply_update big g update has_bus now =
    let origin = update.origin_pubkey in
    let neighbors = neighbor_list origin update.directly_connected_peers in
    let g' : MeshGraph = record {
      edges = HashMap.insert origin neighbors g.edges;
      last_updated = HashMap.insert origin now g.last_updated;
    } in
    (
      g',
      if has_bus
          then peer_updated origin update.hops_to_relay (degree (HashMap.get origin g'.edges))
            ∷ size_change big (node_count g) (node_count g')
          else [],
    )

unfoldable pub remove_keys : {V : Type 0} → List Bytes → HashMap V → HashMap V
remove_keys [] m = m
remove_keys (k ∷ ks) m = remove_keys ks (HashMap.remove k m)

unfoldable pub prune_stale_edges :
    (ℕ → ℕ → Bool) → MeshGraph → ℕ → Bool → ℕ → MeshGraph × ℕ × List TopologyEvent
unfolding remove_keys node_count
prune_stale_edges big g timeout has_bus now =
    let stale_keys = map (λ e. e.0) (retain (λ e. ltb timeout (now - e.1)) g.last_updated) in
    let g' : MeshGraph = record {
      edges = remove_keys stale_keys g.edges;
      last_updated = remove_keys stale_keys g.last_updated;
    } in
    (
      g',
      length stale_keys,
      if has_bus
          then map peer_pruned stale_keys ++ size_change big (node_count g) (node_count g')
          else [],
    )
