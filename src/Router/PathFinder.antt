-- ===== src/Router/PathFinder.antt =====
-- src/router/path_finder.rs: the peers ranked by their distance to a relay, with a breadth-first
-- search from each, and src/router/relay_router.rs.
pub mod Walks
pub mod Search
pub mod Expansion
pub mod Shortest
pub mod Ranking
use stellarconduit_core.Prelude.{
  ℕ, zero, suc, ◌+◌, List, [], ◌∷◌, ◌++◌, Bytes, Bool, true, false, Option, none, some,
  if◌then◌else◌, leb, min, any, take, length, bytes_eq,
}
use stellarconduit_core.Prelude.Sort.{sort_by}
use stellarconduit_core.Prelude.HashMap
use stellarconduit_core.Prelude.HashMap.{HashMap}
use stellarconduit_core.Topology.HopCounter.{HopCounter}
use stellarconduit_core.Topology.Graph.{MeshGraph, get_neighbors}

-- The set of visited nodes, as a list.
abbrev pub visits : List Bytes → Bytes → Bool
visits visited node = any (bytes_eq node) visited

-- The loop over the neighbours of a node at `depth`: what it leaves of the queue and the visited set.
unfoldable pub expand :
    ℕ → List Bytes → List (Bytes × ℕ) → List Bytes → List (Bytes × ℕ) × List Bytes
expand depth [] queue visited = (queue, visited)
expand depth (n ∷ ns) queue visited =
    let old = expand depth ns queue visited in
    let new = expand depth ns (queue ++ (n, depth + 1) ∷ []) (n ∷ visited) in
    if visits visited n then old else new

abbrev pub or_empty : Option (List Bytes) → List Bytes
or_empty none = []
or_empty (some ns) = ns

-- `min_distance.min(depth + relay_dist)`, with `none` for `usize::MAX`.
abbrev pub better : Option ℕ → ℕ → Option ℕ → Option ℕ
better m depth none = m
better none depth (some h) = some (depth + h)
better (some m) depth (some h) = some (min m (depth + h))

-- The `while` loop, on fuel: `none` when the fuel ends before the queue is empty.
unfoldable pub search :
    MeshGraph → HopCounter → ℕ → List (Bytes × ℕ) → List Bytes → Option ℕ → Option (Option ℕ)
unfolding expand get_neighbors
search g c fuel [] visited min_distance = some min_distance
search g c zero (x ∷ queue) visited min_distance = none
search g c (suc fuel) ((node, depth) ∷ queue) visited min_distance =
    let (queue', visited') = expand depth (or_empty (get_neighbors g node)) queue visited in
    search g c fuel queue' visited' (better min_distance depth (HashMap.get node c.peer_distances))

-- The entries of all neighbour lists; each can be queued once.
abbrev pub entries : HashMap (List Bytes) → ℕ
entries [] = 0
entries ((k, ns) ∷ m) = length ns + entries m

abbrev pub flatten : Option (Option ℕ) → Option ℕ
flatten none = none
flatten (some m) = m

unfoldable pub shortest_from : MeshGraph → HopCounter → Bytes → Option (Option ℕ)
unfolding search
shortest_from g c start = search g c (suc (entries g.edges)) ((start, 0) ∷ []) (start ∷ []) none

-- `none`, which stands for `usize::MAX`, comes last.
abbrev pub no_farther : Option ℕ → Option ℕ → Bool
no_farther a none = true
no_farther none (some b) = false
no_farther (some a) (some b) = leb a b

abbrev pub store : Bytes → Option ℕ → HashMap ℕ → HashMap ℕ
store start none m = m
store start (some d) m = HashMap.insert start d m

-- The loop over the active connections.
unfoldable pub shortest_paths : MeshGraph → HopCounter → List Bytes → HashMap ℕ → HashMap ℕ
unfolding shortest_from
shortest_paths g c [] m = m
shortest_paths g c (start ∷ starts) m =
    shortest_paths g c starts (store start (flatten (shortest_from g c start)) m)

unfoldable pub rank_next_hops : MeshGraph → HopCounter → List Bytes → List Bytes
unfolding shortest_paths
rank_next_hops g c active_connections =
    let paths = shortest_paths g c active_connections [] in
    sort_by (λ a b. no_farther (HashMap.get a paths) (HashMap.get b paths)) active_connections

unfoldable pub select_next_hops : ℕ → List Bytes → List Bytes
select_next_hops target_fanout [] = []
select_next_hops target_fanout (p ∷ ps) =
    if leb (length (p ∷ ps)) target_fanout then p ∷ ps else take target_fanout (p ∷ ps)
