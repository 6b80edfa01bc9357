-- ===== src/Router/PathFinder/Walks.antt =====
-- src/router/path_finder.rs: walks in the graph, and a relay distance along one.
use stellarconduit_core.Prelude.{List, ℕ, suc, ◌+◌, Bytes, some, ◌≡◌, In}
use stellarconduit_core.Prelude.HashMap
use stellarconduit_core.Topology.HopCounter.{HopCounter}
use stellarconduit_core.Topology.Graph.{MeshGraph, get_neighbors}
use stellarconduit_core.Router.PathFinder.{or_empty}

-- The neighbours that the graph has for a node.
abbrev pub neighbors : MeshGraph → Bytes → List Bytes
neighbors g u = or_empty (get_neighbors g u)

-- A walk of so many steps.
pub data Walk (g : MeshGraph) : Bytes → ℕ → Bytes → Type 0 where
  here : {u : Bytes} → Walk g u 0 u
  step : {u v w : Bytes} {n : ℕ} → Walk g u n v → In w (neighbors g v) → Walk g u (suc n) w

-- A distance of `m` to a relay: a walk to a node that announced the rest of it.
pub record Reaches (g : MeshGraph) (c : HopCounter) (u : Bytes) (m : ℕ) : Type 0 where
  pub node : Bytes
  pub steps : ℕ
  pub hops : ℕ
  pub walk : Walk g u steps node
  pub announced : HashMap.get node c.peer_distances ≡ some hops
  pub total : m ≡ steps + hops
