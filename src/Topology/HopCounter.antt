-- ===== src/Topology/HopCounter.antt =====
-- src/topology/hop_counter.rs: the distances that the peers announce. With an event bus, what is
-- published is returned.
use stellarconduit_core.Prelude.{
  ℕ, ◌+◌, ◌≤◌, List, [], ◌∷◌, Bytes, Bool, not, ◌&&◌, Option, none, some, ◌≡◌, arith, if◌then◌else◌,
  ◌==◌, ltb, min, any, Option-cases, saturating_add_u8, In, inl, inr,
}
use stellarconduit_core.Prelude.HashMap
use stellarconduit_core.Prelude.HashMap.{HashMap, values}
use stellarconduit_core.Topology.{TopologyEvent, relay_reachability_gained, relay_reachability_lost}

pub record HopCounter : Type 0 where
  pub peer_distances : HashMap ℕ

unfoldable pub new : HopCounter
new = record { peer_distances = [] }

abbrev pub unwrap_or : Option ℕ → ℕ → ℕ
unwrap_or none d = d
unwrap_or (some n) d = n

unfoldable pub update_distance : HopCounter → Bytes → ℕ → Bool → HopCounter × List TopologyEvent
update_distance c peer hops has_bus =
    let old_hops = unwrap_or (HashMap.get peer c.peer_distances) 255 in
    let distances = HashMap.insert peer hops c.peer_distances in
    (
      record { peer_distances = distances },
      if not has_bus
          then []
          else (if old_hops == 255 && ltb hops 255
              then relay_reachability_gained peer hops ∷ []
              else (if ltb old_hops 255
                    && hops == 255
                    && not (any (λ h. ltb h 255) (values distances))
                  then relay_reachability_lost ∷ []
                  else [])),
    )

-- The smaller of the minimum so far and the distance of a peer, if it has one.
abbrev closer : Option ℕ → Option ℕ → Option ℕ
closer m none = m
closer none (some h) = some h
closer (some m) (some h) = some (min m h)

unfoldable pub min_distance : HopCounter → List Bytes → Option ℕ → Option ℕ
min_distance c [] m = m
min_distance c (p ∷ ps) m = min_distance c ps (closer m (HashMap.get p c.peer_distances))

abbrev hop_count : Option ℕ → ℕ
hop_count none = 255
hop_count (some h) = if h == 255 then 255 else saturating_add_u8 h 1

unfoldable pub local_hop_count : HopCounter → List Bytes → ℕ
unfolding min_distance
local_hop_count c active_connections = hop_count (min_distance c active_connections none)

-- A minimum of at most `h`.
abbrev pub AtMost : ℕ → Option ℕ → Type 0
AtMost h m = (y : ℕ) × (m ≡ some y) × (y ≤ h)

min_distance-AtMost :
    (c : HopCounter) (ps : List Bytes) (m : Option ℕ) (h : ℕ)
    → AtMost h m
    → AtMost h (min_distance c ps m)
unfolding min_distance
min_distance-AtMost c [] m h a = a
min_distance-AtMost c (p ∷ ps) m h (y, e, le) =
    min_distance-AtMost c ps (closer m (HashMap.get p c.peer_distances)) h
      (elim (Option-cases (HashMap.get p c.peer_distances)) [
        | inl n ↦ (y, ground arith, le)
        | inr (x, s) ↦ (min y x, ground arith, omega arith)
      ])

min_distance-In :
    (c : HopCounter) (ps : List Bytes) (m : Option ℕ) (p : Bytes) (h : ℕ)
    → In p ps
    → HashMap.get p c.peer_distances ≡ some h
    → AtMost h (min_distance c ps m)
unfolding min_distance
min_distance-In c [] m p h i e = absurd i
min_distance-In c (q ∷ ps) m p h (inl i) e =
    min_distance-AtMost c ps (closer m (HashMap.get q c.peer_distances)) h (elim (Option-cases m) [
      | inl n ↦ (h, ground arith, omega arith)
      | inr (x, s) ↦ (min x h, ground arith, omega arith)
    ])
min_distance-In c (q ∷ ps) m p h (inr i) e =
    min_distance-In c ps (closer m (HashMap.get q c.peer_distances)) p h i e

-- A connection to a peer at a known distance makes the node at most one hop farther than it.
pub local_hop_count-le :
    (c : HopCounter) (ps : List Bytes) (p : Bytes) (h : ℕ)
    → In p ps
    → HashMap.get p c.peer_distances ≡ some h
    → local_hop_count c ps ≤ h + 1
unfolding local_hop_count
local_hop_count-le c ps p h i e = ground (arith, min_distance-In c ps none p h i e)
