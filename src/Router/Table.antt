-- ===== src/Router/Table.antt =====
-- src/router/table.rs: the cached routes. The LRU cache is an interface.
pub mod Invalidation
use stellarconduit_core.Prelude.{
  ℕ, List, [], ◌∷◌, map, Bytes, Bool, true, false, Option, none, some, if◌then◌else◌, ◌==◌, any,
  retain, bytes_eq,
}
use stellarconduit_core.Prelude.LruCache.{LruCache}
use stellarconduit_core.Metrics.{Metrics, fetch_add}
use stellarconduit_core.Peer.Identity.{PeerIdentity}

-- Whether a route goes through the peer.
abbrev pub through : Bytes → List PeerIdentity → Bool
through peer hops = any (λ h. bytes_eq h.pubkey peer) hops

module _ (cache : LruCache (List PeerIdentity)) where
  pub record RoutingTable : Type 0 where
    pub cached : cache.Cache
    pub metrics : Metrics

  unfoldable pub new : ℕ → Metrics → RoutingTable
  new capacity metrics = record {
    cached = cache.empty (if capacity == 0 then 128 else capacity);
    metrics = metrics;
  }

  unfoldable pub lookup : RoutingTable → Bytes → RoutingTable × Option (List PeerIdentity)
  lookup t dest =
      let (s, found) = cache.get dest t.cached in
      elim found [
        | some hops ↦ (
          record {
            cached = s;
            metrics = record t.metrics {
              routing_table_hits = fetch_add t.metrics.routing_table_hits 1;
            };
          },
          some hops,
        )
        | none ↦ (
          record {
            cached = s;
            metrics = record t.metrics {
              routing_table_misses = fetch_add t.metrics.routing_table_misses 1;
            };
          },
          none,
        )
      ]

  unfoldable pub insert : RoutingTable → Bytes → List PeerIdentity → RoutingTable
  insert t dest next_hops = record t { cached = cache.put dest next_hops t.cached }

  unfoldable pub put_all : List (Bytes × List PeerIdentity) → cache.Cache → cache.Cache
  put_all [] s = s
  put_all ((dest, hops) ∷ entries) s = put_all entries (cache.put dest hops s)

  unfoldable pub refresh : RoutingTable → List (Bytes × List PeerIdentity) → RoutingTable
  unfolding put_all
  refresh t entries = record {
    cached = put_all entries t.cached;
    metrics = record t.metrics {
      routing_table_refreshes = fetch_add t.metrics.routing_table_refreshes 1;
    };
  }

  unfoldable pub pop_all : List Bytes → cache.Cache → cache.Cache
  pop_all [] s = s
  pop_all (k ∷ ks) s = pop_all ks (cache.pop k s)

  unfoldable pub invalidate : RoutingTable → Bytes → RoutingTable
  unfolding pop_all
  invalidate t peer =
      let s = cache.pop peer t.cached in
      let keys_to_remove = map (λ e. e.0) (retain (λ e. through peer e.1) (cache.entries s)) in
      record {
        cached = pop_all keys_to_remove s;
        metrics = record t.metrics {
          routing_table_invalidations = fetch_add t.metrics.routing_table_invalidations 1;
        };
      }

  unfoldable pub clear : RoutingTable → RoutingTable
  clear t = record {
    cached = cache.clear t.cached;
    metrics = record t.metrics {
      routing_table_invalidations =
          fetch_add t.metrics.routing_table_invalidations (cache.len t.cached);
    };
  }
