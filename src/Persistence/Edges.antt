-- ===== src/Persistence/Edges.antt =====
-- src/persistence/db.rs: the table of topology edges.
use stellarconduit_core.Prelude.{ℕ, List, [], ◌++◌, Bytes, Option, none, some, Result, ok, err}
use stellarconduit_core.Prelude.HashMap
use stellarconduit_core.Persistence.{MeshDatabase, DbError}

unfoldable pub upsert_edge :
    MeshDatabase → Bytes → Bytes → ℕ → Option DbError → MeshDatabase × Result ℕ DbError
upsert_edge db source target last_updated_sec refused = elim refused [
  | some e ↦ (db, err e)
  | none ↦ (
    record db {
      topology_edges = HashMap.insert (source ++ target) last_updated_sec db.topology_edges;
    },
    ok 1,
  )
]

-- The table is not read.
unfoldable pub get_all_edges_since : MeshDatabase → ℕ → Result (List (Bytes × Bytes)) DbError
get_all_edges_since db cutoff = ok []
