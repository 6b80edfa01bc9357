-- ===== src/Transport/Manager/Rotation.antt =====
-- src/transport/unified.rs: what a rotation of the address closes, and what `connect` opens.
use stellarconduit_core.Prelude.{
  List, [], ◌∷◌, Bytes, Bool, not, any, Option, none, some, ◌≡◌, refl, ap, ◌∙◌, arith, retain,
  bytes_eq, bytes_eq_iff, inl, inr, Bool-cases, if◌then◌else◌,
}
use stellarconduit_core.Prelude.HashMap
use stellarconduit_core.Prelude.HashMap.{
  HashMap, Unique, kept, get-remove, get-retain, get-insert_self,
}
use stellarconduit_core.Transport.Manager.{Links, Manager, is_none, is_ble, drop_link}
use stellarconduit_core.Transport.Manager.Calls.{disconnect_all, ble_peers, notify_mac_rotated}

any_key :
    {V : Type 0} (k : Bytes) (m : HashMap V)
    → any (λ j. bytes_eq j k) (HashMap.keys m) ≡ not (is_none (HashMap.get k m))
unfolding HashMap.get
any_key k [] = refl
any_key k ((j, v) ∷ m) = ground (arith, any_key k m)

module _ (l : Links) where
  open l use {Env, Conn}

  get-drop_link :
      (m : Manager l) (j k : Bytes)
      → HashMap.get k (drop_link l m j).active_connections
        ≡ (if bytes_eq j k then none else HashMap.get k m.active_connections)
  unfolding drop_link
  get-drop_link m j k = elim (Bool-cases (is_none (HashMap.get j m.active_connections))) [
    | inl gone ↦ rw gone (ground (arith, gone, bytes_eq_iff j k))
    | inr held ↦ rw held (get-remove j k m.active_connections)
  ]

  get-disconnect_all :
      (ks : List Bytes) (env : Env) (m : Manager l) (k : Bytes)
      → HashMap.get k (disconnect_all l env m ks).1.active_connections
        ≡ (if any (λ j. bytes_eq j k) ks then none else HashMap.get k m.active_connections)
  unfolding disconnect_all
  get-disconnect_all [] env m k = refl
  get-disconnect_all (j ∷ ks) env m k =
      get-disconnect_all ks _ (drop_link l m j) k ∙ (ground (arith, get-drop_link m j k))

  -- What a rotation leaves of a connection.
  abbrev pub spared : Option Conn → Option Conn
  spared none = none
  spared (some c) = if is_ble (l.transport_type c) then none else some c

  -- A rotation of the address closes the Bluetooth connections and no other.
  pub get-notify_mac_rotated :
      (env : Env) (m : Manager l) (k : Bytes)
      → Unique m.active_connections
      → HashMap.get k (notify_mac_rotated l env m).1.active_connections
        ≡ spared (HashMap.get k m.active_connections)
  unfolding notify_mac_rotated
  get-notify_mac_rotated env m k u =
      let p : Bytes × Conn → Bool = λ e. is_ble (l.transport_type e.1) in
      get-disconnect_all (ble_peers l m) env m k
      ∙ ap (λ b. if b then none else HashMap.get k m.active_connections)
          (any_key k (retain p m.active_connections)
            ∙ ap (λ o. not (is_none o)) (get-retain p k m.active_connections u))
      ∙ leaves (HashMap.get k m.active_connections)
    where
      leaves :
          (o : Option Conn)
          → (if not (is_none (kept (λ e. is_ble (l.transport_type e.1)) k o)) then none else o)
            ≡ spared o
      leaves none = refl
      leaves (some c) = ground arith
