-- ===== src/Persistence/Pending/Refinement.antt =====
-- src/persistence/db.rs: the table of pending messages is a partial map of envelopes by their id.
use stellarconduit_core.Prelude.{
  ℕ, ◌<◌, ◌^◌, List, [], ◌∷◌, Bytes, Bool, not, ◌&&◌, Option, none, some, Result, ok, err, ◌≡◌,
  refl, sym, ap, subst, fun_ext, ◌∙◌, arith, retain, All, inl, inr, Bool-cases, Option-cases,
  if◌then◌else◌, ltb, bytes_eq, bytes_eq_iff,
}
use stellarconduit_core.Prelude.HashMap
use stellarconduit_core.Prelude.HashMap.{
  HashMap, Unique, get-insert, get-remove, get-retain, kept, insert-Unique, retain-Unique,
  remove-Unique,
}
use stellarconduit_core.Message.{TransactionEnvelope, transaction}
use stellarconduit_core.Message.Encoding.{Encoding, EncodingLaws}
use stellarconduit_core.Persistence.{MeshDatabase, PendingRow, DbError, is_absent, i64_ltb}
use stellarconduit_core.Persistence.Pending.{
  save_envelope, delete_envelope, delete_messages_older_than, insert_new, to_envelope,
}

pub data Call : Type 0 where
  saves : TransactionEnvelope → Call
  deletes : Bytes → Call
  expires : ℕ → Call

-- The abstract view: which envelope waits under an id.
abbrev pub Store : Type 0
Store = Bytes → Option TransactionEnvelope

abbrev pub empty : Store
empty k = none

abbrev pub unexpired : ℕ → Option TransactionEnvelope → Option TransactionEnvelope
unexpired cutoff none = none
unexpired cutoff (some env) = if ltb env.timestamp cutoff then none else some env

-- The first envelope of an id stays until it is deleted or older than a cutoff.
abbrev pub apply : Store → Call → Store
apply s (saves env) k = if bytes_eq env.message_id k && is_absent (s k) then some env else s k
apply s (deletes id) k = if bytes_eq id k then none else s k
apply s (expires cutoff) k = unexpired cutoff (s k)

pub apply_all : Store → List Call → Store
apply_all s [] = s
apply_all s (c ∷ cs) = apply_all (apply s c) cs

module _ (e : Encoding) where
  -- A call on the database, where its statement is executed.
  pub step : MeshDatabase → Call → MeshDatabase
  step db (saves env) = (save_envelope e db env none).0
  step db (deletes id) = (delete_envelope db id none).0
  step db (expires cutoff) = (delete_messages_older_than db cutoff none).0

  pub run : MeshDatabase → List Call → MeshDatabase
  run db [] = db
  run db (c ∷ cs) = run (step db c) cs

  -- The envelope can be encoded, and times fit the columns.
  abbrev pub Storable : Call → Type 0
  Storable (saves env) =
      ((bytes : Bytes) × (e.to_vec (transaction env) ≡ some bytes)) × (env.timestamp < 2 ^ 63)
  Storable (deletes id) = Unit {0}
  Storable (expires cutoff) = cutoff < 2 ^ 63

  -- A row of an envelope with its id and its time.
  abbrev pub IsRow : Bytes × PendingRow → Type 0
  IsRow (id, row) =
      (env : TransactionEnvelope) × (e.from_slice row.envelope_bytes ≡ some (transaction env))
      × (env.message_id ≡ id)
      × (env.timestamp ≡ row.timestamp_sec)
      × (env.timestamp < 2 ^ 63)

  abbrev pub of_result : Result TransactionEnvelope DbError → Option TransactionEnvelope
  of_result (ok env) = some env
  of_result (err x) = none

  abbrev pub value : Option PendingRow → Option TransactionEnvelope
  value none = none
  value (some row) = of_result (to_envelope (e.from_slice row.envelope_bytes))

  abbrev pub view : HashMap PendingRow → Store
  view m k = value (HashMap.get k m)

  pub record IsTable (m : HashMap PendingRow) : Type 0 where
    pub unique : Unique m
    pub rows : All IsRow m

  All-insert :
      (id : Bytes) (row : PendingRow) (m : HashMap PendingRow)
      → IsRow (id, row)
      → All IsRow m
      → All IsRow (HashMap.insert id row m)
  unfolding HashMap.insert
  All-insert id row [] r h = (r, tt)
  All-insert id row ((j, w) ∷ m) r h = elim (Bool-cases (bytes_eq j id)) [
    | inl same ↦ rw same (r, h.1)
    | inr other ↦ rw other (h.0, All-insert id row m r h.1)
  ]

  All-retain :
      (p : Bytes × PendingRow → Bool) (m : HashMap PendingRow)
      → All IsRow m
      → All IsRow (retain p m)
  All-retain p [] h = tt
  All-retain p (x ∷ m) h = elim (Bool-cases (p x)) [
    | inl keep ↦ rw keep (h.0, All-retain p m h.1)
    | inr skip ↦ rw skip (All-retain p m h.1)
  ]

  get-IsRow :
      (k : Bytes) (m : HashMap PendingRow) (row : PendingRow)
      → All IsRow m
      → HashMap.get k m ≡ some row
      → IsRow (k, row)
  unfolding HashMap.get
  get-IsRow k [] row h g = absurd (ground (arith, g))
  get-IsRow k ((j, w) ∷ m) row h g = elim (Bool-cases (bytes_eq j k)) [
    | inl same ↦
        let at : j ≡ k = (bytes_eq_iff j k).0 same in
        let is : w ≡ row = ground (arith, g, same) in
        subst (λ (x : Bytes). IsRow (x, row)) at (subst (λ (x : PendingRow). IsRow (j, x)) is h.0)
    | inr other ↦ get-IsRow k m row h.1 (ground (arith, g, other))
  ]

  -- The row of an envelope that is saved.
  abbrev new_row : TransactionEnvelope → Bytes → PendingRow
  new_row env bytes = record {
    envelope_bytes = bytes;
    ttl_hops = env.ttl_hops;
    timestamp_sec = env.timestamp;
  }

  save_envelope-insert_new :
      (db : MeshDatabase) (env : TransactionEnvelope) (bytes : Bytes)
      → e.to_vec (transaction env) ≡ some bytes
      → env.timestamp < 2 ^ 63
      → (save_envelope e db env none).0 ≡ insert_new db env.message_id (new_row env bytes)
  unfolding save_envelope
  save_envelope-insert_new db env bytes enc small = ground (arith, enc, small)

  -- A call leaves a table, and acts on the view as on the map.
  abbrev Acts : MeshDatabase → Call → Type 0
  Acts db c =
      IsTable (step db c).pending_messages
      × ((k : Bytes) → view (step db c).pending_messages k ≡ apply (view db.pending_messages) c k)

  abbrev Inserts : MeshDatabase → TransactionEnvelope → MeshDatabase → Type 0
  Inserts db env db' =
      IsTable db'.pending_messages
      × ((k : Bytes) → view db'.pending_messages k ≡ apply (view db.pending_messages) (saves env) k)

  saves-Acts :
      (laws : EncodingLaws e) (db : MeshDatabase) (env : TransactionEnvelope)
      → Storable (saves env)
      → IsTable db.pending_messages
      → Acts db (saves env)
  unfolding step
  saves-Acts laws db env ((bytes, enc), small) t =
      let id = env.message_id in
      let m = db.pending_messages in
      let row = new_row env bytes in
      let read = laws.round (transaction env) bytes enc in
      subst (Inserts db env) (sym (save_envelope-insert_new db env bytes enc small))
        (elim (Option-cases (HashMap.get id m)) [
          | inl gone ↦ rw gone (
            record {
              unique = insert-Unique id row m t.unique;
              rows = All-insert id row m (env, read, refl, refl, small) t.rows;
            },
            λ k. ground (arith, get-insert id k row m, bytes_eq_iff id k, gone, read),
          )
          | inr (old, held) ↦
              let (env', r, same, at, low) = get-IsRow id m old t.rows held in
              rw held (t, λ k. ground (arith, bytes_eq_iff id k, held, r))
        ])

  deletes-Acts :
      (db : MeshDatabase) (id : Bytes) → IsTable db.pending_messages → Acts db (deletes id)
  unfolding step delete_envelope HashMap.remove
  deletes-Acts db id t = (
    record {
      unique = remove-Unique id db.pending_messages t.unique;
      rows = All-retain _ db.pending_messages t.rows;
    },
    λ k. ground (arith, get-remove id k db.pending_messages),
  )

  expires-Acts :
      (db : MeshDatabase) (cutoff : ℕ)
      → Storable (expires cutoff)
      → IsTable db.pending_messages
      → Acts db (expires cutoff)
  unfolding step delete_messages_older_than
  expires-Acts db cutoff small t =
      let p : Bytes × PendingRow → Bool = λ r. not (i64_ltb r.1.timestamp_sec cutoff) in
      let m = db.pending_messages in
      (
        record { unique = retain-Unique p m t.unique; rows = All-retain p m t.rows },
        λ k. elim (Option-cases (HashMap.get k m)) [
          | inl gone ↦ ground (arith, get-retain p k m t.unique, gone)
          | inr (row, held) ↦
              let (env, r, same, at, low) = get-IsRow k m row t.rows held in
              ground (arith, get-retain p k m t.unique, held, r, at, low, small)
        ],
      )

  acts :
      (laws : EncodingLaws e) (db : MeshDatabase) (c : Call)
      → Storable c
      → IsTable db.pending_messages
      → Acts db c
  acts laws db (saves env) s t = saves-Acts laws db env s t
  acts laws db (deletes id) s t = deletes-Acts db id t
  acts laws db (expires cutoff) s t = expires-Acts db cutoff s t

  pub run-Acts :
      (laws : EncodingLaws e) (cs : List Call) (db : MeshDatabase)
      → All Storable cs
      → IsTable db.pending_messages
      → IsTable (run db cs).pending_messages
        × (view (run db cs).pending_messages ≡ apply_all (view db.pending_messages) cs)
  unfolding run apply_all
  run-Acts laws [] db s t = (t, refl)
  run-Acts laws (c ∷ cs) db s t =
      let (t', v) = acts laws db c s.0 t in
      let (t'', v') = run-Acts laws cs (step db c) s.1 t' in
      (t'', v' ∙ ap (λ w. apply_all w cs) (fun_ext v))
