-- ===== src/Persistence/Pending/Loading.antt =====
-- src/persistence/db.rs: what is loaded of the pending messages after any calls.
use stellarconduit_core.Prelude.{
  ◌∷◌, [], List, none, some, ok, ◌≡◌, refl, sym, ap, subst, ◌↔◌, arith, All, In, inl, inr,
  Bool-cases, bytes_eq, bytes_eq_iff, bytes_eq_refl,
}
use stellarconduit_core.Prelude.HashMap
use stellarconduit_core.Prelude.HashMap.{HashMap, Unique}
use stellarconduit_core.Message.{TransactionEnvelope}
use stellarconduit_core.Message.Encoding.{Encoding, EncodingLaws}
use stellarconduit_core.Persistence
use stellarconduit_core.Persistence.{PendingRow}
use stellarconduit_core.Persistence.Pending.{load_pending_envelopes, collect}
use stellarconduit_core.Persistence.Pending.Refinement.{
  Call, Storable, empty, apply_all, run, view, IsRow, run-Acts,
}

module _ (e : Encoding) where
  -- The envelopes of a table, each under its id.
  abbrev Lists : HashMap PendingRow → Type 0
  Lists m =
      (xs : List TransactionEnvelope) × (collect e m ≡ ok xs)
      × ((env : TransactionEnvelope) → In env xs ↔ (view e m env.message_id ≡ some env))

  collect-Lists : (m : HashMap PendingRow) → Unique m → All (IsRow e) m → Lists m
  unfolding collect HashMap.get
  collect-Lists [] u h = ([], refl, λ env. (λ i. absurd i, λ v. absurd (ground (arith, v))))
  collect-Lists ((j, row) ∷ m) u h =
      let (first, read, at, clock, low) = h.0 in
      let (xs, c, lists) = collect-Lists m u.1 h.1 in
      (
        first ∷ xs,
        ground (arith, read, c),
        λ env. (
          λ i. elim i [
            | inl same ↦
                subst (λ (x : TransactionEnvelope). view e ((j, row) ∷ m) x.message_id ≡ some x)
                  (sym same) (ground (arith, read, at, bytes_eq_refl j))
            | inr later ↦
                let v = (lists env).0 later in
                elim (Bool-cases (bytes_eq j env.message_id)) [
                  | inl clash ↦
                      absurd (ground (arith, v, u.0, (bytes_eq_iff j env.message_id).0 clash))
                  | inr other ↦ ground (arith, other, v)
                ]
          ],
          λ v. elim (Bool-cases (bytes_eq j env.message_id)) [
            | inl this ↦ inl (ground (arith, v, this, read))
            | inr other ↦ inr ((lists env).1 (ground (arith, v, other)))
          ],
        ),
      )

  -- After any saves, deletions and expiries on a new database, what is loaded is exactly the envelopes
  -- of the abstract map, in which the first envelope saved under an id stays until it is deleted or is
  -- older than the cutoff of an expiry. The envelopes can be encoded, and times are below 2^63.
  pub load_pending_envelopes-run :
      (cs : List Call)
      → EncodingLaws e
      → All (Storable e) cs
      → (xs : List TransactionEnvelope) × (load_pending_envelopes e (run e Persistence.init cs) none
          ≡ ok xs)
        × ((env : TransactionEnvelope) → In env xs ↔ (apply_all empty cs env.message_id ≡ some env))
  unfolding load_pending_envelopes Persistence.init HashMap.get
  load_pending_envelopes-run cs laws s =
      let (t, v) = run-Acts e laws cs Persistence.init s (record { unique = tt; rows = tt }) in
      let (xs, c, lists) =
        collect-Lists (run e Persistence.init cs).pending_messages t.unique t.rows in
      (
        xs,
        c,
        λ env. subst (λ o. In env xs ↔ (o ≡ some env)) (ap (λ w. w env.message_id) v) (lists env),
      )
