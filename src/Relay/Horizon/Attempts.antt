-- ===== src/Relay/Horizon/Attempts.antt =====
-- src/relay/rpc_client.rs: which answer a submission with retries gives, and how long it waits.
use stellarconduit_core.Prelude.{
  ℕ, zero, suc, ◌+◌, ◌<◌, List, [], ◌∷◌, Bytes, true, false, Result, ok, err, ◌≡◌, ◌-◌, ◌⊎◌,
}
use stellarconduit_core.Relay.{RpcError}
use stellarconduit_core.Relay.Horizon.{is_rejected, backoff_ms}

-- An answer that is not tried again.
abbrev pub IsFinal : Result Bytes RpcError → Type 0
IsFinal (ok hash) = Unit {0}
IsFinal (err e) = is_rejected e ≡ true

-- An answer that is tried again.
abbrev pub IsTransient : Result Bytes RpcError → Type 0
IsTransient (ok hash) = ⊥
IsTransient (err e) = is_rejected e ≡ false

-- The pauses after `n` attempts from `attempt` on.
abbrev pub pauses_from : ℕ → ℕ → List ℕ
pauses_from attempt zero = []
pauses_from attempt (suc n) = backoff_ms attempt ∷ pauses_from (attempt + 1) n

module _ (answer : ℕ → Result Bytes RpcError) where
  -- The answer of the last attempt, or the error before any.
  abbrev pub last_answer : ℕ → ℕ → RpcError → Result Bytes RpcError
  last_answer zero attempt last_err = err last_err
  last_answer (suc n) attempt last_err = answer (attempt + n)

  -- After `n` transient answers the next is final and is given; or all are transient, and the last of
  -- them is given.
  abbrev pub Answers : ℕ → ℕ → RpcError → Result Bytes RpcError × List ℕ → Type 0
  Answers left attempt last_err (r, pauses) =
      ((n : ℕ) × (n < left)
        × ((i : ℕ) → i < n → IsTransient (answer (attempt + i)))
        × IsFinal (answer (attempt + n))
        × (r ≡ answer (attempt + n))
        × (pauses ≡ pauses_from attempt n))
      ⊎ (((i : ℕ) → i < left → IsTransient (answer (attempt + i)))
          × (r ≡ last_answer left attempt last_err)
          × (pauses ≡ pauses_from attempt (left - 1)))
