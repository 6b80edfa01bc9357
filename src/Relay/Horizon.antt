-- ===== src/Relay/Horizon.antt =====
-- src/relay/rpc_client.rs: the client of the Horizon interface. What the HTTP client answers and what
-- serde reads of a body are parameters.
pub mod Attempts
use mathlib.Core.Option
use stellarconduit_core.Prelude.{
  ℕ, zero, suc, ◌+◌, List, [], ◌∷◌, ◌++◌, Bytes, Bool, true, false, ◌&&◌, Option, none, some,
  Result, ok, err, if◌then◌else◌, ◌==◌, leb, ltb, length,
}
use stellarconduit_core.Relay.{RpcError, http, transaction_rejected, network, timeout}

abbrev pub default_timeout_ms : ℕ
default_timeout_ms = 10000

-- What a request comes to: no answer, because of the timeout or not, or a status and a body.
pub data Outcome : Type 0 where
  failed : Bool → Outcome
  answered : ℕ → Bytes → Outcome

pub record HorizonError : Type 0 where
  pub title : Bytes
  pub detail : Bytes
  pub transaction : Option Bytes  -- extras.result_codes.transaction

abbrev pub is_success : ℕ → Bool
is_success status = leb 200 status && ltb status 300

abbrev pub is_client_error : ℕ → Bool
is_client_error status = leb 400 status && ltb status 500

abbrev pub described : HorizonError → Bytes
described e = if length e.detail == 0 then e.title else e.detail

-- The reason that a rejection gives, from what serde reads of the body.
unfoldable pub reason_of : (Bytes → Option HorizonError) → Bytes → Bytes
reason_of read body = elim (read body) [
  | none ↦ body
  | some e ↦ elim e.transaction [ none ↦ described e | some code ↦ code ]
]

abbrev pub parsed : {A : Type 0} → Option A → Result A RpcError
parsed none = err network
parsed (some a) = ok a

-- `hash` is what serde reads of the body of a success.
unfoldable pub submit_transaction : (Bytes → Option Bytes) → Outcome → Result Bytes RpcError
submit_transaction hash (failed true) = err (timeout default_timeout_ms)
submit_transaction hash (failed false) = err network
submit_transaction hash (answered status body) =
    if is_success status
    then parsed (hash body)
    else (if is_client_error status then err transaction_rejected else err (http status))

-- `get_account_sequence`, `get_ledger_sequence` and `get_ledger_hash`, which differ in what is read of
-- the body.
unfoldable pub fetch : {A : Type 0} → (Bytes → Option A) → Outcome → Result A RpcError
fetch read (failed timed_out) = err network
fetch read (answered status body) =
    if is_success status then parsed (read body) else err (http status)

-- `backoff_ms`.
abbrev pub backoff_ms : ℕ → ℕ
backoff_ms zero = 500
backoff_ms (suc zero) = 1000
backoff_ms (suc (suc zero)) = 2000
backoff_ms (suc (suc (suc n))) = 4000

-- The pause after attempt `attempt`, if another follows.
abbrev pub pause : ℕ → ℕ → List ℕ
pause zero attempt = []
pause (suc left) attempt = backoff_ms attempt ∷ []

abbrev pub is_rejected : RpcError → Bool
is_rejected transaction_rejected = true
is_rejected network = false
is_rejected (http status) = false
is_rejected (timeout ms) = false

-- The loop, with `left` attempts to go; `answer` gives the answer of each attempt. The pauses are
-- listed.
unfoldable pub attempts :
    (ℕ → Result Bytes RpcError) → ℕ → ℕ → RpcError → Result Bytes RpcError × List ℕ
attempts answer zero attempt last_err = (err last_err, [])
attempts answer (suc left) attempt last_err = elim (answer attempt) [
  | ok hash ↦ (ok hash, [])
  | err e ↦
      if is_rejected e
      then (err e, [])
      else (let (r, pauses) = attempts answer left (attempt + 1) e in
          (r, pause left attempt ++ pauses))
]

unfoldable pub submit_with_retry : (ℕ → Result Bytes RpcError) → ℕ → Result Bytes RpcError × List ℕ
submit_with_retry answer max_attempts = attempts answer max_attempts 0 network
