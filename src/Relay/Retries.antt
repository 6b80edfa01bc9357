-- ===== src/Relay/Retries.antt =====
-- src/relay/mod.rs: when a submission is tried again.
use stellarconduit_core.Prelude.{
  ℕ, zero, suc, ◌+◌, ◌-◌, ◌≤◌, ◌<◌, Bytes, Result, ok, err, ◌≡◌, ◌≢◌, refl, ap, subst, ◌∙◌, arith,
  u64,
}
use stellarconduit_core.Message.RelayProof.{RelayChainProof}
use stellarconduit_core.Message.Signing.{Crypto}
use stellarconduit_core.Metrics.{Metrics, fetch_add}
use stellarconduit_core.Gossip.Bloom.{Bloom}
use stellarconduit_core.Prelude.LruCache.{LruCache}
use stellarconduit_core.Relay.{
  RpcError, http, transaction_rejected, network, timeout, RpcClient, attempts, submit_with_retry,
}

-- Errors that may go away.
pub data Transient : RpcError → Type 0 where
  http_error : (status : ℕ) → Transient (http status)
  network_error : Transient network
  timed_out : (ms : ℕ) → Transient (timeout ms)

module _ (rpc : RpcClient) (tx : Bytes) where
  -- So many submissions in a row fail with a transient error.
  pub data Failures : ℕ → rpc.State → rpc.State → Type 0 where
    none_yet : {s : rpc.State} → Failures 0 s s
    fails :
        {n : ℕ} {s t u : rpc.State} (e : RpcError)
        → Transient e
        → rpc.submit_transaction s tx ≡ (t, err e)
        → Failures n t u
        → Failures (suc n) s u

  module _ (b : Bloom) (cache : LruCache RelayChainProof) (c : Crypto) where
    abbrev retried : Metrics → Metrics
    retried m = record m { relay_submission_retries = fetch_add m.relay_submission_retries 1 }

    attempts-fails :
        (left : ℕ) (s t : rpc.State) (m : Metrics) (e : RpcError)
        → Transient e
        → rpc.submit_transaction s tx ≡ (t, err e)
        → attempts b cache c rpc (suc left) s m tx ≡ attempts b cache c rpc left t (retried m) tx
    unfolding attempts
    attempts-fails left s t m (http status) (http_error _) h = ground (arith, h)
    attempts-fails left s t m network network_error h = ground (arith, h)
    attempts-fails left s t m transaction_rejected tr h = elim tr [ ]
    attempts-fails left s t m (timeout ms) (timed_out _) h = ground (arith, h)

    attempts-settles :
        (n left : ℕ) (s t u : rpc.State) (m : Metrics) (answer : Result Bytes RpcError)
        → Failures n s t
        → rpc.submit_transaction t tx ≡ (u, answer)
        → ((e : RpcError) → Transient e → answer ≢ err e)
        → n ≤ left
        → m.relay_submission_retries < 18446744073709551616
        → ((attempts b cache c rpc left s m tx).0 ≡ u)
          × ((attempts b cache c rpc left s m tx).2 ≡ answer)
          × ((attempts b cache c rpc left s m tx).1.relay_submission_retries
              ≡ u64 (m.relay_submission_retries + n))
    unfolding attempts
    attempts-settles zero zero s _ u m answer none_yet h final le w = ground (arith, h)
    attempts-settles zero (suc left) s _ u m (ok hash) none_yet h final le w = ground (arith, h)
    attempts-settles zero (suc left) s _ u m (err transaction_rejected) none_yet h final le w =
        ground (arith, h)
    attempts-settles zero (suc left) s _ u m (err (http status)) none_yet h final le w =
        absurd (final (http status) (http_error status) refl)
    attempts-settles zero (suc left) s _ u m (err network) none_yet h final le w =
        absurd (final network network_error refl)
    attempts-settles zero (suc left) s _ u m (err (timeout ms)) none_yet h final le w =
        absurd (final (timeout ms) (timed_out ms) refl)
    attempts-settles (suc n) zero s t u m answer f h final le w = absurd (omega (arith, le))
    attempts-settles (suc n) (suc left) s t u m answer (fails {t = v} e tr q f) h final le w =
        let (es, ea, em) =
          attempts-settles n left v t u (retried m) answer f h final (omega (arith, le))
            (omega arith) in
        let eq = attempts-fails left s v m e tr q in
        rw eq (es, ea, em ∙ wrap m.relay_submission_retries n)
      where
        wrap : (r k : ℕ) → u64 (u64 (r + 1) + k) ≡ u64 (r + suc k)
        wrap r k = omega arith

    -- After transient failures, fewer than the attempts allowed, a submission that succeeds or is
    -- rejected ends the loop with its answer: nothing more is submitted, and each failure was counted
    -- as a retry.
    pub submit_with_retry-settles :
        (n max_attempts : ℕ) (s t u : rpc.State) (m : Metrics) (answer : Result Bytes RpcError)
        → Failures n s t
        → rpc.submit_transaction t tx ≡ (u, answer)
        → ((e : RpcError) → Transient e → answer ≢ err e)
        → n < max_attempts
        → m.relay_submission_retries < 18446744073709551616
        → ((submit_with_retry b cache c rpc max_attempts s m tx).0 ≡ u)
          × ((submit_with_retry b cache c rpc max_attempts s m tx).2 ≡ answer)
          × ((submit_with_retry b cache c rpc max_attempts s m tx).1.relay_submission_retries
              ≡ u64 (m.relay_submission_retries + n))
    unfolding submit_with_retry
    submit_with_retry-settles n max_attempts s t u m answer f h final lt w =
        attempts-settles n (max_attempts - 1) s t u m answer f h final (omega (arith, lt)) w

    attempts-exhausts :
        (left : ℕ) (s t : rpc.State) (m : Metrics)
        → Failures (suc left) s t
        → (e : RpcError) × Transient e
          × ((attempts b cache c rpc left s m tx).0 ≡ t)
          × ((attempts b cache c rpc left s m tx).2 ≡ err e)
    unfolding attempts
    attempts-exhausts zero s t m (fails {t = v} e tr q none_yet) =
        (e, tr, ground (arith, q), ground (arith, q))
    attempts-exhausts (suc left) s t m (fails {t = v} e tr q f) =
        let (e', tr', es, ea) = attempts-exhausts left v t (retried m) f in
        let eq = attempts-fails left s v m e tr q in
        (
          e',
          tr',
          ap (λ (o : rpc.State × Metrics × Result Bytes RpcError). o.0) eq ∙ es,
          ap (λ (o : rpc.State × Metrics × Result Bytes RpcError). o.2) eq ∙ ea,
        )

    -- As many transient failures as attempts allowed end the loop with an error that may go away,
    -- after exactly so many submissions.
    pub submit_with_retry-exhausts :
        (max_attempts : ℕ) (s t : rpc.State) (m : Metrics)
        → 0 < max_attempts
        → Failures max_attempts s t
        → (e : RpcError) × Transient e
          × ((submit_with_retry b cache c rpc max_attempts s m tx).0 ≡ t)
          × ((submit_with_retry b cache c rpc max_attempts s m tx).2 ≡ err e)
    unfolding submit_with_retry
    submit_with_retry-exhausts max_attempts s t m pos f =
        attempts-exhausts (max_attempts - 1) s t m
          (subst (λ k. Failures k s t) (grow max_attempts pos) f)
      where
        grow : (k : ℕ) → 0 < k → k ≡ suc (k - 1)
        grow k h = omega (arith, h)
