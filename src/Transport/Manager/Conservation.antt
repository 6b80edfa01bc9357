-- ===== src/Transport/Manager/Conservation.antt =====
-- src/transport/unified.rs: a send neither loses nor repeats a message while it is answered as done.
use mathlib.Core.List.{perm_middle, perm_append_singleton, map-append}
use mathlib.Core.List.Perm
use stellarconduit_core.Prelude.{
  ℕ, ◌≤◌, List, [], ◌∷◌, ◌++◌, Option, none, some, Result, ok, err, ◌≡◌, refl, sym, ap, subst, ◌∙◌,
  arith, append-nil, append_assoc, length, Perm, inl, inr, Bool-cases,
}
use stellarconduit_core.Message.{ProtocolMessage}
use stellarconduit_core.Peer.Identity.{PeerIdentity}
use stellarconduit_core.Transport.Connection.{TransportError}
use stellarconduit_core.Transport.Manager.{
  Links, Manager, Moment, PendingMessage, PowerTickOutcome, send_now,
}
use stellarconduit_core.Transport.Manager.Calls.{
  power_tick_at, must_wait, send_awake, send_after, send_to_at, record_outbound,
}
use stellarconduit_core.Transport.Manager.Keeps.{send_now-Keeps}
use stellarconduit_core.Transport.Manager.Log.{LinksLaws, accepted, send_now-log}
use stellarconduit_core.Transport.Manager.Flush.{texts, queued, Balances, power_tick_at-Balances}

-- The new message is sent before those that wait.
overtakes :
    (sent waiting : List ProtocolMessage) (msg : ProtocolMessage)
    → Perm ((sent ++ msg ∷ []) ++ (waiting ++ [])) (sent ++ (waiting ++ msg ∷ []))
overtakes sent waiting msg =
    let e₁ : sent ++ msg ∷ (waiting ++ []) ≡ (sent ++ msg ∷ []) ++ (waiting ++ []) =
      sym (append_assoc sent (msg ∷ []) (waiting ++ [])) in
    let p : Perm (msg ∷ (waiting ++ [])) (waiting ++ msg ∷ []) =
      subst (λ w. Perm (msg ∷ w) (waiting ++ msg ∷ [])) (sym (append-nil waiting))
        (Perm.symm (perm_append_singleton msg waiting)) in
    subst (λ w. Perm w (sent ++ (waiting ++ msg ∷ []))) e₁ (Perm.append_left sent p)

-- A pending message and the new one are lost.
both_lost :
    (sent waiting : List ProtocolMessage) (old msg : ProtocolMessage)
    → Perm (sent ++ (waiting ++ old ∷ msg ∷ [])) ((sent ++ old ∷ waiting) ++ msg ∷ [])
both_lost sent waiting old msg =
    subst (λ w. Perm (sent ++ (waiting ++ old ∷ msg ∷ [])) w)
      (sym (append_assoc sent (old ∷ waiting) (msg ∷ [])))
      (Perm.append_left sent (perm_middle waiting (msg ∷ [])))

same_perm : {xs ys : List ProtocolMessage} → xs ≡ ys → Perm xs ys
same_perm {xs} e = subst (Perm xs) e (Perm.refl xs)

-- What a call lost: nothing, if it is answered without an error.
abbrev pub Lost : Option TransportError → List ProtocolMessage → Type 0
Lost none lost = lost ≡ []
Lost (some e) lost = length lost ≤ 2

module _ (l : Links) (laws : LinksLaws l) where
  open l use {Env, Conn}
  open laws use {log}

  -- The messages that were sent and that wait after a call are those before it and the new one; but
  -- for what was lost.
  abbrev pub Conserves :
      Env → Manager l → ProtocolMessage → (Env × Manager l) × Option TransportError → Type 0
  Conserves env m msg ((env', m'), refused) =
      (lost : List ProtocolMessage) × Perm (log env' ++ (queued m' ++ lost))
        (log env ++ (queued m ++ msg ∷ []))
      × Lost refused lost

  sent_or_lost :
      (env : Env) (m : Manager l) (msg : ProtocolMessage)
      (r : (Env × Manager l) × Option TransportError)
      → log r.0.0 ≡ log env ++ accepted r.1 msg
      → r.0.1.pending_messages ≡ m.pending_messages
      → Conserves env m msg r
  sent_or_lost env m msg ((env', m'), none) a b = (
    [],
    subst (λ w. Perm (w ++ (queued m' ++ [])) (log env ++ (queued m ++ msg ∷ []))) (sym a)
        (subst
          (λ ps.
            Perm ((log env ++ msg ∷ []) ++ (texts ps ++ [])) (log env ++ (queued m ++ msg ∷ [])))
          (sym b) (overtakes (log env) (queued m) msg)),
    refl,
  )
  sent_or_lost env m msg ((env', m'), some e) a b = (
    msg ∷ [],
    same_perm (
        ap (λ w. w ++ (queued m' ++ msg ∷ [])) (a ∙ append-nil (log env))
        ∙ ap (λ ps. log env ++ (texts ps ++ msg ∷ [])) b),
    omega arith,
  )

  send_awake-Conserves :
      (env : Env) (m : Manager l) (peer : PeerIdentity) (msg : ProtocolMessage) (now : ℕ)
      → Conserves env m msg (send_awake l env m peer msg now)
  send_awake-Conserves env m peer msg now = elim (Bool-cases (must_wait l m msg now)) [
    | inl waits ↦ rw waits (
      [],
      same_perm (
          ap (λ w. log env ++ w)
            (append-nil _
              ∙ map-append (λ (p : PendingMessage). p.message) m.pending_messages
                  (record { peer = peer; message = msg } ∷ []))),
      refl,
    )
    | inr goes ↦
        let m' = record_outbound l m now in
        rw goes (
          sent_or_lost env m msg (send_now l env m' peer msg) (send_now-log l laws env m' peer msg)
            (send_now-Keeps l env m' peer msg).pending)
  ]

  -- The balance of a tick carries over.
  move_Conserves :
      (env env' : Env) (m m' : Manager l) (msg : ProtocolMessage)
      (r : (Env × Manager l) × Option TransportError)
      → log env' ++ queued m' ≡ log env ++ queued m
      → Conserves env' m' msg r
      → Conserves env m msg r
  move_Conserves env env' m m' msg r e (lost, p, h) = (
    lost,
    Perm.trans p (
        same_perm (
          sym (append_assoc (log env') (queued m') (msg ∷ []))
          ∙ ap (λ w. w ++ msg ∷ []) e
          ∙ append_assoc (log env) (queued m) (msg ∷ []))),
    h,
  )

  send_after-Conserves :
      (env : Env) (m : Manager l) (peer : PeerIdentity) (msg : ProtocolMessage) (now : ℕ)
      (r : (Env × Manager l) × Result PowerTickOutcome TransportError)
      → Balances l laws env m r
      → Conserves env m msg (send_after l peer msg now r)
  send_after-Conserves env m peer msg now ((env', m'), ok o) e =
      move_Conserves env env' m m' msg (send_awake l env' m' peer msg now) e
        (send_awake-Conserves env' m' peer msg now)
  send_after-Conserves env m peer msg now ((env', m'), err x) (old, e) = (
    old ∷ msg ∷ [],
    Perm.trans (both_lost (log env') (queued m') old msg)
        (same_perm (ap (λ w. w ++ msg ∷ []) e ∙ append_assoc (log env) (queued m) (msg ∷ []))),
    omega arith,
  )

  -- Whatever the connections and the power state, after a call of `send_to_at` the messages that were
  -- sent and those that wait are, up to their order, those of before and the new one, each as often.
  -- None is lost if the call is answered without an error, and two at most if there is one.
  pub send_to_at-Conserves :
      (env : Env) (m : Manager l) (peer : PeerIdentity) (msg : ProtocolMessage) (t : Moment)
      → Conserves env m msg (send_to_at l env m peer msg t)
  unfolding send_to_at
  send_to_at-Conserves env m peer msg t =
      send_after-Conserves env m peer msg t.now (power_tick_at l env m t)
        (power_tick_at-Balances l laws env m t)
