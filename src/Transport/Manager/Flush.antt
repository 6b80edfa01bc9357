-- ===== src/Transport/Manager/Flush.antt =====
-- src/transport/unified.rs: no message is lost or sent twice while sends are answered as done.
use mathlib.Core.List.{map-append}
use stellarconduit_core.Prelude.{
  ℕ, ◌+◌, List, [], ◌∷◌, ◌++◌, Bool, true, false, Option, none, some, Result, ok, err, ◌≡◌, refl,
  sym, ap, ◌∙◌, arith, append-nil, append_assoc, map, length, if◌then◌else◌,
}
use stellarconduit_core.Message.{ProtocolMessage, TopologyFlag, mac_rotated}
use stellarconduit_core.Power.{PowerDecision, tick}
use stellarconduit_core.Transport.Connection.{TransportError}
use stellarconduit_core.Transport.Manager.{
  Links, TransportManager, Manager, Moment, PendingMessage, send_now,
}
use stellarconduit_core.Transport.Manager.Calls.{
  take_incoming, process_ble_incoming, rotate, rotate_with, and_then, flush, flushed, outcome,
  power_tick_at,
}
use stellarconduit_core.Transport.Manager.Keeps.{
  send_now-Keeps, take_incoming-Keeps, rotate_with-Keeps,
}
use stellarconduit_core.Transport.Manager.Log.{LinksLaws, accepted, send_now-log, rotate_with-log}

abbrev pub texts : List PendingMessage → List ProtocolMessage
texts = map (λ p. p.message)

abbrev pub queued : {Conn : Type 0} → TransportManager Conn → List ProtocolMessage
queued m = texts m.pending_messages

module _ (l : Links) (laws : LinksLaws l) where
  open l use {Env, Conn}
  open laws use {log}

  -- A flush of `ps` sends all of them in order; or it stops at one that is lost, sends those before it
  -- and keeps those after it.
  abbrev pub Flushes :
      List PendingMessage → Env → ℕ → (Env × Manager l) × Result ℕ TransportError → Type 0
  Flushes ps env n ((env', m'), ok k) =
      (log env' ≡ log env ++ texts ps) × (m'.pending_messages ≡ []) × (k ≡ n + length ps)
  Flushes ps env n ((env', m'), err e) =
      (done : List PendingMessage) × (lost : PendingMessage) × (ps
        ≡ done ++ lost ∷ m'.pending_messages)
      × (log env' ≡ log env ++ texts done)

  Flushes-cons :
      (p : PendingMessage) (ps : List PendingMessage) (env env' : Env) (n : ℕ)
      (r : (Env × Manager l) × Result ℕ TransportError)
      → log env' ≡ log env ++ p.message ∷ []
      → Flushes ps env' (n + 1) r
      → Flushes (p ∷ ps) env n r
  Flushes-cons p ps env env' n ((env'', m), ok k) h (a, b, c) = (
    a ∙ ap (λ w. w ++ texts ps) h ∙ append_assoc (log env) (p.message ∷ []) (texts ps),
    b,
    omega (arith, c),
  )
  Flushes-cons p ps env env' n ((env'', m), err e) h (done, lost, s, a) = (
    p ∷ done,
    lost,
    ap (◌∷◌ p) s,
    a ∙ ap (λ w. w ++ texts done) h ∙ append_assoc (log env) (p.message ∷ []) (texts done),
  )

  and_then-Flushes :
      (p : PendingMessage) (ps : List PendingMessage) (env : Env) (n : ℕ)
      (next : Env → Manager l → (Env × Manager l) × Result ℕ TransportError)
      (r : (Env × Manager l) × Option TransportError)
      → log r.0.0 ≡ log env ++ accepted r.1 p.message
      → r.0.1.pending_messages ≡ ps
      → ((env' : Env) (m' : Manager l) → Flushes ps env' (n + 1) (next env' m'))
      → Flushes (p ∷ ps) env n (and_then l next r)
  and_then-Flushes p ps env n next ((env', m'), none) h k go =
      Flushes-cons p ps env env' n (next env' m') h (go env' m')
  and_then-Flushes p ps env n next ((env', m'), some e) h k go = ([], p, ap (◌∷◌ p) (sym k), h)

  pub flush-Flushes :
      (ps : List PendingMessage) (env : Env) (m : Manager l) (n : ℕ)
      → Flushes ps env n (flush l ps env m n)
  unfolding flush
  flush-Flushes [] env m n = (sym (append-nil (log env)), refl, omega arith)
  flush-Flushes (p ∷ ps) env m n =
      let m' : Manager l = record m { pending_messages = ps } in
      and_then-Flushes p ps env n (λ env' m''. flush l ps env' m'' (n + 1))
        (send_now l env m' p.peer p.message) (send_now-log l laws env m' p.peer p.message)
        (send_now-Keeps l env m' p.peer p.message).pending
        (λ env' m''. flush-Flushes ps env' m'' (n + 1))

  -- What was sent and what waits, in order, is what it was; but for one message if there is an error.
  abbrev pub Balances :
      {A : Type 0} → Env → Manager l → (Env × Manager l) × Result A TransportError → Type 0
  Balances env m ((env', m'), ok o) = log env' ++ queued m' ≡ log env ++ queued m
  Balances env m ((env', m'), err e) =
      (lost : ProtocolMessage) × (log env' ++ lost ∷ queued m' ≡ log env ++ queued m)

  Flushes-Balances :
      (env : Env) (m : Manager l) (r : (Env × Manager l) × Result ℕ TransportError)
      → Flushes m.pending_messages env 0 r
      → Balances env m r
  Flushes-Balances env m ((env', m'), ok k) (a, b, c) =
      ap (λ ps. log env' ++ texts ps) b ∙ append-nil (log env') ∙ a
  Flushes-Balances env m ((env', m'), err e) (done, lost, s, a) = (
    lost.message,
    ap (λ w. w ++ lost.message ∷ queued m') a
        ∙ append_assoc (log env) (texts done) (lost.message ∷ queued m')
        ∙ ap (λ w. log env ++ w)
            (sym (ap texts s ∙ map-append _ done (lost ∷ m'.pending_messages))),
  )

  flushed-Balances : (b : Bool) (env : Env) (m : Manager l) → Balances env m (flushed l b env m)
  flushed-Balances true env m =
      Flushes-Balances env m (flush l m.pending_messages env m 0)
        (flush-Flushes m.pending_messages env m 0)
  flushed-Balances false env m = refl

  outcome-Balances :
      (env : Env) (m : Manager l) (d : PowerDecision) (flags : List TopologyFlag)
      (r : (Env × Manager l) × Result ℕ TransportError)
      → Balances env m r
      → Balances env m (outcome l d flags r)
  outcome-Balances env m d flags (s, ok n) h = h
  outcome-Balances env m d flags (s, err e) h = h

  move_Balances :
      {A : Type 0} (env env' : Env) (m m' : Manager l)
      (r : (Env × Manager l) × Result A TransportError)
      → log env' ≡ log env
      → m'.pending_messages ≡ m.pending_messages
      → Balances env' m' r
      → Balances env m r
  move_Balances env env' m m' (s, ok o) a b h =
      h ∙ ap (λ w. w ++ queued m') a ∙ ap (λ ps. log env ++ texts ps) b
  move_Balances env env' m m' (s, err e) a b (lost, h) =
      (lost, h ∙ ap (λ w. w ++ queued m') a ∙ ap (λ ps. log env ++ texts ps) b)

  pub power_tick_at-Balances :
      (env : Env) (m : Manager l) (t : Moment) → Balances env m (power_tick_at l env m t)
  unfolding power_tick_at rotate process_ble_incoming
  power_tick_at-Balances env m t =
      let m₁ = take_incoming l m m.ble_conn_rx in
      let (p, decision) = tick m₁.power_manager t.now in
      let m₂ : Manager l = record m₁ { power_manager = p } in
      let r = rotate_with l env m₂ t m₂.ble_central_scanner in
      let out = flushed l decision.wake_network r.0.0 r.0.1 in
      let flags =
        if r.1 then decision.topology_flags ++ mac_rotated ∷ [] else decision.topology_flags in
      move_Balances env r.0.0 m r.0.1 (outcome l decision flags out)
        (rotate_with-log l laws env m₂ t m₂.ble_central_scanner)
        ((rotate_with-Keeps l env m₂ t m₂.ble_central_scanner).pending
          ∙ (take_incoming-Keeps l m m.ble_conn_rx).pending)
        (outcome-Balances r.0.0 r.0.1 decision flags out
          (flushed-Balances decision.wake_network r.0.0 r.0.1))
