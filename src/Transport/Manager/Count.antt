-- ===== src/Transport/Manager/Count.antt =====
-- src/transport/unified.rs: the shared count of peers is the number of connections.
pub mod Calls
use stellarconduit_core.Prelude.{
  List, [], ◌∷◌, Bytes, Option, none, some, Result, ok, err, ◌≡◌, refl, arith, length, u64, inl,
  inr, Bool-cases, Option-cases,
}
use stellarconduit_core.Prelude.HashMap
use stellarconduit_core.Prelude.HashMap.{
  Unique, insert-Unique, modify-Unique, remove-Unique, length-insert_new, length-insert_old,
  length-modify, length-remove,
}
use stellarconduit_core.Message.{ProtocolMessage}
use stellarconduit_core.Peer.Identity.{PeerIdentity}
use stellarconduit_core.Transport.Connection.{TransportError}
use stellarconduit_core.Transport.Manager.{
  Links, TransportManager, Manager, register_inbound, is_broken_pipe, drop_link, update_link,
  ble_fallback, registered, connect, resend_on, resend, sent, send_on, send_now, Inbound,
}
use stellarconduit_core.Transport.Manager.Calls.{register_all, take_incoming, disconnect_all}

-- No peer has two connections, and the count that listeners read is their number, in 64 bits.
pub record IsCounted {Conn : Type 0} (m : TransportManager Conn) : Type 0 where
  pub unique : Unique m.active_connections
  pub count : m.peer_count ≡ u64 (length m.active_connections)

module _ (l : Links) where
  open l use {Env, Conn}

  pub register_inbound-IsCounted :
      (m : Manager l) (peer : PeerIdentity) (conn : Conn)
      → IsCounted m
      → IsCounted (register_inbound l m peer conn)
  unfolding register_inbound
  register_inbound-IsCounted m peer conn h = record {
    unique = insert-Unique peer.pubkey conn m.active_connections h.unique;
    count = ground (
      arith,
      h.count,
      length-insert_new peer.pubkey conn m.active_connections,
      length-insert_old peer.pubkey conn m.active_connections,
    );
  }

  pub drop_link-IsCounted : (m : Manager l) (k : Bytes) → IsCounted m → IsCounted (drop_link l m k)
  unfolding drop_link
  drop_link-IsCounted m k h = elim (Option-cases (HashMap.get k m.active_connections)) [
    | inl e ↦ rw e h
    | inr (c, e) ↦ rw e (record {
      unique = remove-Unique k m.active_connections h.unique;
      count = ground (arith, h.count, e, length-remove k m.active_connections h.unique);
    })
  ]

  pub update_link-IsCounted :
      (m : Manager l) (k : Bytes) (conn : Conn) → IsCounted m → IsCounted (update_link l m k conn)
  update_link-IsCounted m k conn h = record {
    unique = modify-Unique k (λ c. conn) m.active_connections h.unique;
    count = ground (arith, h.count, length-modify k (λ c. conn) m.active_connections);
  }

  pub registered-IsCounted :
      (m : Manager l) (peer : PeerIdentity) (opened : Env × Result Conn TransportError)
      → IsCounted m
      → IsCounted (registered l m peer opened).0.1
  registered-IsCounted m peer (env, ok conn) h = register_inbound-IsCounted m peer conn h
  registered-IsCounted m peer (env, err e) h = h

  pub ble_fallback-IsCounted :
      (env : Env) (m : Manager l) (peer : PeerIdentity)
      → IsCounted m
      → IsCounted (ble_fallback l env m peer).0.1
  unfolding ble_fallback
  ble_fallback-IsCounted env m peer h = registered-IsCounted m peer (l.ble_connect env peer) h

  pub connect-IsCounted :
      (env : Env) (m : Manager l) (peer : PeerIdentity) (addr : Option Bytes)
      → IsCounted m
      → IsCounted (connect l env m peer addr).0.1
  unfolding connect
  connect-IsCounted env m peer addr h = registered-IsCounted m peer _ h

  pub resend_on-IsCounted :
      (env : Env) (m : Manager l) (peer : PeerIdentity) (msg : ProtocolMessage) (o : Option Conn)
      → IsCounted m
      → IsCounted (resend_on l env m peer msg o).0.1
  resend_on-IsCounted env m peer msg none h = h
  resend_on-IsCounted env m peer msg (some conn) h = update_link-IsCounted m peer.pubkey _ h

  pub resend-IsCounted :
      (peer : PeerIdentity) (msg : ProtocolMessage) (r : (Env × Manager l) × Option TransportError)
      → IsCounted r.0.1
      → IsCounted (resend l peer msg r).0.1
  resend-IsCounted peer msg ((env, m), some e) h = h
  resend-IsCounted peer msg ((env, m), none) h = resend_on-IsCounted env m peer msg _ h

  pub sent-IsCounted :
      (m : Manager l) (peer : PeerIdentity) (msg : ProtocolMessage)
      (r : Env × Conn × Option TransportError)
      → IsCounted m
      → IsCounted (sent l m peer msg r).0.1
  sent-IsCounted m peer msg (env, conn, none) h = update_link-IsCounted m peer.pubkey conn h
  sent-IsCounted m peer msg (env, conn, some e) h = elim (Bool-cases (is_broken_pipe e)) [
    | inl broken ↦ rw broken (
        resend-IsCounted peer msg _
          (ble_fallback-IsCounted env _ peer (drop_link-IsCounted m peer.pubkey h)))
    | inr other ↦ rw other (update_link-IsCounted m peer.pubkey conn h)
  ]

  pub send_on-IsCounted :
      (env : Env) (m : Manager l) (peer : PeerIdentity) (msg : ProtocolMessage) (o : Option Conn)
      → IsCounted m
      → IsCounted (send_on l env m peer msg o).0.1
  send_on-IsCounted env m peer msg none h = h
  send_on-IsCounted env m peer msg (some conn) h = sent-IsCounted m peer msg _ h

  pub send_now-IsCounted :
      (env : Env) (m : Manager l) (peer : PeerIdentity) (msg : ProtocolMessage)
      → IsCounted m
      → IsCounted (send_now l env m peer msg).0.1
  unfolding send_now
  send_now-IsCounted env m peer msg h = send_on-IsCounted env m peer msg _ h

  pub register_all-IsCounted :
      (entries : List (PeerIdentity × Conn)) (m : Manager l)
      → IsCounted m
      → IsCounted (register_all l m entries)
  unfolding register_all
  register_all-IsCounted [] m h = h
  register_all-IsCounted ((peer, conn) ∷ entries) m h =
      register_all-IsCounted entries _ (register_inbound-IsCounted m peer conn h)

  -- Other fields play no part.
  pub same_links :
      (m m' : Manager l)
      → IsCounted m
      → m'.active_connections ≡ m.active_connections
      → m'.peer_count ≡ m.peer_count
      → IsCounted m'
  same_links m m' h a c = record { unique = rw a h.unique; count = rw (a, c) h.count }

  pub take_incoming-IsCounted :
      (m : Manager l) (o : Option (Inbound Conn)) → IsCounted m → IsCounted (take_incoming l m o)
  take_incoming-IsCounted m none h = h
  take_incoming-IsCounted m (some rx) h =
      register_all-IsCounted rx.queue _ (same_links m _ h refl refl)

  pub disconnect_all-IsCounted :
      (ks : List Bytes) (env : Env) (m : Manager l)
      → IsCounted m
      → IsCounted (disconnect_all l env m ks).1
  unfolding disconnect_all
  disconnect_all-IsCounted [] env m h = h
  disconnect_all-IsCounted (k ∷ ks) env m h =
      disconnect_all-IsCounted ks _ _ (drop_link-IsCounted m k h)
