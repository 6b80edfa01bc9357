-- ===== src/Transport/Manager/Keeps.antt =====
-- src/transport/unified.rs: what leaves the waiting messages and the power state alone.
use stellarconduit_core.Prelude.{
  List, [], ◌∷◌, Bytes, Option, none, some, Result, ok, err, ◌≡◌, refl, ◌∙◌, inl, inr, Bool-cases,
}
use stellarconduit_core.Prelude.HashMap
use stellarconduit_core.Message.{ProtocolMessage}
use stellarconduit_core.Peer.Identity.{PeerIdentity}
use stellarconduit_core.Transport.Ble.{BleCentral, rotate_mac_if_due}
use stellarconduit_core.Transport.Connection.{TransportError}
use stellarconduit_core.Transport.Manager.{
  Links, TransportManager, Manager, Inbound, Moment, is_none, is_broken_pipe, register_inbound,
  drop_link, registered, ble_fallback, resend_on, resend, sent, send_on, send_now,
}
use stellarconduit_core.Transport.Manager.Calls.{
  register_all, take_incoming, disconnect_all, notify_mac_rotated, after_rotation, rotate_with,
  ble_peers, with_scanner,
}

-- The pending messages and the power state stay.
pub record Keeps {Conn : Type 0} (m m' : TransportManager Conn) : Type 0 where
  pub pending : m'.pending_messages ≡ m.pending_messages
  pub power : m'.power_manager ≡ m.power_manager

module _ (l : Links) where
  open l use {Env, Conn}

  Keeps-trans : {a b c : Manager l} → Keeps a b → Keeps b c → Keeps a c
  Keeps-trans h k = record { pending = k.pending ∙ h.pending; power = k.power ∙ h.power }

  drop_link-Keeps : (m : Manager l) (k : Bytes) → Keeps m (drop_link l m k)
  unfolding drop_link
  drop_link-Keeps m k = elim (Bool-cases (is_none (HashMap.get k m.active_connections))) [
    | inl e ↦ rw e (record { pending = refl; power = refl })
    | inr e ↦ rw e (record { pending = refl; power = refl })
  ]

  registered-Keeps :
      (m : Manager l) (peer : PeerIdentity) (opened : Env × Result Conn TransportError)
      → Keeps m (registered l m peer opened).0.1
  unfolding register_inbound
  registered-Keeps m peer (env, ok conn) = record { pending = refl; power = refl }
  registered-Keeps m peer (env, err e) = record { pending = refl; power = refl }

  resend_on-Keeps :
      (env : Env) (m : Manager l) (peer : PeerIdentity) (msg : ProtocolMessage) (o : Option Conn)
      → Keeps m (resend_on l env m peer msg o).0.1
  resend_on-Keeps env m peer msg none = record { pending = refl; power = refl }
  resend_on-Keeps env m peer msg (some conn) = record { pending = refl; power = refl }

  resend-Keeps :
      (m : Manager l) (peer : PeerIdentity) (msg : ProtocolMessage)
      (r : (Env × Manager l) × Option TransportError)
      → Keeps m r.0.1
      → Keeps m (resend l peer msg r).0.1
  resend-Keeps m peer msg ((env, m'), some e) h = h
  resend-Keeps m peer msg ((env, m'), none) h = Keeps-trans h (resend_on-Keeps env m' peer msg _)

  sent-Keeps :
      (m : Manager l) (peer : PeerIdentity) (msg : ProtocolMessage)
      (r : Env × Conn × Option TransportError)
      → Keeps m (sent l m peer msg r).0.1
  unfolding ble_fallback
  sent-Keeps m peer msg (env, conn, none) = record { pending = refl; power = refl }
  sent-Keeps m peer msg (env, conn, some e) = elim (Bool-cases (is_broken_pipe e)) [
    | inl broken ↦
        let m' = drop_link l m peer.pubkey in
        rw broken (
          resend-Keeps m peer msg (registered l m' peer (l.ble_connect env peer)) (
            Keeps-trans (drop_link-Keeps m peer.pubkey)
              (registered-Keeps m' peer (l.ble_connect env peer))))
    | inr other ↦ rw other (record { pending = refl; power = refl })
  ]

  send_on-Keeps :
      (env : Env) (m : Manager l) (peer : PeerIdentity) (msg : ProtocolMessage) (o : Option Conn)
      → Keeps m (send_on l env m peer msg o).0.1
  send_on-Keeps env m peer msg none = record { pending = refl; power = refl }
  send_on-Keeps env m peer msg (some conn) = sent-Keeps m peer msg (l.send env conn msg)

  pub send_now-Keeps :
      (env : Env) (m : Manager l) (peer : PeerIdentity) (msg : ProtocolMessage)
      → Keeps m (send_now l env m peer msg).0.1
  unfolding send_now
  send_now-Keeps env m peer msg = send_on-Keeps env m peer msg _

  register_all-Keeps :
      (entries : List (PeerIdentity × Conn)) (m : Manager l) → Keeps m (register_all l m entries)
  unfolding register_all register_inbound
  register_all-Keeps [] m = record { pending = refl; power = refl }
  register_all-Keeps ((peer, conn) ∷ entries) m =
      let rest = register_all-Keeps entries (register_inbound l m peer conn) in
      record { pending = rest.pending; power = rest.power }

  pub take_incoming-Keeps :
      (m : Manager l) (o : Option (Inbound Conn)) → Keeps m (take_incoming l m o)
  take_incoming-Keeps m none = record { pending = refl; power = refl }
  take_incoming-Keeps m (some rx) =
      let rest = register_all-Keeps rx.queue (record m { ble_conn_rx = _ }) in
      record { pending = rest.pending; power = rest.power }

  disconnect_all-Keeps :
      (ks : List Bytes) (env : Env) (m : Manager l) → Keeps m (disconnect_all l env m ks).1
  unfolding disconnect_all
  disconnect_all-Keeps [] env m = record { pending = refl; power = refl }
  disconnect_all-Keeps (k ∷ ks) env m =
      Keeps-trans (drop_link-Keeps m k) (disconnect_all-Keeps ks _ _)

  after_rotation-Keeps :
      (env : Env) (m : Manager l) (r : BleCentral × Option Bytes)
      → Keeps m (after_rotation l env m r).0.1
  unfolding notify_mac_rotated
  after_rotation-Keeps env m (c, none) = record { pending = refl; power = refl }
  after_rotation-Keeps env m (c, some mac) =
      let rest = disconnect_all-Keeps (ble_peers l m) env (with_scanner l m c) in
      record { pending = rest.pending; power = rest.power }

  pub rotate_with-Keeps :
      (env : Env) (m : Manager l) (t : Moment) (o : Option BleCentral)
      → Keeps m (rotate_with l env m t o).0.1
  rotate_with-Keeps env m t none = record { pending = refl; power = refl }
  rotate_with-Keeps env m t (some c) =
      after_rotation-Keeps env m (rotate_mac_if_due c t.instant t.mac)
