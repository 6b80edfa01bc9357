-- ===== src/Transport/Manager/Log.antt =====
-- src/transport/unified.rs: what is sent over the connections, in order.
use stellarconduit_core.Prelude.{
  List, [], ◌∷◌, ◌++◌, Bytes, Option, none, some, Result, ok, err, ◌≡◌, refl, sym, ap, ◌∙◌,
  append-nil, inl, inr, Bool-cases,
}
use stellarconduit_core.Prelude.HashMap
use stellarconduit_core.Message.{ProtocolMessage}
use stellarconduit_core.Peer.Identity.{PeerIdentity}
use stellarconduit_core.Transport.Ble.{BleCentral, rotate_mac_if_due}
use stellarconduit_core.Transport.Connection.{TransportError}
use stellarconduit_core.Transport.Manager.{
  Links, Manager, Moment, is_broken_pipe, drop_link, registered, ble_fallback, resend_on, resend,
  sent, send_on, send_now,
}
use stellarconduit_core.Transport.Manager.Calls.{
  disconnect_all, notify_mac_rotated, after_rotation, rotate_with, ble_peers, with_scanner,
}

-- The message, where a send reported no error.
abbrev pub accepted : Option TransportError → ProtocolMessage → List ProtocolMessage
accepted none msg = msg ∷ []
accepted (some e) msg = []

-- The world keeps a log of the messages that connections took: a send adds its message exactly where
-- it reports no error, and no other call adds one.
pub record LinksLaws (l : Links) : Type 0 where
  pub log : l.Env → List ProtocolMessage
  pub send_log :
      (env : l.Env) (c : l.Conn) (msg : ProtocolMessage)
      → log (l.send env c msg).0 ≡ log env ++ accepted (l.send env c msg).2 msg
  pub recv_log : (env : l.Env) (c : l.Conn) → log (l.recv env c).0 ≡ log env
  pub disconnect_log : (env : l.Env) (c : l.Conn) → log (l.disconnect env c) ≡ log env
  pub ble_connect_log :
      (env : l.Env) (peer : PeerIdentity) → log (l.ble_connect env peer).0 ≡ log env

module _ (l : Links) (laws : LinksLaws l) where
  open l use {Env, Conn}
  open laws use {log}

  resend_on-log :
      (env : Env) (m : Manager l) (peer : PeerIdentity) (msg : ProtocolMessage) (o : Option Conn)
      → log (resend_on l env m peer msg o).0.0
        ≡ log env ++ accepted (resend_on l env m peer msg o).1 msg
  resend_on-log env m peer msg none = sym (append-nil (log env))
  resend_on-log env m peer msg (some conn) = laws.send_log env conn msg

  resend-log :
      (peer : PeerIdentity) (msg : ProtocolMessage) (r : (Env × Manager l) × Option TransportError)
      → log (resend l peer msg r).0.0 ≡ log r.0.0 ++ accepted (resend l peer msg r).1 msg
  resend-log peer msg ((env, m), some e) = sym (append-nil (log env))
  resend-log peer msg ((env, m), none) = resend_on-log env m peer msg _

  registered-log :
      (m : Manager l) (peer : PeerIdentity) (opened : Env × Result Conn TransportError)
      → log (registered l m peer opened).0.0 ≡ log opened.0
  registered-log m peer (env, ok conn) = refl
  registered-log m peer (env, err e) = refl

  sent-log :
      (m : Manager l) (peer : PeerIdentity) (msg : ProtocolMessage) (env : Env)
      (r : Env × Conn × Option TransportError)
      → log r.0 ≡ log env ++ accepted r.2 msg
      → log (sent l m peer msg r).0.0 ≡ log env ++ accepted (sent l m peer msg r).1 msg
  unfolding ble_fallback
  sent-log m peer msg env (env', conn, none) h = h
  sent-log m peer msg env (env', conn, some e) h = elim (Bool-cases (is_broken_pipe e)) [
    | inr other ↦ rw other h
    | inl broken ↦
        let m' = drop_link l m peer.pubkey in
        let back = registered l m' peer (l.ble_connect env' peer) in
        let same =
          registered-log m' peer (l.ble_connect env' peer)
          ∙ laws.ble_connect_log env' peer
          ∙ h
          ∙ append-nil (log env) in
        rw broken
          (resend-log peer msg back ∙ ap (λ w. w ++ accepted (resend l peer msg back).1 msg) same)
  ]

  send_on-log :
      (env : Env) (m : Manager l) (peer : PeerIdentity) (msg : ProtocolMessage) (o : Option Conn)
      → log (send_on l env m peer msg o).0.0
        ≡ log env ++ accepted (send_on l env m peer msg o).1 msg
  send_on-log env m peer msg none = sym (append-nil (log env))
  send_on-log env m peer msg (some conn) =
      sent-log m peer msg env (l.send env conn msg) (laws.send_log env conn msg)

  -- A message that is answered as sent is logged once, and one that is answered with an error is not.
  pub send_now-log :
      (env : Env) (m : Manager l) (peer : PeerIdentity) (msg : ProtocolMessage)
      → log (send_now l env m peer msg).0.0 ≡ log env ++ accepted (send_now l env m peer msg).1 msg
  unfolding send_now
  send_now-log env m peer msg = send_on-log env m peer msg _

  disconnect_all-log :
      (ks : List Bytes) (env : Env) (m : Manager l) → log (disconnect_all l env m ks).0 ≡ log env
  unfolding disconnect_all
  disconnect_all-log [] env m = refl
  disconnect_all-log (k ∷ ks) env m =
      disconnect_all-log ks _ _ ∙ closed (HashMap.get k m.active_connections)
    where
      closed :
          (o : Option Conn)
          → log (elim o [ none ↦ env | some conn ↦ l.disconnect env conn ]) ≡ log env
      closed none = refl
      closed (some conn) = laws.disconnect_log env conn

  pub rotate_with-log :
      (env : Env) (m : Manager l) (t : Moment) (o : Option BleCentral)
      → log (rotate_with l env m t o).0.0 ≡ log env
  rotate_with-log env m t none = refl
  rotate_with-log env m t (some c) = rotated (rotate_mac_if_due c t.instant t.mac)
    where
      rotated : (r : BleCentral × Option Bytes) → log (after_rotation l env m r).0.0 ≡ log env
      rotated (c', none) = refl
      rotated (c', some mac) =
          unfold notify_mac_rotated in disconnect_all-log (ble_peers l m) env (with_scanner l m c')
