-- ===== src/Transport/Manager/Runs.antt =====
-- src/transport/unified.rs: the count of peers over every call of the manager.
use stellarconduit_core.Prelude.{List, [], ◌∷◌, Bytes, Option, refl}
use stellarconduit_core.Prelude.HashMap
use stellarconduit_core.Prelude.HashMap.{
  Unique, insert-Unique, modify-Unique, remove-Unique, length-insert_new, length-insert_old,
  length-modify, length-remove,
}
use stellarconduit_core.Message.{ProtocolMessage}
use stellarconduit_core.Peer.Identity.{PeerIdentity}
use stellarconduit_core.Power.{PowerManager}
use stellarconduit_core.Transport.Manager.{
  Links, Manager, TransportPreference, Moment, with_power_manager, register_inbound, connect,
}
use stellarconduit_core.Transport.Manager.Calls.{
  notify_mac_rotated, ble_peers, power_tick_at, send_to_at, recv_any_at, disconnect_peer, shutdown,
}
use stellarconduit_core.Transport.Manager.Count.{
  IsCounted, register_inbound-IsCounted, connect-IsCounted, disconnect_all-IsCounted,
}
use stellarconduit_core.Transport.Manager.Count.Calls.{
  power_tick_at-IsCounted, send_after-IsCounted, poll_after-IsCounted, close_on-IsCounted,
  shutdown-IsCounted,
}

-- The calls of a manager.
pub data Call (l : Links) : Type 0 where
  connects : PeerIdentity → Option Bytes → Call l
  sends : PeerIdentity → ProtocolMessage → Moment → Call l
  receives : Moment → Call l
  ticks : Moment → Call l
  registers : PeerIdentity → l.Conn → Call l
  disconnects : Bytes → Call l
  rotates : Call l
  shuts_down : Call l

module _ (l : Links) where
  open l use {Env, Conn}

  unfoldable pub step : Env × Manager l → Call l → Env × Manager l
  step (env, m) (connects peer addr) = (connect l env m peer addr).0
  step (env, m) (sends peer msg t) = (send_to_at l env m peer msg t).0
  step (env, m) (receives t) = (recv_any_at l env m t).0
  step (env, m) (ticks t) = (power_tick_at l env m t).0
  step (env, m) (registers peer conn) = (env, register_inbound l m peer conn)
  step (env, m) (disconnects k) = (disconnect_peer l env m k).0
  step (env, m) rotates = notify_mac_rotated l env m
  step (env, m) shuts_down = shutdown l env m

  unfoldable pub run : Env × Manager l → List (Call l) → Env × Manager l
  run s [] = s
  run s (c ∷ cs) = run (step s c) cs

  step-IsCounted : (s : Env × Manager l) (c : Call l) → IsCounted s.1 → IsCounted (step s c).1
  unfolding step send_to_at recv_any_at disconnect_peer notify_mac_rotated
  step-IsCounted (env, m) (connects peer addr) h = connect-IsCounted l env m peer addr h
  step-IsCounted (env, m) (sends peer msg t) h =
      send_after-IsCounted l peer msg t.now (power_tick_at l env m t)
        (power_tick_at-IsCounted l env m t h)
  step-IsCounted (env, m) (receives t) h =
      poll_after-IsCounted l t.now (power_tick_at l env m t) (power_tick_at-IsCounted l env m t h)
  step-IsCounted (env, m) (ticks t) h = power_tick_at-IsCounted l env m t h
  step-IsCounted (env, m) (registers peer conn) h = register_inbound-IsCounted l m peer conn h
  step-IsCounted (env, m) (disconnects k) h =
      close_on-IsCounted l env m k (HashMap.get k m.active_connections) h
  step-IsCounted (env, m) rotates h = disconnect_all-IsCounted l (ble_peers l m) env m h
  step-IsCounted (env, m) shuts_down h = shutdown-IsCounted l env m

  run-IsCounted :
      (cs : List (Call l)) (s : Env × Manager l) → IsCounted s.1 → IsCounted (run s cs).1
  unfolding run
  run-IsCounted [] s h = h
  run-IsCounted (c ∷ cs) s h = run-IsCounted cs (step s c) (step-IsCounted s c h)

  -- After any calls on a new manager, whatever the connections answer, no peer has two connections and
  -- the count that the listeners compare with the maximum is the number of connections, in 64 bits.
  pub run-with_power_manager-IsCounted :
      (env : Env) (preference : TransportPreference) (p : PowerManager) (cs : List (Call l))
      → IsCounted (run (env, with_power_manager preference p) cs).1
  unfolding with_power_manager
  run-with_power_manager-IsCounted env preference p cs =
      run-IsCounted cs _ (record { unique = tt; count = refl })
