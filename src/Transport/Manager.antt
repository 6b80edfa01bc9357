-- ===== src/Transport/Manager.antt =====
-- src/transport/unified.rs: the manager of the connections. What a connection does, and opening one,
-- is the interface `Links`, over a state `Env` of the world outside.
pub mod Calls
pub mod Count
pub mod Runs
pub mod Keeps
pub mod Log
pub mod Conservation
pub mod Waking
pub mod Rotation
pub mod Flush
pub mod Delays
pub mod Listeners
use stellarconduit_core.Prelude.{
  ℕ, ◌+◌, List, [], ◌∷◌, ◌++◌, Bytes, Bool, true, false, not, ◌&&◌, Option, none, some, Result, ok,
  err, if◌then◌else◌, length, u64, u64_max, retain,
}
use stellarconduit_core.Prelude.HashMap
use stellarconduit_core.Prelude.HashMap.{HashMap}
use stellarconduit_core.Message.{
  ProtocolMessage, transaction, topology_update, sync_request, sync_response, handshake,
  TopologyFlag, mac_rotated,
}
use stellarconduit_core.Peer.Identity.{PeerIdentity}
use stellarconduit_core.Power
use stellarconduit_core.Power.{PowerManager, InterfacePowerState, PowerDecision, is_high, tick}
use stellarconduit_core.Transport.Ble.{BleCentral, rotate_mac_if_due}
use stellarconduit_core.Transport.Connection.{
  TransportError, not_connected, connection_refused, timeout, broken_pipe, payload_too_large,
  encryption_error, TransportType, ble, wifi_direct,
}

pub data TransportPreference : Type 0 where
  auto ble_only wifi_only : TransportPreference

-- A connection with its calls, each of which may change the world. `recv` answers nothing where a
-- millisecond passes first.
pub record Links : Type 1 where
  pub Env : Type 0
  pub Conn : Type 0
  pub remote_peer : Conn → PeerIdentity
  pub transport_type : Conn → TransportType
  pub send : Env → Conn → ProtocolMessage → Env × Conn × Option TransportError
  pub recv : Env → Conn → Env × Conn × Option (Result ProtocolMessage TransportError)
  pub disconnect : Env → Conn → Env
  pub ble_connect : Env → PeerIdentity → Env × Result Conn TransportError
  pub wifi_connect : Env → PeerIdentity → Bytes → Env × Result Conn TransportError

pub record PendingMessage : Type 0 where
  pub peer : PeerIdentity
  pub message : ProtocolMessage

pub record PowerTickOutcome : Type 0 where
  pub interface_state : InterfacePowerState
  pub topology_flags : List TopologyFlag
  pub flushed_transactions : ℕ

-- The receiving end of the channel of inbound Bluetooth connections.
pub record Inbound (Conn : Type 0) : Type 0 where
  pub queue : List (PeerIdentity × Conn)
  pub is_closed : Bool

pub record TransportManager (Conn : Type 0) : Type 0 where
  pub preference : TransportPreference
  pub active_connections : HashMap Conn
  pub power_manager : PowerManager
  pub pending_messages : List PendingMessage
  pub max_peers : ℕ
  pub peer_count : ℕ
  pub is_shutdown : Bool
  pub ble_conn_rx : Option (Inbound Conn)
  pub ble_central_scanner : Option BleCentral

-- The instants of a call: the time since the epoch, the monotonic clock, and the address that would
-- be generated.
pub record Moment : Type 0 where
  pub now : ℕ
  pub instant : ℕ
  pub mac : Bytes

unfoldable pub with_power_manager :
    {Conn : Type 0} → TransportPreference → PowerManager → TransportManager Conn
with_power_manager preference power_manager = record {
  preference = preference;
  active_connections = [];
  power_manager = power_manager;
  pending_messages = [];
  max_peers = 300;
  peer_count = 0;
  is_shutdown = false;
  ble_conn_rx = none;
  ble_central_scanner = none;
}

abbrev pub is_none : {A : Type 0} → Option A → Bool
is_none none = true
is_none (some a) = false

abbrev pub is_ble : TransportType → Bool
is_ble ble = true
is_ble wifi_direct = false

abbrev pub is_transaction : ProtocolMessage → Bool
is_transaction (transaction e) = true
is_transaction (topology_update u) = false
is_transaction (sync_request q) = false
is_transaction (sync_response q) = false
is_transaction (handshake k) = false

abbrev pub is_broken_pipe : TransportError → Bool
is_broken_pipe broken_pipe = true
is_broken_pipe not_connected = false
is_broken_pipe connection_refused = false
is_broken_pipe timeout = false
is_broken_pipe payload_too_large = false
is_broken_pipe encryption_error = false

-- The errors after which `Auto` falls back to Bluetooth.
abbrev pub falls_back : TransportError → Bool
falls_back connection_refused = true
falls_back timeout = true
falls_back not_connected = false
falls_back broken_pipe = false
falls_back payload_too_large = false
falls_back encryption_error = false

module _ (l : Links) where
  open l use {Env, Conn}

  abbrev pub Manager : Type 0
  Manager = TransportManager Conn

  unfoldable pub connection_count : Manager → ℕ
  connection_count m = length m.active_connections

  unfoldable pub pending_message_count : Manager → ℕ
  pending_message_count m = length m.pending_messages

  -- `insert(..).is_none()` and `fetch_add`, which wraps around.
  unfoldable pub register_inbound : Manager → PeerIdentity → Conn → Manager
  register_inbound m peer conn = record m {
    active_connections = HashMap.insert peer.pubkey conn m.active_connections;
    peer_count =
        if is_none (HashMap.get peer.pubkey m.active_connections)
        then u64 (m.peer_count + 1)
        else m.peer_count;
  }

  -- `remove(..).is_some()` and `fetch_sub`.
  unfoldable pub drop_link : Manager → Bytes → Manager
  drop_link m pubkey = if is_none (HashMap.get pubkey m.active_connections) then m else record m {
    active_connections = HashMap.remove pubkey m.active_connections;
    peer_count = u64 (m.peer_count + u64_max);
  }

  -- A connection after a call through the map.
  abbrev pub update_link : Manager → Bytes → Conn → Manager
  update_link m pubkey conn = record m {
    active_connections = HashMap.modify pubkey (λ c. conn) m.active_connections;
  }

  -- A connection that was opened, or the error.
  abbrev pub registered :
      Manager
      → PeerIdentity
      → Env × Result Conn TransportError
      → (Env × Manager) × Option TransportError
  registered m peer (env, ok conn) = ((env, register_inbound m peer conn), none)
  registered m peer (env, err e) = ((env, m), some e)

  unfoldable pub ble_fallback :
      Env → Manager → PeerIdentity → (Env × Manager) × Option TransportError
  ble_fallback env m peer = registered m peer (l.ble_connect env peer)

  -- The arm of `Auto` after the attempt over WiFi.
  abbrev pub or_ble :
      PeerIdentity → Env × Result Conn TransportError → Env × Result Conn TransportError
  or_ble peer (env, ok conn) = (env, ok conn)
  or_ble peer (env, err e) = if falls_back e then l.ble_connect env peer else (env, err e)

  abbrev pub open_link :
      Env → TransportPreference → PeerIdentity → Option Bytes → Env × Result Conn TransportError
  open_link env wifi_only peer none = (env, err not_connected)
  open_link env wifi_only peer (some addr) = l.wifi_connect env peer addr
  open_link env ble_only peer addr = l.ble_connect env peer
  open_link env auto peer none = l.ble_connect env peer
  open_link env auto peer (some addr) = or_ble peer (l.wifi_connect env peer addr)

  unfoldable pub connect :
      Env → Manager → PeerIdentity → Option Bytes → (Env × Manager) × Option TransportError
  connect env m peer wifi_addr = registered m peer (open_link env m.preference peer wifi_addr)

  -- The second send, on the connection that the fallback opened.
  abbrev pub resend_on :
      Env
      → Manager
      → PeerIdentity
      → ProtocolMessage
      → Option Conn
      → (Env × Manager) × Option TransportError
  resend_on env m peer msg none = ((env, m), some not_connected)
  resend_on env m peer msg (some conn) =
      let (env', conn', refused) = l.send env conn msg in
      ((env', update_link m peer.pubkey conn'), refused)

  abbrev pub resend :
      PeerIdentity
      → ProtocolMessage
      → (Env × Manager) × Option TransportError
      → (Env × Manager) × Option TransportError
  resend peer msg ((env, m), some e) = ((env, m), some e)
  resend peer msg ((env, m), none) =
      resend_on env m peer msg (HashMap.get peer.pubkey m.active_connections)

  -- What the first send leads to.
  abbrev pub sent :
      Manager
      → PeerIdentity
      → ProtocolMessage
      → Env × Conn × Option TransportError
      → (Env × Manager) × Option TransportError
  sent m peer msg (env, conn, none) = ((env, update_link m peer.pubkey conn), none)
  sent m peer msg (env, conn, some e) =
      if is_broken_pipe e
      then resend peer msg (ble_fallback env (drop_link m peer.pubkey) peer)
      else ((env, update_link m peer.pubkey conn), some e)

  abbrev pub send_on :
      Env
      → Manager
      → PeerIdentity
      → ProtocolMessage
      → Option Conn
      → (Env × Manager) × Option TransportError
  send_on env m peer msg none = ((env, m), some not_connected)
  send_on env m peer msg (some conn) = sent m peer msg (l.send env conn msg)

  unfoldable pub send_now :
      Env → Manager → PeerIdentity → ProtocolMessage → (Env × Manager) × Option TransportError
  send_now env m peer msg = send_on env m peer msg (HashMap.get peer.pubkey m.active_connections)
