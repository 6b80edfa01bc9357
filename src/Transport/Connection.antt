-- ===== src/Transport/Connection.antt =====
-- src/transport/connection.rs and src/transport/errors.rs: what the transports share.
use stellarconduit_core.Prelude.{Bool, true, false}

pub data TransportError : Type 0 where
  not_connected connection_refused timeout broken_pipe payload_too_large encryption_error :
      TransportError

pub data ConnectionState : Type 0 where
  disconnected connecting connected disconnecting : ConnectionState
  failed : TransportError → ConnectionState

pub data TransportType : Type 0 where
  ble wifi_direct : TransportType

-- `state == ConnectionState::Connected`.
abbrev pub is_connected : ConnectionState → Bool
is_connected connected = true
is_connected disconnected = false
is_connected connecting = false
is_connected disconnecting = false
is_connected (failed e) = false
