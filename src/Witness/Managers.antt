-- ===== src/Witness/Managers.antt =====
-- The theorems on the connection manager at concrete inputs.
use stellarconduit_core.Prelude.{
  ℕ, List, [], ◌∷◌, ◌++◌, true, false, none, some, ok, err, ◌≡◌, refl, bytes_eq, arith,
}
use stellarconduit_core.Prelude.HashMap
use stellarconduit_core.Message.{ProtocolMessage, transaction}
use stellarconduit_core.Peer.Identity
use stellarconduit_core.Peer.Identity.{PeerIdentity}
use stellarconduit_core.Power.{
  tick, PowerManager, low_power, synchronized_low_power, next_awake_barrier,
}
use stellarconduit_core.Power
use stellarconduit_core.Transport.Connection.{ble, connection_refused, not_connected}
use stellarconduit_core.Transport.Manager.{
  Links, send_now, Manager, Moment, auto, with_power_manager,
}
use stellarconduit_core.Transport.Manager.Calls.{
  process_ble_incoming, rotate, flush, power_tick_at, send_to_at,
}
use stellarconduit_core.Transport.Manager.Log.{LinksLaws}
use stellarconduit_core.Transport.Manager.Count.{IsCounted}
use stellarconduit_core.Transport.Manager.Runs
use stellarconduit_core.Transport.Manager.Runs.{
  Call, connects, sends, receives, registers, disconnects, run-with_power_manager-IsCounted,
}
use stellarconduit_core.Transport.Manager.Conservation.{Conserves, send_to_at-Conserves}
use stellarconduit_core.Transport.Manager.Waking.{Woken, power_tick_at-Woken}
use stellarconduit_core.Transport.Manager.Delays.{ticks, ticks-power_tick_at}
use stellarconduit_core.Transport.Chunks
use stellarconduit_core.Transport.Chunks.Steps.{buffer}
use stellarconduit_core.Transport.Ble
use stellarconduit_core.Transport.Ble.{
  BlePeripheral, BleCentral, central, with_local_peer, peripheral, scan_and_connect,
}
use stellarconduit_core.Transport.Manager.Calls.{process_ble_incoming}
use stellarconduit_core.Transport.Manager.Listeners.{Listener, listen}
use stellarconduit_core.Transport.Manager.Listeners.Arrivals.{listening, get-process_ble_incoming}
use stellarconduit_core.Witness.Wires.{greetings, greetings-EncodingLaws}
use stellarconduit_core.Witness.{alice, bob, envelope}

-- The world is the log of what was sent. A connection takes every message, and always has a
-- transaction to read; WiFi is not there.
abbrev pub radio : Links
radio = record {
  Env = List ProtocolMessage;
  Conn = PeerIdentity;
  remote_peer = λ c. c;
  transport_type = λ c. ble;
  send = λ env c msg. (env ++ msg ∷ [], c, none);
  recv = λ env c. (env, c, some (ok (transaction (envelope 1))));
  disconnect = λ env c. env;
  ble_connect = λ env peer. (env, ok peer);
  wifi_connect = λ env peer addr. (env, err connection_refused);
}

pub radio-LinksLaws : LinksLaws radio
radio-LinksLaws = record {
  log = λ env. env;
  send_log = λ env c msg. refl;
  recv_log = λ env c. refl;
  disconnect_log = λ env c. refl;
  ble_connect_log = λ env peer. refl;
}

abbrev pub friend : PeerIdentity
friend = record { pubkey = bob; display_id = [] }

abbrev at : ℕ → Moment
at now = record { now = now; instant = now; mac = [] }

abbrev asleep : PowerManager
asleep = record {
  state = low_power;
  mode = synchronized_low_power;
  last_incoming_activity_at = 0;
  pending_outbound_transaction = true;
  sleep_flag_emitted = true;
  now_ms = 300600;
}

-- A manager that sleeps, with a message that waits for the one peer.
abbrev sleeper : Manager radio
sleeper = record {
  preference = auto;
  active_connections = (bob, friend) ∷ [];
  power_manager = asleep;
  pending_messages = record { peer = friend; message = transaction (envelope 7) } ∷ [];
  max_peers = 300;
  peer_count = 1;
  is_shutdown = false;
  ble_conn_rx = none;
  ble_central_scanner = none;
}

send_to_at-Conserves_example :
    Conserves radio radio-LinksLaws [] sleeper
      (transaction (envelope 2))
      (send_to_at radio [] sleeper friend (transaction (envelope 2)) (at 300700))
send_to_at-Conserves_example =
    send_to_at-Conserves radio radio-LinksLaws [] sleeper friend (transaction (envelope 2))
      (at 300700)

power_tick_at-Woken_example :
    Woken radio radio-LinksLaws [] sleeper
      (power_tick_at radio [] sleeper (at (next_awake_barrier 300600)))
power_tick_at-Woken_example =
    power_tick_at-Woken radio radio-LinksLaws [] sleeper 300600 (at (next_awake_barrier 300600))
      (omega arith) refl refl refl

abbrev calls : List (Call radio)
calls =
    connects friend (some bob)
    ∷ sends friend (transaction (envelope 1)) (at 5)
    ∷ receives (at 6)
    ∷ registers friend friend
    ∷ disconnects bob
    ∷ []

run-with_power_manager-IsCounted_example :
    IsCounted (Runs.run radio ([], with_power_manager auto (Power.new 0)) calls).1
run-with_power_manager-IsCounted_example =
    run-with_power_manager-IsCounted radio [] auto (Power.new 0) calls

-- Every send fails.
abbrev deaf : Links
deaf = record radio { send = λ env c msg. (env, c, some connection_refused) }

abbrev two_waiting : Manager deaf
two_waiting = record sleeper {
  pending_messages =
      record { peer = friend; message = transaction (envelope 7) }
      ∷ record { peer = friend; message = transaction (envelope 8) }
      ∷ [];
}

ticks-power_tick_at_example :
    let s = (power_tick_at deaf [] two_waiting (at 305000)).0 in
    (ticks deaf s.0 s.1 (at 310000 ∷ at 315000 ∷ [])).1.pending_messages ≡ s.1.pending_messages
unfolding power_tick_at process_ble_incoming rotate flush send_now tick HashMap.get bytes_eq
ticks-power_tick_at_example =
    ticks-power_tick_at deaf [] two_waiting (at 305000) connection_refused
      (at 310000 ∷ at 315000 ∷ []) refl

-- Alice connects.
abbrev caller : BleCentral
unfolding Identity.new central with_local_peer
caller = with_local_peer (central friend (1 ∷ 2 ∷ 3 ∷ 4 ∷ 5 ∷ 6 ∷ []) 0) (Identity.new alice)

abbrev boxed : BlePeripheral → PeerIdentity
boxed p = p.remote_peer

abbrev listener : Listener PeerIdentity
listener = record { reassembler = Chunks.new; channel = [] }

get-process_ble_incoming_example :
    (s' : Listener PeerIdentity) × (listen greetings boxed 300 1
        (λ n. n)
        listener
        (scan_and_connect greetings caller 5).1
      ≡ some s')
    × (HashMap.get alice
          (process_ble_incoming radio (listening radio sleeper s')).active_connections
        ≡ some (boxed (peripheral (Identity.new alice))))
    × ((msg : ProtocolMessage) (new_id : ℕ)
        → Ble.send greetings (peripheral (Identity.new alice)).state msg new_id
          ≡ ([], some not_connected))
unfolding Identity.new central with_local_peer Chunks.new buffer HashMap.get
get-process_ble_incoming_example =
    get-process_ble_incoming radio greetings boxed caller (1 ∷ alice) 5 listener sleeper 1 (λ n. n)
      greetings-EncodingLaws refl (omega arith) (omega arith) (omega arith) refl (omega arith)
      (omega arith)
