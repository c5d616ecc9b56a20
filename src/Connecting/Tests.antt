-- ===== src/Connecting/Tests.antt =====
-- A client that connects and is told its id. The world is the queue of its messages.
use bevy_quinnet.Base.{◌≡◌, refl, List, [], ◌∷◌, ◌++◌, some, ok, true, false, arith}
use bevy_quinnet.Buffer.{big_endian, big_endian_laws}
use bevy_quinnet.Certificate.{skip_verification}
use bevy_quinnet.Net.Example.{sink_net, queue, queue_laws}
use bevy_quinnet.Peer.{new_connection}
use bevy_quinnet.Client.{
  Types, ClientNet, ClientSideConnection, ClientAsyncMessage, ConnectionState,
  new_client_connection, ClientAddrConfiguration, AsyncConnectionConfig,
}
use bevy_quinnet.Client.Connection.{from_internal}
use bevy_quinnet.Client.Events.{connection_event, handle_messages}
use bevy_quinnet.ClientId.{client_id_bytes}
use bevy_quinnet.Connecting.{Quinn, TaskEnds, async_connection_task}
use bevy_quinnet.Connecting.Reported.{IsUp, connects_with_id}
use bevy_quinnet.Connecting.Outcomes.{outcome, async_connection_task_lem}
use bevy_quinnet.Tasks.{ended}
use bevy_quinnet.Tasks.Receiver.{close_signal, next}
use bevy_quinnet.Tasks.Receiver.Arrival.{IsOpen}

abbrev types : Types
types = record {
  Handle = Unit {0};
  QuicError = Unit {0};
  ServerName = Unit {0};
  ActionSender = Unit {0};
  SocketAddr = Unit {0};
  Text = Unit {0};
}

abbrev World : Type 0
World = List (ClientAsyncMessage types)

abbrev client_net : ClientNet
client_net = record {
  net = sink_net World true true;
  types = types;
  asyncs = queue (ClientAsyncMessage types);
  spawn = λ config s1 s2 r3 s4 w. w;
}

-- The server tells the client that its id is 7.
abbrev quinn : Quinn client_net
quinn = record {
  ClientConfig = Unit {0};
  QuinnEndpoint = Unit {0};
  Connecting = Unit {0};
  configure = λ mode s w. ok tt;
  client = λ a w. (ok tt, w);
  set_default_client_config = λ e cfg w. w;
  connect = λ e a n w. (ok tt, w);
  connected = λ c w. (ok tt, w);
  spawn = λ t w. w;
  is_closed = λ s w. false;
  client_id_turn = λ h w. (next (ok (some (ok (client_id_bytes big_endian 7 ++ [])))), w);
}

-- The close signal comes before the id.
abbrev interrupting : Quinn client_net
interrupting = record quinn { client_id_turn = λ h w. (close_signal, w) }

quinn-IsUp : IsUp client_net big_endian quinn (queue_laws (ClientAsyncMessage types)) tt
quinn-IsUp = record {
  configure_ok = λ mode s w. (tt, refl);
  client_ok = λ a w. (tt, refl);
  connect_ok = λ e a n w. (tt, refl);
  client_kept = λ a w. refl;
  set_kept = λ e cfg w. refl;
  connect_kept = λ e a n w. refl;
  connected_kept = λ c w. refl;
  spawn_kept = λ t w. refl;
  turn_kept = λ h w. refl;
}

interrupting-IsUp :
    IsUp client_net big_endian interrupting (queue_laws (ClientAsyncMessage types)) tt
interrupting-IsUp = record {
  configure_ok = λ mode s w. (tt, refl);
  client_ok = λ a w. (tt, refl);
  connect_ok = λ e a n w. (tt, refl);
  client_kept = λ a w. refl;
  set_kept = λ e cfg w. refl;
  connect_kept = λ e a n w. refl;
  connected_kept = λ c w. refl;
  spawn_kept = λ t w. refl;
  turn_kept = λ h w. refl;
}

queue-IsOpen : IsOpen client_net.asyncs (queue_laws (ClientAsyncMessage types)) tt tt
queue-IsOpen = record { send_ok = λ a w. refl; send_backlog = λ a w. refl }

abbrev ends : TaskEnds client_net
ends = record {
  to_sync_client_send = tt;
  bytes_from_server_send = tt;
  to_channels_recv = tt;
  from_channels_send = tt;
}

abbrev addr : ClientAddrConfiguration (Unit {0}) (Unit {0})
addr = record { server_addr = tt; server_hostname = tt; local_bind_addr = tt }

abbrev config : AsyncConnectionConfig types
config = record { local_id = 0; endpoint_config = addr; cert_mode = skip_verification }

abbrev connection : ClientSideConnection client_net
connection =
    new_connection (sink_net World true true)
      (new_client_connection client_net 0 addr skip_verification (record { channels = [] }) tt) tt
      tt tt tt
      (record {
        max_buffered_payloads_count_per_channel = 2;
        max_receive_channels_count = 3;
        clear_stale_received_payloads = true;
      })

-- The connection is there, and the client closes it before its id came.
async_connection_task_lem_example :
    ((async_connection_task client_net big_endian interrupting config ends []).0 ≡ ended)
    × (c' : ClientSideConnection client_net) × (w' : World) × (handle_messages client_net 2 0
          connection
          (async_connection_task client_net big_endian interrupting config ends []).1
        ≡ some (c', [], w'))
    × (from_internal c'.specific.state ≡ ConnectionState.connecting)
unfolding new_connection new_client_connection outcome from_internal
async_connection_task_lem_example =
    async_connection_task_lem client_net big_endian interrupting
      (queue_laws (ClientAsyncMessage types)) ends tt queue-IsOpen interrupting-IsUp
      (λ r s reason w. refl) config (ok tt) close_signal [] (λ c v. refl) (λ h v. refl) 0 connection
      refl refl refl

connects_with_id_example :
    ((async_connection_task client_net big_endian quinn config ends []).0 ≡ ended)
    × (c' : ClientSideConnection client_net) × (w' : World) × (handle_messages client_net 2 0
          connection
          (async_connection_task client_net big_endian quinn config ends []).1
        ≡ some (c', connection_event 0 (some 7) ∷ [], w'))
    × (from_internal c'.specific.state ≡ ConnectionState.connected)
unfolding new_connection new_client_connection
connects_with_id_example =
    connects_with_id client_net big_endian quinn (queue_laws (ClientAsyncMessage types)) ends tt
      queue-IsOpen quinn-IsUp big_endian_laws (λ r s reason w. refl) config tt 7 [] [] (λ c v. refl)
      (λ h v. refl) (omega arith) 0 connection refl refl
