-- ===== src/Server/Connections.antt =====
-- server/endpoint.rs: clients that come and go, and what they sent.
use bevy_quinnet.Base.{
  ℕ, ◌+◌, ◌%◌, ◌^◌, [], ◌∷◌, Option, none, some, Result, ok, err, map_err, Bool, map,
}
use bevy_quinnet.Base.HashMap
use bevy_quinnet.Base.HashMap.{HashMap}
use bevy_quinnet.Error.{AsyncChannelError, internal_channel_closed}
use bevy_quinnet.Config.{ChannelConfig, CloseReason, local_order, peer_closed}
use bevy_quinnet.Buffer.{Bytes}
use bevy_quinnet.Peer.{create_connection_channel, try_close, close}
use bevy_quinnet.Peer.Receive.{internal_receive_payload, clear_received_payloads}
use bevy_quinnet.Server.{
  ServerNet, ServerSideConnection, Endpoint, ServerDisconnectError, ServerReceiveError,
  client_connected_ack, EndpointStats,
}

abbrev pub count_connect : EndpointStats → EndpointStats
count_connect s = record s { connect_count = (s.connect_count + 1) % 2 ^ 32 }

abbrev pub count_disconnect : EndpointStats → EndpointStats
count_disconnect s = record s { disconnect_count = (s.disconnect_count + 1) % 2 ^ 32 }

module _ (V : ServerNet) where
  unfoldable pub internal_disconnect_client :
      Endpoint V
      → ℕ
      → CloseReason
      → V.net.World
      → Result (Unit {0}) ServerDisconnectError × Endpoint V × V.net.World
  internal_disconnect_client e client_id reason w = elim (HashMap.get client_id e.clients) [
    | some client_connection ↦
        (let (answer, w') = close V.net client_connection reason w in
          (
            map_err (λ _. ServerDisconnectError.client_already_disconnected client_id) answer,
            record e {
              clients = HashMap.remove client_id e.clients;
              stats = count_disconnect e.stats;
            },
            w',
          ))
    | none ↦ (err (ServerDisconnectError.unknown_client client_id), e, w)
  ]

  unfoldable pub disconnect_client :
      Endpoint V
      → ℕ
      → V.net.World
      → Result (Unit {0}) ServerDisconnectError × Endpoint V × V.net.World
  disconnect_client e client_id w = internal_disconnect_client e client_id local_order w

  -- The two that log the error instead.
  unfoldable pub try_disconnect_client : Endpoint V → ℕ → V.net.World → Endpoint V × V.net.World
  unfolding disconnect_client
  try_disconnect_client e client_id w =
      let (_, e', w') = disconnect_client e client_id w in (e', w')

  unfoldable pub try_disconnect_closed_client :
      Endpoint V → ℕ → V.net.World → Endpoint V × V.net.World
  try_disconnect_closed_client e client_id w =
      let (_, e', w') = internal_disconnect_client e client_id peer_closed w in (e', w')

  unfoldable pub close_all : HashMap (ServerSideConnection V) → V.net.World → V.net.World
  close_all [] w = w
  close_all ((client_id, connection) ∷ rest) w =
      close_all rest (close V.net connection local_order w).1

  unfoldable pub disconnect_all_clients : Endpoint V → V.net.World → Endpoint V × V.net.World
  disconnect_all_clients e w = (record e { clients = [] }, close_all e.clients w)

  -- The loop of `handle_new_connection`: the opened channels are created on the new connection. At
  -- the first failure the connection is closed.
  unfoldable pub open_channels_on :
      HashMap ChannelConfig
      → ServerSideConnection V
      → V.net.World
      → Result (ServerSideConnection V) AsyncChannelError × V.net.World
  open_channels_on [] connection w = (ok connection, w)
  open_channels_on ((channel_id, channel_type) ∷ rest) connection w =
      let (answer, connection', w') =
        create_connection_channel V.net connection channel_id channel_type w in
      elim answer [
        | ok _ ↦ open_channels_on rest connection' w'
        | err x ↦ (err x, try_close V.net connection' local_order w')
      ]

  unfoldable pub accept_connection :
      Endpoint V
      → ServerSideConnection V
      → V.net.World
      → Result ℕ AsyncChannelError × Endpoint V × V.net.World
  accept_connection e connection w =
      let client_id = (e.client_id_gen + 1) % 2 ^ 64 in
      let (answer, w') =
        V.syncs.try_send connection.specific.to_connection_send (client_connected_ack client_id)
          w in
      elim answer [
        | ok _ ↦ (
          ok client_id,
          record e {
            clients = HashMap.insert client_id connection e.clients;
            client_id_gen = client_id;
            stats = count_connect e.stats;
          },
          w',
        )
        | err _ ↦ (
          err internal_channel_closed,
          record e { client_id_gen = client_id },
          try_close V.net connection local_order w',
        )
      ]

  unfoldable pub handle_new_connection :
      Endpoint V
      → ServerSideConnection V
      → V.net.World
      → Result ℕ AsyncChannelError × Endpoint V × V.net.World
  handle_new_connection e connection w =
      let (opened, w') = open_channels_on e.opened_channels connection w in
      elim opened [ ok connection' ↦ accept_connection e connection' w' | err x ↦ (err x, e, w') ]

  unfoldable pub receive_payload :
      Endpoint V → ℕ → ℕ → Result (Option Bytes) ServerReceiveError × Endpoint V
  receive_payload e client_id channel_id = elim (HashMap.get client_id e.clients) [
    | some connection ↦
        (let (payload, connection') = internal_receive_payload V.net connection channel_id in
          (ok payload, record e { clients = HashMap.insert client_id connection' e.clients }))
    | none ↦ (err (ServerReceiveError.unknown_client client_id), e)
  ]

  unfoldable pub clear_payloads_from_clients : Endpoint V → Endpoint V
  clear_payloads_from_clients e = record e {
    clients = map (λ entry. (entry.0, clear_received_payloads V.net entry.1)) e.clients;
  }

  unfoldable pub set_clear_stale_client_payloads : Endpoint V → Bool → Endpoint V
  set_clear_stale_client_payloads e enable = record e {
    recv_channels_cfg = record (e.recv_channels_cfg) { clear_stale_received_payloads = enable };
  }
