-- ===== src/Client/Connection.antt =====
-- client/connection.rs: the operations on a connection of a client. A `none` is a panic.
use bevy_quinnet.Base.{ℕ, ◌*◌, List, [], ◌∷◌, Option, none, some, Result, ok, err, map_err}
use bevy_quinnet.Error.{AsyncChannelError, ChannelCloseError, ChannelCreationError}
use bevy_quinnet.Config.{
  ChannelConfig, SendChannelsConfiguration, CloseReason, local_order, peer_closed,
}
use bevy_quinnet.Buffer.{Bytes}
use bevy_quinnet.IdPool
use bevy_quinnet.IdPool.{ChannelsIdsPool, take_id, release_id}
use bevy_quinnet.Peer.{
  internal_send_payload, internal_close_channel, create_connection_channel,
  create_unregistered_connection_channel, register_connection_channel, close, internal_reset,
  default_message_queue_size, default_kill_message_queue_size,
}
use bevy_quinnet.Peer.Receive.{internal_receive_payload}
use bevy_quinnet.Client.{
  ClientNet, ClientSideConnection, ClientSendError, ClientPayloadSendError,
  ClientConnectionCloseError, already_closed, InternalConnectionState, ConnectionState,
  ConnectionClosed, closed_connection,
}

-- `ConnectionState::from`
unfoldable pub from_internal : {H : Type 0} → InternalConnectionState H → ConnectionState
from_internal InternalConnectionState.connecting = ConnectionState.connecting
from_internal (InternalConnectionState.connected h client_id) = ConnectionState.connected
from_internal InternalConnectionState.disconnected = ConnectionState.disconnected

module _ (V : ClientNet) where
  -- The ends of the queues of a connection, sync and async.
  pub record Ends : Type 0 where
    pub bytes_from_server_send : V.net.received.Sender
    pub bytes_from_server_recv : V.net.received.Receiver
    pub to_sync_client_send : V.asyncs.Sender
    pub to_sync_client_recv : V.asyncs.Receiver
    pub from_channels_send : V.net.channel_asyncs.Sender
    pub from_channels_recv : V.net.channel_asyncs.Receiver
    pub to_channels_send : V.net.channel_syncs.Sender
    pub to_channels_recv : V.net.channel_syncs.Receiver
    pub close_send : V.net.closes.Sender

  unfoldable pub create_client_connection_async_channels : V.net.World → Ends × V.net.World
  create_client_connection_async_channels w =
      let (s1, r1, w1) = V.net.received.channel default_message_queue_size w in
      let (s2, r2, w2) = V.asyncs.channel 100 w1 in
      let (s3, r3, w3) = V.net.channel_asyncs.channel 100 w2 in
      let (s4, r4, w4) = V.net.channel_syncs.channel (2 * 256) w3 in
      let (s5, w5) = V.net.closes.channel default_kill_message_queue_size w4 in
      (
        record {
          bytes_from_server_send = s1;
          bytes_from_server_recv = r1;
          to_sync_client_send = s2;
          to_sync_client_recv = r2;
          from_channels_send = s3;
          from_channels_recv = r3;
          to_channels_send = s4;
          to_channels_recv = r4;
          close_send = s5;
        },
        w5,
      )

  unfoldable pub set_state :
      ClientSideConnection V → InternalConnectionState V.types.Handle → ClientSideConnection V
  set_state c state = record c { specific = record (c.specific) { state = state } }

  abbrev pub set_ids : ClientSideConnection V → ChannelsIdsPool → ClientSideConnection V
  set_ids c ids = record c { specific = record (c.specific) { send_channel_ids = ids } }

  unfoldable pub send_payload_on :
      ClientSideConnection V
      → ℕ
      → Bytes
      → V.net.World
      → Result (Unit {0}) ClientSendError × ClientSideConnection V × V.net.World
  send_payload_on c channel_id payload w = elim c.specific.state [
    | InternalConnectionState.disconnected ↦ (err ClientSendError.connection_closed, c, w)
    | InternalConnectionState.connecting ↦
        (let (sent, c', w') = internal_send_payload V.net c channel_id payload w in
          (map_err ClientSendError.connection_send_error sent, c', w'))
    | InternalConnectionState.connected _ _ ↦
        (let (sent, c', w') = internal_send_payload V.net c channel_id payload w in
          (map_err ClientSendError.connection_send_error sent, c', w'))
  ]

  unfoldable pub send_payload :
      ClientSideConnection V
      → Bytes
      → V.net.World
      → Result (Unit {0}) ClientPayloadSendError × ClientSideConnection V × V.net.World
  send_payload c payload w = elim c.specific.send_channel_ids.default_channel [
    | some channel ↦
        (let (sent, c', w') = send_payload_on c channel payload w in
          (map_err ClientPayloadSendError.send_error sent, c', w'))
    | none ↦ (err ClientPayloadSendError.no_default_channel, c, w)
  ]

  unfoldable pub open_channel :
      ClientSideConnection V
      → ChannelConfig
      → V.net.World
      → Result ℕ ChannelCreationError × ClientSideConnection V × V.net.World
  open_channel c channel_config w =
      let (taken, ids) = take_id c.specific.send_channel_ids in
      elim taken [
        | ok channel_id ↦
            (let (answer, c', w') =
                create_connection_channel V.net (set_ids c ids) channel_id channel_config w in
              (
                elim answer [
                  | ok _ ↦ ok channel_id
                  | err x ↦ err (ChannelCreationError.async_channel_error x)
                ],
                c',
                w',
              ))
        | err x ↦ (err x, set_ids c ids, w)
      ]

  unfoldable pub close_channel :
      ClientSideConnection V
      → ℕ
      → V.net.World
      → Result (Unit {0}) ChannelCloseError × ClientSideConnection V × V.net.World
  close_channel c channel_id w =
      let (answer, c', w') = internal_close_channel V.net c channel_id w in
      (
        answer,
        elim answer [
          | ok _ ↦ set_ids c' (release_id c'.specific.send_channel_ids channel_id)
          | err _ ↦ c'
        ],
        w',
      )

  abbrev pub Configuring : Type 0
  Configuring = Option (Result (Unit {0}) AsyncChannelError × ClientSideConnection V × V.net.World)

  -- The loop of `open_configured_channels`, with `take_id().unwrap()`.
  unfoldable pub open_configs :
      List ChannelConfig → ClientSideConnection V → V.net.World → Configuring
  open_configs [] c w = some (ok tt, c, w)
  open_configs (channel_config ∷ rest) c w =
      let (taken, ids) = take_id c.specific.send_channel_ids in
      elim taken [
        | ok channel_id ↦
            (let (created, w') =
                create_unregistered_connection_channel V.net (set_ids c ids) channel_id
                  channel_config w in
              elim created [
                | ok channel ↦
                    open_configs rest (register_connection_channel V.net (set_ids c ids) channel) w'
                | err x ↦ some (err x, set_ids c (release_id ids channel_id), w')
              ])
        | err _ ↦ none
      ]

  unfoldable pub open_configured_channels :
      ClientSideConnection V → SendChannelsConfiguration → V.net.World → Configuring
  open_configured_channels c channel_configs w = open_configs channel_configs.channels c w

  unfoldable pub internal_disconnect :
      ClientSideConnection V
      → CloseReason
      → V.net.World
      → Result (Unit {0}) ClientConnectionCloseError × ClientSideConnection V × V.net.World
  internal_disconnect c reason w =
      let c' = set_state c InternalConnectionState.disconnected in
      let (answer, w') = close V.net c' reason w in
      elim c.specific.state [
        | InternalConnectionState.disconnected ↦ (ok tt, c, w)
        | InternalConnectionState.connecting ↦ (map_err already_closed answer, c', w')
        | InternalConnectionState.connected _ _ ↦ (map_err already_closed answer, c', w')
      ]

  unfoldable pub disconnect :
      ClientSideConnection V
      → V.net.World
      → Result (Unit {0}) ClientConnectionCloseError × ClientSideConnection V × V.net.World
  disconnect c w = internal_disconnect c local_order w

  -- It logs the error instead.
  unfoldable pub try_disconnect_closed_connection :
      ClientSideConnection V → V.net.World → ClientSideConnection V × V.net.World
  try_disconnect_closed_connection c w =
      let (_, c', w') = internal_disconnect c peer_closed w in (c', w')

  -- The state that `reconnect` starts again from, on the new queues.
  unfoldable pub reset_for : ClientSideConnection V → Ends → ClientSideConnection V
  reset_for c ends =
      let c' = record c {
        specific = record (c.specific) {
          state = InternalConnectionState.connecting;
          send_channel_ids = IdPool.new;
          from_async_client_recv = ends.to_sync_client_recv;
        };
      } in
      internal_reset V.net c' ends.close_send ends.to_channels_send ends.from_channels_recv
        ends.bytes_from_server_recv

  unfoldable pub reopen : ClientSideConnection V → V.net.World → Configuring
  reopen c w =
      let (ends, w') = create_client_connection_async_channels w in
      elim (open_configured_channels (reset_for c ends) c.specific.channels_config w') [
        | some (ok _, c', w'') ↦ some (
          ok tt,
          c',
          V.spawn
              (record {
                local_id = c.specific.local_id;
                endpoint_config = c.specific.addr_config;
                cert_mode = c.specific.cert_mode;
              })
              ends.to_sync_client_send ends.bytes_from_server_send ends.to_channels_recv
              ends.from_channels_send w'',
        )
        | some (err x, c', w'') ↦ some (err x, c', w'')
        | none ↦ none
      ]

  unfoldable pub reconnect : ClientSideConnection V → V.net.World → Configuring
  unfolding reopen
  reconnect c w = elim c.specific.state [
    | InternalConnectionState.disconnected ↦ reopen c w
    | InternalConnectionState.connecting ↦ some (ok tt, c, w)
    | InternalConnectionState.connected _ _ ↦ some (ok tt, c, w)
  ]

  unfoldable pub client_id : ClientSideConnection V → Option ℕ
  client_id c = elim c.specific.state [
    | InternalConnectionState.connected _ id ↦ id
    | InternalConnectionState.connecting ↦ none
    | InternalConnectionState.disconnected ↦ none
  ]

  unfoldable pub receive_payload :
      ClientSideConnection V → ℕ → Result (Option Bytes) ConnectionClosed × ClientSideConnection V
  receive_payload c channel_id =
      let (payload, c') = internal_receive_payload V.net c channel_id in
      elim c.specific.state [
        | InternalConnectionState.disconnected ↦ (err closed_connection, c)
        | InternalConnectionState.connecting ↦ (ok payload, c')
        | InternalConnectionState.connected _ _ ↦ (ok payload, c')
      ]
