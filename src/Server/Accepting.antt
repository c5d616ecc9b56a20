-- ===== src/Server/Accepting.antt =====
-- The tasks of server.rs in which an endpoint accepts connections: endpoint_task and
-- client_connection_task. The feature `shared-client-id` is on. The calls on `quinn` and
-- `tokio::spawn` are parameters, and `none` is a panic.
pub mod Announced
mod Tests
use bevy_quinnet.Base.{
  ℕ, List, [], ◌∷◌, ◌*◌, Option, none, some, Result, ok, err, Bool, if◌then◌else◌,
}
use bevy_quinnet.Peer.{
  new_connection, RecvChannelsConfiguration, default_message_queue_size,
  default_kill_message_queue_size,
}
use bevy_quinnet.Server.{
  ServerNet, ServerSideConnection, ServerSyncMessage, client_connected, client_connection_closed,
  client_connected_ack,
}
use bevy_quinnet.Server.Start.{default_internal_messages_channel_size}
use bevy_quinnet.Tasks.Receiver.{Turn, close_signal, next}

module _ (V : ServerNet) where
  -- The tasks that are spawned for a client: the one that sends its id, the one that waits for the
  -- end of the connection, and those that spawn_recv_channels_tasks and
  -- spawn_send_channels_tasks_spawner spawn.
  pub data ClientTask : Type 0 where
    client_id_sender_task : V.Handle → ℕ → V.net.channel_asyncs.Sender → ClientTask
    closed_task : V.Handle → ℕ → V.asyncs.Sender → ClientTask
    recv_channels_tasks : V.Handle → ℕ → V.net.received.Sender → ClientTask
    send_channels_tasks_spawner :
        V.Handle → V.net.channel_syncs.Receiver → V.net.channel_asyncs.Sender → ClientTask

  -- `spawn_connection` starts client_connection_task; `recv` is what the task awaits.
  pub record Runtime : Type 0 where
    pub spawn : ClientTask → V.net.World → V.net.World
    pub spawn_connection : V.Handle → V.net.World → V.net.World
    pub is_closed : V.asyncs.Sender → V.net.World → Bool
    pub recv : V.syncs.Receiver → V.net.World → Option ServerSyncMessage × V.net.World

  -- The ends that the task keeps.
  pub record TaskEnds : Type 0 where
    pub bytes_from_client_send : V.net.received.Sender
    pub from_sync_server_recv : V.syncs.Receiver
    pub from_channels_send : V.net.channel_asyncs.Sender
    pub to_channels_recv : V.net.channel_syncs.Receiver

  abbrev pub Channels : Type 0
  Channels = ServerSideConnection V × TaskEnds × V.net.World

  -- The queues of a new connection, and the connection.
  abbrev pub create_channels : V.Handle → RecvChannelsConfiguration → V.net.World → Channels
  create_channels connection_handle recv_channels_cfg w =
      let (client_close_send, w1) = V.net.closes.channel default_kill_message_queue_size w in
      let (s2, r2, w2) = V.net.received.channel default_message_queue_size w1 in
      let (s3, r3, w3) = V.syncs.channel default_internal_messages_channel_size w2 in
      let (s4, r4, w4) = V.net.channel_asyncs.channel default_internal_messages_channel_size w3 in
      let (s5, r5, w5) = V.net.channel_syncs.channel (2 * 256) w4 in
      (
        new_connection V.net
            (record { connection_handle = connection_handle; to_connection_send = s3 }) r2
            client_close_send r4 s5 recv_channels_cfg,
        record {
          bytes_from_client_send = s2;
          from_sync_server_recv = r3;
          from_channels_send = s4;
          to_channels_recv = r5;
        },
        w5,
      )

  -- The task up to its `recv`: the endpoint is told of the connection.
  unfoldable pub announce :
      V.Handle
      → V.asyncs.Sender
      → RecvChannelsConfiguration
      → V.net.World
      → Option (TaskEnds × V.net.World)
  announce connection_handle to_sync_endpoint_send recv_channels_cfg w =
      let (connection, ends, w1) = create_channels connection_handle recv_channels_cfg w in
      let (sent, w2) = V.asyncs.send to_sync_endpoint_send (client_connected connection) w1 in
      elim sent [ ok u ↦ some (ends, w2) | err e ↦ none ]

  module _ (q : Runtime) where
    -- The `match` on the answer of the endpoint.
    unfoldable pub on_ack :
        V.Handle → V.asyncs.Sender → TaskEnds → Option ServerSyncMessage → V.net.World → V.net.World
    on_ack connection_handle to_sync_endpoint_send ends none w = w
    on_ack connection_handle to_sync_endpoint_send ends (some (client_connected_ack client_id)) w =
        q.spawn
          (send_channels_tasks_spawner connection_handle ends.to_channels_recv
            ends.from_channels_send)
          (q.spawn (recv_channels_tasks connection_handle client_id ends.bytes_from_client_send) (
            q.spawn (closed_task connection_handle client_id to_sync_endpoint_send) (
              q.spawn (client_id_sender_task connection_handle client_id ends.from_channels_send)
                w)))

    unfoldable pub client_connection_task :
        V.Handle → V.asyncs.Sender → RecvChannelsConfiguration → V.net.World → Option V.net.World
    unfolding announce on_ack
    client_connection_task connection_handle to_sync_endpoint_send recv_channels_cfg w =
        elim (announce connection_handle to_sync_endpoint_send recv_channels_cfg w) [
          | none ↦ none
          | some (ends, w1) ↦
              (let (answer, w2) = q.recv ends.from_sync_server_recv w1 in
                some (on_ack connection_handle to_sync_endpoint_send ends answer w2))
        ]

    -- The spawned task, once the connection is closed.
    unfoldable pub on_closed : ℕ → V.asyncs.Sender → V.net.World → Option V.net.World
    on_closed client_id to_sync_server w =
        let (sent, w') = V.asyncs.send to_sync_server (client_connection_closed client_id) w in
        if q.is_closed to_sync_server w then some w else elim sent [ ok u ↦ some w' | err e ↦ none ]

    -- The `select!` of endpoint_task, on what it meets: the close signal, or the connections.
    unfoldable pub endpoint_task :
        {E : Type 0} → List (Turn (Option (Result V.Handle E))) → V.net.World → V.net.World
    endpoint_task [] w = w
    endpoint_task (close_signal ∷ turns) w = w
    endpoint_task (next none ∷ turns) w = w
    endpoint_task (next (some (err e)) ∷ turns) w = endpoint_task turns w
    endpoint_task (next (some (ok connection)) ∷ turns) w =
        endpoint_task turns (q.spawn_connection connection w)
