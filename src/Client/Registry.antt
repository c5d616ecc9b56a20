-- ===== src/Client/Registry.antt =====
-- QuinnetClient of client.rs: the connections of a client, and the default one. A `none` is a panic.
use bevy_quinnet.Base.{
  ℕ, ◌+◌, ◌%◌, ◌^◌, List, [], ◌∷◌, Option, none, some, Result, ok, err, Bool, if◌then◌else◌, true,
  false,
}
use bevy_quinnet.Base.HashMap
use bevy_quinnet.Base.HashMap.{HashMap}
use bevy_quinnet.Error.{AsyncChannelError}
use bevy_quinnet.IdPool.{or_id, is_some_id}
use bevy_quinnet.Peer.{new_connection}
use bevy_quinnet.Client.{
  ClientNet, ClientSideConnection, ClientConnectionCloseError, ConnectionState,
  ClientConnectionConfiguration, new_client_connection,
}
use bevy_quinnet.Client.Connection.{
  from_internal, create_client_connection_async_channels, open_configured_channels, disconnect,
  Ends,
}

abbrev pub is_state : ConnectionState → ConnectionState → Bool
is_state ConnectionState.connecting ConnectionState.connecting = true
is_state ConnectionState.connected ConnectionState.connected = true
is_state ConnectionState.disconnected ConnectionState.disconnected = true
is_state _ _ = false

module _ (V : ClientNet) where
  pub record QuinnetClient : Type 0 where
    pub connections : HashMap (ClientSideConnection V)
    pub connection_local_id_gen : ℕ
    pub default_connection_id : Option ℕ

  -- `QuinnetClient::new`
  unfoldable pub new_client : QuinnetClient
  new_client = record {
    connections = [];
    connection_local_id_gen = 0;
    default_connection_id = none;
  }

  unfoldable pub get_connection : QuinnetClient → Option (ClientSideConnection V)
  get_connection q = elim q.default_connection_id [
    | some id ↦ HashMap.get id q.connections
    | none ↦ none
  ]

  -- `is_connecting`, `is_connected` and `is_disconnected`, which is also true of no connection.
  unfoldable pub is_connecting : QuinnetClient → Bool
  is_connecting q = elim (get_connection q) [
    | some c ↦ is_state (from_internal c.specific.state) ConnectionState.connecting
    | none ↦ false
  ]

  unfoldable pub is_connected : QuinnetClient → Bool
  is_connected q = elim (get_connection q) [
    | some c ↦ is_state (from_internal c.specific.state) ConnectionState.connected
    | none ↦ false
  ]

  unfoldable pub is_disconnected : QuinnetClient → Bool
  is_disconnected q = elim (get_connection q) [
    | some c ↦ is_state (from_internal c.specific.state) ConnectionState.disconnected
    | none ↦ true
  ]

  -- The connection that `open_connection` builds on new queues, before its channels.
  unfoldable pub fresh_connection :
      ℕ → ClientConnectionConfiguration V.types → Ends V → ClientSideConnection V
  fresh_connection local_id config ends =
      new_connection V.net
        (new_client_connection V local_id config.addr_config config.cert_mode
          config.send_channels_cfg ends.to_sync_client_recv)
        ends.bytes_from_server_recv ends.close_send ends.from_channels_recv ends.to_channels_send
        config.recv_channels_cfg

  -- The id is a `u64`. It is used up even when the channels cannot be opened.
  unfoldable pub open_connection :
      QuinnetClient
      → ClientConnectionConfiguration V.types
      → V.net.World
      → Option (Result ℕ AsyncChannelError × QuinnetClient × V.net.World)
  open_connection q config w =
      let local_id = q.connection_local_id_gen in
      let q' = record q { connection_local_id_gen = (local_id + 1) % 2 ^ 64 } in
      let (ends, w') = create_client_connection_async_channels V w in
      elim (open_configured_channels V (fresh_connection local_id config ends)
        config.send_channels_cfg w') [
          | some (ok _, connection, w'') ↦ some (
            ok local_id,
            record q' {
              connections = HashMap.insert local_id connection q.connections;
              default_connection_id = or_id q.default_connection_id local_id;
            },
            V.spawn
                (record {
                  local_id = local_id;
                  endpoint_config = config.addr_config;
                  cert_mode = config.cert_mode;
                })
                ends.to_sync_client_send ends.bytes_from_server_send ends.to_channels_recv
                ends.from_channels_send w'',
          )
          | some (err x, _, w'') ↦ some (err x, q', w'')
          | none ↦ none
        ]

  unfoldable pub set_default_connection : QuinnetClient → ℕ → QuinnetClient
  set_default_connection q connection_id = record q { default_connection_id = some connection_id }

  unfoldable pub close_connection :
      QuinnetClient
      → ℕ
      → V.net.World
      → Result (Unit {0}) ClientConnectionCloseError × QuinnetClient × V.net.World
  close_connection q connection_id w = elim (HashMap.get connection_id q.connections) [
    | some connection ↦
        (let (answer, _, w') = disconnect V connection w in
          (
            answer,
            record q {
              connections = HashMap.remove connection_id q.connections;
              default_connection_id =
                  if is_some_id q.default_connection_id connection_id
                  then none
                  else q.default_connection_id;
            },
            w',
          ))
    | none ↦ (err (ClientConnectionCloseError.invalid_connection_id connection_id), q, w)
  ]

  unfoldable pub close_each : List ℕ → QuinnetClient → V.net.World → QuinnetClient × V.net.World
  close_each [] q w = (q, w)
  close_each (connection_id ∷ rest) q w =
      let (_, q', w') = close_connection q connection_id w in close_each rest q' w'

  unfoldable pub close_all_connections : QuinnetClient → V.net.World → QuinnetClient × V.net.World
  close_all_connections q w = close_each (HashMap.keys q.connections) q w
