-- ===== src/Server/Channels.antt =====
-- server/endpoint.rs: opening and closing the channels of an endpoint, on all its connections.
-- A `none` is a panic.
use bevy_quinnet.Base.{ℕ, [], ◌∷◌, Option, none, some, Result, ok, err, map_err}
use bevy_quinnet.Base.HashMap
use bevy_quinnet.Base.HashMap.{HashMap}
use bevy_quinnet.Error.{AsyncChannelError, ChannelCreationError, ChannelCloseError}
use bevy_quinnet.Config.{ChannelConfig}
use bevy_quinnet.IdPool.{take_id, release_id}
use bevy_quinnet.Peer.{
  Channel, create_unregistered_connection_channel, register_connection_channel,
  internal_close_channel,
}
use bevy_quinnet.Server.{ServerNet, ServerSideConnection, Endpoint}

module _ (V : ServerNet) where
  -- The loop of `create_unregistered_endpoint_channels`: it stops at the first failure.
  unfoldable pub create_channels :
      HashMap (ServerSideConnection V)
      → ℕ
      → ChannelConfig
      → HashMap (Channel V.net)
      → V.net.World
      → Result (HashMap (Channel V.net)) AsyncChannelError × V.net.World
  create_channels [] channel_id channel_type created w = (ok created, w)
  create_channels ((client_id, connection) ∷ rest) channel_id channel_type created w =
      let (answer, w') =
        create_unregistered_connection_channel V.net connection channel_id channel_type w in
      elim answer [
        | ok channel ↦
            create_channels rest channel_id channel_type (HashMap.insert client_id channel created)
              w'
        | err e ↦ (err e, w')
      ]

  unfoldable pub create_unregistered_endpoint_channels :
      Endpoint V
      → ℕ
      → ChannelConfig
      → V.net.World
      → Result (HashMap (Channel V.net)) AsyncChannelError × V.net.World
  create_unregistered_endpoint_channels e channel_id channel_type w =
      create_channels e.clients channel_id channel_type [] w

  -- The loop that registers the created channels; `get_mut(..).unwrap()` panics on an unknown client.
  unfoldable pub register_channels :
      HashMap (Channel V.net)
      → HashMap (ServerSideConnection V)
      → Option (HashMap (ServerSideConnection V))
  register_channels [] clients = some clients
  register_channels ((client_id, channel) ∷ rest) clients = elim (HashMap.get client_id clients) [
    | some connection ↦
        register_channels rest
          (HashMap.insert client_id (register_connection_channel V.net connection channel) clients)
    | none ↦ none
  ]

  unfoldable pub commit_channels :
      Endpoint V → ℕ → ChannelConfig → HashMap (Channel V.net) → Option (Endpoint V)
  commit_channels e channel_id channel_type created = elim (register_channels created e.clients) [
    | some clients ↦ some (record e {
      clients = clients;
      opened_channels = HashMap.insert channel_id channel_type e.opened_channels;
    })
    | none ↦ none
  ]

  abbrev pub Opening : Type 0 → Type 0
  Opening E = Option (Result ℕ E × Endpoint V × V.net.World)

  unfoldable pub create_endpoint_channel :
      Endpoint V → ℕ → ChannelConfig → V.net.World → Opening AsyncChannelError
  create_endpoint_channel e channel_id channel_type w =
      let (created, w') = create_unregistered_endpoint_channels e channel_id channel_type w in
      elim created [
        | ok channels ↦ elim (commit_channels e channel_id channel_type channels) [
          | some e' ↦ some (ok channel_id, e', w')
          | none ↦ none
        ]
        | err x ↦
            some
              (err x, record e { send_channel_ids = release_id e.send_channel_ids channel_id }, w')
      ]

  abbrev pub opening_error : Opening AsyncChannelError → Opening ChannelCreationError
  opening_error none = none
  opening_error (some (r, e, w)) = some (map_err ChannelCreationError.async_channel_error r, e, w)

  unfoldable pub open_channel :
      Endpoint V → ChannelConfig → V.net.World → Opening ChannelCreationError
  open_channel e channel_type w =
      let (taken, ids) = take_id e.send_channel_ids in
      elim taken [
        | ok channel_id ↦ opening_error (
            create_endpoint_channel (record e { send_channel_ids = ids }) channel_id channel_type w)
        | err x ↦ some (err x, record e { send_channel_ids = ids }, w)
      ]

  -- `take_id().unwrap()`
  unfoldable pub unchecked_open_channel :
      Endpoint V → ChannelConfig → V.net.World → Opening AsyncChannelError
  unchecked_open_channel e channel_type w =
      let (taken, ids) = take_id e.send_channel_ids in
      elim taken [
        | ok channel_id ↦
            create_endpoint_channel (record e { send_channel_ids = ids }) channel_id channel_type w
        | err x ↦ none
      ]

  abbrev pub Closing : Type 0
  Closing = Result (Unit {0}) ChannelCloseError × HashMap (ServerSideConnection V) × V.net.World

  abbrev pub keep_first : ℕ → ServerSideConnection V → Closing → Closing
  keep_first client_id connection (r, rest, w) = (r, (client_id, connection) ∷ rest, w)

  -- The loop of `close_channel`: `?` leaves it at the first failure, and the clients behind as they are.
  unfoldable pub close_on_all : HashMap (ServerSideConnection V) → ℕ → V.net.World → Closing
  close_on_all [] channel_id w = (ok tt, [], w)
  close_on_all ((client_id, connection) ∷ rest) channel_id w =
      let (answer, connection', w') = internal_close_channel V.net connection channel_id w in
      elim answer [
        | ok _ ↦ keep_first client_id connection' (close_on_all rest channel_id w')
        | err x ↦ (err x, (client_id, connection') ∷ rest, w')
      ]

  unfoldable pub close_opened :
      Endpoint V → ℕ → V.net.World → Result (Unit {0}) ChannelCloseError × Endpoint V × V.net.World
  close_opened e channel_id w =
      let (answer, clients, w') = close_on_all e.clients channel_id w in
      let opened = HashMap.remove channel_id e.opened_channels in
      elim answer [
        | ok _ ↦ (
          ok tt,
          record e {
            clients = clients;
            opened_channels = opened;
            send_channel_ids = release_id e.send_channel_ids channel_id;
          },
          w',
        )
        | err x ↦ (err x, record e { clients = clients; opened_channels = opened }, w')
      ]

  unfoldable pub close_channel :
      Endpoint V → ℕ → V.net.World → Result (Unit {0}) ChannelCloseError × Endpoint V × V.net.World
  unfolding close_opened
  close_channel e channel_id w = elim (HashMap.get channel_id e.opened_channels) [
    | some _ ↦ close_opened e channel_id w
    | none ↦ (err (ChannelCloseError.invalid_channel_id channel_id), e, w)
  ]
