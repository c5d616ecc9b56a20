-- ===== src/Server/Events.antt =====
-- server.rs: the server, and the systems that run at each update. The events are in the order in
-- which they are written. `none` means that the fuel is used up.
use bevy_quinnet.Base.{
  ℕ, zero, suc, List, [], ◌∷◌, ◌++◌, Option, none, some, Result, ok, err, Bool, true, false, map,
  if◌then◌else◌,
}
use bevy_quinnet.Base.BTreeSet.{contains}
use bevy_quinnet.Base.HashMap
use bevy_quinnet.Base.HashMap.{HashMap}
use bevy_quinnet.Error.{RecvChannelError}
use bevy_quinnet.Net.{lost_connection}
use bevy_quinnet.Peer.{try_recv_from_channels}
use bevy_quinnet.Peer.Receive.{dispatch_received_payloads_to_channel_buffers}
use bevy_quinnet.Server.{
  ServerNet, ServerSideConnection, Endpoint, ServerAsyncMessage, ServerConnection, client_connected,
  client_connection_closed, EndpointAlreadyClosed, endpoint_already_closed,
}
use bevy_quinnet.Server.Connections.{
  handle_new_connection, try_disconnect_client, try_disconnect_closed_client,
  disconnect_all_clients, clear_payloads_from_clients,
}

-- `ConnectionEvent`s and `ConnectionLostEvent`s, by the id of the client.
pub record Written : Type 0 where
  pub connected : List ℕ
  pub lost : List ℕ

abbrev pub write_connected : Written → ℕ → Written
write_connected t id = record t { connected = t.connected ++ id ∷ [] }

abbrev pub write_lost : Written → ℕ → Written
write_lost t id = record t { lost = t.lost ++ id ∷ [] }

-- The events that a dispatch writes.
abbrev pub tag_errors : ℕ → Result (Unit {0}) (List RecvChannelError) → List (ℕ × RecvChannelError)
tag_errors client_id (ok _) = []
tag_errors client_id (err errs) = map (λ x. (client_id, x)) errs

module _ (V : ServerNet) where
  pub record QuinnetServer : Type 0 where
    pub endpoint : Option (Endpoint V)

  unfoldable pub is_listening : QuinnetServer → Bool
  is_listening s = elim s.endpoint [ some _ ↦ true | none ↦ false ]

  unfoldable pub stop_endpoint :
      QuinnetServer
      → V.net.World
      → Result (Unit {0}) EndpointAlreadyClosed × QuinnetServer × V.net.World
  stop_endpoint s w = elim s.endpoint [
    | some endpoint ↦
        (let (e, w') = disconnect_all_clients V endpoint w in
          let (sent, w'') = V.handler_closes.send e.close_sender tt w' in
          (
            elim sent [ ok _ ↦ ok tt | err _ ↦ err endpoint_already_closed ],
            record { endpoint = none },
            w'',
          ))
    | none ↦ (err endpoint_already_closed, s, w)
  ]

  abbrev pub Message : Type 0
  Message = ServerAsyncMessage V.net (ServerConnection V.Handle V.syncs.Sender)

  -- The body of the first loop of `handle_server_events`.
  unfoldable pub handle_message :
      Endpoint V → Message → Written → V.net.World → Endpoint V × Written × V.net.World
  handle_message e (client_connected new_connection) t w =
      let (answer, e', w') = handle_new_connection V e new_connection w in
      (e', elim answer [ ok client_id ↦ write_connected t client_id | err _ ↦ t ], w')
  handle_message e (client_connection_closed client_id) t w =
      let (e', w') = try_disconnect_closed_client V e client_id w in
      if HashMap.contains_key client_id e.clients
      then (e', write_lost t client_id, w')
      else (e, t, w)

  unfoldable pub handle_messages :
      ℕ → Endpoint V → Written → V.net.World → Option (Endpoint V × Written × V.net.World)
  handle_messages zero e t w = none
  handle_messages (suc fuel) e t w =
      let (received, w') = V.asyncs.try_recv e.from_async_endpoint_recv w in
      elim received [
        | ok message ↦
            (let (e', t', w'') = handle_message e message t w' in handle_messages fuel e' t' w'')
        | err _ ↦ some (e, t, w')
      ]

  -- The body of the second loop, for the messages of one client: `LostConnection` is reported once.
  abbrev pub note_lost : ℕ → List ℕ × Written → List ℕ × Written
  note_lost client_id (lost_clients, t) =
      if contains client_id lost_clients
      then (lost_clients, t)
      else (client_id ∷ lost_clients, write_lost t client_id)

  unfoldable pub drain_channels :
      ℕ
      → ServerSideConnection V
      → ℕ
      → List ℕ × Written
      → V.net.World
      → Option ((List ℕ × Written) × V.net.World)
  drain_channels zero connection client_id noted w = none
  drain_channels (suc fuel) connection client_id noted w =
      let (received, w') = try_recv_from_channels V.net connection w in
      elim received [
        | ok lost_connection ↦
            drain_channels fuel connection client_id (note_lost client_id noted) w'
        | err _ ↦ some (noted, w')
      ]

  unfoldable pub drain_clients :
      ℕ
      → HashMap (ServerSideConnection V)
      → List ℕ × Written
      → V.net.World
      → Option ((List ℕ × Written) × V.net.World)
  drain_clients fuel [] noted w = some (noted, w)
  drain_clients fuel ((client_id, connection) ∷ rest) noted w =
      elim (drain_channels fuel connection client_id noted w) [
        | some (noted', w') ↦ drain_clients fuel rest noted' w'
        | none ↦ none
      ]

  -- The third loop.
  unfoldable pub disconnect_lost : List ℕ → Endpoint V → V.net.World → Endpoint V × V.net.World
  disconnect_lost [] e w = (e, w)
  disconnect_lost (client_id ∷ rest) e w =
      let (e', w') = try_disconnect_client V e client_id w in disconnect_lost rest e' w'

  -- `handle_server_events` on an open endpoint. `lost_clients` is empty when it starts, since every
  -- run drains it.
  unfoldable pub handle_server_events :
      ℕ → Endpoint V → V.net.World → Option (Endpoint V × Written × V.net.World)
  handle_server_events fuel e w =
      elim (handle_messages fuel e (record { connected = []; lost = [] }) w) [
        | some (e', t, w') ↦ elim (drain_clients fuel e'.clients ([], t) w') [
          | some (noted, w'') ↦
              (let (e'', w3) = disconnect_lost noted.0 e' w'' in some (e'', noted.1, w3))
          | none ↦ none
        ]
        | none ↦ none
      ]

  -- `dispatch_received_payloads`, over the clients of the endpoint.
  unfoldable pub dispatch_all :
      ℕ
      → HashMap (ServerSideConnection V)
      → V.net.World
      → Option (List (ℕ × RecvChannelError) × HashMap (ServerSideConnection V) × V.net.World)
  dispatch_all fuel [] w = some ([], [], w)
  dispatch_all fuel ((client_id, connection) ∷ rest) w =
      elim (dispatch_received_payloads_to_channel_buffers V.net fuel connection w) [
        | some (answer, connection', w') ↦ elim (dispatch_all fuel rest w') [
          | some (errs, rest', w'') ↦
              some (tag_errors client_id answer ++ errs, (client_id, connection') ∷ rest', w'')
          | none ↦ none
        ]
        | none ↦ none
      ]

  unfoldable pub clear_stale_received_payloads : Endpoint V → Endpoint V
  clear_stale_received_payloads e =
      if e.recv_channels_cfg.clear_stale_received_payloads
      then clear_payloads_from_clients V e
      else e
