-- ===== src/Server/Send.antt =====
-- server/endpoint.rs: sending to one client, to a group, and to all.
use bevy_quinnet.Base.{ℕ, List, [], ◌∷◌, ◌++◌, none, some, Result, ok, err, map_err}
use bevy_quinnet.Base.HashMap
use bevy_quinnet.Base.HashMap.{HashMap}
use bevy_quinnet.Buffer.{Bytes}
use bevy_quinnet.IdPool.{default_channel}
use bevy_quinnet.Peer.{internal_send_payload}
use bevy_quinnet.Server.{
  ServerNet, ServerSideConnection, Endpoint, ServerSendError, ServerPayloadSendError,
  ServerGroupSendError, ServerGroupPayloadSendError,
}

-- `match errs.is_empty()`
abbrev pub group_result : ServerGroupSendError → Result (Unit {0}) ServerGroupSendError
group_result [] = ok tt
group_result (x ∷ errs) = err (x ∷ errs)

abbrev pub push_failure :
    ServerGroupSendError → ℕ → Result (Unit {0}) ServerSendError → ServerGroupSendError
push_failure errs client_id (ok _) = errs
push_failure errs client_id (err x) = errs ++ (client_id, x) ∷ []

module _ (V : ServerNet) where
  unfoldable pub send_payload_on :
      Endpoint V
      → ℕ
      → ℕ
      → Bytes
      → V.net.World
      → Result (Unit {0}) ServerSendError × Endpoint V × V.net.World
  send_payload_on e client_id channel_id payload w = elim (HashMap.get client_id e.clients) [
    | some client_connection ↦
        (let (sent, connection, w') =
            internal_send_payload V.net client_connection channel_id payload w in
          (
            map_err ServerSendError.connection_send_error sent,
            record e { clients = HashMap.insert client_id connection e.clients },
            w',
          ))
    | none ↦ (err (ServerSendError.unknown_client client_id), e, w)
  ]

  unfoldable pub send_payload :
      Endpoint V
      → ℕ
      → Bytes
      → V.net.World
      → Result (Unit {0}) ServerPayloadSendError × Endpoint V × V.net.World
  send_payload e client_id payload w = elim (default_channel e.send_channel_ids) [
    | some channel ↦
        (let (sent, e', w') = send_payload_on e client_id channel payload w in
          (map_err ServerPayloadSendError.send_error sent, e', w'))
    | none ↦ (err ServerPayloadSendError.no_default_channel, e, w)
  ]

  -- The loop of `send_group_payload_on`.
  unfoldable pub send_to_group :
      Endpoint V
      → List ℕ
      → ℕ
      → Bytes
      → ServerGroupSendError
      → V.net.World
      → ServerGroupSendError × Endpoint V × V.net.World
  send_to_group e [] channel_id payload errs w = (errs, e, w)
  send_to_group e (client_id ∷ client_ids) channel_id payload errs w =
      let (sent, e', w') = send_payload_on e client_id channel_id payload w in
      send_to_group e' client_ids channel_id payload (push_failure errs client_id sent) w'

  unfoldable pub send_group_payload_on :
      Endpoint V
      → List ℕ
      → ℕ
      → Bytes
      → V.net.World
      → Result (Unit {0}) ServerGroupPayloadSendError × Endpoint V × V.net.World
  send_group_payload_on e client_ids channel_id payload w =
      let (errs, e', w') = send_to_group e client_ids channel_id payload [] w in
      (map_err ServerGroupPayloadSendError.group_send_error (group_result errs), e', w')

  unfoldable pub send_group_payload :
      Endpoint V
      → List ℕ
      → Bytes
      → V.net.World
      → Result (Unit {0}) ServerGroupPayloadSendError × Endpoint V × V.net.World
  send_group_payload e client_ids payload w = elim (default_channel e.send_channel_ids) [
    | some channel ↦ send_group_payload_on e client_ids channel payload w
    | none ↦ (err ServerGroupPayloadSendError.no_default_channel, e, w)
  ]

  -- The loop of `broadcast_payload_on`, over all clients.
  unfoldable pub send_to_all :
      HashMap (ServerSideConnection V)
      → ℕ
      → Bytes
      → ServerGroupSendError
      → V.net.World
      → ServerGroupSendError × HashMap (ServerSideConnection V) × V.net.World
  send_to_all [] channel_id payload errs w = (errs, [], w)
  send_to_all ((client_id, connection) ∷ rest) channel_id payload errs w =
      let (sent, connection', w') = internal_send_payload V.net connection channel_id payload w in
      let (errs', rest', w'') =
        send_to_all rest channel_id payload
          (push_failure errs client_id (map_err ServerSendError.connection_send_error sent)) w' in
      (errs', (client_id, connection') ∷ rest', w'')

  unfoldable pub broadcast_payload_on :
      Endpoint V
      → ℕ
      → Bytes
      → V.net.World
      → Result (Unit {0}) ServerGroupSendError × Endpoint V × V.net.World
  broadcast_payload_on e channel_id payload w =
      let (errs, clients, w') = send_to_all e.clients channel_id payload [] w in
      (group_result errs, record e { clients = clients }, w')

  unfoldable pub broadcast_payload :
      Endpoint V
      → Bytes
      → V.net.World
      → Result (Unit {0}) ServerGroupPayloadSendError × Endpoint V × V.net.World
  broadcast_payload e payload w = elim (default_channel e.send_channel_ids) [
    | some channel ↦
        (let (sent, e', w') = broadcast_payload_on e channel payload w in
          (map_err ServerGroupPayloadSendError.group_send_error sent, e', w'))
    | none ↦ (err ServerGroupPayloadSendError.no_default_channel, e, w)
  ]
