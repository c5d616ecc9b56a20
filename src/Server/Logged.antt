-- ===== src/Server/Logged.antt =====
-- The calls of server/endpoint.rs that log an error instead of returning it, its default channel, its
-- clients, and the close of the handler of incoming connections.
use bevy_quinnet.Base.{ℕ, List, Option, none, Result, ok, err}
use bevy_quinnet.Base.HashMap
use bevy_quinnet.Buffer.{Bytes}
use bevy_quinnet.Error.{AsyncChannelError, internal_channel_closed}
use bevy_quinnet.IdPool
use bevy_quinnet.Server.{ServerNet, Endpoint}
use bevy_quinnet.Server.Connections.{receive_payload}
use bevy_quinnet.Server.Send.{
  send_payload, send_payload_on, send_group_payload, send_group_payload_on, broadcast_payload,
  broadcast_payload_on,
}

module _ (V : ServerNet) where
  abbrev pub Logging : Type 0
  Logging = Endpoint V × V.net.World

  -- The error is dropped.
  abbrev pub logged : {A : Type 0} → A × Endpoint V × V.net.World → Logging
  logged (_, e, w) = (e, w)

  unfoldable pub try_send_payload : Endpoint V → ℕ → Bytes → V.net.World → Logging
  try_send_payload e client_id payload w = logged (send_payload V e client_id payload w)

  unfoldable pub try_send_payload_on : Endpoint V → ℕ → ℕ → Bytes → V.net.World → Logging
  try_send_payload_on e client_id channel_id payload w =
      logged (send_payload_on V e client_id channel_id payload w)

  unfoldable pub try_send_group_payload : Endpoint V → List ℕ → Bytes → V.net.World → Logging
  try_send_group_payload e client_ids payload w =
      logged (send_group_payload V e client_ids payload w)

  unfoldable pub try_send_group_payload_on : Endpoint V → List ℕ → ℕ → Bytes → V.net.World → Logging
  try_send_group_payload_on e client_ids channel_id payload w =
      logged (send_group_payload_on V e client_ids channel_id payload w)

  unfoldable pub try_broadcast_payload : Endpoint V → Bytes → V.net.World → Logging
  try_broadcast_payload e payload w = logged (broadcast_payload V e payload w)

  unfoldable pub try_broadcast_payload_on : Endpoint V → ℕ → Bytes → V.net.World → Logging
  try_broadcast_payload_on e channel_id payload w =
      logged (broadcast_payload_on V e channel_id payload w)

  unfoldable pub try_receive_payload : Endpoint V → ℕ → ℕ → Option Bytes × Endpoint V
  try_receive_payload e client_id channel_id =
      let (received, e') = receive_payload V e client_id channel_id in
      (elim received [ ok payload ↦ payload | err x ↦ none ], e')

  unfoldable pub set_default_channel : Endpoint V → ℕ → Endpoint V
  set_default_channel e channel_id = record e {
    send_channel_ids = IdPool.set_default_channel e.send_channel_ids channel_id;
  }

  unfoldable pub default_channel : Endpoint V → Option ℕ
  default_channel e = IdPool.default_channel e.send_channel_ids

  -- The ids of the connected clients.
  unfoldable pub clients : Endpoint V → List ℕ
  clients e = HashMap.keys e.clients

  unfoldable pub close_incoming_connections_handler :
      Endpoint V → V.net.World → Result (Unit {0}) AsyncChannelError × V.net.World
  close_incoming_connections_handler e w =
      let (sent, w') = V.handler_closes.send e.close_sender tt w in
      (elim sent [ ok _ ↦ ok tt | err _ ↦ err internal_channel_closed ], w')
