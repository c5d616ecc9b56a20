-- ===== src/Server/Messages.antt =====
-- server/messages.rs: messages of a type that is serialised, over the payloads of the endpoint.
pub mod Group
use bevy_quinnet.Base.{
  ℕ, ◌≡◌, refl, List, [], ◌∷◌, ◌++◌, Option, none, some, Result, ok, err, map_err, Result-cases,
  inl, inr, ap,
}
use bevy_quinnet.Bincode.{Bincode}
use bevy_quinnet.Buffer.{Bytes}
use bevy_quinnet.IdPool.{default_channel}
use bevy_quinnet.Server.{
  ServerNet, Endpoint, ServerSendError, ServerGroupSendError, ServerGroupPayloadSendError,
  ServerReceiveError,
}
use bevy_quinnet.Server.Send.{
  send_payload_on, send_group_payload_on, send_to_group, broadcast_payload_on, group_result,
  push_failure,
}
use bevy_quinnet.Server.Connections.{receive_payload}

pub data ServerMessageSendError : Type 0 where
  serialization no_default_channel : ServerMessageSendError
  send_error : ServerSendError → ServerMessageSendError

pub data ServerGroupMessageSendError : Type 0 where
  serialization no_default_channel : ServerGroupMessageSendError
  group_send_error : ServerGroupSendError → ServerGroupMessageSendError

pub data ServerMessageReceiveError : Type 0 where
  deserialization no_default_channel : ServerMessageReceiveError
  receive_error : ServerReceiveError → ServerMessageReceiveError

module _ (V : ServerNet) {T : Type 0} (c : Bincode T) where
  -- A message that was decoded, without the number of bytes read.
  abbrev pub decoded : Result (T × ℕ) (Unit {0}) → Result (Option T) ServerMessageReceiveError
  decoded (ok (message, size)) = ok (some message)
  decoded (err e) = err ServerMessageReceiveError.deserialization

  abbrev pub read :
      Result (Option Bytes) ServerReceiveError → Result (Option T) ServerMessageReceiveError
  read (ok (some payload)) = decoded (c.decode_from_slice payload)
  read (ok none) = ok none
  read (err e) = err (ServerMessageReceiveError.receive_error e)

  unfoldable pub receive_message_from :
      Endpoint V → ℕ → ℕ → Result (Option T) ServerMessageReceiveError × Endpoint V
  receive_message_from e client_id channel_id =
      let (payload, e') = receive_payload V e client_id channel_id in (read payload, e')

  unfoldable pub receive_message :
      Endpoint V → ℕ → Result (Option T) ServerMessageReceiveError × Endpoint V
  unfolding receive_message_from
  receive_message e client_id = elim (default_channel e.send_channel_ids) [
    | some channel ↦ receive_message_from e client_id channel
    | none ↦ (err ServerMessageReceiveError.no_default_channel, e)
  ]

  -- The variants with `try_` log an error and answer nothing.
  abbrev pub or_none : Result (Option T) ServerMessageReceiveError → Option T
  or_none (ok message) = message
  or_none (err e) = none

  unfoldable pub try_receive_message : Endpoint V → ℕ → Option T × Endpoint V
  try_receive_message e client_id =
      let (message, e') = receive_message e client_id in (or_none message, e')

  unfoldable pub try_receive_message_from : Endpoint V → ℕ → ℕ → Option T × Endpoint V
  try_receive_message_from e client_id channel_id =
      let (message, e') = receive_message_from e client_id channel_id in (or_none message, e')

  abbrev pub Sent : Type 0 → Type 0
  Sent E = Result (Unit {0}) E × Endpoint V × V.net.World

  unfoldable pub send_message_on :
      Endpoint V → ℕ → ℕ → T → V.net.World → Sent ServerMessageSendError
  send_message_on e client_id channel_id message w = elim (c.encode_to_vec message) [
    | ok payload ↦
        (let (sent, e', w') = send_payload_on V e client_id channel_id payload w in
          (map_err ServerMessageSendError.send_error sent, e', w'))
    | err x ↦ (err ServerMessageSendError.serialization, e, w)
  ]

  unfoldable pub send_message : Endpoint V → ℕ → T → V.net.World → Sent ServerMessageSendError
  unfolding send_message_on
  send_message e client_id message w = elim (default_channel e.send_channel_ids) [
    | some channel ↦ send_message_on e client_id channel message w
    | none ↦ (err ServerMessageSendError.no_default_channel, e, w)
  ]

  unfoldable pub try_send_message : Endpoint V → ℕ → T → V.net.World → Endpoint V × V.net.World
  try_send_message e client_id message w =
      let (_, e', w') = send_message e client_id message w in (e', w')

  unfoldable pub try_send_message_on :
      Endpoint V → ℕ → ℕ → T → V.net.World → Endpoint V × V.net.World
  try_send_message_on e client_id channel_id message w =
      let (_, e', w') = send_message_on e client_id channel_id message w in (e', w')

  -- The loop of `send_group_message_on`, which is written out again.
  unfoldable pub send_bytes_to_group :
      Endpoint V
      → List ℕ
      → ℕ
      → Bytes
      → ServerGroupSendError
      → V.net.World
      → ServerGroupSendError × Endpoint V × V.net.World
  send_bytes_to_group e [] channel_id bytes errs w = (errs, e, w)
  send_bytes_to_group e (client_id ∷ client_ids) channel_id bytes errs w =
      let (sent, e', w') = send_payload_on V e client_id channel_id bytes w in
      send_bytes_to_group e' client_ids channel_id bytes (push_failure errs client_id sent) w'

  unfoldable pub send_group_message_on :
      Endpoint V → List ℕ → ℕ → T → V.net.World → Sent ServerGroupMessageSendError
  unfolding send_bytes_to_group
  send_group_message_on e client_ids channel_id message w = elim (c.encode_to_vec message) [
    | ok payload ↦
        (let (errs, e', w') = send_bytes_to_group e client_ids channel_id payload [] w in
          (map_err ServerGroupMessageSendError.group_send_error (group_result errs), e', w'))
    | err x ↦ (err ServerGroupMessageSendError.serialization, e, w)
  ]

  unfoldable pub send_group_message :
      Endpoint V → List ℕ → T → V.net.World → Sent ServerGroupMessageSendError
  unfolding send_group_message_on
  send_group_message e client_ids message w = elim (default_channel e.send_channel_ids) [
    | some channel ↦ send_group_message_on e client_ids channel message w
    | none ↦ (err ServerGroupMessageSendError.no_default_channel, e, w)
  ]

  unfoldable pub try_send_group_message :
      Endpoint V → List ℕ → T → V.net.World → Endpoint V × V.net.World
  try_send_group_message e client_ids message w =
      let (_, e', w') = send_group_message e client_ids message w in (e', w')

  unfoldable pub try_send_group_message_on :
      Endpoint V → List ℕ → ℕ → T → V.net.World → Endpoint V × V.net.World
  try_send_group_message_on e client_ids channel_id message w =
      let (_, e', w') = send_group_message_on e client_ids channel_id message w in (e', w')

  unfoldable pub broadcast_message_on :
      Endpoint V → ℕ → T → V.net.World → Sent ServerGroupMessageSendError
  broadcast_message_on e channel_id message w = elim (c.encode_to_vec message) [
    | ok payload ↦
        (let (sent, e', w') = broadcast_payload_on V e channel_id payload w in
          (map_err ServerGroupMessageSendError.group_send_error sent, e', w'))
    | err x ↦ (err ServerGroupMessageSendError.serialization, e, w)
  ]

  unfoldable pub broadcast_message : Endpoint V → T → V.net.World → Sent ServerGroupMessageSendError
  unfolding broadcast_message_on
  broadcast_message e message w = elim (default_channel e.send_channel_ids) [
    | some channel ↦ broadcast_message_on e channel message w
    | none ↦ (err ServerGroupMessageSendError.no_default_channel, e, w)
  ]

  unfoldable pub try_broadcast_message : Endpoint V → T → V.net.World → Endpoint V × V.net.World
  try_broadcast_message e message w = let (_, e', w') = broadcast_message e message w in (e', w')

  unfoldable pub try_broadcast_message_on :
      Endpoint V → ℕ → T → V.net.World → Endpoint V × V.net.World
  try_broadcast_message_on e channel_id message w =
      let (_, e', w') = broadcast_message_on e channel_id message w in (e', w')
