-- ===== src/Client/Messages.antt =====
-- client/connection/messages.rs: messages of a type that is serialised, over the payloads of a
-- client's connection.
pub mod InOrder
use bevy_quinnet.Base.{ℕ, Option, none, some, Result, ok, err, map_err}
use bevy_quinnet.Bincode.{Bincode}
use bevy_quinnet.Buffer.{Bytes}
use bevy_quinnet.Client.{ClientNet, ClientSideConnection, ClientSendError, ConnectionClosed}
use bevy_quinnet.Client.Connection.{receive_payload, send_payload_on}

pub data ClientMessageSendError : Type 0 where
  serialization no_default_channel : ClientMessageSendError
  send_error : ClientSendError → ClientMessageSendError

pub data ClientMessageReceiveError : Type 0 where
  deserialization no_default_channel : ClientMessageReceiveError
  connection_closed : ConnectionClosed → ClientMessageReceiveError

module _ (V : ClientNet) {T : Type 0} (b : Bincode T) where
  abbrev pub decoded : Result (T × ℕ) (Unit {0}) → Result (Option T) ClientMessageReceiveError
  decoded (ok (message, size)) = ok (some message)
  decoded (err e) = err ClientMessageReceiveError.deserialization

  abbrev pub read :
      Result (Option Bytes) ConnectionClosed → Result (Option T) ClientMessageReceiveError
  read (ok (some payload)) = decoded (b.decode_from_slice payload)
  read (ok none) = ok none
  read (err e) = err (ClientMessageReceiveError.connection_closed e)

  unfoldable pub receive_message_on :
      ClientSideConnection V
      → ℕ
      → Result (Option T) ClientMessageReceiveError × ClientSideConnection V
  receive_message_on c channel_id =
      let (payload, c') = receive_payload V c channel_id in (read payload, c')

  unfoldable pub receive_message :
      ClientSideConnection V → Result (Option T) ClientMessageReceiveError × ClientSideConnection V
  unfolding receive_message_on
  receive_message c = elim c.specific.send_channel_ids.default_channel [
    | some channel ↦ receive_message_on c channel
    | none ↦ (err ClientMessageReceiveError.no_default_channel, c)
  ]

  -- The variants with `try_` log an error and answer nothing.
  abbrev pub or_none : Result (Option T) ClientMessageReceiveError → Option T
  or_none (ok message) = message
  or_none (err e) = none

  unfoldable pub try_receive_message : ClientSideConnection V → Option T × ClientSideConnection V
  try_receive_message c = let (message, c') = receive_message c in (or_none message, c')

  unfoldable pub try_receive_message_on :
      ClientSideConnection V → ℕ → Option T × ClientSideConnection V
  try_receive_message_on c channel_id =
      let (message, c') = receive_message_on c channel_id in (or_none message, c')

  abbrev pub Sent : Type 0
  Sent = Result (Unit {0}) ClientMessageSendError × ClientSideConnection V × V.net.World

  unfoldable pub send_message_on : ClientSideConnection V → ℕ → T → V.net.World → Sent
  send_message_on c channel_id message w = elim (b.encode_to_vec message) [
    | ok payload ↦
        (let (sent, c', w') = send_payload_on V c channel_id payload w in
          (map_err ClientMessageSendError.send_error sent, c', w'))
    | err x ↦ (err ClientMessageSendError.serialization, c, w)
  ]

  unfoldable pub send_message : ClientSideConnection V → T → V.net.World → Sent
  unfolding send_message_on
  send_message c message w = elim c.specific.send_channel_ids.default_channel [
    | some channel ↦ send_message_on c channel message w
    | none ↦ (err ClientMessageSendError.no_default_channel, c, w)
  ]

  unfoldable pub try_send_message :
      ClientSideConnection V → T → V.net.World → ClientSideConnection V × V.net.World
  try_send_message c message w = let (_, c', w') = send_message c message w in (c', w')

  unfoldable pub try_send_message_on :
      ClientSideConnection V → ℕ → T → V.net.World → ClientSideConnection V × V.net.World
  try_send_message_on c channel_id message w =
      let (_, c', w') = send_message_on c channel_id message w in (c', w')
