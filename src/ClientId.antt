-- ===== src/ClientId.antt =====
-- server/client_id.rs and client/connection/client_id.rs: the server tells a client its id, in one
-- frame of a stream of its own. The frames of `LengthDelimitedCodec` are the answers of calls.
pub mod Exchange
mod Tests
use bevy_quinnet.Base.{ℕ, List, [], Option, none, some, Result, ok, err, length, leb, if◌then◌else◌}
use bevy_quinnet.Buffer.{Bytes, Buffer}
use bevy_quinnet.Net.{Net, lost_connection}
use bevy_quinnet.Client.{
  QuinnetConnectionError, quic_connection_error, invalid_client_id, client_id_not_received,
}
use bevy_quinnet.Tasks.{Phase, ended, panicked}
use bevy_quinnet.Tasks.Receiver.{Turn, close_signal, next}

-- `size_of::<ClientId>()`
abbrev pub client_id_len : ℕ
client_id_len = 8

-- `msg_bytes`, as the sender fills it.
unfoldable pub client_id_bytes : Buffer → ℕ → Bytes
client_id_bytes b client_id = b.put_uint client_id client_id_len []

-- `open_bi` and the send on a framed writer.
pub record IdStream (W : Type 0) : Type 1 where
  pub FrameSender : Type 0
  pub Failure : Type 0
  pub open_bi : W → Result FrameSender Failure × W
  pub send : FrameSender → Bytes → W → Result (Unit {0}) Failure × W

module _ (net : Net) (b : Buffer) (s : IdStream net.World) where
  -- The report of a failed send; its `expect` panics.
  unfoldable pub report_failed : net.channel_asyncs.Sender → net.World → Phase × net.World
  report_failed from_channels_send w =
      let (sent, w') = net.channel_asyncs.send from_channels_send lost_connection w in
      elim sent [ ok u ↦ (ended, w') | err e ↦ (panicked, w') ]

  -- The send on the stream, once it is open.
  send_client_id :
      net.channel_asyncs.Sender → ℕ → Result s.FrameSender s.Failure × net.World → Phase × net.World
  unfolding report_failed client_id_bytes
  send_client_id from_channels_send client_id (err e, w) = (panicked, w)
  send_client_id from_channels_send client_id (ok frame_sender, w) =
      let (sent, w') = s.send frame_sender (client_id_bytes b client_id) w in
      elim sent [ ok u ↦ (ended, w') | err e ↦ report_failed from_channels_send w' ]

  unfoldable pub client_id_sender : ℕ → net.channel_asyncs.Sender → net.World → Phase × net.World
  unfolding send_client_id
  client_id_sender client_id from_channels_send w =
      send_client_id from_channels_send client_id (s.open_bi w)

pub data ClientIdReception (QuicError : Type 0) : Type 0 where
  interrupted : ClientIdReception QuicError
  retrieved : ℕ → ClientIdReception QuicError
  failed : QuinnetConnectionError QuicError → ClientIdReception QuicError

module _ (b : Buffer) {QuicError : Type 0} where
  -- A frame, once it is there.
  unfoldable pub read_client_id : Bytes → ClientIdReception QuicError
  read_client_id msg_bytes =
      if leb client_id_len (length msg_bytes)
      then retrieved (b.get_uint client_id_len msg_bytes)
      else failed invalid_client_id

  -- What `select!` meets: the close signal, or the answers of `accept_bi` and of the stream.
  unfoldable pub receive_client_id :
      Turn (Result (Option (Result Bytes (Unit {0}))) QuicError) → ClientIdReception QuicError
  unfolding read_client_id
  receive_client_id close_signal = interrupted
  receive_client_id (next (err e)) = failed (quic_connection_error e)
  receive_client_id (next (ok none)) = failed client_id_not_received
  receive_client_id (next (ok (some (err e)))) = failed client_id_not_received
  receive_client_id (next (ok (some (ok msg_bytes)))) = read_client_id msg_bytes
