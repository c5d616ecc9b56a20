-- ===== src/Tasks/Receiver.antt =====
-- The receive tasks: shared/channels/reliable/recv.rs and shared/channels/unreliable/recv.rs. Each is
-- run on what its `select!` meets: the close signal, or the next answer of its stream, of
-- `accept_uni` or of `read_datagram`.
pub mod Arrival
use bevy_quinnet.Base.{ℕ, List, [], ◌∷◌, Option, none, some, Result, ok, err}
use bevy_quinnet.Buffer.{Bytes, Buffer}
use bevy_quinnet.Codec.{decode_incoming_reliable_message, read_datagram}
use bevy_quinnet.Net.{Net}

pub data ReceiverPhase : Type 0 where
  reading stopped panicked : ReceiverPhase

-- What ends a `select!`, or goes on: `next` is an answer of the awaited call.
pub data Turn (A : Type 0) : Type 0 where
  close_signal : Turn A
  next : A → Turn A

module _ (net : Net) (b : Buffer) (bytes_incoming_send : net.received.Sender) where
  -- `bytes_incoming_send.send(..).await.unwrap()`
  unfoldable pub forward : ℕ × Bytes → net.World → ReceiverPhase × net.World
  forward message w =
      let (sent, w') = net.received.send bytes_incoming_send message w in
      elim sent [ ok u ↦ (reading, w') | err e ↦ (panicked, w') ]

  -- The body of the loop over the frames.
  unfoldable pub on_frame : Bytes → net.World → ReceiverPhase × net.World
  unfolding forward
  on_frame msg_bytes w = elim (decode_incoming_reliable_message b msg_bytes) [
    | some message ↦ forward message w
    | none ↦ (panicked, w)
  ]

  -- `while let Some(Ok(msg_bytes)) = frame_recv.next().await`: an error of the decoder and the end of
  -- the stream end the task.
  unfoldable pub reliable_stream_receiver_task :
      List (Turn (Option (Result Bytes (Unit {0})))) → net.World → ReceiverPhase × net.World
  unfolding on_frame
  reliable_stream_receiver_task [] w = (reading, w)
  reliable_stream_receiver_task (close_signal ∷ es) w = (stopped, w)
  reliable_stream_receiver_task (next none ∷ es) w = (stopped, w)
  reliable_stream_receiver_task (next (some (err e)) ∷ es) w = (stopped, w)
  reliable_stream_receiver_task (next (some (ok msg_bytes)) ∷ es) w =
      let (p, w') = on_frame msg_bytes w in
      let rest = reliable_stream_receiver_task es w' in
      elim p [ reading ↦ rest | stopped ↦ (stopped, w') | panicked ↦ (panicked, w') ]

  -- The body of the loop over the datagrams, with its `continue`.
  unfoldable pub on_datagram : Bytes → net.World → ReceiverPhase × net.World
  unfolding forward
  on_datagram msg_bytes w = elim (read_datagram b msg_bytes) [
    | some message ↦ forward message w
    | none ↦ (reading, w)
  ]

  unfoldable pub unreliable_channel_receiver_task :
      List (Turn (Result Bytes (Unit {0}))) → net.World → ReceiverPhase × net.World
  unfolding on_datagram
  unreliable_channel_receiver_task [] w = (reading, w)
  unreliable_channel_receiver_task (close_signal ∷ es) w = (stopped, w)
  unreliable_channel_receiver_task (next (err e) ∷ es) w = (stopped, w)
  unreliable_channel_receiver_task (next (ok msg_bytes) ∷ es) w =
      let (p, w') = on_datagram msg_bytes w in
      let rest = unreliable_channel_receiver_task es w' in
      elim p [ reading ↦ rest | stopped ↦ (stopped, w') | panicked ↦ (panicked, w') ]

  -- `spawn` starts `reliable_stream_receiver_task` on a stream.
  unfoldable pub reliable_channels_receiver_task :
      {Stream : Type 0}
      → (Stream → net.World → net.World)
      → List (Turn (Result Stream (Unit {0})))
      → net.World
      → ReceiverPhase × net.World
  reliable_channels_receiver_task spawn [] w = (reading, w)
  reliable_channels_receiver_task spawn (close_signal ∷ es) w = (stopped, w)
  reliable_channels_receiver_task spawn (next (err e) ∷ es) w = (stopped, w)
  reliable_channels_receiver_task spawn (next (ok recv) ∷ es) w =
      reliable_channels_receiver_task spawn es (spawn recv w)
