-- ===== src/Tasks/Message.antt =====
-- The task that `unordered_reliable_channel_task` spawns for one payload.
use bevy_quinnet.Base.{◌<◌, ◌≤◌, ◌≡◌, refl, ap, ◌∙◌, [], ◌∷◌, some, Result, ok, err, length}
use bevy_quinnet.Buffer.{Bytes, Buffer, BufferLaws}
use bevy_quinnet.Codec.{QuinnetProtocolCodecEncoder, encode, IoError, invalid_input}
use bevy_quinnet.Codec.Wire.{wire, encode_lem}
use bevy_quinnet.Net.{Net}
use bevy_quinnet.Tasks.Quinn.{Streams, StreamsLaws}
use bevy_quinnet.Tasks.{
  MessageTask, Phase, ended, message_task, message_send, message_finish, message_failed,
  new_uni_frame_sender,
}

module _ (b : Buffer) (bytes : BufferLaws b) (net : Net) (s : Streams net.World)
    (streams : StreamsLaws b s) (m : MessageTask net s) where
  abbrev encoder_of : QuinnetProtocolCodecEncoder
  encoder_of = record { max_frame_len = m.max_frame_len; raw_channel_id = m.id }

  -- The writer of the new stream `u`, and the world with it.
  abbrev framed : s.SendStream → net.World → s.FrameSender × net.World
  framed u w = s.new_framed u encoder_of w

  opened :
      (u : s.SendStream) (w : net.World)
      → (s.open_uni m.connection w).0 ≡ ok u
      → message_task net s m w
        ≡ message_send net s m (
          some (framed u (s.open_uni m.connection w).1).0,
          (framed u (s.open_uni m.connection w).1).1,
        )
  unfolding message_task new_uni_frame_sender
  opened u w e = rw (e, new_uni_frame_sender)

  message_send-ok :
      (f : s.FrameSender) (w : net.World)
      → (s.send f m.msg_bytes w).0 ≡ ok tt
      → message_send net s m (some f, w) ≡ (ended, (s.finish f (s.send f m.msg_bytes w).1).1)
  unfolding message_send message_finish
  message_send-ok f w e = rw (e, message_send)

  -- On a fresh writer a payload within the limit is written, whole, and nothing else is.
  module _ (f : s.FrameSender) (w : net.World) (e : streams.encoder f ≡ encoder_of)
      (fresh : streams.contents f w ≡ []) (up : streams.IsAlive w) (id : m.id < 256) where
    encodes :
        length m.msg_bytes ≤ m.max_frame_len
        → encode b (streams.encoder f) m.msg_bytes (streams.contents f w)
          ≡ (ok tt, wire b bytes ((m.id ∷ m.msg_bytes) ∷ []))
    encodes fits = rw (e, fresh) ((encode_lem b bytes encoder_of m.msg_bytes [] id).0 fits)

    refuses :
        m.max_frame_len < length m.msg_bytes
        → encode b (streams.encoder f) m.msg_bytes (streams.contents f w) ≡ (err invalid_input, [])
    refuses long = rw (e, fresh) ((encode_lem b bytes encoder_of m.msg_bytes [] id).1 long)

    written :
        length m.msg_bytes ≤ m.max_frame_len
        → ((message_send net s m (some f, w)).0 ≡ ended)
          × (streams.contents f (message_send net s m (some f, w)).1
              ≡ wire b bytes ((m.id ∷ m.msg_bytes) ∷ []))
    written fits = rw (message_send-ok f w sent) (
      refl,
      streams.finish_contents f (s.send f m.msg_bytes w).1
          ∙ (streams.send_alive f m.msg_bytes w up).0
          ∙ ap (λ (x : Result (Unit {0}) IoError × Bytes). x.1) (encodes fits),
    )
      where
        sent : (s.send f m.msg_bytes w).0 ≡ ok tt
        sent =
            streams.send_ok f m.msg_bytes w up
              (ap (λ (x : Result (Unit {0}) IoError × Bytes). x.0) (encodes fits))

    -- A payload over the limit counts as a lost connection: nothing is written, and a task of the
    -- first loop goes on to report.
    refused :
        m.max_frame_len < length m.msg_bytes
        → (message_send net s m (some f, w)
            ≡ message_finish net s f (message_failed net s m (s.send f m.msg_bytes w).1))
          × (streams.contents f (s.send f m.msg_bytes w).1 ≡ [])
    unfolding message_send
    refused long = (
      stuck (
          streams.send_err f m.msg_bytes w
            (ap (λ (x : Result (Unit {0}) IoError × Bytes). x.0) (refuses long))),
      (streams.send_alive f m.msg_bytes w up).0
          ∙ ap (λ (x : Result (Unit {0}) IoError × Bytes). x.1) (refuses long),
    )
      where
        stuck :
            (y : s.Failure) × ((s.send f m.msg_bytes w).0 ≡ err y)
            → message_send net s m (some f, w)
              ≡ message_finish net s f (message_failed net s m (s.send f m.msg_bytes w).1)
        stuck (y, g) = rw (g, message_send)

  -- If the stream opens on a connection that is up, and the channel id fits a byte and the payload
  -- the frame limit, then the task that an unordered channel spawns for the payload ends without a
  -- panic, and some stream holds that one frame and nothing else.
  pub message_delivers :
      (u : s.SendStream) (w : net.World)
      → (s.open_uni m.connection w).0 ≡ ok u
      → streams.IsAlive (s.open_uni m.connection w).1
      → m.id < 256
      → length m.msg_bytes ≤ m.max_frame_len
      → ((message_task net s m w).0 ≡ ended)
        × (f : s.FrameSender) × (streams.contents f (message_task net s m w).1
            ≡ wire b bytes ((m.id ∷ m.msg_bytes) ∷ []))
  message_delivers u w e up id fits = rw (opened u w e) (
      all (
        written _ _ (streams.new_framed_lem u encoder_of _).0
          (streams.new_framed_lem u encoder_of _).1 (streams.new_framed_alive u encoder_of _ up) id
          fits))
    where
      after : Phase × net.World
      after = message_send net s m (
        some (framed u (s.open_uni m.connection w).1).0,
        (framed u (s.open_uni m.connection w).1).1,
      )

      all :
          (after.0 ≡ ended)
            × (streams.contents (framed u (s.open_uni m.connection w).1).0 after.1
                ≡ wire b bytes ((m.id ∷ m.msg_bytes) ∷ []))
          → (after.0 ≡ ended)
            × (f : s.FrameSender) × (streams.contents f after.1
                ≡ wire b bytes ((m.id ∷ m.msg_bytes) ∷ []))
      all (p, c) = (p, (framed u (s.open_uni m.connection w).1).0, c)

  -- If the stream opens on a connection that is up, the channel id fits a byte and the payload is
  -- over the frame limit, then some stream holds nothing and the task goes on to report a failure.
  pub message_refuses :
      (u : s.SendStream) (w : net.World)
      → (s.open_uni m.connection w).0 ≡ ok u
      → streams.IsAlive (s.open_uni m.connection w).1
      → m.id < 256
      → m.max_frame_len < length m.msg_bytes
      → (f : s.FrameSender) × (w' : net.World) × (streams.contents f w' ≡ [])
        × (message_task net s m w ≡ message_finish net s f (message_failed net s m w'))
  message_refuses u w e up id long = rw (opened u w e) (
      all (
        refused _ _ (streams.new_framed_lem u encoder_of _).0
          (streams.new_framed_lem u encoder_of _).1 (streams.new_framed_alive u encoder_of _ up) id
          long))
    where
      f : s.FrameSender
      f = (framed u (s.open_uni m.connection w).1).0

      start : net.World
      start = (framed u (s.open_uni m.connection w).1).1

      all :
          (message_send net s m (some f, start)
              ≡ message_finish net s f (message_failed net s m (s.send f m.msg_bytes start).1))
            × (streams.contents f (s.send f m.msg_bytes start).1 ≡ [])
          → (g : s.FrameSender) × (w' : net.World) × (streams.contents g w' ≡ [])
            × (message_send net s m (some f, start)
                ≡ message_finish net s g (message_failed net s m w'))
      all (p, c) = (f, (s.send f m.msg_bytes start).1, c, p)
