-- ===== src/Tasks/Quinn.antt =====
-- The streams of `quinn` and the framed writer of `tokio_util` and `futures`, which are not part of
-- the repository, as parameters. `StreamsLaws` states what their documentation promises.
use bevy_quinnet.Base.{◌≡◌, ◌⊎◌, Result, ok, err, List, [], ◌∷◌, ◌++◌}
use bevy_quinnet.Buffer.{Bytes, Buffer}
use bevy_quinnet.Codec.{QuinnetProtocolCodecEncoder, encode, IoError}

-- `quinn::SendDatagramError`
pub data SendDatagramError : Type 0 where
  unsupported_by_peer disabled too_large connection_lost : SendDatagramError

pub record Streams (W : Type 0) : Type 1 where
  pub Connection : Type 0
  pub SendStream : Type 0
  -- `FramedWrite<SendStream, QuinnetProtocolCodecEncoder>`
  pub FrameSender : Type 0
  -- `ConnectionError` and `io::Error`
  pub Failure : Type 0
  pub open_uni : Connection → W → Result SendStream Failure × W
  pub new_framed : SendStream → QuinnetProtocolCodecEncoder → W → FrameSender × W
  pub send : FrameSender → Bytes → W → Result (Unit {0}) Failure × W
  pub flush : FrameSender → W → Result (Unit {0}) Failure × W
  -- `frame_sender.into_inner().finish()`
  pub finish : FrameSender → W → Result (Unit {0}) Failure × W
  pub send_datagram : Connection → Bytes → W → Result (Unit {0}) SendDatagramError × W

-- `send` runs the encoder on the writer's buffer: a refusal of the encoder is its result, and a
-- connection that works takes every frame. A write that fails may or may not have kept the frame.
pub record StreamsLaws (b : Buffer) {W : Type 0} (s : Streams W) : Type 1 where
  pub encoder : s.FrameSender → QuinnetProtocolCodecEncoder
  pub contents : s.FrameSender → W → Bytes
  pub IsAlive : W → Type 0
  -- A new writer's buffer is empty.
  pub new_framed_lem :
      (u : s.SendStream) (e : QuinnetProtocolCodecEncoder) (w : W)
      → (encoder (s.new_framed u e w).0 ≡ e)
        × (contents (s.new_framed u e w).0 (s.new_framed u e w).1 ≡ [])
  pub new_framed_alive :
      (u : s.SendStream) (e : QuinnetProtocolCodecEncoder) (w : W)
      → IsAlive w
      → IsAlive (s.new_framed u e w).1
  pub send_either :
      (f : s.FrameSender) (m : Bytes) (w : W)
      → (contents f (s.send f m w).1 ≡ (encode b (encoder f) m (contents f w)).1)
        ⊎ (contents f (s.send f m w).1 ≡ contents f w)
  pub send_alive :
      (f : s.FrameSender) (m : Bytes) (w : W)
      → IsAlive w
      → (contents f (s.send f m w).1 ≡ (encode b (encoder f) m (contents f w)).1)
        × IsAlive (s.send f m w).1
  pub send_ok :
      (f : s.FrameSender) (m : Bytes) (w : W)
      → IsAlive w
      → (encode b (encoder f) m (contents f w)).0 ≡ ok tt
      → (s.send f m w).0 ≡ ok tt
  pub send_err :
      (f : s.FrameSender) (m : Bytes) (w : W) {x : IoError}
      → (encode b (encoder f) m (contents f w)).0 ≡ err x
      → (y : s.Failure) × ((s.send f m w).0 ≡ err y)
  -- The datagrams that a connection took: one more for each `send_datagram` that succeeds.
  pub datagrams : s.Connection → W → List Bytes
  pub send_datagram_ok :
      (c : s.Connection) (d : Bytes) (w : W)
      → (s.send_datagram c d w).0 ≡ ok tt
      → datagrams c (s.send_datagram c d w).1 ≡ datagrams c w ++ d ∷ []
  pub send_datagram_err :
      (c : s.Connection) (d : Bytes) (w : W) (x : SendDatagramError)
      → (s.send_datagram c d w).0 ≡ err x
      → datagrams c (s.send_datagram c d w).1 ≡ datagrams c w
  pub flush_contents : (f : s.FrameSender) (w : W) → contents f (s.flush f w).1 ≡ contents f w
  pub finish_contents : (f : s.FrameSender) (w : W) → contents f (s.finish f w).1 ≡ contents f w
  pub flush_alive : (f : s.FrameSender) (w : W) → IsAlive w → IsAlive (s.flush f w).1
  pub finish_alive : (f : s.FrameSender) (w : W) → IsAlive w → IsAlive (s.finish f w).1
