-- ===== src/Tasks/Example.antt =====
-- A small connection on which the tasks run: a queue of payloads, one stream, the datagrams and the
-- spawned tasks. It never fails.
use bevy_quinnet.Base.{ℕ, ◌≡◌, refl, inl, List, [], ◌∷◌, ◌++◌, Result, ok, err, Bool, true, map}
use bevy_quinnet.Buffer.{Bytes, big_endian}
use bevy_quinnet.Codec.{QuinnetProtocolCodecEncoder, encode, IoError}
use bevy_quinnet.Net.{Net, Mpsc, MpscLaws}
use bevy_quinnet.Net.Example.{sink, pop, queue_laws, signal}
use bevy_quinnet.Tasks.Quinn.{Streams, StreamsLaws, SendDatagramError}
use bevy_quinnet.Tasks.{MessageTask, SendChannelTaskData}

pub record World : Type 0 where
  pub waiting : List Bytes
  pub stream : Bytes
  pub datagrams : List Bytes
  pub spawned : List (ℕ × ℕ × Bytes × Bool)

abbrev pub world_of : List Bytes → World
world_of ms = record { waiting = ms; stream = []; datagrams = []; spawned = [] }

abbrev pub payload_queue : Mpsc World Bytes
payload_queue = record {
  Sender = Unit {0};
  Receiver = Unit {0};
  channel = λ n w. (tt, tt, w);
  try_send = λ s a w. (ok tt, record w { waiting = w.waiting ++ a ∷ [] });
  blocking_send = λ s a w. (ok tt, record w { waiting = w.waiting ++ a ∷ [] });
  send = λ s a w. (ok tt, record w { waiting = w.waiting ++ a ∷ [] });
  try_recv = λ r w. ((pop w.waiting).0, record w { waiting = (pop w.waiting).1 });
}

abbrev pub payload_laws : MpscLaws payload_queue
payload_laws = record {
  backlog = λ r w. w.waiting;
  try_recv_cons = λ r w m rest e. (queue_laws Bytes).try_recv_cons tt w.waiting m rest e;
  try_recv_nil = λ r w e. (queue_laws Bytes).try_recv_nil tt w.waiting e;
}

abbrev pub net : Net
net = record {
  World = World;
  payloads = payload_queue;
  channel_closes = sink World (Unit {0}) true;
  channel_syncs = sink World _ true;
  channel_asyncs = sink World _ true;
  received = sink World (ℕ × Bytes) true;
  closes = signal World _;
}

abbrev pub streams : Streams World
streams = record {
  Connection = Unit {0};
  SendStream = Unit {0};
  FrameSender = QuinnetProtocolCodecEncoder;
  Failure = IoError;
  open_uni = λ c w. (ok tt, w);
  new_framed = λ u e w. (e, record w { stream = [] });
  send = λ f m w. (
    (encode big_endian f m w.stream).0,
    record w { stream = (encode big_endian f m w.stream).1 },
  );
  flush = λ f w. (ok tt, w);
  finish = λ f w. (ok tt, w);
  send_datagram = λ c d w. (ok tt, record w { datagrams = w.datagrams ++ d ∷ [] });
}

pub never_refused :
    (x : SendDatagramError) (ds ds' : List Bytes)
    → ◌≡◌ {A = Result (Unit {0}) SendDatagramError} (ok tt) (err x)
    → ds ≡ ds'
never_refused x ds ds' e = cc

abbrev pub streams_laws : StreamsLaws big_endian streams
streams_laws = record {
  encoder = λ f. f;
  contents = λ f w. w.stream;
  IsAlive = λ w. Unit {0};
  new_framed_lem = λ u e w. (refl, refl);
  new_framed_alive = λ u e w a. tt;
  send_either = λ f m w. inl refl;
  send_alive = λ f m w a. (refl, tt);
  send_ok = λ f m w a e. e;
  send_err = λ f m w {x} e. (x, e);
  datagrams = λ c w. w.datagrams;
  send_datagram_ok = λ c d w e. refl;
  send_datagram_err = λ c d w x e. never_refused x _ _ e;
  flush_contents = λ f w. refl;
  finish_contents = λ f w. refl;
  flush_alive = λ f w a. tt;
  finish_alive = λ f w a. tt;
}

-- Channel 3 of the connection.
abbrev pub task_data : SendChannelTaskData net streams
task_data = record { connection = tt; id = 3; from_channels_send = tt; bytes_recv = tt }

abbrev pub spawn : MessageTask net streams → World → World
spawn m w = record w { spawned = w.spawned ++ (m.id, m.max_frame_len, m.msg_bytes, m.reports) ∷ [] }

abbrev pub message_of : ℕ × ℕ × Bytes × Bool → MessageTask net streams
message_of (id, most, m, reports) = record {
  connection = tt;
  id = id;
  max_frame_len = most;
  from_channels_send = tt;
  msg_bytes = m;
  reports = reports;
}

abbrev pub spawned : World → List (MessageTask net streams)
spawned w = map message_of w.spawned
