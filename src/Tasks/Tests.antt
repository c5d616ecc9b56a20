-- ===== src/Tasks/Tests.antt =====
-- The tasks at concrete worlds.
use bevy_quinnet.Base.{ℕ, ◌≡◌, ◌≢◌, ◌⊎◌, refl, List, [], ◌∷◌, ◌++◌, some, true, arith, inl}
use mathlib.Core.List.{append-nil, map-append}
use bevy_quinnet.Buffer.{Bytes, big_endian, big_endian_laws}
use bevy_quinnet.Codec.{QuinnetProtocolCodecEncoder, encode, new_decoder, unreliable_datagram}
use bevy_quinnet.Codec.Wire.{wire}
use bevy_quinnet.Codec.Fragments.{arrives, run, repeat_polls}
use bevy_quinnet.Config.{unordered_reliable, local_order, peer_closed}
use bevy_quinnet.Net.Example.{queue_net, queue, queue_laws}
use bevy_quinnet.Tasks.{
  sending, reporting, flushing, ended, end_task, MessageTask, drain, ordered_send, ordered_finish,
  report_lost, ordered_reliable_channel_task, message_task, unreliable_channel_task,
  send_unreliable_message, unreliable_outcome,
}
use bevy_quinnet.Tasks.Schedule.{Run, starts, others, takes, closes_channel}
use bevy_quinnet.Tasks.Ordered.{OthersAlive, Others, IsSeparate, HoldsSome, HoldsAll, task}
use bevy_quinnet.Tasks.Delivery.{ordered_subsequence, ordered_flush, ordered_send_refuses}
use bevy_quinnet.Tasks.EndToEnd.{channel_delivers}
use bevy_quinnet.Tasks.Message.{message_delivers}
use bevy_quinnet.Tasks.Unordered
use bevy_quinnet.Tasks.Unordered.{IsSpawner, HandsOver, unordered_flush}
use bevy_quinnet.Tasks.Unreliable
use bevy_quinnet.Tasks.Unreliable.{SentSome, of_channel, has_id, unreliable_subsequence}
use bevy_quinnet.Tasks.Receiver.{stopped, reliable_stream_receiver_task}
use bevy_quinnet.Tasks.Receiver.Arrival.{IsOpen, frame_answers}
use bevy_quinnet.Tasks.Spawner.{
  Spawner, SpawnerPhase, channel, new_spawner, spawn_keeper, stop_listening, end_keeper,
  close_connection, creates, stops, ends, closes, Reach, here, next,
}
use bevy_quinnet.Tasks.Spawner.Closing.{Reach-closed, Reach-can_close}
use bevy_quinnet.Tasks.Example.{
  World, world_of, net, streams, streams_laws, payload_laws, task_data, spawn, spawned, message_of,
}

abbrev encoder : QuinnetProtocolCodecEncoder
encoder = record { max_frame_len = 3; raw_channel_id = 3 }

-- Two payloads wait; the task has taken the first.
abbrev start : World
start = world_of ((1 ∷ 2 ∷ []) ∷ (5 ∷ []) ∷ [])

abbrev queued : List Bytes
queued = (1 ∷ 2 ∷ []) ∷ (5 ∷ []) ∷ []

abbrev taken : World
taken = (ordered_send net streams encoder (1 ∷ 2 ∷ []) (world_of ((5 ∷ []) ∷ []))).1

separate : IsSeparate big_endian net streams streams_laws payload_laws task_data encoder
unfolding ordered_finish
separate = record {
  send_queue = λ m w. refl;
  finish_queue = λ w. refl;
  report_queue = λ w. refl;
  report_contents = λ w. refl;
  report_alive = λ w a. tt;
  try_recv_contents = λ w. refl;
  try_recv_alive = λ w a. tt;
}

-- A local order then closes the channel.
reached :
    (Other : List Bytes → World → World → Type 0)
    → Run net streams payload_laws tt
        (task big_endian net streams streams_laws payload_laws task_data encoder)
        Other
        start
        queued
        flushing
        taken
unfolding ordered_reliable_channel_task ordered_send encode big_endian
reached Other =
    closes_channel (takes (1 ∷ 2 ∷ []) (starts refl refl refl) refl refl refl refl) (inl refl) refl

abbrev AnyOther : List Bytes → World → World → Type 0
AnyOther = Others big_endian net streams streams_laws payload_laws task_data encoder

abbrev AliveOther : List Bytes → World → World → Type 0
AliveOther = OthersAlive big_endian net streams streams_laws payload_laws task_data encoder

ordered_subsequence_example :
    (done : List Bytes) × HoldsSome big_endian net streams streams_laws payload_laws task_data
      encoder done taken
    × (done ++ (5 ∷ []) ∷ [] ≡ queued)
unfolding ordered_send encode
ordered_subsequence_example =
    ordered_subsequence big_endian net streams streams_laws payload_laws task_data encoder separate
      start refl (reached AnyOther)

-- The same before that order.
reached_selecting :
    Run net streams payload_laws tt
      (task big_endian net streams streams_laws payload_laws task_data encoder)
      AliveOther
      start
      queued
      sending
      taken
unfolding ordered_reliable_channel_task ordered_send encode big_endian
reached_selecting = takes (1 ∷ 2 ∷ []) (starts refl refl refl) refl refl refl refl

ordered_flush_example :
    ((some local_order ≡ some peer_closed)
      × (end_task net streams 2
            (some local_order)
            (task big_endian net streams streams_laws payload_laws task_data encoder)
            tt
            taken
          ≡ some taken)
      × Run net streams payload_laws tt
          (task big_endian net streams streams_laws payload_laws task_data encoder)
          AliveOther
          start
          queued
          ended
          taken)
    ⊎ ((some local_order ≢ some peer_closed)
        × (w' : World) × (end_task net streams 2
              (some local_order)
              (task big_endian net streams streams_laws payload_laws task_data encoder)
              tt
              taken
            ≡ some w')
        × HoldsAll big_endian net streams streams_laws payload_laws task_data encoder queued w'
        × (w'.waiting ≡ [])
        × Run net streams payload_laws tt
            (task big_endian net streams streams_laws payload_laws task_data encoder)
            AliveOther
            start
            queued
            ended
            w')
unfolding ordered_send encode
ordered_flush_example =
    ordered_flush big_endian net streams streams_laws payload_laws task_data encoder separate start
      refl tt reached_selecting 2 (some local_order) (inl refl) (omega arith)

-- The world after the loop that sends what is left.
abbrev flushed : World
flushed = record taken {
  waiting = [];
  stream = (encode big_endian encoder (5 ∷ []) taken.stream).1;
}

queue-IsOpen : IsOpen (queue (ℕ × Bytes)) (queue_laws (ℕ × Bytes)) tt tt
queue-IsOpen = record { send_ok = λ a w. refl; send_backlog = λ a w. refl }

channel_delivers_example :
    (frames : List Bytes) × (run big_endian
        (new_decoder 100)
        []
        (arrives (ordered_finish net streams encoder flushed).stream ∷ [] ++ repeat_polls 2)
      ≡ some (frames, new_decoder 100, []))
    × ((reliable_stream_receiver_task queue_net big_endian tt (frame_answers frames) []).0
        ≡ stopped)
    × ((reliable_stream_receiver_task queue_net big_endian tt (frame_answers frames) []).1
        ≡ (3, 1 ∷ 2 ∷ []) ∷ (3, 5 ∷ []) ∷ [])
unfolding ordered_send encode ordered_reliable_channel_task drain
channel_delivers_example =
    channel_delivers big_endian big_endian_laws net streams streams_laws payload_laws task_data
      encoder separate start refl tt (reached AliveOther) queue_net (queue_laws (ℕ × Bytes)) tt tt
      queue-IsOpen 2 100 flushed (arrives (ordered_finish net streams encoder flushed).stream ∷ [])
      [] (omega arith) refl (omega arith) (omega arith) (omega arith) (append-nil _)

ordered_send_refuses_example :
    ((ordered_send net streams encoder (1 ∷ 2 ∷ 3 ∷ 4 ∷ []) start).0 ≡ reporting)
    × ((ordered_send net streams encoder (1 ∷ 2 ∷ 3 ∷ 4 ∷ []) start).1.stream ≡ [])
    × Unit {0}
ordered_send_refuses_example =
    ordered_send_refuses big_endian big_endian_laws net streams streams_laws encoder
      (1 ∷ 2 ∷ 3 ∷ 4 ∷ []) start (omega arith) (omega arith) tt

abbrev message : MessageTask net streams
message = message_of (3, 3, 7 ∷ 8 ∷ [], true)

message_delivers_example :
    ((message_task net streams message start).0 ≡ ended)
    × (f : QuinnetProtocolCodecEncoder) × ((message_task net streams message start).1.stream
        ≡ wire big_endian big_endian_laws ((3 ∷ 7 ∷ 8 ∷ []) ∷ []))
message_delivers_example =
    message_delivers big_endian big_endian_laws net streams streams_laws message tt start refl tt
      (omega arith) (omega arith)

unordered_spawner : IsSpawner net streams payload_laws task_data 3 spawn spawned
unfolding report_lost
unordered_spawner = record {
  spawn_lem = λ m w. map-append message_of w.spawned _;
  spawn_queue = λ m w. refl;
  report_queue = λ w. refl;
  report_spawned = λ w. refl;
  try_recv_spawned = λ w. refl;
}

unordered_flush_example :
    (w' : World) × (drain net streams 3
        (Unordered.task net streams payload_laws task_data 3 spawn spawned).on_remaining
        tt
        start
      ≡ some w')
    × HandsOver net streams payload_laws task_data 3 spawn spawned unordered_spawner start queued w'
    × (w'.waiting ≡ [])
unordered_flush_example =
    unordered_flush net streams payload_laws task_data 3 spawn spawned unordered_spawner start 3
      (starts refl refl refl) (omega arith)

datagrams_separate :
    Unreliable.IsSeparate big_endian net streams streams_laws payload_laws task_data
unfolding report_lost
datagrams_separate = record {
  send_queue = λ d w. refl;
  report_queue = λ w. refl;
  report_datagrams = λ w. refl;
  try_recv_datagrams = λ w. refl;
}

-- The task has sent the first payload, and then channel 4 sends a datagram on the connection.
abbrev datagram_sent : World
datagram_sent = record start { waiting = (5 ∷ []) ∷ []; datagrams = (3 ∷ 1 ∷ 2 ∷ []) ∷ [] }

abbrev another_sent : World
another_sent = record datagram_sent { datagrams = (3 ∷ 1 ∷ 2 ∷ []) ∷ (4 ∷ 9 ∷ []) ∷ [] }

reached_another :
    Run net streams payload_laws tt
      (Unreliable.task big_endian net streams streams_laws payload_laws task_data)
      (Unreliable.Others big_endian net streams streams_laws payload_laws task_data)
      start
      queued
      sending
      another_sent
unfolding unreliable_channel_task send_unreliable_message unreliable_outcome unreliable_datagram
    big_endian of_channel has_id
reached_another =
    others (takes (1 ∷ 2 ∷ []) (starts refl refl refl) refl refl refl refl)
      (record { channel_datagrams_kept = refl; queued = refl }) refl

unreliable_subsequence_example :
    (done : List Bytes) × SentSome big_endian net streams streams_laws payload_laws task_data
      big_endian_laws
      (omega arith)
      datagrams_separate
      start
      done
      another_sent
    × (done ++ (5 ∷ []) ∷ [] ≡ queued)
unreliable_subsequence_example =
    unreliable_subsequence big_endian net streams streams_laws payload_laws task_data
      big_endian_laws (omega arith) datagrams_separate start reached_another

-- A channel is created, the spawner stops, the task ends, and the connection is closed.
abbrev listening_to_one : Spawner
listening_to_one = spawn_keeper (channel 0 (unordered_reliable 3)) new_spawner

abbrev ended_one : Spawner
ended_one = end_keeper 0 (stop_listening listening_to_one)

reach_ended : Reach new_spawner ended_one
unfolding new_spawner spawn_keeper stop_listening
reach_ended =
    next
      (next (next here (creates new_spawner 0 (unordered_reliable 3) refl))
        (stops listening_to_one refl))
      (ends (stop_listening listening_to_one) 0 (channel 0 (unordered_reliable 3)) refl)

Reach-closed_example :
    ((close_connection ended_one).tasks ≡ []) × ((close_connection ended_one).keepalives ≡ 0)
unfolding new_spawner spawn_keeper stop_listening end_keeper close_connection
Reach-closed_example = Reach-closed (next reach_ended (closes ended_one refl refl)) refl

Reach-can_close_example :
    (p' : Spawner) × Reach listening_to_one p' × (p'.phase ≡ SpawnerPhase.closed)
unfolding new_spawner spawn_keeper
Reach-can_close_example =
    Reach-can_close (next here (creates new_spawner 0 (unordered_reliable 3) refl))
