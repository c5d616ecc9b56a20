-- ===== src/Tasks/Delivery.antt =====
-- What reaches the peer through `ordered_reliable_channel_task`: its stream in any schedule, and the
-- messages that the receiving task reads from it.
use bevy_quinnet.Base.{
  ℕ, ◌^◌, ◌<◌, ◌≡◌, refl, sym, ap, ◌∙◌, ◌≢◌, ◌⊎◌, List, [], ◌++◌, Option, some, Result, err, length,
  map,
}
use mathlib.Core.Option.{some-injective}
use bevy_quinnet.Buffer.{Bytes, Buffer, BufferLaws}
use bevy_quinnet.Codec.{
  new_decoder, decode_incoming_reliable_message, encode, IoError, invalid_input,
}
use bevy_quinnet.Codec.Wire.{encode_lem}
use bevy_quinnet.Codec.Fragments.{Event, arrivals, run, repeat_polls}
use bevy_quinnet.Config.{CloseReason, peer_closed}
use bevy_quinnet.Codec.Messages.{encode_all, accepted, delivery}
use bevy_quinnet.Net.{Net, MpscLaws}
use bevy_quinnet.Tasks.Quinn.{Streams, StreamsLaws}
use bevy_quinnet.Tasks.{
  SendChannelTaskData, Phase, reporting, ended, drain, end_task, ordered_send, ordered_finish,
  ordered_reliable_channel_task,
}
use bevy_quinnet.Tasks.Schedule.{Run, IsSelecting}
use bevy_quinnet.Tasks.Accounting.{Run-Accounts, Run-drain, Run-end_task}
use bevy_quinnet.Tasks.Kept.{none_left}
use bevy_quinnet.Tasks.Ordered.{
  Others, OthersAlive, IsSeparate, HoldsSome, HoldsAll, task, task_IsQueue, task-HoldsSome,
  task-HoldsAll,
}

module _ (b : Buffer) (net : Net) (s : Streams net.World) (streams : StreamsLaws b s)
    (laws : MpscLaws net.payloads) (t : SendChannelTaskData net s) (f : s.FrameSender)
    (sep : IsSeparate b net s streams laws t f) (w0 : net.World)
    (fresh : streams.contents f w0 ≡ []) where
  -- Even if writes fail, at every point of every schedule of an ordered reliable channel's task
  -- from a fresh stream: the payloads handled so far, followed by those that wait, are those
  -- queued, in order, and the stream holds some of the handled ones, whole and in order, and
  -- nothing else.
  pub ordered_subsequence :
      {q : List Bytes} {p : Phase} {w : net.World}
      → Run net s laws t.bytes_recv
          (task b net s streams laws t f)
          (Others b net s streams laws t f)
          w0
          q
          p
          w
      → (done : List Bytes) × HoldsSome b net s streams laws t f done w
        × (done ++ laws.backlog t.bytes_recv w ≡ q)
  unfolding encode_all
  ordered_subsequence run =
      Run-Accounts net s laws t.bytes_recv (task b net s streams laws t f)
        (Others b net s streams laws t f)
        (task_IsQueue b net s streams laws t f (λ more w w' o. o) sep)
        (HoldsSome b net s streams laws t f) (task-HoldsSome b net s streams laws t f sep)
        ([], none_left, fresh) run

  module _ (up : streams.IsAlive w0) {q : List Bytes} {p : Phase} {w : net.World}
      (reached : Run net s laws t.bytes_recv
        (task b net s streams laws t f)
        (OthersAlive b net s streams laws t f)
        w0
        q
        p
        w) where
    -- The loop over what is left, from wherever the task has come.
    pub ordered_drain :
        (fuel : ℕ)
        → length (laws.backlog t.bytes_recv w) < fuel
        → (w' : net.World) × (drain net s fuel
              (task b net s streams laws t f).on_remaining
              t.bytes_recv
              w
            ≡ some w')
          × HoldsAll b net s streams laws t f q (ordered_finish net s f w')
          × (laws.backlog t.bytes_recv w' ≡ [])
    unfolding encode_all ordered_reliable_channel_task
    ordered_drain fuel enough =
        Run-drain net s laws t.bytes_recv (task b net s streams laws t f)
          (OthersAlive b net s streams laws t f)
          (task_IsQueue b net s streams laws t f (λ more w w' o. o.others) sep)
          (HoldsAll b net s streams laws t f) (task-HoldsAll b net s streams laws t f sep) fuel
          (up, fresh) reached enough

    -- Let an ordered reliable channel's task, alone on its stream, have started on a fresh stream
    -- of a connection that stays up, with calls on the queues and on the stream that do not touch
    -- one another, and be in its select! at any point of any schedule, with more fuel than payloads
    -- wait, when its close signal is answered. If the peer has closed, the task ends at once and
    -- does nothing. Otherwise, also if the signal's senders are gone, the block after the select!
    -- ends: nothing waits afterwards and the stream holds, encoded in order, all payloads ever
    -- queued. Either way the schedule goes on to the task's end in that world.
    pub ordered_flush :
        (fuel : ℕ) (signal : Option CloseReason)
        → IsSelecting net s laws t.bytes_recv
            (task b net s streams laws t f)
            (OthersAlive b net s streams laws t f)
            p
        → length (laws.backlog t.bytes_recv w) < fuel
        → ((signal ≡ some peer_closed)
            × (end_task net s fuel signal (task b net s streams laws t f) t.bytes_recv w ≡ some w)
            × Run net s laws t.bytes_recv
                (task b net s streams laws t f)
                (OthersAlive b net s streams laws t f)
                w0
                q
                ended
                w)
          ⊎ ((signal ≢ some peer_closed)
              × (w' : net.World) × (end_task net s fuel signal
                    (task b net s streams laws t f)
                    t.bytes_recv
                    w
                  ≡ some w')
              × HoldsAll b net s streams laws t f q w'
              × (laws.backlog t.bytes_recv w' ≡ [])
              × Run net s laws t.bytes_recv
                  (task b net s streams laws t f)
                  (OthersAlive b net s streams laws t f)
                  w0
                  q
                  ended
                  w')
    unfolding encode_all
    ordered_flush fuel signal selecting enough =
        Run-end_task net s laws t.bytes_recv (task b net s streams laws t f)
          (OthersAlive b net s streams laws t f)
          (task_IsQueue b net s streams laws t f (λ more w w' o. o.others) sep)
          (HoldsAll b net s streams laws t f) (task-HoldsAll b net s streams laws t f sep) fuel
          signal (up, fresh) reached selecting enough

    -- Once the task has sent what is left, any reads that bring the stream's bytes to a decoder
    -- with a larger frame limit decode to the payloads that fit a frame, in order, with the
    -- channel's id.
    pub ordered_end_to_end :
        (bytes : BufferLaws b) (fuel limit : ℕ) (w' : net.World) (es : List Event)
        → length (laws.backlog t.bytes_recv w) < fuel
        → drain net s fuel (task b net s streams laws t f).on_remaining t.bytes_recv w ≡ some w'
        → (streams.encoder f).raw_channel_id < 256
        → (streams.encoder f).max_frame_len < limit
        → limit < 256 ^ 4
        → arrivals es ≡ streams.contents f (ordered_finish net s f w')
        → (frames : List Bytes) × (run b (new_decoder limit) [] (es ++ repeat_polls (length q))
            ≡ some (frames, new_decoder limit, []))
          × (map (decode_incoming_reliable_message b) frames
              ≡ map
                  (λ m. some ((streams.encoder f).raw_channel_id, m))
                  (accepted (streams.encoder f).max_frame_len q))
    ordered_end_to_end bytes fuel limit w' es enough d id below small all =
        delivery b bytes (streams.encoder f) limit q es id below small
          (all ∙ holds (ordered_drain fuel enough))
      where
        holds :
            (v : net.World) × (drain net s fuel
                  (task b net s streams laws t f).on_remaining
                  t.bytes_recv
                  w
                ≡ some v)
              × HoldsAll b net s streams laws t f q (ordered_finish net s f v)
              × (laws.backlog t.bytes_recv v ≡ [])
            → streams.contents f (ordered_finish net s f w') ≡ encode_all b (streams.encoder f) q []
        holds (v, e, h, n) = rw (some-injective w' v (sym d ∙ e)) h.1

-- On a connection that is up, a channel id that fits a byte and a payload over the frame limit, the
-- send of the ordered task writes nothing and goes on to report a lost connection, although the
-- connection is still up.
pub ordered_send_refuses :
    (b : Buffer) (bytes : BufferLaws b) (net : Net) (s : Streams net.World)
    (streams : StreamsLaws b s) (f : s.FrameSender) (m : Bytes) (w : net.World)
    → (streams.encoder f).raw_channel_id < 256
    → (streams.encoder f).max_frame_len < length m
    → streams.IsAlive w
    → ((ordered_send net s f m w).0 ≡ reporting)
      × (streams.contents f (ordered_send net s f m w).1 ≡ streams.contents f w)
      × streams.IsAlive (ordered_send net s f m w).1
unfolding ordered_send
ordered_send_refuses b bytes net s streams f m w id long up =
    go (streams.send_err f m w (ap (λ (x : Result (Unit {0}) IoError × Bytes). x.0) refused))
  where
    refused :
        encode b (streams.encoder f) m (streams.contents f w)
        ≡ (err invalid_input, streams.contents f w)
    refused = (encode_lem b bytes (streams.encoder f) m (streams.contents f w) id).1 long

    go :
        (y : s.Failure) × ((s.send f m w).0 ≡ err y)
        → ((ordered_send net s f m w).0 ≡ reporting)
          × (streams.contents f (ordered_send net s f m w).1 ≡ streams.contents f w)
          × streams.IsAlive (ordered_send net s f m w).1
    go (y, g) =
        rw (g, ordered_send)
          (
            refl,
            (streams.send_alive f m w up).0
                ∙ ap (λ (x : Result (Unit {0}) IoError × Bytes). x.1) refused,
            (streams.send_alive f m w up).1,
          )
