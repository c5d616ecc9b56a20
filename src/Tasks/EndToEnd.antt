-- ===== src/Tasks/EndToEnd.antt =====
-- An ordered reliable channel from the queue of one endpoint to the queue of the other.
use bevy_quinnet.Base.{ℕ, ◌^◌, ◌<◌, ◌≡◌, refl, ap, ◌∙◌, List, [], ◌∷◌, ◌++◌, some, length, map}
use bevy_quinnet.Buffer.{Bytes, Buffer, BufferLaws}
use bevy_quinnet.Codec.{new_decoder}
use bevy_quinnet.Codec.Fragments.{Event, arrivals, run, repeat_polls}
use bevy_quinnet.Codec.Messages.{accepted}
use bevy_quinnet.Net.{Net, MpscLaws}
use bevy_quinnet.Tasks.Quinn.{Streams, StreamsLaws}
use bevy_quinnet.Tasks.{SendChannelTaskData, Phase, drain, ordered_finish}
use bevy_quinnet.Tasks.Schedule.{Run}
use bevy_quinnet.Tasks.Ordered.{OthersAlive, IsSeparate, task}
use bevy_quinnet.Tasks.Delivery.{ordered_end_to_end}
use bevy_quinnet.Tasks.Receiver.{stopped, reliable_stream_receiver_task}
use bevy_quinnet.Tasks.Receiver.Arrival.{IsOpen, frame_answers, stream_receives}

map-some {ℓ κ} :
    {A : Type ℓ} {B : Type κ} (f : A → B) (xs : List A)
    → map (λ x. some (f x)) xs ≡ map some (map f xs)
map-some f [] = refl
map-some f (x ∷ xs) = ap (◌∷◌ (some (f x))) (map-some f xs)

-- The sending side, which has come anywhere in its schedule from a fresh stream, and the receiving.
module _ (b : Buffer) (bytes : BufferLaws b) (net : Net) (s : Streams net.World)
    (streams : StreamsLaws b s) (laws : MpscLaws net.payloads) (t : SendChannelTaskData net s)
    (f : s.FrameSender) (sep : IsSeparate b net s streams laws t f) (w0 : net.World)
    (fresh : streams.contents f w0 ≡ []) (up : streams.IsAlive w0) {q : List Bytes} {p : Phase}
    {w : net.World}
    (reached : Run net s laws t.bytes_recv
      (task b net s streams laws t f)
      (OthersAlive b net s streams laws t f)
      w0
      q
      p
      w)
    (peer : Net) (peer_laws : MpscLaws peer.received) (sender : peer.received.Sender)
    (r : peer.received.Receiver) (open_queue : IsOpen peer.received peer_laws sender r) where
  -- Let an ordered reliable channel's task have started on a fresh stream of a connection that
  -- stays up, and have come anywhere in any schedule; let its channel id fit a byte, its frame
  -- limit be below the receiver's, and that below 2^32. Let the loop over what is left have more
  -- fuel than payloads wait, and let the bytes that it leaves on the stream reach the peer in any
  -- fragments, decoded at any moments and once more per payload. Then decoding fails nowhere, the
  -- receiving task ends on the frames without a panic, and the peer's queue has grown by exactly
  -- the payloads ever queued that are within the frame limit, whole, in order and under the
  -- channel's id.
  pub channel_delivers :
      (fuel limit : ℕ) (w' : net.World) (es : List Event) (v : peer.World)
      → length (laws.backlog t.bytes_recv w) < fuel
      → drain net s fuel (task b net s streams laws t f).on_remaining t.bytes_recv w ≡ some w'
      → (streams.encoder f).raw_channel_id < 256
      → (streams.encoder f).max_frame_len < limit
      → limit < 256 ^ 4
      → arrivals es ≡ streams.contents f (ordered_finish net s f w')
      → (frames : List Bytes) × (run b (new_decoder limit) [] (es ++ repeat_polls (length q))
          ≡ some (frames, new_decoder limit, []))
        × ((reliable_stream_receiver_task peer b sender (frame_answers frames) v).0 ≡ stopped)
        × (peer_laws.backlog r
              (reliable_stream_receiver_task peer b sender (frame_answers frames) v).1
            ≡ peer_laws.backlog r v
              ++ map
                  (λ m. ((streams.encoder f).raw_channel_id, m))
                  (accepted (streams.encoder f).max_frame_len q))
  channel_delivers fuel limit w' es v enough d id below small all =
      let (frames, ran, read) =
        ordered_end_to_end b net s streams laws t f sep w0 fresh up reached bytes fuel limit w' es
          enough d id below small all in
      let (ended, queued) =
        stream_receives peer b peer_laws sender r open_queue frames
          (map (λ (m : Bytes). ((streams.encoder f).raw_channel_id, m))
            (accepted (streams.encoder f).max_frame_len q))
          v (read ∙ map-some _ (accepted (streams.encoder f).max_frame_len q)) in
      (frames, ran, ended, queued)
