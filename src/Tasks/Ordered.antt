-- ===== src/Tasks/Ordered.antt =====
-- `ordered_reliable_channel_task` on its stream, in any schedule, up to the messages that the
-- receiving side reads.
use bevy_quinnet.Base.{◌≡◌, refl, sym, ap, ◌∙◌, inl, inr, List, [], ◌∷◌, ◌++◌, Result-cases}
use bevy_quinnet.Buffer.{Bytes, Buffer}
use bevy_quinnet.Codec.{QuinnetProtocolCodecEncoder, encode}
use bevy_quinnet.Codec.Messages.{encode_all}
use bevy_quinnet.Net.{Net, MpscLaws, lost_connection}
use bevy_quinnet.Tasks.Quinn.{Streams, StreamsLaws}
use bevy_quinnet.Tasks.{
  ChannelTask, SendChannelTaskData, ordered_reliable_channel_task, ordered_send, ordered_finish,
  report_lost,
}
use bevy_quinnet.Tasks.Kept.{Kept, Kept-keep_last, Kept-drop_last}
use bevy_quinnet.Tasks.Schedule.{IsQueue, IsRecord}

encode_all-last :
    (b : Buffer) (e : QuinnetProtocolCodecEncoder) (ps : List Bytes) (m dst : Bytes)
    → encode_all b e (ps ++ m ∷ []) dst ≡ (encode b e m (encode_all b e ps dst)).1
unfolding encode_all
encode_all-last b e [] m dst = refl
encode_all-last b e (p ∷ ps) m dst = encode_all-last b e ps m (encode b e p dst).1

module _ (b : Buffer) (net : Net) (s : Streams net.World) (streams : StreamsLaws b s)
    (laws : MpscLaws net.payloads) (t : SendChannelTaskData net s) (f : s.FrameSender) where
  -- What the other tasks may do between two steps: queue payloads, and let the connection fail, but
  -- not write to this stream.
  pub record Others (more : List Bytes) (w w' : net.World) : Type 0 where
    pub contents_kept : streams.contents f w' ≡ streams.contents f w
    pub queued : laws.backlog t.bytes_recv w' ≡ laws.backlog t.bytes_recv w ++ more

  -- The same while the connection stays up.
  pub record OthersAlive (more : List Bytes) (w w' : net.World) : Type 0 where
    pub others : Others more w w'
    pub alive_kept : streams.IsAlive w → streams.IsAlive w'

  -- The calls on the stream leave the queue alone, and the calls on the queues leave the stream.
  pub record IsSeparate : Type 0 where
    pub send_queue :
        (m : Bytes) (w : net.World)
        → laws.backlog t.bytes_recv (s.send f m w).1 ≡ laws.backlog t.bytes_recv w
    pub finish_queue :
        (w : net.World)
        → laws.backlog t.bytes_recv (ordered_finish net s f w) ≡ laws.backlog t.bytes_recv w
    pub report_queue :
        (w : net.World)
        → laws.backlog t.bytes_recv
            (net.channel_asyncs.send t.from_channels_send lost_connection w).1
          ≡ laws.backlog t.bytes_recv w
    pub report_contents :
        (w : net.World)
        → streams.contents f (net.channel_asyncs.send t.from_channels_send lost_connection w).1
          ≡ streams.contents f w
    pub report_alive :
        (w : net.World)
        → streams.IsAlive w
        → streams.IsAlive (net.channel_asyncs.send t.from_channels_send lost_connection w).1
    pub try_recv_contents :
        (w : net.World)
        → streams.contents f (net.payloads.try_recv t.bytes_recv w).1 ≡ streams.contents f w
    pub try_recv_alive :
        (w : net.World)
        → streams.IsAlive w
        → streams.IsAlive (net.payloads.try_recv t.bytes_recv w).1

  ordered_send-world : (m : Bytes) (w : net.World) → (ordered_send net s f m w).1 ≡ (s.send f m w).1
  unfolding ordered_send
  ordered_send-world m w = elim (Result-cases (s.send f m w).0) [
    | inl (u, e) ↦ rw (e, ordered_send)
    | inr (x, e) ↦ rw (e, ordered_send)
  ]

  report_lost-world :
      (w : net.World)
      → (report_lost net s t.from_channels_send w).1
        ≡ (net.channel_asyncs.send t.from_channels_send lost_connection w).1
  unfolding report_lost
  report_lost-world w =
      elim (Result-cases (net.channel_asyncs.send t.from_channels_send lost_connection w).0) [
        | inl (u, e) ↦ rw (e, report_lost)
        | inr (x, e) ↦ rw (e, report_lost)
      ]

  finish-contents :
      (w : net.World) → streams.contents f (ordered_finish net s f w) ≡ streams.contents f w
  unfolding ordered_finish
  finish-contents w = streams.finish_contents f _ ∙ streams.flush_contents f w

  abbrev pub task : ChannelTask net.World
  task = ordered_reliable_channel_task net s t f

  pub task_IsQueue :
      {O : List Bytes → net.World → net.World → Type 0}
      → ((more : List Bytes) (w w' : net.World) → O more w w' → Others more w w')
      → IsSeparate
      → IsQueue net s laws t.bytes_recv task O
  unfolding ordered_reliable_channel_task
  task_IsQueue are sep = record {
    others_queue = λ o. (are _ _ _ o).queued;
    on_bytes_queue =
        λ m w. ap (laws.backlog t.bytes_recv) (ordered_send-world m w) ∙ sep.send_queue m w;
    on_remaining_queue = sep.send_queue;
    report_queue = λ w. ap (laws.backlog t.bytes_recv) (report_lost-world w) ∙ sep.report_queue w;
    finish_queue = sep.finish_queue;
  }

  -- The stream holds some of the payloads that were handled, whole and in order.
  abbrev pub HoldsSome : List Bytes → net.World → Type 0
  HoldsSome done w =
      (ks : List Bytes) × Kept ks done
      × (streams.contents f w ≡ encode_all b (streams.encoder f) ks [])

  -- The connection is up, and the stream holds all of them that the encoder takes.
  abbrev pub HoldsAll : List Bytes → net.World → Type 0
  HoldsAll done w =
      streams.IsAlive w × (streams.contents f w ≡ encode_all b (streams.encoder f) done [])

  send-HoldsSome :
      {done : List Bytes} (m : Bytes) (w : net.World)
      → HoldsSome done w
      → HoldsSome (done ++ m ∷ []) (s.send f m w).1
  send-HoldsSome {done = done} m w (ks, k, e) = elim (streams.send_either f m w) [
    | inl g ↦ (
      ks ++ m ∷ [],
      Kept-keep_last m k,
      g
          ∙ ap (λ (c : Bytes). (encode b (streams.encoder f) m c).1) e
          ∙ sym (encode_all-last b (streams.encoder f) ks m []),
    )
    | inr g ↦ (ks, Kept-drop_last m k, g ∙ e)
  ]

  send-HoldsAll :
      (done : List Bytes) (m : Bytes) (w : net.World)
      → HoldsAll done w
      → HoldsAll (done ++ m ∷ []) (s.send f m w).1
  send-HoldsAll done m w (a, e) = (
    (streams.send_alive f m w a).1,
    (streams.send_alive f m w a).0
        ∙ ap (λ (c : Bytes). (encode b (streams.encoder f) m c).1) e
        ∙ sym (encode_all-last b (streams.encoder f) done m []),
  )

  same_HoldsSome :
      {done : List Bytes} (w w' : net.World)
      → streams.contents f w' ≡ streams.contents f w
      → HoldsSome done w
      → HoldsSome done w'
  same_HoldsSome w w' g (ks, k, e) = (ks, k, g ∙ e)

  pub task-HoldsSome : IsSeparate → IsRecord net s laws t.bytes_recv task Others HoldsSome
  unfolding ordered_reliable_channel_task
  task-HoldsSome sep = record {
    others_keep = λ o h. same_HoldsSome _ _ o.contents_kept h;
    take_keeps = λ w h. same_HoldsSome w _ (sep.try_recv_contents w) h;
    on_bytes_extends = λ m w h. rw (ordered_send-world m w) (send-HoldsSome m w h);
    on_remaining_extends = λ m w h. send-HoldsSome m w h;
    report_keeps = λ w h. rw (report_lost-world w) (same_HoldsSome w _ (sep.report_contents w) h);
    finish_keeps = λ w h. same_HoldsSome w _ (finish-contents w) h;
  }

  finish-alive : (w : net.World) → streams.IsAlive w → streams.IsAlive (ordered_finish net s f w)
  unfolding ordered_finish
  finish-alive w a = streams.finish_alive f _ (streams.flush_alive f w a)

  pub task-HoldsAll : IsSeparate → IsRecord net s laws t.bytes_recv task OthersAlive HoldsAll
  unfolding ordered_reliable_channel_task
  task-HoldsAll sep = record {
    others_keep = λ o h. (o.alive_kept h.0, o.others.contents_kept ∙ h.1);
    take_keeps = λ w h. (sep.try_recv_alive w h.0, sep.try_recv_contents w ∙ h.1);
    on_bytes_extends = λ m w h. rw (ordered_send-world m w) (send-HoldsAll _ m w h);
    on_remaining_extends = λ m w h. send-HoldsAll _ m w h;
    report_keeps =
        λ w h. rw (report_lost-world w) (sep.report_alive w h.0, sep.report_contents w ∙ h.1);
    finish_keeps = λ w h. (finish-alive w h.0, finish-contents w ∙ h.1);
  }
