-- ===== src/Tasks/Unreliable.antt =====
-- `unreliable_channel_task` in any schedule, among the other tasks of its connection: the datagrams of
-- its channel that the connection took.
use bevy_quinnet.Base.{
  ℕ, ◌<◌, ◌≡◌, refl, sym, ap, ◌∙◌, List, [], ◌∷◌, ◌++◌, Bool, true, false, ◌==◌, ==_iff,
  if◌then◌else◌, map, inl, inr, arith, Bool-cases, Result-cases,
}
use mathlib.Core.List.{append_assoc, append-nil, map-append}
use bevy_quinnet.Buffer.{Bytes, Buffer, BufferLaws}
use bevy_quinnet.Codec.{unreliable_datagram}
use bevy_quinnet.Codec.Messages.{unreliable_datagram_lem}
use bevy_quinnet.Net.{Net, MpscLaws}
use bevy_quinnet.Tasks.Quinn.{Streams, StreamsLaws}
use bevy_quinnet.Tasks.Kept.{Kept, none_left, Kept-keep_last, Kept-drop_last}
use bevy_quinnet.Tasks.{
  ChannelTask, SendChannelTaskData, Phase, unreliable_channel_task, report_lost,
  send_unreliable_message,
}
use bevy_quinnet.Tasks.Schedule.{Run, IsQueue, IsRecord}
use bevy_quinnet.Tasks.Accounting.{Run-Accounts}

-- Whether a datagram's first byte is this channel id.
unfoldable pub has_id : ℕ → Bytes → Bool
has_id id [] = false
has_id id (x ∷ _) = x == id

-- The datagrams of one channel among those of all.
unfoldable pub of_channel : ℕ → List Bytes → List Bytes
of_channel id [] = []
of_channel id (d ∷ ds) = let rest = of_channel id ds in if has_id id d then d ∷ rest else rest

of_channel-append :
    (id : ℕ) (ds es : List Bytes) → of_channel id (ds ++ es) ≡ of_channel id ds ++ of_channel id es
unfolding of_channel
of_channel-append id [] es = refl
of_channel-append id (d ∷ ds) es = elim (Bool-cases (has_id id d)) [
  | inl y ↦ rw y (ap (◌∷◌ d) (of_channel-append id ds es))
  | inr n ↦ rw n (of_channel-append id ds es)
]

of_channel_last :
    (id : ℕ) (ds : List Bytes) (d : Bytes)
    → has_id id d ≡ true
    → of_channel id (ds ++ d ∷ []) ≡ of_channel id ds ++ d ∷ []
unfolding of_channel
of_channel_last id ds d h =
    of_channel-append id ds (d ∷ []) ∙ ap (◌++◌ (of_channel id ds)) (rw h refl)

module _ (b : Buffer) (net : Net) (s : Streams net.World) (streams : StreamsLaws b s)
    (laws : MpscLaws net.payloads) (t : SendChannelTaskData net s) where
  abbrev pub task : ChannelTask net.World
  task = unreliable_channel_task net s b t

  abbrev pub datagram : Bytes → Bytes
  datagram m = unreliable_datagram b m t.id

  -- The datagrams of this channel that its connection took.
  abbrev pub channel_datagrams : net.World → List Bytes
  channel_datagrams w = of_channel t.id (streams.datagrams t.connection w)

  -- What the other tasks may do between two steps: queue payloads, and send anything on this
  -- connection but datagrams of this channel.
  pub record Others (more : List Bytes) (w w' : net.World) : Type 0 where
    pub channel_datagrams_kept : channel_datagrams w' ≡ channel_datagrams w
    pub queued : laws.backlog t.bytes_recv w' ≡ laws.backlog t.bytes_recv w ++ more

  -- The queues and the datagrams do not touch one another.
  pub record IsSeparate : Type 0 where
    pub send_queue :
        (d : Bytes) (w : net.World)
        → laws.backlog t.bytes_recv (s.send_datagram t.connection d w).1
          ≡ laws.backlog t.bytes_recv w
    pub report_queue :
        (w : net.World)
        → laws.backlog t.bytes_recv (report_lost net s t.from_channels_send w).1
          ≡ laws.backlog t.bytes_recv w
    pub report_datagrams :
        (w : net.World)
        → streams.datagrams t.connection (report_lost net s t.from_channels_send w).1
          ≡ streams.datagrams t.connection w
    pub try_recv_datagrams :
        (w : net.World)
        → streams.datagrams t.connection (net.payloads.try_recv t.bytes_recv w).1
          ≡ streams.datagrams t.connection w

  module _ (bytes : BufferLaws b) (small : t.id < 256) (sep : IsSeparate) (w0 : net.World) where
    datagram-has_id : (m : Bytes) → has_id t.id (datagram m) ≡ true
    unfolding has_id
    datagram-has_id m =
        rw (unreliable_datagram_lem b bytes t.id m small) (ground (arith, ==_iff t.id t.id))

    -- The channel's datagrams taken since the start: those of some of what was handled, in order.
    abbrev pub SentSome : List Bytes → net.World → Type 0
    SentSome done w =
        (ks : List Bytes) × Kept ks done
        × (channel_datagrams w ≡ channel_datagrams w0 ++ map datagram ks)

    send-SentSome :
        (done : List Bytes) (m : Bytes) (w : net.World)
        → SentSome done w
        → SentSome (done ++ m ∷ []) (send_unreliable_message net s b t.connection m t.id w).1
    unfolding send_unreliable_message
    send-SentSome done m w (ks, k, e) =
        elim (Result-cases (s.send_datagram t.connection (datagram m) w).0) [
          | inl (u, g) ↦ (
            ks ++ m ∷ [],
            Kept-keep_last m k,
            ap (of_channel t.id) (streams.send_datagram_ok t.connection (datagram m) w g)
                ∙ of_channel_last t.id (streams.datagrams t.connection w) (datagram m)
                    (datagram-has_id m)
                ∙ ap (λ (l : List Bytes). l ++ datagram m ∷ []) e
                ∙ append_assoc (channel_datagrams w0) (map datagram ks) (datagram m ∷ [])
                ∙ ap (◌++◌ (channel_datagrams w0)) (sym (map-append datagram ks (m ∷ []))),
          )
          | inr (x, g) ↦ (
            ks,
            Kept-drop_last m k,
            ap (of_channel t.id) (streams.send_datagram_err t.connection (datagram m) w x g) ∙ e,
          )
        ]

    task_IsQueue : IsQueue net s laws t.bytes_recv task Others
    unfolding unreliable_channel_task send_unreliable_message
    task_IsQueue = record {
      others_queue = λ o. o.queued;
      on_bytes_queue = λ m w. sep.send_queue _ w;
      on_remaining_queue = λ m w. sep.send_queue _ w;
      report_queue = sep.report_queue;
      finish_queue = λ w. refl;
    }

    same_SentSome :
        {done : List Bytes} (w w' : net.World)
        → channel_datagrams w' ≡ channel_datagrams w
        → SentSome done w
        → SentSome done w'
    same_SentSome w w' g (ks, k, e) = (ks, k, g ∙ e)

    task-SentSome : IsRecord net s laws t.bytes_recv task Others SentSome
    unfolding unreliable_channel_task
    task-SentSome = record {
      others_keep = λ o h. same_SentSome _ _ o.channel_datagrams_kept h;
      take_keeps = λ w h. same_SentSome w _ (ap (of_channel t.id) (sep.try_recv_datagrams w)) h;
      on_bytes_extends = λ m w h. send-SentSome _ m w h;
      on_remaining_extends = λ m w h. send-SentSome _ m w h;
      report_keeps = λ w h. same_SentSome w _ (ap (of_channel t.id) (sep.report_datagrams w)) h;
      finish_keeps = λ w h. h;
    }

    -- Let an unreliable channel's id fit a byte, let no other task send datagrams under that id on
    -- its connection, while they may send any others, and let the calls on the queues and on the
    -- connection not touch one another. At every point of every schedule of the channel's task: the
    -- payloads handled so far, followed by those that wait, are those queued, in order, and the
    -- datagrams under that id that the connection took since the start are those of some of the
    -- handled payloads, in order.
    pub unreliable_subsequence :
        {q : List Bytes} {p : Phase} {w : net.World}
        → Run net s laws t.bytes_recv task Others w0 q p w
        → (done : List Bytes) × SentSome done w × (done ++ laws.backlog t.bytes_recv w ≡ q)
    unreliable_subsequence run =
        Run-Accounts net s laws t.bytes_recv task Others task_IsQueue SentSome task-SentSome
          ([], none_left, sym (append-nil (channel_datagrams w0))) run
