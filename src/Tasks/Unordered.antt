-- ===== src/Tasks/Unordered.antt =====
-- `unordered_reliable_channel_task` in any schedule: it hands each payload to a task of its own,
-- which writes one stream.
use bevy_quinnet.Base.{ℕ, ◌<◌, ◌≡◌, refl, sym, ap, ◌∙◌, List, [], ◌∷◌, ◌++◌, some, length, map}
use mathlib.Core.List.{append_assoc, append-nil, map-append}
use bevy_quinnet.Buffer.{Bytes}
use bevy_quinnet.Net.{Net, MpscLaws}
use bevy_quinnet.Tasks.Quinn.{Streams}
use bevy_quinnet.Tasks.{
  ChannelTask, SendChannelTaskData, MessageTask, Phase, drain, unordered_reliable_channel_task,
  report_lost,
}
use bevy_quinnet.Tasks.Schedule.{Run, IsQueue, IsRecord}
use bevy_quinnet.Tasks.Accounting.{Run-drain}

module _ (net : Net) (s : Streams net.World) (laws : MpscLaws net.payloads)
    (t : SendChannelTaskData net s) (max_frame_len : ℕ)
    (spawn : MessageTask net s → net.World → net.World)
    (spawned : net.World → List (MessageTask net s)) where
  abbrev pub task : ChannelTask net.World
  task = unordered_reliable_channel_task net s t max_frame_len spawn

  -- Where a spawned task sends what, whether or not it would report an error.
  abbrev pub Sends : Type 0
  Sends = s.Connection × ℕ × ℕ × Bytes

  abbrev pub sends : MessageTask net s → Sends
  sends m = (m.connection, m.id, m.max_frame_len, m.msg_bytes)

  abbrev pub sends_of_channel : Bytes → Sends
  sends_of_channel m = (t.connection, t.id, max_frame_len, m)

  -- What the other tasks may do between two steps.
  pub record Others (more : List Bytes) (w w' : net.World) : Type 0 where
    pub spawned_kept : spawned w' ≡ spawned w
    pub queued : laws.backlog t.bytes_recv w' ≡ laws.backlog t.bytes_recv w ++ more

  -- `spawned` tells what `spawn` was called with; the queues do not change it, nor it the queue.
  pub record IsSpawner : Type 0 where
    pub spawn_lem :
        (m : MessageTask net s) (w : net.World) → spawned (spawn m w) ≡ spawned w ++ m ∷ []
    pub spawn_queue :
        (m : MessageTask net s) (w : net.World)
        → laws.backlog t.bytes_recv (spawn m w) ≡ laws.backlog t.bytes_recv w
    pub report_queue :
        (w : net.World)
        → laws.backlog t.bytes_recv (report_lost net s t.from_channels_send w).1
          ≡ laws.backlog t.bytes_recv w
    pub report_spawned :
        (w : net.World) → spawned (report_lost net s t.from_channels_send w).1 ≡ spawned w
    pub try_recv_spawned :
        (w : net.World) → spawned (net.payloads.try_recv t.bytes_recv w).1 ≡ spawned w

  module _ (law : IsSpawner) (w0 : net.World) where
    -- The tasks spawned since the start, for what was handled.
    abbrev pub HandsOver : List Bytes → net.World → Type 0
    HandsOver done w = map sends (spawned w) ≡ map sends (spawned w0) ++ map sends_of_channel done

    spawn-HandsOver :
        (done : List Bytes) (m : Bytes) (x : MessageTask net s) (w : net.World)
        → sends x ≡ sends_of_channel m
        → HandsOver done w
        → HandsOver (done ++ m ∷ []) (spawn x w)
    spawn-HandsOver done m x w e h = rw (law.spawn_lem x w) (
        map-append sends (spawned w) (x ∷ [])
        ∙ ap (λ (l : List Sends). l ++ sends x ∷ []) h
        ∙ append_assoc (map sends (spawned w0)) (map sends_of_channel done) (sends x ∷ [])
        ∙ ap (λ (y : Sends). map sends (spawned w0) ++ (map sends_of_channel done ++ y ∷ [])) e
        ∙ ap (◌++◌ (map sends (spawned w0))) (sym (map-append sends_of_channel done (m ∷ []))))

    task_IsQueue : IsQueue net s laws t.bytes_recv task Others
    unfolding unordered_reliable_channel_task
    task_IsQueue = record {
      others_queue = λ o. o.queued;
      on_bytes_queue = λ m w. law.spawn_queue _ w;
      on_remaining_queue = λ m w. law.spawn_queue _ w;
      report_queue = law.report_queue;
      finish_queue = λ w. refl;
    }

    task-HandsOver : IsRecord net s laws t.bytes_recv task Others HandsOver
    unfolding unordered_reliable_channel_task
    task-HandsOver = record {
      others_keep = λ o h. ap (map sends) o.spawned_kept ∙ h;
      take_keeps = λ w h. ap (map sends) (law.try_recv_spawned w) ∙ h;
      on_bytes_extends = λ m w h. spawn-HandsOver _ m _ w refl h;
      on_remaining_extends = λ m w h. spawn-HandsOver _ m _ w refl h;
      report_keeps = λ w h. ap (map sends) (law.report_spawned w) ∙ h;
      finish_keeps = λ w h. h;
    }

    -- Wherever a schedule has led an unordered reliable channel's task, with more fuel than
    -- payloads wait the loop over what is left ends: nothing waits afterwards, and since the start
    -- exactly one task was spawned for each payload ever queued, in order, with the channel's
    -- connection, id and frame limit.
    pub unordered_flush :
        {q : List Bytes} {p : Phase} {w : net.World} (fuel : ℕ)
        → Run net s laws t.bytes_recv task Others w0 q p w
        → length (laws.backlog t.bytes_recv w) < fuel
        → (w' : net.World) × (drain net s fuel task.on_remaining t.bytes_recv w ≡ some w')
          × HandsOver q w'
          × (laws.backlog t.bytes_recv w' ≡ [])
    unfolding unordered_reliable_channel_task
    unordered_flush fuel run enough =
        Run-drain net s laws t.bytes_recv task Others task_IsQueue HandsOver task-HandsOver fuel
          (sym (append-nil _)) run enough
