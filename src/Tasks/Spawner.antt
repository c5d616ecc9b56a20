-- ===== src/Tasks/Spawner.antt =====
-- shared/channels/tasks.rs: `send_channels_tasks_spawner`. Each task that it starts holds a clone of
-- `channels_keepalive`, and so does each task that an unordered channel spawns; the connection is
-- closed when no clone is left.
pub mod Closing
use bevy_quinnet.Base.{ℕ, zero, suc, ◌+◌, ◌-◌, ◌≡◌, List, [], ◌∷◌, Option, none, some, get_elem?}
use bevy_quinnet.Buffer.{Buffer}
use bevy_quinnet.Config.{ChannelConfig, ordered_reliable, unordered_reliable, unreliable}
use bevy_quinnet.Net.{Net, ChannelSyncMessage, create_channel}
use bevy_quinnet.Tasks.Quinn.{Streams}
use bevy_quinnet.Tasks.{
  ChannelTask, SendChannelTaskData, MessageTask, new_uni_frame_sender,
  ordered_reliable_channel_task, unordered_reliable_channel_task, unreliable_channel_task,
}

module _ (net : Net) (s : Streams net.World) (b : Buffer) where
  -- A task at its first await point; the ordered one has opened its stream, or has panicked.
  start_ordered :
      SendChannelTaskData net s
      → Option s.FrameSender × net.World
      → Option (ChannelTask net.World) × net.World
  start_ordered t (some frame_sender, w) =
      (some (ordered_reliable_channel_task net s t frame_sender), w)
  start_ordered t (none, w) = (none, w)

  -- `match config` in the loop of the spawner.
  unfoldable pub start_channel_task :
      SendChannelTaskData net s
      → (MessageTask net s → net.World → net.World)
      → ChannelConfig
      → net.World
      → Option (ChannelTask net.World) × net.World
  unfolding start_ordered
  start_channel_task t spawn (ordered_reliable max_frame_size) w =
      start_ordered t (new_uni_frame_sender net s t.connection t.id max_frame_size w)
  start_channel_task t spawn (unordered_reliable max_frame_size) w =
      (some (unordered_reliable_channel_task net s t max_frame_size spawn), w)
  start_channel_task t spawn unreliable w = (some (unreliable_channel_task net s b t), w)

  -- The data of the task for a message of the queue `to_channels_recv`.
  unfoldable pub task_data :
      s.Connection
      → net.channel_asyncs.Sender
      → ChannelSyncMessage net.payloads.Receiver net.channel_closes.Receiver
      → SendChannelTaskData net s × ChannelConfig
  task_data connection from_channels_send (create_channel id config bytes_recv channel_close_recv) =
      (
        record {
          connection = connection;
          id = id;
          from_channels_send = from_channels_send;
          bytes_recv = bytes_recv;
        },
        config,
      )

pub data SpawnerPhase : Type 0 where
  listening waiting closed : SpawnerPhase

-- A task that holds a clone: a channel's, or that of one payload of an unordered channel.
pub data Keeper : Type 0 where
  channel : ℕ → ChannelConfig → Keeper
  message : ℕ → Keeper

pub record Spawner : Type 0 where
  pub phase : SpawnerPhase
  -- the senders of the keepalive queue, the spawner's own included
  pub keepalives : ℕ
  pub tasks : List Keeper

-- `mpsc::channel::<()>(1)`
unfoldable pub new_spawner : Spawner
new_spawner = record { phase = listening; keepalives = 1; tasks = [] }

-- A clone of the sender moves into a new task.
unfoldable pub spawn_keeper : Keeper → Spawner → Spawner
spawn_keeper k p = record p { keepalives = p.keepalives + 1; tasks = k ∷ p.tasks }

-- `drop(channel_tasks_keepalive)`
unfoldable pub stop_listening : Spawner → Spawner
stop_listening p = record p { phase = waiting; keepalives = p.keepalives - 1 }

abbrev pub remove_at : ℕ → List Keeper → List Keeper
remove_at i [] = []
remove_at zero (k ∷ ks) = ks
remove_at (suc i) (k ∷ ks) = k ∷ remove_at i ks

-- A task ends, and drops its clone.
unfoldable pub end_keeper : ℕ → Spawner → Spawner
end_keeper i p = record p { keepalives = p.keepalives - 1; tasks = remove_at i p.tasks }

-- `connection.close`, after the wait.
unfoldable pub close_connection : Spawner → Spawner
close_connection p = record p { phase = closed }

pub data Step : Spawner → Spawner → Type 0 where
  creates :
      (p : Spawner) (id : ℕ) (config : ChannelConfig)
      → p.phase ≡ listening
      → Step p (spawn_keeper (channel id config) p)
  spawns_message :
      (p : Spawner) (i id max_frame_size : ℕ)
      → get_elem? p.tasks i ≡ some (channel id (unordered_reliable max_frame_size))
      → Step p (spawn_keeper (message id) p)
  -- a close signal, or the end of the queue
  stops : (p : Spawner) → p.phase ≡ listening → Step p (stop_listening p)
  ends : (p : Spawner) (i : ℕ) (k : Keeper) → get_elem? p.tasks i ≡ some k → Step p (end_keeper i p)
  -- `channel_tasks_waiter.recv()` answers once every sender is dropped
  closes : (p : Spawner) → p.phase ≡ waiting → p.keepalives ≡ 0 → Step p (close_connection p)

pub data Reach (p : Spawner) : Spawner → Type 0 where
  here : Reach p p
  next : {q q' : Spawner} → Reach p q → Step q q' → Reach p q'
