-- ===== src/Net.antt =====
-- The queues of `tokio`, which is not part of the repository, as parameters: a world that holds them,
-- and the calls on their ends. A call answers and changes the world; the async tasks are in it.
pub mod Example
use bevy_quinnet.Base.{ℕ, ◌≡◌, List, [], ◌∷◌, Result, ok, err}
use bevy_quinnet.Buffer.{Bytes}
use bevy_quinnet.Config.{ChannelConfig, CloseReason}

pub data TrySendError : Type 0 where
  full closed : TrySendError

pub data TryRecvError : Type 0 where
  empty disconnected : TryRecvError

pub data SendError : Type 0 where
  no_receiver : SendError

-- `tokio::sync::mpsc`
pub record Mpsc (W A : Type 0) : Type 1 where
  pub Sender : Type 0
  pub Receiver : Type 0
  pub channel : ℕ → W → Sender × Receiver × W
  pub try_send : Sender → A → W → Result (Unit {0}) TrySendError × W
  pub blocking_send : Sender → A → W → Result (Unit {0}) SendError × W
  pub send : Sender → A → W → Result (Unit {0}) SendError × W
  pub try_recv : Receiver → W → Result A TryRecvError × W

-- `tokio::sync::broadcast`
pub record Broadcast (W A : Type 0) : Type 1 where
  pub Sender : Type 0
  pub channel : ℕ → W → Sender × W
  pub send : Sender → A → W → Result (Unit {0}) SendError × W

-- What the documentation of `try_recv` promises while no sender runs: messages come out in the order
-- in which they were sent, and then there is an error.
pub record MpscLaws {W A : Type 0} (q : Mpsc W A) : Type 0 where
  pub backlog : q.Receiver → W → List A
  pub try_recv_cons :
      (r : q.Receiver) (w : W) (a : A) (rest : List A)
      → backlog r w ≡ a ∷ rest
      → ((q.try_recv r w).0 ≡ ok a) × (backlog r (q.try_recv r w).1 ≡ rest)
  pub try_recv_nil :
      (r : q.Receiver) (w : W)
      → backlog r w ≡ []
      → (e : TryRecvError) × ((q.try_recv r w).0 ≡ err e) × (backlog r (q.try_recv r w).1 ≡ [])

-- shared/channels.rs
pub data ChannelAsyncMessage : Type 0 where
  lost_connection : ChannelAsyncMessage

pub data ChannelSyncMessage (BytesReceiver CloseReceiver : Type 0) : Type 0 where
  create_channel :
      ℕ
      → ChannelConfig
      → BytesReceiver
      → CloseReceiver
      → ChannelSyncMessage BytesReceiver CloseReceiver

-- The queues of a connection.
pub record Net : Type 1 where
  pub World : Type 0
  pub payloads : Mpsc World Bytes
  pub channel_closes : Mpsc World (Unit {0})
  pub channel_syncs : Mpsc World (ChannelSyncMessage payloads.Receiver channel_closes.Receiver)
  pub channel_asyncs : Mpsc World ChannelAsyncMessage
  pub received : Mpsc World (ℕ × Bytes)
  pub closes : Broadcast World CloseReason
