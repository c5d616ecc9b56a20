-- ===== src/Tasks.antt =====
-- The send tasks of a connection's channels: shared/channels/reliable/send.rs and
-- shared/channels/unreliable/send.rs. A task is its handlers and a phase: `select!` polls a close
-- signal, the channel's own close signal and the loop that sends; a reason to close leads to the
-- loop that sends what is left. Where a call awaits, other tasks run: `Tasks.Schedule`.
pub mod Quinn
pub mod Schedule
pub mod Accounting
pub mod Ordered
pub mod Delivery
pub mod Unordered
pub mod Message
pub mod Kept
pub mod Unreliable
pub mod Spawner
pub mod Receiver
pub mod EndToEnd
pub mod Example
mod Tests
use bevy_quinnet.Base.{
  ℕ, zero, suc, List, [], ◌∷◌, Option, none, some, Result, ok, err, Bool, true, false,
}
use bevy_quinnet.Buffer.{Bytes, Buffer}
use bevy_quinnet.Config.{CloseReason, local_order, peer_closed}
use bevy_quinnet.Codec.{QuinnetProtocolCodecEncoder, unreliable_datagram}
use bevy_quinnet.Net.{Net, lost_connection}
use bevy_quinnet.Tasks.Quinn.{
  Streams, SendDatagramError, unsupported_by_peer, disabled, too_large, connection_lost,
}

-- Where a task is: in `select!`, waiting for a payload; in `select!`, reporting a lost connection;
-- past it, sending what is left; at its end; or panicked at an `expect`.
pub data Phase : Type 0 where
  sending reporting flushing ended panicked : Phase

-- What a close signal's `recv` answers: an error, `none`, counts as a local order.
abbrev pub close_reason : Option CloseReason → CloseReason
close_reason (some reason) = reason
close_reason none = local_order

-- `if close_reason != CloseReason::PeerClosed`
abbrev pub after_select : CloseReason → Phase
after_select local_order = flushing
after_select peer_closed = ended

-- What the three kinds of tasks do at their await points, in a world.
pub record ChannelTask (W : Type 0) : Type 0 where
  -- a payload from `bytes_recv.recv()`
  pub on_bytes : Bytes → W → Phase × W
  -- `from_channels_send.send(LostConnection)`
  pub report : W → Phase × W
  -- a payload that `bytes_recv.try_recv()` yields after the `select!`
  pub on_remaining : Bytes → W → W
  -- past the last payload
  pub finish : W → W

module _ (net : Net) (s : Streams net.World) where
  -- `channels_keepalive` is in `Tasks.Spawner`; the two close signals are answered by the schedule.
  pub record SendChannelTaskData : Type 0 where
    pub connection : s.Connection
    pub id : ℕ
    pub from_channels_send : net.channel_asyncs.Sender
    pub bytes_recv : net.payloads.Receiver

  -- `while let Ok(msg_bytes) = bytes_recv.try_recv()`, with fuel.
  unfoldable pub drain :
      ℕ → (Bytes → net.World → net.World) → net.payloads.Receiver → net.World → Option net.World
  drain zero on_remaining r w = none
  drain (suc fuel) on_remaining r w = elim (net.payloads.try_recv r w).0 [
    | ok m ↦ drain fuel on_remaining r (on_remaining m (net.payloads.try_recv r w).1)
    | err e ↦ some (net.payloads.try_recv r w).1
  ]

  -- The block after the `select!`: past a peer that has closed there is nothing to send.
  unfoldable pub end_in :
      Phase → ℕ → ChannelTask net.World → net.payloads.Receiver → net.World → Option net.World
  unfolding drain
  end_in flushing fuel task r w = elim (drain fuel task.on_remaining r w) [
    | some w' ↦ some (task.finish w')
    | none ↦ none
  ]
  end_in _ fuel task r w = some w

  -- The end of a task after what its close signal's `recv` answered.
  unfoldable pub end_task :
      ℕ
      → Option CloseReason
      → ChannelTask net.World
      → net.payloads.Receiver
      → net.World
      → Option net.World
  unfolding end_in
  end_task fuel signal task r w = end_in (after_select (close_reason signal)) fuel task r w

  -- `none` is the panic of the `expect`.
  unfoldable pub new_uni_frame_sender :
      s.Connection → ℕ → ℕ → net.World → Option s.FrameSender × net.World
  new_uni_frame_sender connection raw_channel_id max_frame_len w =
      let (opened, w') = s.open_uni connection w in
      elim opened [
        | ok uni_sender ↦
            let (sender, w'') =
              s.new_framed uni_sender
                (record { max_frame_len = max_frame_len; raw_channel_id = raw_channel_id }) w' in
            (some sender, w'')
        | err e ↦ (none, w')
      ]

  -- The send of a lost connection: its `expect` panics if nobody receives.
  unfoldable pub report_lost : net.channel_asyncs.Sender → net.World → Phase × net.World
  report_lost sender w =
      let (sent, w') = net.channel_asyncs.send sender lost_connection w in
      elim sent [ ok u ↦ (sending, w') | err e ↦ (panicked, w') ]

  -- The body of the loop in `select!`: after an error the task goes on to report it.
  unfoldable pub ordered_send : s.FrameSender → Bytes → net.World → Phase × net.World
  ordered_send frame_sender msg_bytes w =
      let (sent, w') = s.send frame_sender msg_bytes w in
      elim sent [ ok u ↦ (sending, w') | err e ↦ (reporting, w') ]

  -- After the loop that sends what is left: its errors, and those of these calls, are only logged.
  unfoldable pub ordered_finish : s.FrameSender → net.World → net.World
  ordered_finish frame_sender w = (s.finish frame_sender (s.flush frame_sender w).1).1

  unfoldable pub ordered_reliable_channel_task :
      SendChannelTaskData → s.FrameSender → ChannelTask net.World
  unfolding ordered_send report_lost ordered_finish
  ordered_reliable_channel_task t frame_sender = record {
    on_bytes = ordered_send frame_sender;
    report = report_lost t.from_channels_send;
    on_remaining = λ msg_bytes w. (s.send frame_sender msg_bytes w).1;
    finish = ordered_finish frame_sender;
  }

  -- What the unordered task spawns for a payload; `reports` in the first loop, where an error is
  -- reported and not only logged.
  pub record MessageTask : Type 0 where
    pub connection : s.Connection
    pub id : ℕ
    pub max_frame_len : ℕ
    pub from_channels_send : net.channel_asyncs.Sender
    pub msg_bytes : Bytes
    pub reports : Bool

  -- What the task does with an error of its send.
  unfoldable pub message_failed : MessageTask → net.World → Phase × net.World
  unfolding report_lost
  message_failed m w = elim m.reports [
    | true ↦ report_lost m.from_channels_send w
    | false ↦ (sending, w)
  ]

  -- `frame_sender.into_inner().finish()`, unless the report has panicked.
  pub message_finish : s.FrameSender → Phase × net.World → Phase × net.World
  message_finish frame_sender (panicked, w) = (panicked, w)
  message_finish frame_sender (p, w) = (ended, (s.finish frame_sender w).1)

  message_send : MessageTask → Option s.FrameSender × net.World → Phase × net.World
  unfolding message_finish message_failed
  message_send m (none, w) = (panicked, w)
  message_send m (some frame_sender, w) =
      let (sent, w') = s.send frame_sender m.msg_bytes w in
      message_finish frame_sender (elim sent [ ok u ↦ (sending, w') | err e ↦ message_failed m w' ])

  unfoldable pub message_task : MessageTask → net.World → Phase × net.World
  unfolding message_send new_uni_frame_sender
  message_task m w = message_send m (new_uni_frame_sender m.connection m.id m.max_frame_len w)

  -- `spawn` is `tokio::spawn`.
  unfoldable pub unordered_reliable_channel_task :
      SendChannelTaskData → ℕ → (MessageTask → net.World → net.World) → ChannelTask net.World
  unfolding report_lost
  unordered_reliable_channel_task t max_frame_len spawn = record {
    on_bytes = λ msg_bytes w. (sending, spawn (message msg_bytes true) w);
    report = report_lost t.from_channels_send;
    on_remaining = λ msg_bytes w. spawn (message msg_bytes false) w;
    finish = λ w. w;
  }
    where
      message : Bytes → Bool → MessageTask
      message msg_bytes reports = record {
        connection = t.connection;
        id = t.id;
        max_frame_len = max_frame_len;
        from_channels_send = t.from_channels_send;
        msg_bytes = msg_bytes;
        reports = reports;
      }

  module _ (b : Buffer) where
    unfoldable pub send_unreliable_message :
        s.Connection → Bytes → ℕ → net.World → Result (Unit {0}) SendDatagramError × net.World
    send_unreliable_message connection msg_bytes channel_id w =
        s.send_datagram connection (unreliable_datagram b msg_bytes channel_id) w

    -- Only a lost connection is reported: the other errors are logged and the payload is dropped.
    unfoldable pub unreliable_outcome : Result (Unit {0}) SendDatagramError → Phase
    unreliable_outcome (ok u) = sending
    unreliable_outcome (err unsupported_by_peer) = sending
    unreliable_outcome (err disabled) = sending
    unreliable_outcome (err too_large) = sending
    unreliable_outcome (err connection_lost) = reporting

    unfoldable pub unreliable_channel_task : SendChannelTaskData → ChannelTask net.World
    unfolding send_unreliable_message unreliable_outcome report_lost
    unreliable_channel_task t = record {
      on_bytes = λ msg_bytes w.
          let (sent, w') = send_unreliable_message t.connection msg_bytes t.id w in
          (unreliable_outcome sent, w');
      report = report_lost t.from_channels_send;
      on_remaining = λ msg_bytes w. (send_unreliable_message t.connection msg_bytes t.id w).1;
      finish = λ w. w;
    }
