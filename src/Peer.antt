-- ===== src/Peer.antt =====
-- Channel of shared/channels.rs and PeerConnection of shared/peer_connection.rs. A call returns its
-- result, the connection and the world of the queues after it.
pub mod Receive
pub mod Slots
pub mod Opening
pub mod Buffers
pub mod Refusals
pub mod Dispatch
pub mod Reading
mod Tests
use bevy_quinnet.Base.{
  ℕ, ◌+◌, ◌-◌, ◌%◌, ◌^◌, List, [], ◌∷◌, ◌++◌, Option, none, some, Result, ok, err, map_err, length,
  get_elem?, set, replicate, ltb, if◌then◌else◌, Bool,
}
use bevy_quinnet.Error.{
  AsyncChannelError, full_queue, internal_channel_closed, ChannelCloseError, ConnectionSendError,
  ConnectionAlreadyClosed, connection_already_closed,
}
use bevy_quinnet.Config.{ChannelConfig, CloseReason}
use bevy_quinnet.Buffer.{Bytes}
use bevy_quinnet.Net.{
  Net, TrySendError, full, closed, TryRecvError, SendError, ChannelSyncMessage, create_channel,
  ChannelAsyncMessage,
}

abbrev pub default_message_queue_size : ℕ
default_message_queue_size = 150

abbrev pub default_kill_message_queue_size : ℕ
default_kill_message_queue_size = 10

-- The error of a failed `try_send`.
abbrev pub of_try_send : TrySendError → AsyncChannelError
of_try_send full = full_queue
of_try_send closed = internal_channel_closed

pub record ConnectionStats : Type 0 where
  pub received_bytes_count : ℕ
  pub sent_bytes_count : ℕ
  pub received_messages_count : ℕ

-- `ConnectionStats::default()`; `reset` sets the same.
abbrev pub no_stats : ConnectionStats
no_stats = record { received_bytes_count = 0; sent_bytes_count = 0; received_messages_count = 0 }

-- The counters are `u64`s; their sums wrap.
unfoldable pub count_received : ConnectionStats → ℕ → ConnectionStats
count_received s bytes_count = record s {
  received_bytes_count = (s.received_bytes_count + bytes_count) % 2 ^ 64;
  received_messages_count = (s.received_messages_count + 1) % 2 ^ 64;
}

unfoldable pub count_sent : ConnectionStats → ℕ → ConnectionStats
count_sent s bytes_count = record s {
  sent_bytes_count = (s.sent_bytes_count + bytes_count) % 2 ^ 64;
}

pub clear_received_bytes_count : ConnectionStats → ℕ × ConnectionStats
clear_received_bytes_count s = (s.received_bytes_count, record s { received_bytes_count = 0 })

pub clear_sent_bytes_count : ConnectionStats → ℕ × ConnectionStats
clear_sent_bytes_count s = (s.sent_bytes_count, record s { sent_bytes_count = 0 })

pub clear_received_messages_count : ConnectionStats → ℕ × ConnectionStats
clear_received_messages_count s =
    (s.received_messages_count, record s { received_messages_count = 0 })

pub record RecvChannelsConfiguration : Type 0 where
  pub max_buffered_payloads_count_per_channel : ℕ
  pub max_receive_channels_count : ℕ
  pub clear_stale_received_payloads : Bool

pub record Channel (N : Net) : Type 0 where
  pub id : ℕ
  pub sender : N.payloads.Sender
  pub close_sender : N.channel_closes.Sender

pub record PeerConnection (N : Net) (S : Type 0) : Type 0 where
  pub specific : S
  pub send_channels : List (Option (Channel N))
  pub bytes_from_peer_recv : N.received.Receiver
  pub to_channels_send : N.channel_syncs.Sender
  pub from_channels_recv : N.channel_asyncs.Receiver
  pub close_send : N.closes.Sender
  pub stats : ConnectionStats
  pub recv_channels_payloads : List (List Bytes)
  pub recv_channels_cfg : RecvChannelsConfiguration

module _ (N : Net) where
  unfoldable pub send_payload :
      Channel N → Bytes → N.World → Result (Unit {0}) AsyncChannelError × N.World
  send_payload c payload w =
      let (sent, w') = N.payloads.try_send c.sender payload w in (map_err of_try_send sent, w')

  -- `Channel::close`
  unfoldable pub close_channel : Channel N → N.World → Result (Unit {0}) ChannelCloseError × N.World
  close_channel c w =
      let (sent, w') = N.channel_closes.blocking_send c.close_sender tt w in
      (map_err (λ _. ChannelCloseError.channel_already_closed) sent, w')

module _ (N : Net) {S : Type 0} where
  -- `PeerConnection::new`
  unfoldable pub new_connection :
      S
      → N.received.Receiver
      → N.closes.Sender
      → N.channel_asyncs.Receiver
      → N.channel_syncs.Sender
      → RecvChannelsConfiguration
      → PeerConnection N S
  new_connection specific bytes_from_peer_recv close_send from_channels_recv to_channels_send cfg =
      record {
        specific = specific;
        send_channels = [];
        bytes_from_peer_recv = bytes_from_peer_recv;
        to_channels_send = to_channels_send;
        from_channels_recv = from_channels_recv;
        close_send = close_send;
        stats = no_stats;
        recv_channels_payloads = [];
        recv_channels_cfg = cfg;
      }

  -- The payload is counted before it is known whether the queue takes it.
  unfoldable pub internal_send_payload :
      PeerConnection N S
      → ℕ
      → Bytes
      → N.World
      → Result (Unit {0}) ConnectionSendError × PeerConnection N S × N.World
  internal_send_payload c channel_id payload w = elim (get_elem? c.send_channels channel_id) [
    | some (some channel) ↦
        (let (sent, w') = send_payload N channel payload w in
          (
            map_err ConnectionSendError.channel_send_error sent,
            record c { stats = count_sent c.stats (length payload) },
            w',
          ))
    | some none ↦ (err ConnectionSendError.channel_closed, c, w)
    | none ↦ (err (ConnectionSendError.invalid_channel_id channel_id), c, w)
  ]

  -- `self.send_channels[channel_id].take()`, and `close` on what was there.
  unfoldable pub close_taken :
      PeerConnection N S
      → Option (Option (Channel N))
      → N.World
      → Result (Unit {0}) ChannelCloseError × PeerConnection N S × N.World
  close_taken c (some (some channel_to_close)) w =
      let (answer, w') = close_channel N channel_to_close w in (answer, c, w')
  close_taken c (some none) w = (err ChannelCloseError.channel_already_closed, c, w)
  close_taken c none w = (err ChannelCloseError.channel_already_closed, c, w)

  unfoldable pub internal_close_channel :
      PeerConnection N S
      → ℕ
      → N.World
      → Result (Unit {0}) ChannelCloseError × PeerConnection N S × N.World
  unfolding close_taken
  internal_close_channel c channel_id w =
      if ltb channel_id (length c.send_channels)
      then close_taken (record c { send_channels = set c.send_channels channel_id none })
          (get_elem? c.send_channels channel_id) w
      else (err (ChannelCloseError.invalid_channel_id channel_id), c, w)

  -- It has no effect on the connection itself.
  unfoldable pub create_unregistered_connection_channel :
      PeerConnection N S
      → ℕ
      → ChannelConfig
      → N.World
      → Result (Channel N) AsyncChannelError × N.World
  create_unregistered_connection_channel c id config w =
      let (bytes_send, bytes_recv, w1) = N.payloads.channel default_message_queue_size w in
      let (close_send, close_recv, w2) =
        N.channel_closes.channel default_kill_message_queue_size w1 in
      let (sent, w3) =
        N.channel_syncs.try_send c.to_channels_send (create_channel id config bytes_recv close_recv)
          w2 in
      (
        elim sent [
          | ok _ ↦ ok (record { id = id; sender = bytes_send; close_sender = close_send })
          | err e ↦ err (of_try_send e)
        ],
        w3,
      )

  unfoldable pub register_connection_channel : PeerConnection N S → Channel N → PeerConnection N S
  register_connection_channel c channel = record c {
    send_channels =
        if ltb channel.id (length c.send_channels)
        then set c.send_channels channel.id (some channel)
        else (c.send_channels ++ replicate (channel.id - length c.send_channels) none)
          ++ some channel ∷ [];
  }

  -- What `?` leaves of a created channel: it is registered, or the error is returned.
  unfoldable pub register_created :
      PeerConnection N S
      → Result (Channel N) AsyncChannelError × N.World
      → Result (Unit {0}) AsyncChannelError × PeerConnection N S × N.World
  register_created c (ok channel, w) = (ok tt, register_connection_channel c channel, w)
  register_created c (err e, w) = (err e, c, w)

  unfoldable pub create_connection_channel :
      PeerConnection N S
      → ℕ
      → ChannelConfig
      → N.World
      → Result (Unit {0}) AsyncChannelError × PeerConnection N S × N.World
  unfolding register_created
  create_connection_channel c id config w =
      register_created c (create_unregistered_connection_channel c id config w)

  -- `PeerConnection::close`; `try_close` logs the error and drops it.
  unfoldable pub close :
      PeerConnection N S
      → CloseReason
      → N.World
      → Result (Unit {0}) ConnectionAlreadyClosed × N.World
  close c reason w =
      let (sent, w') = N.closes.send c.close_send reason w in
      (map_err (λ _. connection_already_closed) sent, w')

  unfoldable pub try_close : PeerConnection N S → CloseReason → N.World → N.World
  try_close c reason w = (close c reason w).1

  unfoldable pub try_recv_from_channels :
      PeerConnection N S → N.World → Result ChannelAsyncMessage TryRecvError × N.World
  try_recv_from_channels c w = N.channel_asyncs.try_recv c.from_channels_recv w

  unfoldable pub internal_reset :
      PeerConnection N S
      → N.closes.Sender
      → N.channel_syncs.Sender
      → N.channel_asyncs.Receiver
      → N.received.Receiver
      → PeerConnection N S
  internal_reset c close_send to_channels_send from_channels_recv bytes_from_peer_recv = record c {
    close_send = close_send;
    to_channels_send = to_channels_send;
    from_channels_recv = from_channels_recv;
    bytes_from_peer_recv = bytes_from_peer_recv;
    send_channels = [];
    stats = no_stats;
    recv_channels_payloads = [];
  }
