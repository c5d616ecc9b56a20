-- ===== src/Peer/Tests.antt =====
-- The theorems of Peer at concrete connections.
use bevy_quinnet.Base.{ℕ, ◌≡◌, refl, Result, List, [], ◌∷◌, none, some, length, arith, true, ◌+◌}
use bevy_quinnet.Error.{RecvChannelError}
use bevy_quinnet.Buffer.{Bytes}
use bevy_quinnet.Net.Example.{queue_net, queue_laws}
use bevy_quinnet.Peer.{
  PeerConnection, Channel, RecvChannelsConfiguration, new_connection, register_connection_channel,
  internal_close_channel,
}
use bevy_quinnet.Peer.Receive.{
  internal_receive_payload, clear_stale_received_payloads,
  dispatch_received_payloads_to_channel_buffers,
}
use bevy_quinnet.Peer.Slots.{slot, slot-register_connection_channel, slot-internal_close_channel}
use bevy_quinnet.Peer.Buffers.{buffered, deliver, IsWithin}
use bevy_quinnet.Peer.Refusals.{refusals}
use bevy_quinnet.Peer.Dispatch.{total, total-deliver}
use bevy_quinnet.Peer.Dispatch.Whole.{Received, refused, dispatch_received_payloads_lem}
use bevy_quinnet.Peer.Reading.{internal_receive_payload_lem, clear_stale_received_payloads_lem}

-- At most two payloads in each of at most three buffers.
abbrev cfg : RecvChannelsConfiguration
cfg = record {
  max_buffered_payloads_count_per_channel = 2;
  max_receive_channels_count = 3;
  clear_stale_received_payloads = true;
}

abbrev buffers : List (List Bytes)
buffers = ((9 ∷ []) ∷ []) ∷ []

-- The third payload of channel 0 has no room, and channel 3 is not received.
abbrev backlog : List (ℕ × Bytes)
backlog = (0, 1 ∷ []) ∷ (2, 2 ∷ []) ∷ (0, 3 ∷ []) ∷ (3, 4 ∷ []) ∷ []

buffers-IsWithin : IsWithin cfg buffers
buffers-IsWithin = record { channels = omega arith; payloads = (omega arith, tt) }

abbrev connection : PeerConnection queue_net (Unit {0})
connection = record (new_connection queue_net tt tt tt tt tt cfg) {
  recv_channels_payloads = buffers;
}

abbrev channel : ℕ → Channel queue_net
channel id = record { id = id; sender = tt; close_sender = tt }

total-deliver_example :
    total (deliver cfg buffers [] backlog).1 + length (deliver cfg buffers [] backlog).0 ≡ 5
total-deliver_example = total-deliver cfg buffers [] backlog

dispatch_received_payloads_lem_example :
    (r : Result (Unit {0}) (List RecvChannelError)) × (c : PeerConnection queue_net (Unit {0}))
    × (w : List (ℕ × Bytes)) × (dispatch_received_payloads_to_channel_buffers queue_net 5 connection
          backlog
        ≡ some (r, c, w))
    × Received queue_net (queue_laws (ℕ × Bytes)) connection backlog 0 r c w
unfolding new_connection
dispatch_received_payloads_lem_example =
    dispatch_received_payloads_lem queue_net (queue_laws (ℕ × Bytes)) 5 connection backlog 0
      (omega arith) (omega arith) buffers-IsWithin (omega arith)

-- The errors of that dispatch.
told :
    refused queue_net (queue_laws (ℕ × Bytes)) connection backlog
    ≡ RecvChannelError.recv_channel_full 0 ∷ RecvChannelError.max_recv_channel_count_reached 3 ∷ []
unfolding new_connection refusals
told = refl

internal_receive_payload_lem_example :
    ((internal_receive_payload queue_net connection 0).0 ≡ some (9 ∷ []))
    × (buffered 0 (internal_receive_payload queue_net connection 0).1.recv_channels_payloads ≡ [])
internal_receive_payload_lem_example = internal_receive_payload_lem queue_net connection 0 0

clear_stale_received_payloads_lem_example :
    buffered 0 (clear_stale_received_payloads queue_net connection).recv_channels_payloads ≡ []
unfolding new_connection
clear_stale_received_payloads_lem_example = clear_stale_received_payloads_lem queue_net connection 0

slot-register_connection_channel_example :
    slot queue_net (register_connection_channel queue_net connection (channel 4)) 4
    ≡ some (channel 4)
slot-register_connection_channel_example =
    slot-register_connection_channel queue_net connection (channel 4) 4

slot-internal_close_channel_example :
    slot queue_net
      (internal_close_channel queue_net
        (register_connection_channel queue_net connection (channel 4))
        4
        []).1
      4
    ≡ none
slot-internal_close_channel_example =
    slot-internal_close_channel queue_net
      (register_connection_channel queue_net connection (channel 4)) 4 4 []
