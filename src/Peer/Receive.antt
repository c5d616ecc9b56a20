-- ===== src/Peer/Receive.antt =====
-- The receive side of PeerConnection: shared/peer_connection/recv_channels.rs, and
-- `dequeue_undispatched_bytes_from_peer` of shared/peer_connection.rs.
use bevy_quinnet.Base.{
  ℕ, zero, suc, ◌-◌, List, [], ◌∷◌, ◌++◌, Option, none, some, Result, ok, err, length, get_elem?,
  set, replicate, ltb, if◌then◌else◌, Bool, map, false,
}
use bevy_quinnet.Error.{RecvChannelError, recv_channel_full, max_recv_channel_count_reached}
use bevy_quinnet.Config.{max_channel_count}
use bevy_quinnet.Buffer.{Bytes}
use bevy_quinnet.Net.{Net, TryRecvError}
use bevy_quinnet.Peer.{PeerConnection, RecvChannelsConfiguration, count_received}

-- `RecvChannelsConfiguration::default()`
unfoldable pub default_recv_configuration : RecvChannelsConfiguration
default_recv_configuration = record {
  max_buffered_payloads_count_per_channel = 512;
  max_receive_channels_count = max_channel_count;
  clear_stale_received_payloads = false;
}

-- `payloads.pop_front()` on the buffer of the channel.
unfoldable pub pop_payload : List (List Bytes) → ℕ → Option Bytes × List (List Bytes)
pop_payload buffers channel_id = elim (get_elem? buffers channel_id) [
  | some (payload ∷ rest) ↦ (some payload, set buffers channel_id rest)
  | some [] ↦ (none, buffers)
  | none ↦ (none, buffers)
]

-- The two arms of the dispatch of a payload: its channel has a buffer, or has none yet.
unfoldable pub into_buffer :
    RecvChannelsConfiguration
    → List (List Bytes)
    → ℕ
    → Bytes
    → List Bytes
    → Option RecvChannelError × List (List Bytes)
into_buffer cfg buffers channel_id payload payloads =
    if ltb (length payloads) cfg.max_buffered_payloads_count_per_channel
    then (none, set buffers channel_id (payloads ++ payload ∷ []))
    else (some (recv_channel_full channel_id), buffers)

unfoldable pub into_new_buffer :
    RecvChannelsConfiguration
    → List (List Bytes)
    → ℕ
    → Bytes
    → Option RecvChannelError × List (List Bytes)
into_new_buffer cfg buffers channel_id payload =
    if ltb channel_id cfg.max_receive_channels_count
    then (none, (buffers ++ replicate (channel_id - length buffers) []) ++ (payload ∷ []) ∷ [])
    else (some (max_recv_channel_count_reached channel_id), buffers)

-- The body of the loop of `dispatch_received_payloads_to_channel_buffers`.
unfoldable pub dispatch_payload :
    RecvChannelsConfiguration
    → List (List Bytes)
    → ℕ
    → Bytes
    → Option RecvChannelError × List (List Bytes)
dispatch_payload cfg buffers channel_id payload = elim (get_elem? buffers channel_id) [
  | some payloads ↦ into_buffer cfg buffers channel_id payload payloads
  | none ↦ into_new_buffer cfg buffers channel_id payload
]

abbrev pub push_error : List RecvChannelError → Option RecvChannelError → List RecvChannelError
push_error errs none = errs
push_error errs (some e) = errs ++ e ∷ []

-- `match errs.is_empty()`
abbrev pub report : List RecvChannelError → Result (Unit {0}) (List RecvChannelError)
report [] = ok tt
report (e ∷ errs) = err (e ∷ errs)

module _ (N : Net) {S : Type 0} where
  unfoldable pub set_clear_stale_received_payloads : PeerConnection N S → Bool → PeerConnection N S
  set_clear_stale_received_payloads c enable = record c {
    recv_channels_cfg = record (c.recv_channels_cfg) { clear_stale_received_payloads = enable };
  }

  unfoldable pub internal_receive_payload :
      PeerConnection N S → ℕ → Option Bytes × PeerConnection N S
  unfolding pop_payload
  internal_receive_payload c channel_id =
      let (payload, buffers) = pop_payload c.recv_channels_payloads channel_id in
      (payload, record c { recv_channels_payloads = buffers })

  unfoldable pub clear_received_payloads : PeerConnection N S → PeerConnection N S
  clear_received_payloads c = record c {
    recv_channels_payloads = map (λ payloads. []) c.recv_channels_payloads;
  }

  unfoldable pub clear_stale_received_payloads : PeerConnection N S → PeerConnection N S
  unfolding clear_received_payloads
  clear_stale_received_payloads c =
      if c.recv_channels_cfg.clear_stale_received_payloads then clear_received_payloads c else c

  unfoldable pub dequeue_undispatched_bytes_from_peer :
      PeerConnection N S → N.World → Result (ℕ × Bytes) TryRecvError × PeerConnection N S × N.World
  dequeue_undispatched_bytes_from_peer c w =
      let (received, w') = N.received.try_recv c.bytes_from_peer_recv w in
      elim received [
        | ok (channel_id, payload) ↦ (
          ok (channel_id, payload),
          record c { stats = count_received c.stats (length payload) },
          w',
        )
        | err e ↦ (err e, c, w')
      ]

  -- The loop of `dispatch_received_payloads_to_channel_buffers`; `none` when the fuel is used up.
  unfoldable pub dispatch_loop :
      ℕ
      → PeerConnection N S
      → List RecvChannelError
      → N.World
      → Option (List RecvChannelError × PeerConnection N S × N.World)
  dispatch_loop zero c errs w = none
  dispatch_loop (suc fuel) c errs w =
      let (received, c', w') = dequeue_undispatched_bytes_from_peer c w in
      elim received [
        | ok (channel_id, payload) ↦
            (let (e, buffers) =
                dispatch_payload c'.recv_channels_cfg c'.recv_channels_payloads channel_id
                  payload in
              dispatch_loop fuel (record c' { recv_channels_payloads = buffers })
                (push_error errs e) w')
        | err e ↦ some (errs, c', w')
      ]

  unfoldable pub dispatch_received_payloads_to_channel_buffers :
      ℕ
      → PeerConnection N S
      → N.World
      → Option (Result (Unit {0}) (List RecvChannelError) × PeerConnection N S × N.World)
  unfolding dispatch_loop
  dispatch_received_payloads_to_channel_buffers fuel c w = elim (dispatch_loop fuel c [] w) [
    | some (errs, c', w') ↦ some (report errs, c', w')
    | none ↦ none
  ]
