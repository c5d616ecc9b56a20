-- ===== src/Peer/Slots.antt =====
-- The send channels of a connection: which ids are open, and what opening and closing change.
use bevy_quinnet.Base.{
  ℕ, ◌≤◌, ◌<◌, ◌≡◌, refl, Option, none, some, err, length, get_elem?, set, ltb, if◌then◌else◌,
  arith, ◌==◌, get_elem?_above, get_elem?_below, Bool-cases, inl, inr, map_err, ltb→lt,
}
use bevy_quinnet.Base.Padded.{item, item-set, item-fill}
use bevy_quinnet.Error.{ChannelCloseError, ConnectionSendError}
use bevy_quinnet.Net.{Net}
use bevy_quinnet.Buffer.{Bytes}
use bevy_quinnet.Peer.{
  PeerConnection, Channel, register_connection_channel, internal_close_channel, close_taken,
  close_channel, internal_send_payload, send_payload, count_sent,
}

module _ (N : Net) {S : Type 0} where
  -- The channel that is open under an id.
  abbrev pub slot : PeerConnection N S → ℕ → Option (Channel N)
  slot c id = item none id c.send_channels

  -- Registering a channel opens its id, over whatever stood there, and touches no other id.
  pub slot-register_connection_channel :
      (c : PeerConnection N S) (channel : Channel N) (j : ℕ)
      → slot (register_connection_channel N c channel) j
        ≡ (if channel.id == j then some channel else slot c j)
  unfolding register_connection_channel
  slot-register_connection_channel c channel j =
      elim (Bool-cases (ltb channel.id (length c.send_channels))) [
        | inl inside ↦
            rw inside
              (item-set none c.send_channels channel.id j (some channel) (ltb→lt _ _ inside))
        | inr outside ↦
            rw outside (item-fill none c.send_channels channel.id j (some channel) (ground arith))
      ]

  close_taken-eq :
      (c : PeerConnection N S) (o : Option (Option (Channel N))) (w : N.World)
      → (close_taken N c o w).1 ≡ c
  unfolding close_taken
  close_taken-eq c (some (some ch)) w = refl
  close_taken-eq c (some none) w = refl
  close_taken-eq c none w = refl

  -- Closing an id leaves it closed, whether the call succeeds or fails, and touches no other id.
  pub slot-internal_close_channel :
      (c : PeerConnection N S) (id j : ℕ) (w : N.World)
      → slot (internal_close_channel N c id w).1 j ≡ (if id == j then none else slot c j)
  unfolding internal_close_channel close_taken
  slot-internal_close_channel c id j w = elim (Bool-cases (ltb id (length c.send_channels))) [
    | inl inside ↦
        rw
          (
            inside,
            internal_close_channel,
            close_taken-eq (record c { send_channels = set c.send_channels id none })
                (get_elem? c.send_channels id) w,
          )
          (item-set none c.send_channels id j none (ltb→lt _ _ inside))
    | inr outside ↦
        rw (outside, internal_close_channel) (ground (arith, get_elem?_above c.send_channels id))
  ]

  -- A send on an open id goes to its queue, and the payload is counted whatever the queue answers.
  -- On an id that is closed, or that was never reached, it fails and changes nothing.
  pub internal_send_payload_lem :
      (c : PeerConnection N S) (id : ℕ) (payload : Bytes) (w : N.World)
      → ((ch : Channel N)
          → slot c id ≡ some ch
          → internal_send_payload N c id payload w ≡ (
            map_err ConnectionSendError.channel_send_error (send_payload N ch payload w).0,
            record c { stats = count_sent c.stats (length payload) },
            (send_payload N ch payload w).1,
          ))
        × (slot c id ≡ none
            → id < length c.send_channels
            → internal_send_payload N c id payload w
              ≡ (err ConnectionSendError.channel_closed, c, w))
        × (length c.send_channels ≤ id
            → internal_send_payload N c id payload w
              ≡ (err (ConnectionSendError.invalid_channel_id id), c, w))
  unfolding internal_send_payload
  internal_send_payload_lem c id payload w = (
    λ ch e. ground (arith, get_elem?_above c.send_channels id),
    λ e h. ground (arith, get_elem?_below c.send_channels id h),
    λ h. ground (arith, get_elem?_above c.send_channels id h),
  )

  -- What a call of `internal_close_channel` answers, by what stands under the id.
  pub internal_close_channel_lem :
      (c : PeerConnection N S) (id : ℕ) (w : N.World)
      → ((ch : Channel N)
          → slot c id ≡ some ch
          → (internal_close_channel N c id w).0 ≡ (close_channel N ch w).0)
        × (slot c id ≡ none
            → id < length c.send_channels
            → (internal_close_channel N c id w).0 ≡ err ChannelCloseError.channel_already_closed)
        × (length c.send_channels ≤ id
            → (internal_close_channel N c id w).0 ≡ err (ChannelCloseError.invalid_channel_id id))
  unfolding internal_close_channel close_taken
  internal_close_channel_lem c id w = (
    λ ch e. ground (arith, get_elem?_above c.send_channels id),
    λ e h. ground (arith, get_elem?_below c.send_channels id h),
    λ h. ground arith,
  )
