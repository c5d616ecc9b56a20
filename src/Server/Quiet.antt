-- ===== src/Server/Quiet.antt =====
-- What the handling of messages by an endpoint leaves alone: whatever in the world its calls on the
-- queues keep.
use bevy_quinnet.Base.{
  ℕ, ◌+◌, ◌%◌, ◌^◌, ◌≤◌, ◌≡◌, refl, ◌∙◌, List, [], ◌∷◌, length, Bool-cases, Option-cases,
  Result-cases, inl, inr,
}
use bevy_quinnet.Base.HashMap
use bevy_quinnet.Base.HashMap.{HashMap}
use bevy_quinnet.Config.{ChannelConfig, CloseReason, local_order}
use bevy_quinnet.Net.{MpscLaws, ChannelSyncMessage}
use bevy_quinnet.Peer.{
  create_connection_channel, create_unregistered_connection_channel, close, try_close,
}
use bevy_quinnet.Server.{
  ServerNet, ServerSideConnection, Endpoint, ServerSyncMessage, client_connected,
  client_connection_closed, client_connected_ack,
}
use bevy_quinnet.Server.Connections.{
  handle_new_connection, accept_connection, open_channels_on, internal_disconnect_client,
  try_disconnect_client, try_disconnect_closed_client,
}
use bevy_quinnet.Server.Events.{Message, Written, handle_message, disconnect_lost}

module _ (V : ServerNet) where
  -- The calls of an endpoint keep what `f` sees of the world.
  pub record Keeps {X : Type 0} (f : V.net.World → X) : Type 0 where
    pub payloads_channel : (n : ℕ) (w : V.net.World) → f (V.net.payloads.channel n w).2 ≡ f w
    pub channel_closes_channel :
        (n : ℕ) (w : V.net.World) → f (V.net.channel_closes.channel n w).2 ≡ f w
    pub channel_syncs_try_send :
        (s : V.net.channel_syncs.Sender)
        (m : ChannelSyncMessage V.net.payloads.Receiver V.net.channel_closes.Receiver)
        (w : V.net.World)
        → f (V.net.channel_syncs.try_send s m w).1 ≡ f w
    pub syncs_try_send :
        (s : V.syncs.Sender) (m : ServerSyncMessage) (w : V.net.World)
        → f (V.syncs.try_send s m w).1 ≡ f w
    pub closes_send :
        (s : V.net.closes.Sender) (r : CloseReason) (w : V.net.World)
        → f (V.net.closes.send s r w).1 ≡ f w

  module _ {X : Type 0} (f : V.net.World → X) (keeps : Keeps f) where
    create-kept :
        (c : ServerSideConnection V) (id : ℕ) (config : ChannelConfig) (w : V.net.World)
        → f (create_connection_channel V.net c id config w).2 ≡ f w
    unfolding create_connection_channel create_unregistered_connection_channel
    create-kept c id config w =
        elim (Result-cases (create_unregistered_connection_channel V.net c id config w).0) [
          | inl (ch, e) ↦ rw (e, create_connection_channel) all
          | inr (x, e) ↦ rw (e, create_connection_channel) all
        ]
      where
        all : f (create_unregistered_connection_channel V.net c id config w).1 ≡ f w
        all =
            keeps.channel_syncs_try_send _ _ _
            ∙ keeps.channel_closes_channel _ _
            ∙ keeps.payloads_channel _ w

    close-kept :
        (c : ServerSideConnection V) (r : CloseReason) (w : V.net.World)
        → f (close V.net c r w).1 ≡ f w
    unfolding close
    close-kept c r w = keeps.closes_send c.close_send r w

    try_close-kept :
        (c : ServerSideConnection V) (r : CloseReason) (w : V.net.World)
        → f (try_close V.net c r w) ≡ f w
    unfolding try_close
    try_close-kept c r w = close-kept c r w

    open_channels_on-kept :
        (chs : HashMap ChannelConfig) (c : ServerSideConnection V) (w : V.net.World)
        → f (open_channels_on V chs c w).1 ≡ f w
    unfolding open_channels_on
    open_channels_on-kept [] c w = refl
    open_channels_on-kept ((id, config) ∷ rest) c w =
        let made = create_connection_channel V.net c id config w in
        elim (Result-cases made.0) [
          | inl (u, e) ↦
              rw (e, open_channels_on)
                (open_channels_on-kept rest made.1 made.2 ∙ create-kept c id config w)
          | inr (x, e) ↦
              rw (e, open_channels_on)
                (try_close-kept made.1 local_order made.2 ∙ create-kept c id config w)
        ]

    accept_connection-kept :
        (e : Endpoint V) (c : ServerSideConnection V) (w : V.net.World)
        → f (accept_connection V e c w).2 ≡ f w
    unfolding accept_connection
    accept_connection-kept e c w =
        elim (Result-cases
          (V.syncs.try_send c.specific.to_connection_send
            (client_connected_ack ((e.client_id_gen + 1) % 2 ^ 64)) w).0) [
              | inl (u, g) ↦ rw (g, accept_connection) (keeps.syncs_try_send _ _ w)
              | inr (x, g) ↦
                  rw (g, accept_connection)
                    (try_close-kept c local_order _ ∙ keeps.syncs_try_send _ _ w)
            ]

    handle_new_connection-kept :
        (e : Endpoint V) (c : ServerSideConnection V) (w : V.net.World)
        → f (handle_new_connection V e c w).2 ≡ f w
    unfolding handle_new_connection
    handle_new_connection-kept e c w =
        let opened = open_channels_on V e.opened_channels c w in
        elim (Result-cases opened.0) [
          | inl (c', g) ↦
              rw (g, handle_new_connection)
                (accept_connection-kept e c' opened.1 ∙ open_channels_on-kept e.opened_channels c w)
          | inr (x, g) ↦ rw (g, handle_new_connection) (open_channels_on-kept e.opened_channels c w)
        ]

    internal_disconnect-kept :
        (e : Endpoint V) (client_id : ℕ) (r : CloseReason) (w : V.net.World)
        → f (internal_disconnect_client V e client_id r w).2 ≡ f w
    unfolding internal_disconnect_client
    internal_disconnect-kept e client_id r w =
        elim (Option-cases (HashMap.get client_id e.clients)) [
          | inl g ↦ rw (g, internal_disconnect_client) refl
          | inr (c, g) ↦ rw (g, internal_disconnect_client) (close-kept c r w)
        ]

    pub handle_message-kept :
        (e : Endpoint V) (m : Message V) (t : Written) (w : V.net.World)
        → f (handle_message V e m t w).2 ≡ f w
    unfolding handle_message try_disconnect_closed_client
    handle_message-kept e (client_connected c) t w = handle_new_connection-kept e c w
    handle_message-kept e (client_connection_closed client_id) t w =
        elim (Bool-cases (HashMap.contains_key client_id e.clients)) [
          | inl y ↦ rw (y, handle_message) (internal_disconnect-kept e client_id _ w)
          | inr n ↦ rw (n, handle_message) refl
        ]

    pub disconnect_lost-kept :
        (ids : List ℕ) (e : Endpoint V) (w : V.net.World) → f (disconnect_lost V ids e w).1 ≡ f w
    unfolding disconnect_lost try_disconnect_client
    disconnect_lost-kept [] e w = refl
    disconnect_lost-kept (id ∷ ids) e w =
        disconnect_lost-kept ids _ _ ∙ internal_disconnect-kept e id _ w

  -- The queue of the async tasks, and those of the channels, do not touch each other, and no message
  -- comes in while the endpoint handles them.
  pub record Quiet (asyncs : MpscLaws V.asyncs) (channels : MpscLaws V.net.channel_asyncs)
      : Type 0 where
    pub asyncs_kept : (r : V.asyncs.Receiver) → Keeps (asyncs.backlog r)
    pub channels_kept : (r : V.net.channel_asyncs.Receiver) → Keeps (channels.backlog r)
    pub asyncs-channels :
        (r : V.asyncs.Receiver) (q : V.net.channel_asyncs.Receiver) (w : V.net.World)
        → asyncs.backlog r (V.net.channel_asyncs.try_recv q w).1 ≡ asyncs.backlog r w
    pub channels-asyncs :
        (r : V.asyncs.Receiver) (q : V.net.channel_asyncs.Receiver) (w : V.net.World)
        → channels.backlog q (V.asyncs.try_recv r w).1 ≡ channels.backlog q w
    pub channels-channels :
        (q r : V.net.channel_asyncs.Receiver) (w : V.net.World)
        → length (channels.backlog q (V.net.channel_asyncs.try_recv r w).1)
          ≤ length (channels.backlog q w)
