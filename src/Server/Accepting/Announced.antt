-- ===== src/Server/Accepting/Announced.antt =====
-- A connection that client_connection_task announces to the endpoint.
use bevy_quinnet.Base.{
  ℕ, ◌≡◌, refl, sym, ap, ◌∙◌, List, [], ◌∷◌, ◌++◌, some, ok, false, All, All-append,
}
use mathlib.Core.Path.{subst}
use bevy_quinnet.Net.{MpscLaws}
use bevy_quinnet.Peer.{new_connection, RecvChannelsConfiguration}
use bevy_quinnet.Peer.Opening.{is_open}
use bevy_quinnet.Server.{ServerNet, ServerSideConnection, Endpoint, client_connected}
use bevy_quinnet.Server.Accepting.{TaskEnds, create_channels, announce}
use bevy_quinnet.Server.Admission.{Admission, handle_new_connection_lem}
use bevy_quinnet.Server.Connections.{handle_new_connection}
use bevy_quinnet.Server.Consistency.{IsConsistent}
use bevy_quinnet.Server.Events.{Message}
use bevy_quinnet.Server.Updating.{IsNewcomer}
use bevy_quinnet.Tasks.Receiver.Arrival.{IsOpen}

module _ (V : ServerNet) (asyncs : MpscLaws V.asyncs) (r : V.asyncs.Receiver) where
  -- The creation of queues leaves what waits for the endpoint where it is.
  pub record Creates : Type 0 where
    pub closes_kept :
        (n : ℕ) (w : V.net.World)
        → asyncs.backlog r (V.net.closes.channel n w).1 ≡ asyncs.backlog r w
    pub received_kept :
        (n : ℕ) (w : V.net.World)
        → asyncs.backlog r (V.net.received.channel n w).2 ≡ asyncs.backlog r w
    pub syncs_kept :
        (n : ℕ) (w : V.net.World) → asyncs.backlog r (V.syncs.channel n w).2 ≡ asyncs.backlog r w
    pub channel_asyncs_kept :
        (n : ℕ) (w : V.net.World)
        → asyncs.backlog r (V.net.channel_asyncs.channel n w).2 ≡ asyncs.backlog r w
    pub channel_syncs_kept :
        (n : ℕ) (w : V.net.World)
        → asyncs.backlog r (V.net.channel_syncs.channel n w).2 ≡ asyncs.backlog r w

  module _ (creates : Creates) (sender : V.asyncs.Sender)
      (open_queue : IsOpen V.asyncs asyncs sender r) where
    -- The announced connection is behind what waited.
    abbrev pub Announced : V.Handle → RecvChannelsConfiguration → V.net.World → Type 0
    Announced h cfg w =
        (c : ServerSideConnection V) × (ends : TaskEnds V) × (w' : V.net.World) × (announce V h
            sender cfg w
          ≡ some (ends, w'))
        × (asyncs.backlog r w' ≡ asyncs.backlog r w ++ client_connected c ∷ [])
        × (c.specific.connection_handle ≡ h)
        × ((id : ℕ) → is_open V.net c id ≡ false)

    announce_lem :
        (h : V.Handle) (cfg : RecvChannelsConfiguration) (w : V.net.World) → Announced h cfg w
    unfolding announce new_connection
    announce_lem h cfg w =
        let (c, ends, w1) = create_channels V h cfg w in
        (
          c,
          ends,
          (V.asyncs.send sender (client_connected c) w1).1,
          rw (open_queue.send_ok (client_connected c) w1, announce) refl,
          open_queue.send_backlog (client_connected c) w1
              ∙ ap (λ (l : List (Message V)). l ++ client_connected c ∷ [])
                  (creates.channel_syncs_kept _ _
                    ∙ creates.channel_asyncs_kept _ _
                    ∙ creates.syncs_kept _ _
                    ∙ creates.received_kept _ _
                    ∙ creates.closes_kept _ w),
          refl,
          λ id. refl,
        )

    -- What waits for the endpoint still announces connections without channels only.
    pub announce-IsNewcomer :
        (h : V.Handle) (cfg : RecvChannelsConfiguration) (w : V.net.World)
        → All (IsNewcomer V) (asyncs.backlog r w)
        → (ends : TaskEnds V) × (w' : V.net.World) × (announce V h sender cfg w ≡ some (ends, w'))
          × All (IsNewcomer V) (asyncs.backlog r w')
    announce-IsNewcomer h cfg w all =
        let (c, ends, w', ran, back, _, none_open) = announce_lem h cfg w in
        (
          ends,
          w',
          ran,
          subst (All (IsNewcomer V)) (sym back) (
              All-append (IsNewcomer V) (asyncs.backlog r w) (client_connected c ∷ []) all
                (none_open, tt)),
        )

    -- Let the creation of queues leave alone what waits for the endpoint, of which there is
    -- nothing, let its queue take messages, and let the endpoint be consistent. Then the task of a
    -- new connection announces it without a panic; it is the next message that the endpoint
    -- receives, and it is admitted under the next client id with all listed channels open, or
    -- refused. The endpoint stays consistent.
    pub announce-handle_new_connection :
        (h : V.Handle) (cfg : RecvChannelsConfiguration) (w : V.net.World) (e : Endpoint V)
        → e.from_async_endpoint_recv ≡ r
        → IsConsistent V e
        → asyncs.backlog r w ≡ []
        → (c : ServerSideConnection V) × (ends : TaskEnds V) × (w' : V.net.World) × (announce V h
              sender cfg w
            ≡ some (ends, w'))
          × (c.specific.connection_handle ≡ h)
          × ((V.asyncs.try_recv e.from_async_endpoint_recv w').0 ≡ ok (client_connected c))
          × Admission V e
              (handle_new_connection V e c (V.asyncs.try_recv e.from_async_endpoint_recv w').1)
    announce-handle_new_connection h cfg w e receiver v none =
        let (c, ends, w', ran, back, same, none_open) = announce_lem h cfg w in
        (
          c,
          ends,
          w',
          ran,
          same,
          rw receiver
              (asyncs.try_recv_cons r w' (client_connected c) []
                (back ∙ ap (λ (l : List (Message V)). l ++ client_connected c ∷ []) none)).0,
          handle_new_connection_lem V e c _ v none_open,
        )
