-- ===== src/Server/Updating.antt =====
-- The update of a server: `handle_server_events` of server.rs.
mod Tests
use bevy_quinnet.Base.{
  ℕ, zero, suc, ◌≤◌, ◌<◌, ◌≡◌, refl, sym, ap, ◌∙◌, List, [], ◌∷◌, some, none, Option, ok, err, Bool,
  true, false, length, arith, ◌==◌, if◌then◌else◌, All, Bool-cases, Option-cases, inl, inr,
}
use mathlib.Core.Path.{subst}
use mathlib.Core.Option.{some-injective, none-ne-some}
use bevy_quinnet.Base.HashMap
use bevy_quinnet.Base.HashMap.{HashMap}
use bevy_quinnet.Config.{CloseReason, local_order, peer_closed}
use bevy_quinnet.Net.{MpscLaws, ChannelAsyncMessage, lost_connection}
use bevy_quinnet.Peer.{try_recv_from_channels}
use bevy_quinnet.Peer.Opening.{is_open}
use bevy_quinnet.Server.{
  ServerNet, ServerSideConnection, Endpoint, client_connected, client_connection_closed,
}
use bevy_quinnet.Server.Connections.{
  internal_disconnect_client, try_disconnect_client, try_disconnect_closed_client,
  disconnect_client, handle_new_connection, accept_connection,
}
use bevy_quinnet.Server.Consistency.{IsConsistent, internal_disconnect_client_lem}
use bevy_quinnet.Server.Admission.{Admission, admits, refuses, handle_new_connection_lem}
use bevy_quinnet.Server.Events.{
  Message, Written, handle_message, handle_messages, drain_channels, drain_clients, disconnect_lost,
  handle_server_events, note_lost,
}
use bevy_quinnet.Server.Quiet.{Keeps, Quiet, handle_message-kept, disconnect_lost-kept}

no_longer : {A : Type 0} (xs : List A) → length xs ≤ 0 → xs ≡ []
no_longer [] h = refl
no_longer (x ∷ xs) h = absurd (omega arith)

module _ (V : ServerNet) where
  -- A message that announces a connection announces one without channels.
  abbrev pub IsNewcomer : Message V → Type 0
  IsNewcomer (client_connected c) = (id : ℕ) → is_open V.net c id ≡ false
  IsNewcomer (client_connection_closed client_id) = Unit {0}

  handle_message-IsConsistent :
      (e : Endpoint V) (m : Message V) (t : Written) (w : V.net.World)
      → IsConsistent V e
      → IsNewcomer m
      → IsConsistent V (handle_message V e m t w).0
  unfolding handle_message try_disconnect_closed_client
  handle_message-IsConsistent e (client_connected c) t w v n =
      elim (handle_new_connection_lem V e c w v n) [
        | admits d e' w' r g s q v' ↦ rw r v'
        | refuses x e' w' r q s v' ↦ rw r v'
      ]
  handle_message-IsConsistent e (client_connection_closed client_id) t w v n =
      elim (Bool-cases (HashMap.contains_key client_id e.clients)) [
        | inl y ↦
            rw (y, handle_message)
              (internal_disconnect_client_lem V e client_id client_id peer_closed w v).0
        | inr n ↦ rw (n, handle_message) v
      ]

  new_connection-receiver :
      (e : Endpoint V) (c : ServerSideConnection V) (w : V.net.World)
      → (handle_new_connection V e c w).1.from_async_endpoint_recv ≡ e.from_async_endpoint_recv
  unfolding handle_new_connection accept_connection
  new_connection-receiver e c w = ground arith

  disconnect-receiver :
      (e : Endpoint V) (id : ℕ) (r : CloseReason) (w : V.net.World)
      → (internal_disconnect_client V e id r w).1.from_async_endpoint_recv
        ≡ e.from_async_endpoint_recv
  unfolding internal_disconnect_client
  disconnect-receiver e id r w = ground arith

  handle_message-receiver :
      (e : Endpoint V) (m : Message V) (t : Written) (w : V.net.World)
      → (handle_message V e m t w).0.from_async_endpoint_recv ≡ e.from_async_endpoint_recv
  unfolding handle_message try_disconnect_closed_client internal_disconnect_client
  handle_message-receiver e (client_connected c) t w = new_connection-receiver e c w
  handle_message-receiver e (client_connection_closed client_id) t w = ground arith

  disconnect_lost-IsConsistent :
      (ids : List ℕ) (e : Endpoint V) (w : V.net.World)
      → IsConsistent V e
      → IsConsistent V (disconnect_lost V ids e w).0
        × ((cid : ℕ) (c : ServerSideConnection V)
            → HashMap.get cid (disconnect_lost V ids e w).0.clients ≡ some c
            → HashMap.get cid e.clients ≡ some c)
        × ((disconnect_lost V ids e w).0.from_async_endpoint_recv ≡ e.from_async_endpoint_recv)
  unfolding disconnect_lost try_disconnect_client disconnect_client
  disconnect_lost-IsConsistent [] e w v = (v, (λ cid c g. g), refl)
  disconnect_lost-IsConsistent (id ∷ ids) e w v =
      let gone = internal_disconnect_client V e id local_order w in
      let (v', q, r) =
        disconnect_lost-IsConsistent ids gone.1 gone.2
          (internal_disconnect_client_lem V e id id local_order w v).0 in
      (
        v',
        λ cid c g.
            still cid c gone.1.clients (internal_disconnect_client_lem V e id cid local_order w v).1
              (q cid c g),
        r ∙ receiver,
      )
    where
      still :
          (cid : ℕ) (c : ServerSideConnection V) (m : HashMap (ServerSideConnection V))
          → HashMap.get cid m ≡ (if id == cid then none else HashMap.get cid e.clients)
          → HashMap.get cid m ≡ some c
          → HashMap.get cid e.clients ≡ some c
      still cid c m q g = elim (Bool-cases (id == cid)) [
        | inl y ↦ absurd (none-ne-some c (sym (rw y at q) ∙ g))
        | inr n ↦ sym (rw n at q) ∙ g
      ]

      receiver :
          (internal_disconnect_client V e id local_order w).1.from_async_endpoint_recv
          ≡ e.from_async_endpoint_recv
      receiver = disconnect-receiver e id local_order w

  module _ (asyncs : MpscLaws V.asyncs) (channels : MpscLaws V.net.channel_asyncs)
      (quiet : Quiet V asyncs channels) where
    -- Every queue of the channels is at most as long as before.
    abbrev Shrinks : V.net.World → V.net.World → Type 0
    Shrinks w w' =
        (q : V.net.channel_asyncs.Receiver)
        → length (channels.backlog q w') ≤ length (channels.backlog q w)

    abbrev Handled : ℕ → Endpoint V → Written → V.net.World → Type 0
    Handled fuel e t w =
        (e' : Endpoint V) × (t' : Written) × (w' : V.net.World) × (handle_messages V fuel e t w
          ≡ some (e', t', w'))
        × IsConsistent V e'
        × (asyncs.backlog e'.from_async_endpoint_recv w' ≡ [])
        × Shrinks w w'

    handle_messages_ends :
        (fuel : ℕ) (e : Endpoint V) (t : Written) (w : V.net.World) (ms : List (Message V))
        → asyncs.backlog e.from_async_endpoint_recv w ≡ ms
        → All (IsNewcomer) ms
        → length ms < fuel
        → IsConsistent V e
        → Handled fuel e t w
    unfolding handle_messages
    handle_messages_ends zero e t w ms b n h v = absurd (omega arith)
    handle_messages_ends (suc fuel) e t w [] b n h v =
        let (x, f, g) = asyncs.try_recv_nil e.from_async_endpoint_recv w b in
        (
          e,
          t,
          (V.asyncs.try_recv e.from_async_endpoint_recv w).1,
          rw (f, handle_messages) refl,
          v,
          g,
          λ q. rw (quiet.channels-asyncs e.from_async_endpoint_recv q w) (omega arith),
        )
    handle_messages_ends (suc fuel) e t w (m ∷ ms) b n h v =
        let (f, g) = asyncs.try_recv_cons e.from_async_endpoint_recv w m ms b in
        let w1 = (V.asyncs.try_recv e.from_async_endpoint_recv w).1 in
        let next = handle_message V e m t w1 in
        let (e', t', w', r, v', d, s) =
          handle_messages_ends fuel next.0 next.1 next.2 ms
            (ap (λ (r : V.asyncs.Receiver). asyncs.backlog r next.2)
                (handle_message-receiver e m t w1)
              ∙ handle_message-kept V (asyncs.backlog e.from_async_endpoint_recv)
                  (quiet.asyncs_kept e.from_async_endpoint_recv) e m t w1
              ∙ g)
            n.1 (omega arith) (handle_message-IsConsistent e m t w1 v n.0) in
        (
          e',
          t',
          w',
          rw (f, handle_messages) r,
          v',
          d,
          λ q. omega (
            arith,
            s q,
            ap (λ (l : List ChannelAsyncMessage). length l)
                (handle_message-kept V (channels.backlog q) (quiet.channels_kept q) e m t w1
                  ∙ quiet.channels-asyncs e.from_async_endpoint_recv q w),
          ),
        )

    -- The loop over the messages of one client's channels, which empties their queue.
    abbrev Drained : ℕ → ServerSideConnection V → ℕ → List ℕ × Written → V.net.World → Type 0
    Drained fuel c cid noted w =
        (noted' : List ℕ × Written) × (w' : V.net.World) × (drain_channels V fuel c cid noted w
          ≡ some (noted', w'))
        × (channels.backlog c.from_channels_recv w' ≡ [])
        × ((r : V.asyncs.Receiver) → asyncs.backlog r w' ≡ asyncs.backlog r w)
        × Shrinks w w'

    drain_channels_ends :
        (fuel : ℕ) (c : ServerSideConnection V) (cid : ℕ) (noted : List ℕ × Written)
        (w : V.net.World) (ms : List ChannelAsyncMessage)
        → channels.backlog c.from_channels_recv w ≡ ms
        → length ms < fuel
        → Drained fuel c cid noted w
    unfolding drain_channels try_recv_from_channels
    drain_channels_ends zero c cid noted w ms b h = absurd (omega arith)
    drain_channels_ends (suc fuel) c cid noted w [] b h =
        let (x, f, g) = channels.try_recv_nil c.from_channels_recv w b in
        (
          noted,
          (V.net.channel_asyncs.try_recv c.from_channels_recv w).1,
          rw (f, drain_channels) refl,
          g,
          λ r. quiet.asyncs-channels r c.from_channels_recv w,
          λ q. quiet.channels-channels q c.from_channels_recv w,
        )
    drain_channels_ends (suc fuel) c cid noted w (lost_connection ∷ ms) b h =
        let (f, g) = channels.try_recv_cons c.from_channels_recv w lost_connection ms b in
        let w1 = (V.net.channel_asyncs.try_recv c.from_channels_recv w).1 in
        let (noted', w', r, d, a, s) =
          drain_channels_ends fuel c cid (note_lost V cid noted) w1 ms g (omega arith) in
        (
          noted',
          w',
          rw (f, drain_channels) r,
          d,
          λ r. a r ∙ quiet.asyncs-channels r c.from_channels_recv w,
          λ q. omega (arith, s q, quiet.channels-channels q c.from_channels_recv w),
        )

    -- The queues of all clients are empty.
    abbrev pub Emptied : HashMap (ServerSideConnection V) → V.net.World → Type 0
    Emptied clients w =
        (cid : ℕ) (c : ServerSideConnection V)
        → HashMap.get cid clients ≡ some c
        → channels.backlog c.from_channels_recv w ≡ []

    drain_clients_ends :
        (fuel : ℕ) (clients : HashMap (ServerSideConnection V)) (noted : List ℕ × Written)
        (w : V.net.World)
        → ((q : V.net.channel_asyncs.Receiver) → length (channels.backlog q w) < fuel)
        → (noted' : List ℕ × Written) × (w' : V.net.World) × (drain_clients V fuel clients noted w
            ≡ some (noted', w'))
          × Emptied clients w'
          × ((r : V.asyncs.Receiver) → asyncs.backlog r w' ≡ asyncs.backlog r w)
          × Shrinks w w'
    unfolding drain_clients HashMap.get
    drain_clients_ends fuel [] noted w h =
        (noted, w, refl, (λ cid c g. absurd (none-ne-some c g)), (λ r. refl), λ q. omega arith)
    drain_clients_ends fuel ((cid, c) ∷ rest) noted w h =
        let (noted1, w1, e, d, a, s) =
          drain_channels_ends fuel c cid noted w (channels.backlog c.from_channels_recv w) refl
            (h c.from_channels_recv) in
        let (noted', w', e', d', a', s') =
          drain_clients_ends fuel rest noted1 w1 (λ q. omega (arith, s q, h q)) in
        (
          noted',
          w',
          rw (e, drain_clients) e',
          first w1 w' d s' d',
          λ r. a' r ∙ a r,
          λ q. omega (arith, s q, s' q),
        )
      where
        first :
            (w1 w' : V.net.World)
            → channels.backlog c.from_channels_recv w1 ≡ []
            → Shrinks w1 w'
            → Emptied rest w'
            → Emptied ((cid, c) ∷ rest) w'
        first w1 w' d s d' k x g = elim (Bool-cases (cid == k)) [
          | inl y ↦ rw (sym (some-injective c x (rw y at g))) (
              no_longer (channels.backlog c.from_channels_recv w') (
                omega (
                  arith,
                  s c.from_channels_recv,
                  ap (λ (l : List ChannelAsyncMessage). length l) d,
                )))
          | inr n ↦ d' k x (rw n at g)
        ]

    -- Let the endpoint be consistent, the connections that wait for it have no open channel, the
    -- calls on other queues leave the waiting messages alone, and the fuel exceed the messages in
    -- each queue. Then handle_server_events ends, its endpoint is consistent, no message waits for
    -- it and none from the channels of any client that is left.
    pub handle_server_events_lem :
        (fuel : ℕ) (e : Endpoint V) (w : V.net.World)
        → IsConsistent V e
        → All IsNewcomer (asyncs.backlog e.from_async_endpoint_recv w)
        → length (asyncs.backlog e.from_async_endpoint_recv w) < fuel
        → ((q : V.net.channel_asyncs.Receiver) → length (channels.backlog q w) < fuel)
        → (e' : Endpoint V) × (t : Written) × (w' : V.net.World) × (handle_server_events V fuel e w
            ≡ some (e', t, w'))
          × IsConsistent V e'
          × (asyncs.backlog e'.from_async_endpoint_recv w' ≡ [])
          × Emptied e'.clients w'
    unfolding handle_server_events
    handle_server_events_lem fuel e w v n h k =
        let (e1, t1, w1, p, v1, d1, s1) =
          handle_messages_ends fuel e (record { connected = []; lost = [] }) w
            (asyncs.backlog e.from_async_endpoint_recv w) refl n h v in
        let (noted, w2, q, d2, a2, s2) =
          drain_clients_ends fuel e1.clients ([], t1) w1 (λ q. omega (arith, s1 q, k q)) in
        let (v3, sub, r) = disconnect_lost-IsConsistent noted.0 e1 w2 v1 in
        let last = disconnect_lost V noted.0 e1 w2 in
        (
          last.0,
          noted.1,
          last.1,
          rw (p, q, handle_server_events) refl,
          v3,
          ap (λ (x : V.asyncs.Receiver). asyncs.backlog x last.1) r
              ∙ disconnect_lost-kept V (asyncs.backlog e1.from_async_endpoint_recv)
                  (quiet.asyncs_kept e1.from_async_endpoint_recv) noted.0 e1 w2
              ∙ a2 e1.from_async_endpoint_recv
              ∙ d1,
          λ cid c g.
              disconnect_lost-kept V (channels.backlog c.from_channels_recv)
                (quiet.channels_kept c.from_channels_recv) noted.0 e1 w2
              ∙ d2 cid c (sub cid c g),
        )
