-- ===== src/Client/Lifecycle.antt =====
-- handle_client_events of client.rs, as a state machine on the states of a connection.
use bevy_quinnet.Base.{
  ℕ, zero, suc, ◌+◌, ◌≤◌, ◌<◌, ◌≡◌, refl, ap, ◌∙◌, List, [], ◌∷◌, ◌++◌, Option, some, ok, length,
  arith, ◌⊎◌, inl, inr,
}
use bevy_quinnet.Config.{CloseReason}
use bevy_quinnet.Net.{MpscLaws}
use bevy_quinnet.Peer.{close}
use bevy_quinnet.Client.{
  Types, ClientNet, ClientSideConnection, ClientAsyncMessage, InternalConnectionState,
  ConnectionState,
}
use bevy_quinnet.Client.Connection.{
  from_internal, set_state, internal_disconnect, try_disconnect_closed_connection,
}
use bevy_quinnet.Client.Events.{
  ClientEvent, connection_event, connection_failed_event, connection_lost_event,
  cert_interaction_event, cert_trust_update_event, cert_connection_abort_event, handle_message,
  handle_lost, handle_messages, after,
}

module _ (T : Types) where
  -- A loss is written unless the connection was disconnected already.
  unfoldable pub lost_once : ℕ → ConnectionState → List (ClientEvent T)
  lost_once id ConnectionState.connecting = connection_lost_event id ∷ []
  lost_once id ConnectionState.connected = connection_lost_event id ∷ []
  lost_once id ConnectionState.disconnected = []

  -- The state machine: what a message makes of a state, and what is written.
  unfoldable pub transition :
      ℕ → ConnectionState → ClientAsyncMessage T → ConnectionState × List (ClientEvent T)
  transition id s (ClientAsyncMessage.connected h client_id) =
      (ConnectionState.connected, connection_event id client_id ∷ [])
  transition id s (ClientAsyncMessage.connection_failed e) =
      (ConnectionState.disconnected, connection_failed_event id e ∷ [])
  transition id s ClientAsyncMessage.connection_closed =
      (ConnectionState.disconnected, lost_once id s)
  transition id s (ClientAsyncMessage.certificate_interaction_request status info sender) =
      (s, cert_interaction_event id status info sender ∷ [])
  transition id s (ClientAsyncMessage.certificate_trust_update info) =
      (s, cert_trust_update_event id info ∷ [])
  transition id s (ClientAsyncMessage.certificate_connection_abort status info) =
      (s, cert_connection_abort_event id status info ∷ [])

  unfoldable pub transitions :
      ℕ → ConnectionState → List (ClientAsyncMessage T) → ConnectionState × List (ClientEvent T)
  transitions id s [] = (s, [])
  transitions id s (m ∷ ms) =
      let (s', events) = transition id s m in
      let (s'', later) = transitions id s' ms in (s'', events ++ later)

  abbrev pub lost_count : List (ClientEvent T) → ℕ
  lost_count [] = 0
  lost_count (connection_lost_event id ∷ events) = 1 + lost_count events
  lost_count (connection_event id client_id ∷ events) = lost_count events
  lost_count (connection_failed_event id e ∷ events) = lost_count events
  lost_count (cert_interaction_event id st i a ∷ events) = lost_count events
  lost_count (cert_trust_update_event id i ∷ events) = lost_count events
  lost_count (cert_connection_abort_event id st i ∷ events) = lost_count events

  abbrev pub connected_count : List (ClientEvent T) → ℕ
  connected_count [] = 0
  connected_count (connection_event id client_id ∷ events) = 1 + connected_count events
  connected_count (connection_lost_event id ∷ events) = connected_count events
  connected_count (connection_failed_event id e ∷ events) = connected_count events
  connected_count (cert_interaction_event id st i a ∷ events) = connected_count events
  connected_count (cert_trust_update_event id i ∷ events) = connected_count events
  connected_count (cert_connection_abort_event id st i ∷ events) = connected_count events

  -- 1 for a connection that can still be lost.
  abbrev pub is_live : ConnectionState → ℕ
  is_live ConnectionState.connecting = 1
  is_live ConnectionState.connected = 1
  is_live ConnectionState.disconnected = 0

  -- A connection is lost at most once for each time that it was connected, and once more if it was
  -- not disconnected at the start.
  pub transitions-lost_count :
      (id : ℕ) (s : ConnectionState) (ms : List (ClientAsyncMessage T))
      → lost_count (transitions id s ms).1 + is_live (transitions id s ms).0
        ≤ is_live s + connected_count (transitions id s ms).1
  unfolding transitions transition lost_once
  transitions-lost_count id s [] = omega arith
  transitions-lost_count id ConnectionState.connecting (ClientAsyncMessage.connected h i ∷ ms) =
      omega (arith, transitions-lost_count id ConnectionState.connected ms)
  transitions-lost_count id ConnectionState.connected (ClientAsyncMessage.connected h i ∷ ms) =
      omega (arith, transitions-lost_count id ConnectionState.connected ms)
  transitions-lost_count id ConnectionState.disconnected (ClientAsyncMessage.connected h i ∷ ms) =
      omega (arith, transitions-lost_count id ConnectionState.connected ms)
  transitions-lost_count id s (ClientAsyncMessage.connection_failed e ∷ ms) =
      omega (arith, transitions-lost_count id ConnectionState.disconnected ms)
  transitions-lost_count id ConnectionState.connecting (ClientAsyncMessage.connection_closed ∷ ms) =
      omega (arith, transitions-lost_count id ConnectionState.disconnected ms)
  transitions-lost_count id ConnectionState.connected (ClientAsyncMessage.connection_closed ∷ ms) =
      omega (arith, transitions-lost_count id ConnectionState.disconnected ms)
  transitions-lost_count id ConnectionState.disconnected
        (ClientAsyncMessage.connection_closed ∷ ms) =
      transitions-lost_count id ConnectionState.disconnected ms
  transitions-lost_count id s
        (ClientAsyncMessage.certificate_interaction_request status info sender ∷ ms) =
      transitions-lost_count id s ms
  transitions-lost_count id s (ClientAsyncMessage.certificate_trust_update info ∷ ms) =
      transitions-lost_count id s ms
  transitions-lost_count id s (ClientAsyncMessage.certificate_connection_abort status info ∷ ms) =
      transitions-lost_count id s ms

state-cases :
    {H : Type 0} (s : InternalConnectionState H)
    → (s ≡ InternalConnectionState.connecting)
      ⊎ (((h : H) × (i : Option ℕ) × (s ≡ InternalConnectionState.connected h i))
          ⊎ (s ≡ InternalConnectionState.disconnected))
state-cases InternalConnectionState.connecting = inl refl
state-cases (InternalConnectionState.connected h i) = inr (inl (h, i, refl))
state-cases InternalConnectionState.disconnected = inr (inr refl)

module _ (V : ClientNet) (laws : MpscLaws V.asyncs) where
  -- Signalling a close leaves the messages that wait for the client where they are.
  abbrev pub Undisturbed : Type 0
  Undisturbed =
      (r : V.asyncs.Receiver) (s : V.net.closes.Sender) (reason : CloseReason) (w : V.net.World)
      → laws.backlog r (V.net.closes.send s reason w).1 ≡ laws.backlog r w

  -- What the code's step has to do with the machine's.
  abbrev Follows : ℕ → ClientSideConnection V → ClientAsyncMessage V.types → V.net.World → Type 0
  Follows id c m w =
      (from_internal (handle_message V id c m w).0.specific.state
        ≡ (transition V.types id (from_internal c.specific.state) m).0)
      × ((handle_message V id c m w).1
          ≡ (transition V.types id (from_internal c.specific.state) m).1)
      × ((handle_message V id c m w).0.specific.from_async_client_recv
          ≡ c.specific.from_async_client_recv)
      × ((r : V.asyncs.Receiver) → laws.backlog r (handle_message V id c m w).2 ≡ laws.backlog r w)

  -- What a live connection becomes.
  abbrev closed_by_peer :
      ClientSideConnection V → V.net.World → ClientSideConnection V × V.net.World
  closed_by_peer c w = (
    set_state V c InternalConnectionState.disconnected,
    (V.net.closes.send c.close_send CloseReason.peer_closed w).1,
  )

  try_disconnect-connecting :
      (c : ClientSideConnection V) (w : V.net.World)
      → c.specific.state ≡ InternalConnectionState.connecting
      → try_disconnect_closed_connection V c w ≡ closed_by_peer c w
  unfolding try_disconnect_closed_connection internal_disconnect close set_state
  try_disconnect-connecting c w e = rw (e, internal_disconnect) refl

  try_disconnect-connected :
      (c : ClientSideConnection V) (w : V.net.World) (h : V.types.Handle) (i : Option ℕ)
      → c.specific.state ≡ InternalConnectionState.connected h i
      → try_disconnect_closed_connection V c w ≡ closed_by_peer c w
  unfolding try_disconnect_closed_connection internal_disconnect close set_state
  try_disconnect-connected c w h i e = rw (e, internal_disconnect) refl

  handle_lost-Follows :
      Undisturbed
      → (id : ℕ) (c : ClientSideConnection V) (w : V.net.World)
      → Follows id c ClientAsyncMessage.connection_closed w
  unfolding handle_message handle_lost transition lost_once from_internal set_state
  handle_lost-Follows u id c w = elim (state-cases c.specific.state) [
    | inl e ↦
        rw (e, try_disconnect-connecting c w e, handle_lost)
          (refl, refl, refl, λ r. u r c.close_send CloseReason.peer_closed w)
    | inr (inl (h, i, e)) ↦
        rw (e, try_disconnect-connected c w h i e, handle_lost)
          (refl, refl, refl, λ r. u r c.close_send CloseReason.peer_closed w)
    | inr (inr e) ↦ rw (e, handle_lost) (ap from_internal e, refl, refl, λ r. refl)
  ]

  handle_message-Follows :
      Undisturbed
      → (id : ℕ) (c : ClientSideConnection V) (m : ClientAsyncMessage V.types) (w : V.net.World)
      → Follows id c m w
  unfolding handle_message transition from_internal set_state
  handle_message-Follows u id c (ClientAsyncMessage.connected h i) w = (refl, refl, refl, λ r. refl)
  handle_message-Follows u id c (ClientAsyncMessage.connection_failed e) w =
      (refl, refl, refl, λ r. refl)
  handle_message-Follows u id c ClientAsyncMessage.connection_closed w =
      handle_lost-Follows u id c w
  handle_message-Follows u id c (ClientAsyncMessage.certificate_interaction_request st i a) w =
      (refl, refl, refl, λ r. refl)
  handle_message-Follows u id c (ClientAsyncMessage.certificate_trust_update i) w =
      (refl, refl, refl, λ r. refl)
  handle_message-Follows u id c (ClientAsyncMessage.certificate_connection_abort st i) w =
      (refl, refl, refl, λ r. refl)

  handle_messages-cons :
      (fuel id : ℕ) (c : ClientSideConnection V) (w : V.net.World) (m : ClientAsyncMessage V.types)
      → (V.asyncs.try_recv c.specific.from_async_client_recv w).0 ≡ ok m
      → handle_messages V (suc fuel) id c w
        ≡ after V
            (handle_message V id c m (V.asyncs.try_recv c.specific.from_async_client_recv w).1).1
            (handle_messages V fuel id
              (handle_message V id c m (V.asyncs.try_recv c.specific.from_async_client_recv w).1).0
              (handle_message V id c m (V.asyncs.try_recv c.specific.from_async_client_recv w).1).2)
  unfolding handle_messages
  handle_messages-cons fuel id c w m f = rw (f, handle_messages) refl

  -- If signalling a close leaves the waiting messages alone and there is more fuel than messages,
  -- the first loop of handle_client_events ends, has taken all messages, has left the connection in
  -- the state of the machine `transitions` after them, and has written exactly the machine's
  -- events.
  pub handle_messages_lem :
      Undisturbed
      → (fuel id : ℕ) (c : ClientSideConnection V) (w : V.net.World)
        (ms : List (ClientAsyncMessage V.types))
      → laws.backlog c.specific.from_async_client_recv w ≡ ms
      → length ms < fuel
      → (c' : ClientSideConnection V) × (w' : V.net.World) × (handle_messages V fuel id c w
          ≡ some (c', (transitions V.types id (from_internal c.specific.state) ms).1, w'))
        × (from_internal c'.specific.state
            ≡ (transitions V.types id (from_internal c.specific.state) ms).0)
        × (laws.backlog c'.specific.from_async_client_recv w' ≡ [])
  unfolding handle_messages transitions
  handle_messages_lem u zero id c w ms e h = absurd (omega arith)
  handle_messages_lem u (suc fuel) id c w [] e h =
      let (x, f, g) = laws.try_recv_nil c.specific.from_async_client_recv w e in
      (
        c,
        (V.asyncs.try_recv c.specific.from_async_client_recv w).1,
        rw (f, handle_messages) refl,
        refl,
        g,
      )
  handle_messages_lem u (suc fuel) id c w (m ∷ ms) e h =
      let (f, g) = laws.try_recv_cons c.specific.from_async_client_recv w m ms e in
      let w1 = (V.asyncs.try_recv c.specific.from_async_client_recv w).1 in
      let c1 = (handle_message V id c m w1).0 in
      let w2 = (handle_message V id c m w1).2 in
      let (st, ev, recv, back) = handle_message-Follows u id c m w1 in
      let waiting : laws.backlog c1.specific.from_async_client_recv w2 ≡ ms =
        rw recv (back c.specific.from_async_client_recv ∙ g) in
      let (c', w', ends, last, empty) =
        handle_messages_lem u fuel id c1 w2 ms waiting (omega arith) in
      (
        c',
        w',
        handle_messages-cons fuel id c w m f
            ∙ ap (after V (handle_message V id c m w1).1) ends
            ∙ rw (st, ev) refl,
        last ∙ rw st refl,
        empty,
      )

  -- If signalling a close leaves the waiting messages alone and there is more fuel than messages,
  -- the first loop of handle_client_events ends, and its events report at most one loss for each
  -- time the connection was connected, and one more if it was not disconnected before the loop.
  pub handle_messages-lost_count :
      Undisturbed
      → (fuel id : ℕ) (c : ClientSideConnection V) (w : V.net.World)
      → length (laws.backlog c.specific.from_async_client_recv w) < fuel
      → (c' : ClientSideConnection V) × (events : List (ClientEvent V.types)) × (w' : V.net.World)
        × (handle_messages V fuel id c w ≡ some (c', events, w'))
        × (lost_count V.types events + is_live V.types (from_internal c'.specific.state)
            ≤ is_live V.types (from_internal c.specific.state) + connected_count V.types events)
  handle_messages-lost_count u fuel id c w h =
      let ms = laws.backlog c.specific.from_async_client_recv w in
      let (c', w', e, s, _) = handle_messages_lem u fuel id c w ms refl h in
      (c', _, w', e, rw s (transitions-lost_count V.types id (from_internal c.specific.state) ms))
