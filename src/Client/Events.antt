-- ===== src/Client/Events.antt =====
-- The systems of client.rs: the messages of the async tasks, and the payloads, of every connection.
-- A loop that takes messages from a queue runs on fuel; `none` is the lack of it.
use bevy_quinnet.Base.{ℕ, zero, suc, List, [], ◌∷◌, ◌++◌, Option, none, some, Result, ok, err, map}
use bevy_quinnet.Base.HashMap.{HashMap}
use bevy_quinnet.Certificate.{CertVerificationStatus, CertVerificationInfo}
use bevy_quinnet.Net.{lost_connection}
use bevy_quinnet.Peer.{try_recv_from_channels}
use bevy_quinnet.Peer.Receive
use bevy_quinnet.Peer.Receive.{dispatch_received_payloads_to_channel_buffers}
use bevy_quinnet.Error.{RecvChannelError}
use bevy_quinnet.Peer.Receive.{dispatch_received_payloads_to_channel_buffers}
use bevy_quinnet.Client.{
  Types, ClientNet, ClientSideConnection, ClientAsyncMessage, InternalConnectionState,
  QuinnetConnectionError,
}
use bevy_quinnet.Client.Connection.{set_state, try_disconnect_closed_connection}

-- What the systems write, with the id of the connection.
pub data ClientEvent (T : Types) : Type 0 where
  connection_event : ℕ → Option ℕ → ClientEvent T
  connection_failed_event : ℕ → QuinnetConnectionError T.QuicError → ClientEvent T
  connection_lost_event : ℕ → ClientEvent T
  cert_interaction_event :
      ℕ
      → CertVerificationStatus
      → CertVerificationInfo T.ServerName
      → T.ActionSender
      → ClientEvent T
  cert_trust_update_event : ℕ → CertVerificationInfo T.ServerName → ClientEvent T
  cert_connection_abort_event :
      ℕ → CertVerificationStatus → CertVerificationInfo T.ServerName → ClientEvent T

module _ (V : ClientNet) where
  abbrev pub Handled : Type 0
  Handled = ClientSideConnection V × List (ClientEvent V.types) × V.net.World

  -- `ConnectionClosed` and `LostConnection`: a connection that is not disconnected is.
  unfoldable pub handle_lost : ℕ → ClientSideConnection V → V.net.World → Handled
  handle_lost id c w =
      let (c', w') = try_disconnect_closed_connection V c w in
      elim c.specific.state [
        | InternalConnectionState.disconnected ↦ (c, [], w)
        | InternalConnectionState.connecting ↦ (c', connection_lost_event id ∷ [], w')
        | InternalConnectionState.connected _ _ ↦ (c', connection_lost_event id ∷ [], w')
      ]

  -- The body of the first loop of `handle_client_events`.
  unfoldable pub handle_message :
      ℕ → ClientSideConnection V → ClientAsyncMessage V.types → V.net.World → Handled
  handle_message id c (ClientAsyncMessage.connected h client_id) w = (
    set_state V c (InternalConnectionState.connected h client_id),
    connection_event id client_id ∷ [],
    w,
  )
  handle_message id c (ClientAsyncMessage.connection_failed e) w =
      (set_state V c InternalConnectionState.disconnected, connection_failed_event id e ∷ [], w)
  handle_message id c ClientAsyncMessage.connection_closed w = handle_lost id c w
  handle_message id c (ClientAsyncMessage.certificate_interaction_request status info sender) w =
      (c, cert_interaction_event id status info sender ∷ [], w)
  handle_message id c (ClientAsyncMessage.certificate_trust_update info) w =
      (c, cert_trust_update_event id info ∷ [], w)
  handle_message id c (ClientAsyncMessage.certificate_connection_abort status info) w =
      (c, cert_connection_abort_event id status info ∷ [], w)

  abbrev pub after : List (ClientEvent V.types) → Option Handled → Option Handled
  after events none = none
  after events (some (c, later, w)) = some (c, events ++ later, w)

  unfoldable pub handle_messages : ℕ → ℕ → ClientSideConnection V → V.net.World → Option Handled
  handle_messages zero id c w = none
  handle_messages (suc fuel) id c w =
      let (received, w') = V.asyncs.try_recv c.specific.from_async_client_recv w in
      elim received [
        | ok message ↦
            (let (c', events, w'') = handle_message id c message w' in
              after events (handle_messages fuel id c' w''))
        | err _ ↦ some (c, [], w')
      ]

  -- The second loop.
  unfoldable pub handle_channel_messages :
      ℕ → ℕ → ClientSideConnection V → V.net.World → Option Handled
  handle_channel_messages zero id c w = none
  handle_channel_messages (suc fuel) id c w =
      let (received, w') = try_recv_from_channels V.net c w in
      elim received [
        | ok lost_connection ↦
            (let (c', events, w'') = handle_lost id c w' in
              after events (handle_channel_messages fuel id c' w''))
        | err _ ↦ some (c, [], w')
      ]

  abbrev pub Systems : Type 0
  Systems = Option (HashMap (ClientSideConnection V) × List (ClientEvent V.types) × V.net.World)

  -- The loop over the connections.
  unfoldable pub handle_client_events : ℕ → HashMap (ClientSideConnection V) → V.net.World → Systems
  handle_client_events fuel [] w = some ([], [], w)
  handle_client_events fuel ((id, c) ∷ rest) w = elim (handle_messages fuel id c w) [
    | some (c1, events1, w1) ↦ elim (handle_channel_messages fuel id c1 w1) [
      | some (c2, events2, w2) ↦ elim (handle_client_events fuel rest w2) [
        | some (rest', events3, w3) ↦ some ((id, c2) ∷ rest', events1 ++ events2 ++ events3, w3)
        | none ↦ none
      ]
      | none ↦ none
    ]
    | none ↦ none
  ]

  unfoldable pub clear_stale_received_payloads :
      HashMap (ClientSideConnection V) → HashMap (ClientSideConnection V)
  clear_stale_received_payloads connections =
      map (λ entry. (entry.0, Receive.clear_stale_received_payloads V.net entry.1)) connections

  -- The errors of a dispatch, with the id of the connection.
  abbrev tag_errors : ℕ → Result (Unit {0}) (List RecvChannelError) → List (ℕ × RecvChannelError)
  tag_errors id (ok _) = []
  tag_errors id (err errs) = map (λ x. (id, x)) errs

  abbrev pub Dispatching : Type 0
  Dispatching =
      Option (HashMap (ClientSideConnection V) × List (ℕ × RecvChannelError) × V.net.World)

  abbrev then_dispatch :
      HashMap (ClientSideConnection V) → List (ℕ × RecvChannelError) → Dispatching → Dispatching
  then_dispatch first errs none = none
  then_dispatch first errs (some (rest, later, w)) = some (first ++ rest, errs ++ later, w)

  -- The loop over the connections: those that are disconnected are left alone.
  unfoldable pub dispatch_received_payloads :
      ℕ → HashMap (ClientSideConnection V) → V.net.World → Dispatching
  dispatch_received_payloads fuel [] w = some ([], [], w)
  dispatch_received_payloads fuel ((id, c) ∷ rest) w =
      let skipped : Dispatching =
        then_dispatch ((id, c) ∷ []) [] (dispatch_received_payloads fuel rest w) in
      let dispatched : Dispatching =
        elim (dispatch_received_payloads_to_channel_buffers V.net fuel c w) [
          | some (answer, c', w') ↦
              then_dispatch ((id, c') ∷ []) (tag_errors id answer)
                (dispatch_received_payloads fuel rest w')
          | none ↦ none
        ] in
      elim c.specific.state [
        | InternalConnectionState.disconnected ↦ skipped
        | InternalConnectionState.connecting ↦ dispatched
        | InternalConnectionState.connected _ _ ↦ dispatched
      ]
