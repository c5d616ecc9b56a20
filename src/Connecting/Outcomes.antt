-- ===== src/Connecting/Outcomes.antt =====
-- What the set-up of a connection comes to for the client, in each of its outcomes.
use bevy_quinnet.Base.{
  ℕ, ◌<◌, ◌≡◌, refl, ap, ◌∙◌, List, [], ◌∷◌, ◌++◌, none, some, length, true, false, leb, Bool-cases,
  inl, inr, Result, ok, err, arith,
}
use bevy_quinnet.Buffer.{Buffer}
use bevy_quinnet.Net.{MpscLaws}
use bevy_quinnet.Client.{
  ClientNet, ClientAsyncMessage, ClientSideConnection, ConnectionState, QuinnetConnectionError,
  quic_connection_error, client_id_not_received, invalid_client_id, AsyncConnectionConfig,
}
use bevy_quinnet.Client.Connection.{from_internal}
use bevy_quinnet.Client.Events.{
  ClientEvent, connection_event, connection_failed_event, handle_messages,
}
use bevy_quinnet.Client.Lifecycle.{Undisturbed, handle_messages_lem, transitions, transition}
use bevy_quinnet.ClientId.{receive_client_id, read_client_id}
use bevy_quinnet.Connecting.{Quinn, TaskEnds, async_connection_task}
use bevy_quinnet.Connecting.Reported.{IsUp, IdTurn, reported, task_reports}
use bevy_quinnet.Tasks.{ended}
use bevy_quinnet.Tasks.Receiver.{close_signal, next}
use bevy_quinnet.Tasks.Receiver.Arrival.{IsOpen}

module _ (V : ClientNet) (b : Buffer) (q : Quinn V) (asyncs : MpscLaws V.asyncs) where
  abbrev pub Outcome : Type 0
  Outcome = ConnectionState × List (ClientEvent V.types)

  abbrev pub fails : ℕ → QuinnetConnectionError V.types.QuicError → Outcome
  fails id e = (ConnectionState.disconnected, connection_failed_event id e ∷ [])

  -- The state and the events of a client's connection, by what came of its attempt to connect and
  -- of the stream with its id: an id has 8 bytes.
  unfoldable pub outcome :
      ℕ → Result V.types.Handle V.types.QuicError → IdTurn V b q asyncs → Outcome
  outcome id (err e) turn = fails id (quic_connection_error e)
  outcome id (ok h) close_signal = (ConnectionState.connecting, [])
  outcome id (ok h) (next (err e)) = fails id (quic_connection_error e)
  outcome id (ok h) (next (ok none)) = fails id client_id_not_received
  outcome id (ok h) (next (ok (some (err e)))) = fails id client_id_not_received
  outcome id (ok h) (next (ok (some (ok bytes)))) = elim (leb 8 (length bytes)) [
    | true ↦ (ConnectionState.connected, connection_event id (some (b.get_uint 8 bytes)) ∷ [])
    | false ↦ fails id invalid_client_id
  ]

  -- The client's state machine on what is reported.
  transitions-reported :
      (id : ℕ) (x : Result V.types.Handle V.types.QuicError) (turn : IdTurn V b q asyncs)
      → (transitions V.types id ConnectionState.connecting (reported V b q asyncs x turn)
          ≡ outcome id x turn)
        × (length (reported V b q asyncs x turn) < 2)
  unfolding transitions transition receive_client_id read_client_id outcome
  transitions-reported id (err e) turn = (refl, omega arith)
  transitions-reported id (ok h) close_signal = (refl, omega arith)
  transitions-reported id (ok h) (next (err e)) = (refl, omega arith)
  transitions-reported id (ok h) (next (ok none)) = (refl, omega arith)
  transitions-reported id (ok h) (next (ok (some (err e)))) = (refl, omega arith)
  transitions-reported id (ok h) (next (ok (some (ok bytes)))) =
      elim (Bool-cases (leb 8 (length bytes))) [
        | inl y ↦ rw (outcome, y) (refl, omega arith)
        | inr n ↦ rw (outcome, n) (refl, omega arith)
      ]

  module _ (ends : TaskEnds V) (r : V.asyncs.Receiver)
      (open_queue : IsOpen V.asyncs asyncs ends.to_sync_client_send r)
      (up : IsUp V b q asyncs r) where
    -- Let the configuration, the endpoint and the attempt to connect not fail, the client's queue
    -- be empty and take messages, the calls of quinn and the signal of a close leave it alone, and
    -- the client be connecting. Then the task that sets up the connection ends without a panic, and
    -- the first loop of handle_client_events ends as follows. If the connection or the stream with
    -- the id failed, or ended without a frame of 8 bytes, the client is disconnected, with one
    -- event that tells which. If the close signal came before the id, it is still connecting,
    -- without an event. Else it is connected, with one event, that of the connection with the id
    -- that the frame's first 8 bytes give.
    pub async_connection_task_lem :
        (undisturbed : Undisturbed V asyncs) (config : AsyncConnectionConfig V.types)
        (x : Result V.types.Handle V.types.QuicError) (turn : IdTurn V b q asyncs) (w : V.net.World)
        → ((c : q.Connecting) (v : V.net.World) → (q.connected c v).0 ≡ x)
        → ((h : V.types.Handle) (v : V.net.World) → (q.client_id_turn h v).0 ≡ turn)
        → (id : ℕ) (c : ClientSideConnection V)
        → from_internal c.specific.state ≡ ConnectionState.connecting
        → c.specific.from_async_client_recv ≡ r
        → asyncs.backlog r w ≡ []
        → ((async_connection_task V b q config ends w).0 ≡ ended)
          × (c' : ClientSideConnection V) × (w' : V.net.World) × (handle_messages V 2 id c
                (async_connection_task V b q config ends w).1
              ≡ some (c', (outcome id x turn).1, w'))
          × (from_internal c'.specific.state ≡ (outcome id x turn).0)
    async_connection_task_lem undisturbed config x turn w up_to turns id c connecting receiver
          none_yet =
        let (e, g) = task_reports V b q asyncs ends r open_queue up config x turn w up_to turns in
        let (same, few) = transitions-reported id x turn in
        let (c', w', ran, state, _) =
          handle_messages_lem V asyncs undisturbed 2 id c _ (reported V b q asyncs x turn)
            (rw receiver (
              g
              ∙ ap (λ (l : List (ClientAsyncMessage V.types)). l ++ reported V b q asyncs x turn)
                  none_yet))
            few in
        let told : transitions V.types id (from_internal c.specific.state)
              (reported V b q asyncs x turn)
            ≡ outcome id x turn =
          rw connecting same in
        (
          e,
          c',
          w',
          ran ∙ ap (λ (o : Outcome). some (c', o.1, w')) told,
          state ∙ ap (λ (o : Outcome). o.0) told,
        )
