-- ===== src/Connecting/Reported.antt =====
-- What the task that sets up a client's connection reports, and what the client makes of it.
use bevy_quinnet.Base.{
  ℕ, ◌^◌, ◌<◌, ◌≡◌, refl, sym, ap, ◌∙◌, List, [], ◌∷◌, ◌++◌, Option, some, Result, ok, err, arith,
}
use mathlib.Core.List.{append-nil}
use bevy_quinnet.Buffer.{Bytes, Buffer, BufferLaws}
use bevy_quinnet.Certificate.{CertificateVerificationMode}
use bevy_quinnet.Net.{MpscLaws}
use bevy_quinnet.Client.{
  ClientNet, ClientAsyncMessage, ClientSideConnection, ConnectionState, quic_connection_error,
  AsyncConnectionConfig,
}
use bevy_quinnet.Client.Connection.{from_internal}
use bevy_quinnet.Client.Events.{connection_event, handle_messages}
use bevy_quinnet.Client.Lifecycle.{Undisturbed, handle_messages_lem, transitions, transition}
use bevy_quinnet.ClientId.{
  ClientIdReception, interrupted, retrieved, failed, client_id_bytes, receive_client_id,
}
use bevy_quinnet.ClientId.Exchange.{receive-client_id_bytes}
use bevy_quinnet.Connecting.{
  Quinn, TaskEnds, ConnectionTask, signal, signal_connected, on_client_id, on_connection, spawn_all,
  async_connection_task,
}
use bevy_quinnet.Tasks.{Phase, ended}
use bevy_quinnet.Tasks.Receiver.{Turn, next}
use bevy_quinnet.Tasks.Receiver.Arrival.{IsOpen}

module _ (V : ClientNet) (b : Buffer) (q : Quinn V) (asyncs : MpscLaws V.asyncs) where
  -- The configuration, the endpoint and the attempt to connect do not fail, and none of the calls
  -- puts a message into the client's queue.
  pub record IsUp (r : V.asyncs.Receiver) : Type 0 where
    pub configure_ok :
        (mode : CertificateVerificationMode V.types.ServerName V.types.Text) (s : V.asyncs.Sender)
        (w : V.net.World)
        → (cfg : q.ClientConfig) × (q.configure mode s w ≡ ok cfg)
    pub client_ok :
        (a : V.types.SocketAddr) (w : V.net.World)
        → (e : q.QuinnEndpoint) × ((q.client a w).0 ≡ ok e)
    pub connect_ok :
        (e : q.QuinnEndpoint) (a : V.types.SocketAddr) (n : V.types.Text) (w : V.net.World)
        → (c : q.Connecting) × ((q.connect e a n w).0 ≡ ok c)
    pub client_kept :
        (a : V.types.SocketAddr) (w : V.net.World)
        → asyncs.backlog r (q.client a w).1 ≡ asyncs.backlog r w
    pub set_kept :
        (e : q.QuinnEndpoint) (cfg : q.ClientConfig) (w : V.net.World)
        → asyncs.backlog r (q.set_default_client_config e cfg w) ≡ asyncs.backlog r w
    pub connect_kept :
        (e : q.QuinnEndpoint) (a : V.types.SocketAddr) (n : V.types.Text) (w : V.net.World)
        → asyncs.backlog r (q.connect e a n w).1 ≡ asyncs.backlog r w
    pub connected_kept :
        (c : q.Connecting) (w : V.net.World)
        → asyncs.backlog r (q.connected c w).1 ≡ asyncs.backlog r w
    pub spawn_kept :
        (t : ConnectionTask V) (w : V.net.World)
        → asyncs.backlog r (q.spawn t w) ≡ asyncs.backlog r w
    pub turn_kept :
        (h : V.types.Handle) (w : V.net.World)
        → asyncs.backlog r (q.client_id_turn h w).1 ≡ asyncs.backlog r w

  abbrev pub IdTurn : Type 0
  IdTurn = Turn (Result (Option (Result Bytes (Unit {0}))) V.types.QuicError)

  -- What the client hears of a reception of its id.
  abbrev pub of_reception :
      V.types.Handle → ClientIdReception V.types.QuicError → List (ClientAsyncMessage V.types)
  of_reception h interrupted = []
  of_reception h (retrieved id) = ClientAsyncMessage.connected h (some id) ∷ []
  of_reception h (failed e) = ClientAsyncMessage.connection_failed e ∷ []

  -- What it hears of an attempt to connect.
  abbrev pub reported :
      Result V.types.Handle V.types.QuicError → IdTurn → List (ClientAsyncMessage V.types)
  reported (err e) turn = ClientAsyncMessage.connection_failed (quic_connection_error e) ∷ []
  reported (ok h) turn = of_reception h (receive_client_id b turn)

  module _ (ends : TaskEnds V) (r : V.asyncs.Receiver)
      (open_queue : IsOpen V.asyncs asyncs ends.to_sync_client_send r) (up : IsUp r) where
    -- A step that ends the task and adds these messages to the client's queue.
    abbrev Reports : V.net.World → List (ClientAsyncMessage V.types) → Phase × V.net.World → Type 0
    Reports w ms step = (step.0 ≡ ended) × (asyncs.backlog r step.1 ≡ asyncs.backlog r w ++ ms)

    carry :
        (v w : V.net.World) (ms : List (ClientAsyncMessage V.types)) (step : Phase × V.net.World)
        → Reports v ms step
        → asyncs.backlog r v ≡ asyncs.backlog r w
        → Reports w ms step
    carry v w ms step (e, g) k = (e, g ∙ ap (λ (l : List (ClientAsyncMessage V.types)). l ++ ms) k)

    signal-Reports :
        (m : ClientAsyncMessage V.types) (w : V.net.World)
        → Reports w (m ∷ []) (signal V b q ends.to_sync_client_send m w)
    unfolding signal
    signal-Reports m w = rw (open_queue.send_ok m w, signal) (refl, open_queue.send_backlog m w)

    on_client_id-Reports :
        (h : V.types.Handle) (x : ClientIdReception V.types.QuicError) (w : V.net.World)
        → Reports w (of_reception h x) (on_client_id V b q h ends.to_sync_client_send x w)
    unfolding on_client_id signal_connected
    on_client_id-Reports h interrupted w = (refl, sym (append-nil (asyncs.backlog r w)))
    on_client_id-Reports h (retrieved id) w = signal-Reports _ w
    on_client_id-Reports h (failed e) w = signal-Reports _ w

    on_connection-Reports :
        (id : ℕ) (x : Result V.types.Handle V.types.QuicError) (turn : IdTurn) (w : V.net.World)
        → ((h : V.types.Handle) (v : V.net.World) → (q.client_id_turn h v).0 ≡ turn)
        → Reports w (reported x turn) (on_connection V b q id ends x w)
    unfolding on_connection
    on_connection-Reports id (err e) turn w t = signal-Reports _ w
    on_connection-Reports id (ok h) turn w t =
        let v = spawn_all V b q id ends h w in
        rw (t h v) (
          carry (q.client_id_turn h v).1 w _ _ (on_client_id-Reports h (receive_client_id b turn) _)
            (up.turn_kept h v ∙ up.spawn_kept _ _ ∙ up.spawn_kept _ _ ∙ up.spawn_kept _ w))

    -- What the task adds to the client's queue.
    pub task_reports :
        (config : AsyncConnectionConfig V.types) (x : Result V.types.Handle V.types.QuicError)
        (turn : IdTurn) (w : V.net.World)
        → ((c : q.Connecting) (v : V.net.World) → (q.connected c v).0 ≡ x)
        → ((h : V.types.Handle) (v : V.net.World) → (q.client_id_turn h v).0 ≡ turn)
        → ((async_connection_task V b q config ends w).0 ≡ ended)
          × (asyncs.backlog r (async_connection_task V b q config ends w).1
              ≡ asyncs.backlog r w ++ reported x turn)
    unfolding async_connection_task
    task_reports config x turn w c t =
        let (cfg, e0) = up.configure_ok config.cert_mode ends.to_sync_client_send w in
        let a = config.endpoint_config in
        let (endpoint, e1) = up.client_ok a.local_bind_addr w in
        let w1 = (q.client a.local_bind_addr w).1 in
        let v1 = q.set_default_client_config endpoint cfg w1 in
        let (connecting, e2) = up.connect_ok endpoint a.server_addr a.server_hostname v1 in
        let w2 = (q.connect endpoint a.server_addr a.server_hostname v1).1 in
        rw (e0, e1, e2, c connecting w2, async_connection_task)
          (carry (q.connected connecting w2).1 w (reported x turn) _
            (on_connection-Reports config.local_id x turn _ t)
            (up.connected_kept connecting w2
              ∙ up.connect_kept _ _ _ v1
              ∙ up.set_kept endpoint cfg w1
              ∙ up.client_kept _ w))

    -- Let the configuration, the endpoint and the attempt to connect not fail, the calls of quinn
    -- put nothing into the client's queue, the server's stream bring the frame that it fills with a
    -- client's id below 256^8, and the client's queue be empty. Then the task that sets up the
    -- connection ends without a panic, and the first loop of handle_client_events ends with the
    -- connection connected and one event, that of the connection with that id.
    pub connects_with_id :
        (bytes : BufferLaws b) (undisturbed : Undisturbed V asyncs)
        (config : AsyncConnectionConfig V.types) (h : V.types.Handle) (client_id : ℕ) (rest : Bytes)
        (w : V.net.World)
        → ((c : q.Connecting) (v : V.net.World) → (q.connected c v).0 ≡ ok h)
        → ((g : V.types.Handle) (v : V.net.World)
            → (q.client_id_turn g v).0
              ≡ next (ok (some (ok (client_id_bytes b client_id ++ rest)))))
        → client_id < 256 ^ 8
        → (id : ℕ) (c : ClientSideConnection V) → c.specific.from_async_client_recv ≡ r
        → asyncs.backlog r w ≡ []
        → ((async_connection_task V b q config ends w).0 ≡ ended)
          × (c' : ClientSideConnection V) × (w' : V.net.World) × (handle_messages V 2 id c
                (async_connection_task V b q config ends w).1
              ≡ some (c', connection_event id (some client_id) ∷ [], w'))
          × (from_internal c'.specific.state ≡ ConnectionState.connected)
    unfolding transitions transition
    connects_with_id bytes undisturbed config h client_id rest w up_to turn small id c receiver
          none_yet =
        let (e, g) = task_reports config (ok h) _ w up_to turn in
        let (c', w', ran, state, _) =
          handle_messages_lem V asyncs undisturbed 2 id c _
            (ClientAsyncMessage.connected h (some client_id) ∷ [])
            (rw receiver (
              g
              ∙ ap
                  (λ (l : List (ClientAsyncMessage V.types)).
                    l
                    ++ reported (ok h)
                        (next (ok (some (ok (client_id_bytes b client_id ++ rest))))))
                  none_yet
              ∙ ap (of_reception h)
                  (receive-client_id_bytes b bytes V.types.QuicError client_id rest small)))
            (omega arith) in
        (e, c', w', ran, state)
