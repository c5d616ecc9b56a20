-- ===== src/Connecting.antt =====
-- async_connection_task of client/connection.rs, which sets up a client's connection, with
-- signal_connected and configure_client. The feature `shared-client-id` is on. The calls on `quinn`
-- and `rustls`, and `tokio::spawn`, are parameters; a phase is that of a task of the connection.
pub mod Reported
pub mod Outcomes
mod Tests
use bevy_quinnet.Base.{
  ℕ, List, Option, none, some, Result, ok, err, Bool, true, false, if◌then◌else◌,
}
use bevy_quinnet.Buffer.{Bytes, Buffer}
use bevy_quinnet.Certificate.{
  CertStore, CertVerificationStatus, CertVerifierBehaviour, CertificateVerificationMode,
  skip_verification, signed_by_certificate_authority, trust_on_first_use,
}
use bevy_quinnet.Client.{
  ClientNet, ClientAsyncMessage, QuinnetConnectionError, quic_connection_error,
  AsyncConnectionConfig,
}
use bevy_quinnet.ClientId.{ClientIdReception, interrupted, retrieved, failed, receive_client_id}
use bevy_quinnet.KnownHosts.{Hosts, HostsError, load_known_hosts_store_from_config}
use bevy_quinnet.Tasks.{Phase, ended, panicked}
use bevy_quinnet.Tasks.Receiver.{Turn}

-- The configurations that `rustls` and `quinn` build. A builder takes a certificate verifier.
pub record Tls (ServerName FilePath Sender : Type 0) : Type 1 where
  pub CryptoConfig : Type 0
  pub ClientConfig : Type 0
  pub with_skip_verification : CryptoConfig
  pub with_platform_verifier : Result CryptoConfig (Unit {0})
  -- the fields of the `TofuServerVerification`
  pub with_tofu_verification :
      CertStore ServerName
      → List (CertVerificationStatus × CertVerifierBehaviour)
      → Sender
      → Option FilePath
      → CryptoConfig
  pub set_early_data : CryptoConfig → Bool → CryptoConfig
  pub quic_client_config : CryptoConfig → Result ClientConfig (Unit {0})

-- `Box<dyn Error>`
pub data ConfigureError : Type 0 where
  platform_error quic_error : ConfigureError
  hosts_error : HostsError → ConfigureError

module _ {W : Type 0} (h : Hosts W) {Sender : Type 0} (t : Tls h.ServerName h.FilePath Sender) where
  abbrev pub Crypto : Type 0
  Crypto = Result t.CryptoConfig ConfigureError

  abbrev pub tofu :
      List (CertVerificationStatus × CertVerifierBehaviour)
      → Sender
      → Result (CertStore h.ServerName × Option h.FilePath) HostsError
      → Crypto
  tofu behaviour to_sync_client (ok (store, store_file)) =
      ok (t.with_tofu_verification store behaviour to_sync_client store_file)
  tofu behaviour to_sync_client (err e) = err (hosts_error e)

  abbrev pub platform : Result t.CryptoConfig (Unit {0}) → Crypto
  platform (ok crypto) = ok crypto
  platform (err e) = err platform_error

  -- The `match` on the mode.
  abbrev pub crypto_for : CertificateVerificationMode h.ServerName h.FilePath → Sender → W → Crypto
  crypto_for skip_verification to_sync_client w = ok t.with_skip_verification
  crypto_for signed_by_certificate_authority to_sync_client w = platform t.with_platform_verifier
  crypto_for (trust_on_first_use config) to_sync_client w =
      tofu config.verifier_behaviour to_sync_client
        (load_known_hosts_store_from_config h config.known_hosts w)

  abbrev pub quic_config : Result t.ClientConfig (Unit {0}) → Result t.ClientConfig ConfigureError
  quic_config (ok config) = ok config
  quic_config (err e) = err quic_error

  unfoldable pub configure_client :
      CertificateVerificationMode h.ServerName h.FilePath
      → Sender
      → W
      → Result t.ClientConfig ConfigureError
  configure_client cert_mode to_sync_client w = elim (crypto_for cert_mode to_sync_client w) [
    | ok crypto ↦ quic_config (t.quic_client_config (t.set_early_data crypto true))
    | err e ↦ err e
  ]

module _ (V : ClientNet) where
  -- The ends that the task is given.
  pub record TaskEnds : Type 0 where
    pub to_sync_client_send : V.asyncs.Sender
    pub bytes_from_server_send : V.net.received.Sender
    pub to_channels_recv : V.net.channel_syncs.Receiver
    pub from_channels_send : V.net.channel_asyncs.Sender

  -- The tasks that are spawned: the one that waits for the end of the connection, and those that
  -- spawn_recv_channels_tasks and spawn_send_channels_tasks_spawner spawn.
  pub data ConnectionTask : Type 0 where
    closed_task : V.types.Handle → V.asyncs.Sender → ConnectionTask
    recv_channels_tasks : V.types.Handle → ℕ → V.net.received.Sender → ConnectionTask
    send_channels_tasks_spawner :
        V.types.Handle → V.net.channel_syncs.Receiver → V.net.channel_asyncs.Sender → ConnectionTask

  -- `quinn`'s endpoint, and the runtime.
  pub record Quinn : Type 1 where
    pub ClientConfig : Type 0
    pub QuinnEndpoint : Type 0
    pub Connecting : Type 0
    pub configure :
        CertificateVerificationMode V.types.ServerName V.types.Text
        → V.asyncs.Sender
        → V.net.World
        → Result ClientConfig ConfigureError
    pub client : V.types.SocketAddr → V.net.World → Result QuinnEndpoint (Unit {0}) × V.net.World
    pub set_default_client_config : QuinnEndpoint → ClientConfig → V.net.World → V.net.World
    pub connect :
        QuinnEndpoint
        → V.types.SocketAddr
        → V.types.Text
        → V.net.World
        → Result Connecting (Unit {0}) × V.net.World
    pub connected : Connecting → V.net.World → Result V.types.Handle V.types.QuicError × V.net.World
    pub spawn : ConnectionTask → V.net.World → V.net.World
    pub is_closed : V.asyncs.Sender → V.net.World → Bool
    -- what the `select!` of receive_client_id meets
    pub client_id_turn :
        V.types.Handle
        → V.net.World
        → Turn (Result (Option (Result Bytes (Unit {0}))) V.types.QuicError) × V.net.World

  module _ (b : Buffer) (q : Quinn) where
    -- A `send` with its `expect`.
    unfoldable pub signal :
        V.asyncs.Sender → ClientAsyncMessage V.types → V.net.World → Phase × V.net.World
    signal to_sync_client_send message w =
        let (sent, w') = V.asyncs.send to_sync_client_send message w in
        elim sent [ ok u ↦ (ended, w') | err e ↦ (panicked, w') ]

    -- The spawned task, once the connection is closed.
    unfoldable pub on_closed : V.asyncs.Sender → V.net.World → Phase × V.net.World
    unfolding signal
    on_closed to_sync_client w =
        let (phase, w') = signal to_sync_client ClientAsyncMessage.connection_closed w in
        if q.is_closed to_sync_client w then (ended, w) else (phase, w')

    unfoldable pub signal_connected :
        V.types.Handle → Option ℕ → V.asyncs.Sender → V.net.World → Phase × V.net.World
    unfolding signal
    signal_connected connection_handle client_id to_sync_client_send w =
        signal to_sync_client_send (ClientAsyncMessage.connected connection_handle client_id) w

    -- The `match` on the reception of the id.
    unfoldable pub on_client_id :
        V.types.Handle
        → V.asyncs.Sender
        → ClientIdReception V.types.QuicError
        → V.net.World
        → Phase × V.net.World
    unfolding signal_connected signal
    on_client_id connection_handle to_sync_client_send (retrieved client_id) w =
        signal_connected connection_handle (some client_id) to_sync_client_send w
    on_client_id connection_handle to_sync_client_send (failed e) w =
        signal to_sync_client_send (ClientAsyncMessage.connection_failed e) w
    on_client_id connection_handle to_sync_client_send interrupted w = (ended, w)

    abbrev pub spawn_all : ℕ → TaskEnds → V.types.Handle → V.net.World → V.net.World
    spawn_all local_id ends connection_handle w =
        q.spawn
          (send_channels_tasks_spawner connection_handle ends.to_channels_recv
            ends.from_channels_send)
          (q.spawn (recv_channels_tasks connection_handle local_id ends.bytes_from_server_send)
            (q.spawn (closed_task connection_handle ends.to_sync_client_send) w))

    -- The `match` on the connection.
    unfoldable pub on_connection :
        ℕ → TaskEnds → Result V.types.Handle V.types.QuicError → V.net.World → Phase × V.net.World
    unfolding on_client_id signal
    on_connection local_id ends (err e) w =
        signal ends.to_sync_client_send
          (ClientAsyncMessage.connection_failed (quic_connection_error e)) w
    on_connection local_id ends (ok connection_handle) w =
        let (turn, w') =
          q.client_id_turn connection_handle (spawn_all local_id ends connection_handle w) in
        on_client_id connection_handle ends.to_sync_client_send (receive_client_id b turn) w'

    unfoldable pub async_connection_task :
        AsyncConnectionConfig V.types → TaskEnds → V.net.World → Phase × V.net.World
    unfolding on_connection
    async_connection_task config ends w =
        elim (q.configure config.cert_mode ends.to_sync_client_send w) [
          | err e ↦ (panicked, w)
          | ok client_cfg ↦
              (let (made, w1) = q.client config.endpoint_config.local_bind_addr w in
                elim made [
                  | err e ↦ (panicked, w1)
                  | ok endpoint ↦
                      (let (connecting, w2) =
                          q.connect endpoint config.endpoint_config.server_addr
                            config.endpoint_config.server_hostname
                            (q.set_default_client_config endpoint client_cfg w1) in
                        elim connecting [
                          | err e ↦ (panicked, w2)
                          | ok c ↦
                              (let (connection, w3) = q.connected c w2 in
                                on_connection config.local_id ends connection w3)
                        ])
                ])
        ]
