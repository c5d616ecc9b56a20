-- ===== src/Server/Start.antt =====
-- `start_endpoint` of server.rs. The set-up of `rustls` and `quinn`, the socket and the task that it
-- spawns are parameters. `none` is a panic.
pub mod Opened
mod Tests
use bevy_quinnet.Base.{ℕ, List, [], ◌∷◌, Option, none, some, Result, ok, err}
use bevy_quinnet.Error.{AsyncChannelError}
use bevy_quinnet.Config.{ChannelConfig, SendChannelsConfiguration}
use bevy_quinnet.Peer.{RecvChannelsConfiguration, default_kill_message_queue_size}
use bevy_quinnet.Server.{ServerNet, Endpoint, new_endpoint}
use bevy_quinnet.Server.Channels.{unchecked_open_channel}
use bevy_quinnet.Server.Events.{QuinnetServer}
use bevy_quinnet.Server.Certificates.{
  Files, CertificateRetrievalMode, ServerCertificate, EndpointCertificateError,
  retrieve_certificate, Retrieved,
}

abbrev pub default_internal_messages_channel_size : ℕ
default_internal_messages_channel_size = 100

module _ (V : ServerNet) (s : Files V.net.World) where
  pub record Setup : Type 1 where
    pub ServerConfig : Type 0
    pub RustlsError : Type 0
    pub Socket : Type 0
    pub SocketAddr : Type 0
    pub with_single_cert : List s.CertificateDer → s.PrivateKeyDer → Result ServerConfig RustlsError
    -- `Arc::get_mut`, and the keep-alive interval that is set through it
    pub set_keep_alive : ServerConfig → Option ServerConfig
    pub bind : SocketAddr → V.net.World → Result Socket s.IoError × V.net.World
    pub local_addr : Socket → Result SocketAddr s.IoError
    -- starts `endpoint_task`
    pub spawn :
        Socket
        → ServerConfig
        → V.asyncs.Sender
        → V.handler_closes.Sender
        → RecvChannelsConfiguration
        → V.net.World
        → V.net.World

  module _ (u : Setup) where
    pub data EndpointStartError : Type 0 where
      lock_acquisition_failure : EndpointStartError
      io_error : s.IoError → EndpointStartError
      certificate_error : EndpointCertificateError s → EndpointStartError
      rustls_error : u.RustlsError → EndpointStartError
      async_channel_error : AsyncChannelError → EndpointStartError

    pub record ServerEndpointConfiguration : Type 0 where
      pub local_bind_addr : u.SocketAddr
      pub cert_mode : CertificateRetrievalMode s
      pub send_channels_cfg : SendChannelsConfiguration
      pub recv_channels_cfg : RecvChannelsConfiguration

    abbrev pub Started : Type 0
    Started =
        Option (Result (ServerCertificate s) EndpointStartError × QuinnetServer V × V.net.World)

    abbrev pub Opening : Type 0
    Opening = Option (Result (Unit {0}) AsyncChannelError × Endpoint V × V.net.World)

    -- The loop over the configured channels: `?` leaves it.
    unfoldable pub open_all : List ChannelConfig → Endpoint V → V.net.World → Opening
    open_all [] e w = some (ok tt, e, w)
    open_all (channel_type ∷ rest) e w = elim (unchecked_open_channel V e channel_type w) [
      | none ↦ none
      | some (ok id, e', w') ↦ open_all rest e' w'
      | some (err x, e', w') ↦ some (err x, e', w')
    ]

    -- `self.endpoint = Some(endpoint)`, once all channels are open.
    abbrev pub keep_endpoint : ServerCertificate s → QuinnetServer V → Opening → Started
    keep_endpoint server_cert server none = none
    keep_endpoint server_cert server (some (ok _, endpoint, w)) =
        some (ok server_cert, record { endpoint = some endpoint }, w)
    keep_endpoint server_cert server (some (err x, endpoint, w)) =
        some (err (async_channel_error x), server, w)

    module _ (server : QuinnetServer V) (config : ServerEndpointConfiguration)
        (server_cert : ServerCertificate s) where
      abbrev pub listen :
          u.ServerConfig
          → V.asyncs.Sender
          → V.asyncs.Receiver
          → V.handler_closes.Sender
          → u.Socket
          → Result u.SocketAddr s.IoError
          → V.net.World
          → Started
      listen quinn_config to_sync from_async close_send socket (err e) w =
          some (err (io_error e), server, w)
      listen quinn_config to_sync from_async close_send socket (ok local_addr) w =
          keep_endpoint server_cert server (
            open_all config.send_channels_cfg.channels
              (new_endpoint V close_send from_async config.recv_channels_cfg)
              (u.spawn socket quinn_config to_sync close_send config.recv_channels_cfg w))

      abbrev pub bound :
          u.ServerConfig
          → V.asyncs.Sender
          → V.asyncs.Receiver
          → V.handler_closes.Sender
          → Result u.Socket s.IoError
          → V.net.World
          → Started
      bound quinn_config to_sync from_async close_send (err e) w =
          some (err (io_error e), server, w)
      bound quinn_config to_sync from_async close_send (ok socket) w =
          listen quinn_config to_sync from_async close_send socket (u.local_addr socket) w

      abbrev pub keep_alive_set : Option u.ServerConfig → V.net.World → Started
      keep_alive_set none w = some (err lock_acquisition_failure, server, w)
      keep_alive_set (some quinn_config) w =
          let (to_sync, from_async, w1) =
            V.asyncs.channel default_internal_messages_channel_size w in
          let (close_send, w2) = V.handler_closes.channel default_kill_message_queue_size w1 in
          let (socket, w3) = u.bind config.local_bind_addr w2 in
          bound quinn_config to_sync from_async close_send socket w3

      abbrev pub configured : Result u.ServerConfig u.RustlsError → V.net.World → Started
      configured (err e) w = some (err (rustls_error e), server, w)
      configured (ok quinn_config) w = keep_alive_set (u.set_keep_alive quinn_config) w

    abbrev pub with_certificate :
        QuinnetServer V → ServerEndpointConfiguration → Retrieved s → Started
    with_certificate server config none = none
    with_certificate server config (some (err e, w)) = some (err (certificate_error e), server, w)
    with_certificate server config (some (ok server_cert, w)) =
        configured server config server_cert
          (u.with_single_cert server_cert.cert_chain server_cert.priv_key) w

    unfoldable pub start_endpoint :
        QuinnetServer V → ServerEndpointConfiguration → V.net.World → Started
    start_endpoint server config w =
        with_certificate server config (retrieve_certificate s config.cert_mode w)
