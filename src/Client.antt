-- ===== src/Client.antt =====
-- client.rs, client/error.rs and the state of client/connection.rs: the errors, the messages of the
-- async tasks, the configuration and the connection of a client.
pub mod Connection
pub mod Registry
pub mod Messages
pub mod Events
pub mod Ids
pub mod Lifecycle
pub mod Tracking
pub mod Conditions
pub mod Verification
mod Tests
use bevy_quinnet.Base.{ℕ, List, [], Option, none}
use bevy_quinnet.Error.{ConnectionSendError, ConnectionAlreadyClosed}
use bevy_quinnet.Config.{SendChannelsConfiguration}
use bevy_quinnet.IdPool
use bevy_quinnet.IdPool.{ChannelsIdsPool}
use bevy_quinnet.Certificate.{
  CertVerificationStatus, CertVerificationInfo, CertificateVerificationMode,
}
use bevy_quinnet.Net.{Net, Mpsc}
use bevy_quinnet.Peer.{PeerConnection, RecvChannelsConfiguration}

pub data ClientSendError : Type 0 where
  connection_closed : ClientSendError
  connection_send_error : ConnectionSendError → ClientSendError

pub data ClientPayloadSendError : Type 0 where
  no_default_channel : ClientPayloadSendError
  send_error : ClientSendError → ClientPayloadSendError

pub data ConnectionClosed : Type 0 where
  closed_connection : ConnectionClosed

pub data ClientConnectionCloseError : Type 0 where
  already_closed : ConnectionAlreadyClosed → ClientConnectionCloseError
  invalid_connection_id : ℕ → ClientConnectionCloseError

-- The reason of a QUIC error is `quinn`'s.
pub data QuinnetConnectionError (QuicError : Type 0) : Type 0 where
  quic_connection_error : QuicError → QuinnetConnectionError QuicError
  invalid_client_id client_id_not_received : QuinnetConnectionError QuicError

pub record ClientAddrConfiguration (SocketAddr Text : Type 0) : Type 0 where
  pub server_addr : SocketAddr
  pub server_hostname : Text
  pub local_bind_addr : SocketAddr

-- What other crates define.
pub record Types : Type 1 where
  pub Handle : Type 0
  pub QuicError : Type 0
  pub ServerName : Type 0
  pub ActionSender : Type 0
  pub SocketAddr : Type 0
  pub Text : Type 0

pub data ClientAsyncMessage (T : Types) : Type 0 where
  connected : T.Handle → Option ℕ → ClientAsyncMessage T
  connection_failed : QuinnetConnectionError T.QuicError → ClientAsyncMessage T
  connection_closed : ClientAsyncMessage T
  certificate_interaction_request :
      CertVerificationStatus
      → CertVerificationInfo T.ServerName
      → T.ActionSender
      → ClientAsyncMessage T
  certificate_trust_update : CertVerificationInfo T.ServerName → ClientAsyncMessage T
  certificate_connection_abort :
      CertVerificationStatus → CertVerificationInfo T.ServerName → ClientAsyncMessage T

pub data InternalConnectionState (Handle : Type 0) : Type 0 where
  connecting : InternalConnectionState Handle
  connected : Handle → Option ℕ → InternalConnectionState Handle
  disconnected : InternalConnectionState Handle

pub data ConnectionState : Type 0 where
  connecting connected disconnected : ConnectionState

pub record AsyncConnectionConfig (T : Types) : Type 0 where
  pub local_id : ℕ
  pub endpoint_config : ClientAddrConfiguration T.SocketAddr T.Text
  pub cert_mode : CertificateVerificationMode T.ServerName T.Text

-- The queues of a client, over those of its connections. `spawn` starts `async_connection_task`.
pub record ClientNet : Type 1 where
  pub net : Net
  pub types : Types
  pub asyncs : Mpsc net.World (ClientAsyncMessage types)
  pub spawn :
      AsyncConnectionConfig types
      → asyncs.Sender
      → net.received.Sender
      → net.channel_syncs.Receiver
      → net.channel_asyncs.Sender
      → net.World
      → net.World

pub record ClientConnection (V : ClientNet) : Type 0 where
  pub local_id : ℕ
  pub addr_config : ClientAddrConfiguration V.types.SocketAddr V.types.Text
  pub cert_mode : CertificateVerificationMode V.types.ServerName V.types.Text
  pub channels_config : SendChannelsConfiguration
  pub state : InternalConnectionState V.types.Handle
  pub send_channel_ids : ChannelsIdsPool
  pub from_async_client_recv : V.asyncs.Receiver

abbrev pub ClientSideConnection : ClientNet → Type 0
ClientSideConnection V = PeerConnection V.net (ClientConnection V)

-- `ClientConnection::new`
unfoldable pub new_client_connection :
    (V : ClientNet)
    → ℕ
    → ClientAddrConfiguration V.types.SocketAddr V.types.Text
    → CertificateVerificationMode V.types.ServerName V.types.Text
    → SendChannelsConfiguration
    → V.asyncs.Receiver
    → ClientConnection V
new_client_connection V local_id client_config cert_mode channels_config from_async_client_recv =
    record {
      local_id = local_id;
      addr_config = client_config;
      cert_mode = cert_mode;
      channels_config = channels_config;
      state = InternalConnectionState.connecting;
      send_channel_ids = IdPool.new;
      from_async_client_recv = from_async_client_recv;
    }

pub record ClientConnectionConfiguration (T : Types) : Type 0 where
  pub addr_config : ClientAddrConfiguration T.SocketAddr T.Text
  pub cert_mode : CertificateVerificationMode T.ServerName T.Text
  pub send_channels_cfg : SendChannelsConfiguration
  pub recv_channels_cfg : RecvChannelsConfiguration
