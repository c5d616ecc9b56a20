-- ===== src/Server.antt =====
-- server.rs, server/error.rs, server/connection.rs and the state of server/endpoint.rs: the errors, the
-- messages of the async tasks, and the endpoint.
pub mod Channels
pub mod Send
pub mod Messages
pub mod Sending
pub mod Connections
pub mod Events
pub mod Registering
pub mod Consistency
pub mod Admission
pub mod Closing
pub mod Conditions
pub mod Quiet
pub mod Updating
pub mod Logged
pub mod Accepting
pub mod Certificates
pub mod Start
mod Tests
use bevy_quinnet.Base.{ℕ, List, [], Option, none, Result}
use bevy_quinnet.Base.HashMap.{HashMap}
use bevy_quinnet.Error.{ConnectionSendError}
use bevy_quinnet.Config.{ChannelConfig}
use bevy_quinnet.IdPool
use bevy_quinnet.IdPool.{ChannelsIdsPool}
use bevy_quinnet.Net.{Net, Mpsc, Broadcast}
use bevy_quinnet.Peer.{PeerConnection, RecvChannelsConfiguration}

pub data ServerSendError : Type 0 where
  unknown_client : ℕ → ServerSendError
  connection_send_error : ConnectionSendError → ServerSendError

pub data ServerPayloadSendError : Type 0 where
  no_default_channel : ServerPayloadSendError
  send_error : ServerSendError → ServerPayloadSendError

-- `ServerGroupSendError` is the list of what failed.
abbrev pub ServerGroupSendError : Type 0
ServerGroupSendError = List (ℕ × ServerSendError)

pub data ServerGroupPayloadSendError : Type 0 where
  no_default_channel : ServerGroupPayloadSendError
  group_send_error : ServerGroupSendError → ServerGroupPayloadSendError

pub data ServerReceiveError : Type 0 where
  unknown_client : ℕ → ServerReceiveError

pub data ServerDisconnectError : Type 0 where
  unknown_client : ℕ → ServerDisconnectError
  client_already_disconnected : ℕ → ServerDisconnectError

pub data EndpointAlreadyClosed : Type 0 where
  endpoint_already_closed : EndpointAlreadyClosed

pub data ServerSyncMessage : Type 0 where
  client_connected_ack : ℕ → ServerSyncMessage

-- server/connection.rs: the handle is `quinn`'s.
pub record ServerConnection (Handle Sender : Type 0) : Type 0 where
  pub connection_handle : Handle
  pub to_connection_send : Sender

pub data ServerAsyncMessage (N : Net) (S : Type 0) : Type 0 where
  client_connected : PeerConnection N S → ServerAsyncMessage N S
  client_connection_closed : ℕ → ServerAsyncMessage N S

-- The queues of a server, over those of its connections.
pub record ServerNet : Type 1 where
  pub net : Net
  pub Handle : Type 0
  pub syncs : Mpsc net.World ServerSyncMessage
  pub asyncs : Mpsc net.World (ServerAsyncMessage net (ServerConnection Handle syncs.Sender))
  pub handler_closes : Broadcast net.World (Unit {0})

abbrev pub ServerSideConnection : ServerNet → Type 0
ServerSideConnection V = PeerConnection V.net (ServerConnection V.Handle V.syncs.Sender)

-- Both counters are `u32`s.
pub record EndpointStats : Type 0 where
  pub connect_count : ℕ
  pub disconnect_count : ℕ

pub record Endpoint (V : ServerNet) : Type 0 where
  pub clients : HashMap (ServerSideConnection V)
  pub client_id_gen : ℕ
  pub opened_channels : HashMap ChannelConfig
  pub send_channel_ids : ChannelsIdsPool
  pub close_sender : V.handler_closes.Sender
  pub from_async_endpoint_recv : V.asyncs.Receiver
  pub stats : EndpointStats
  pub recv_channels_cfg : RecvChannelsConfiguration

-- `Endpoint::new`
unfoldable pub new_endpoint :
    (V : ServerNet)
    → V.handler_closes.Sender
    → V.asyncs.Receiver
    → RecvChannelsConfiguration
    → Endpoint V
new_endpoint V endpoint_close_send from_async_endpoint_recv cfg = record {
  clients = [];
  client_id_gen = 0;
  opened_channels = [];
  send_channel_ids = IdPool.new;
  close_sender = endpoint_close_send;
  from_async_endpoint_recv = from_async_endpoint_recv;
  stats = record { connect_count = 0; disconnect_count = 0 };
  recv_channels_cfg = cfg;
}
