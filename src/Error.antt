-- ===== src/Error.antt =====
-- shared/error.rs: the errors that client and server share.
use bevy_quinnet.Base.{ℕ}

pub data AsyncChannelError : Type 0 where
  full_queue internal_channel_closed : AsyncChannelError

pub data ChannelCloseError : Type 0 where
  channel_already_closed : ChannelCloseError
  invalid_channel_id : ℕ → ChannelCloseError

pub data ChannelCreationError : Type 0 where
  max_channels_count_reached : ChannelCreationError
  async_channel_error : AsyncChannelError → ChannelCreationError

pub data ChannelConfigError : Type 0 where
  max_channels_count_reached : ChannelConfigError

pub data ConnectionSendError : Type 0 where
  invalid_channel_id : ℕ → ConnectionSendError
  channel_closed : ConnectionSendError
  channel_send_error : AsyncChannelError → ConnectionSendError

pub data ConnectionAlreadyClosed : Type 0 where
  connection_already_closed : ConnectionAlreadyClosed

pub data RecvChannelError : Type 0 where
  recv_channel_full : ℕ → RecvChannelError
  max_recv_channel_count_reached : ℕ → RecvChannelError
