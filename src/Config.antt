-- ===== src/Config.antt =====
-- shared/channels.rs and shared/channels/reliable/mod.rs: constants, the kinds of channels, and the
-- list of channels that a connection or an endpoint opens at its start.
pub mod Bounds
mod Tests
use bevy_quinnet.Base.{
  ℕ, ◌+◌, ◌-◌, ◌*◌, ◌%◌, List, [], ◌∷◌, ◌++◌, Option, none, some, Result, ok, err, length, ltb,
  if◌then◌else◌,
}
use bevy_quinnet.Error.{ChannelConfigError}

-- `u8::MAX as usize + 1`
abbrev pub max_channel_count : ℕ
max_channel_count = 255 + 1

-- `size_of::<ChannelId>()`
abbrev pub channel_id_len : ℕ
channel_id_len = 1

abbrev pub protocol_header_len : ℕ
protocol_header_len = channel_id_len

abbrev pub default_max_reliable_frame_len : ℕ
default_max_reliable_frame_len = 8 * 1024 * 1024

abbrev pub reliable_frame_length_field_len : ℕ
reliable_frame_length_field_len = 4

abbrev pub reliable_frame_total_header_len : ℕ
reliable_frame_total_header_len = reliable_frame_length_field_len + protocol_header_len

pub data CloseReason : Type 0 where
  local_order peer_closed : CloseReason

pub data ChannelConfig : Type 0 where
  ordered_reliable : ℕ → ChannelConfig
  unordered_reliable : ℕ → ChannelConfig
  unreliable : ChannelConfig

pub default_unreliable : ChannelConfig
default_unreliable = unreliable

pub default_unordered_reliable : ChannelConfig
default_unordered_reliable = unordered_reliable default_max_reliable_frame_len

pub default_ordered_reliable : ChannelConfig
default_ordered_reliable = ordered_reliable default_max_reliable_frame_len

pub record SendChannelsConfiguration : Type 0 where
  pub channels : List ChannelConfig

-- `SendChannelsConfiguration::default()`
pub default_configuration : SendChannelsConfiguration
default_configuration = record { channels = ordered_reliable default_max_reliable_frame_len ∷ [] }

-- `SendChannelsConfiguration::new()`
pub new_configuration : SendChannelsConfiguration
new_configuration = record { channels = [] }

pub from_configs : List ChannelConfig → Result SendChannelsConfiguration ChannelConfigError
from_configs channel_types =
    if ltb max_channel_count (length channel_types)
    then err ChannelConfigError.max_channels_count_reached
    else ok (record { channels = channel_types })

-- The id is the index of the new element, cast to a `u8`.
pub add : SendChannelsConfiguration → ChannelConfig → Option ℕ × SendChannelsConfiguration
add c channel_type =
    let pushed : List ChannelConfig = c.channels ++ channel_type ∷ [] in
    if ltb (length c.channels) max_channel_count
    then (some ((length pushed - 1) % 256), record c { channels = pushed })
    else (none, c)
