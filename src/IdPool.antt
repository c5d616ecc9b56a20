-- ===== src/IdPool.antt =====
-- ChannelsIdsPool of shared/peer_connection.rs: the channel ids that are free, and the default one.
pub mod Allocation
pub mod Defaults
pub mod Counting
mod Tests
use bevy_quinnet.Base.{
  ℕ, ◌≡◌, Option, none, some, List, [], ◌∷◌, Result, ok, err, ◌==◌, if◌then◌else◌, Bool, false,
}
use bevy_quinnet.Base.BTreeSet
use bevy_quinnet.Error.{ChannelCreationError}

pub record ChannelsIdsPool : Type 0 where
  pub available_channel_ids : List ℕ
  pub default_channel : Option ℕ

-- `ChannelsIdsPool::new()`, with `(0..=u8::MAX).collect()`
unfoldable pub new : ChannelsIdsPool
new = record { available_channel_ids = BTreeSet.range 0 256; default_channel = none }

-- `if default_channel.is_none() { default_channel = Some(channel_id) }`
abbrev pub or_id : Option ℕ → ℕ → Option ℕ
or_id none id = some id
or_id (some d) id = some d

-- `pop_first` takes the head of the ascending list.
pub take_id : ChannelsIdsPool → Result ℕ ChannelCreationError × ChannelsIdsPool
take_id p = elim p.available_channel_ids [
  | [] ↦ (err ChannelCreationError.max_channels_count_reached, p)
  | channel_id ∷ rest ↦ (
    ok channel_id,
    record { available_channel_ids = rest; default_channel = or_id p.default_channel channel_id },
  )
]

-- `self.default_channel == Some(channel_id)`
abbrev pub is_some_id : Option ℕ → ℕ → Bool
is_some_id none id = false
is_some_id (some d) id = d == id

pub release_id : ChannelsIdsPool → ℕ → ChannelsIdsPool
release_id p channel_id = record {
  available_channel_ids = BTreeSet.insert channel_id p.available_channel_ids;
  default_channel = if is_some_id p.default_channel channel_id then none else p.default_channel;
}

pub set_default_channel : ChannelsIdsPool → ℕ → ChannelsIdsPool
set_default_channel p channel_id = record p { default_channel = some channel_id }

pub default_channel : ChannelsIdsPool → Option ℕ
default_channel p = p.default_channel
