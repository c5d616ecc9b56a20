-- ===== src/Config/Bounds.antt =====
-- The number of channels in a SendChannelsConfiguration, and the positions of the channels in it.
use bevy_quinnet.Base.{
  ◌≤◌, ◌<◌, ◌≡◌, refl, List, [], ◌∷◌, ◌++◌, some, ok, err, length, length-append, get_elem?, arith,
}
use bevy_quinnet.Error.{ChannelConfigError}
use bevy_quinnet.Config.{
  ChannelConfig, SendChannelsConfiguration, max_channel_count, from_configs, add,
}

abbrev pub IsBounded : SendChannelsConfiguration → Type 0
IsBounded c = length c.channels ≤ max_channel_count

-- What `from_configs` answers, on both branches: the list itself when it fits, an error otherwise.
pub from_configs_lem :
    (ts : List ChannelConfig)
    → (length ts ≤ 256 → from_configs ts ≡ ok (record { channels = ts }))
      × (256 < length ts → from_configs ts ≡ err ChannelConfigError.max_channels_count_reached)
unfolding from_configs
from_configs_lem ts = (λ h. ground arith, λ h. ground arith)

last_elem :
    (ts : List ChannelConfig) (t : ChannelConfig) → get_elem? (ts ++ t ∷ []) (length ts) ≡ some t
last_elem [] t = refl
last_elem (x ∷ ts) t = last_elem ts t

-- An addition to a configuration of fewer than 256 channels answers the position at which the new
-- channel stands, behind all earlier ones, and the configuration then has at most 256 channels.
pub add_lem :
    (c : SendChannelsConfiguration) (t : ChannelConfig)
    → length c.channels < 256
    → ((add c t).0 ≡ some (length c.channels))
      × ((add c t).1.channels ≡ c.channels ++ t ∷ [])
      × (get_elem? (add c t).1.channels (length c.channels) ≡ some t)
      × IsBounded (add c t).1
unfolding add
add_lem c t p = (
  ground (arith, length-append c.channels (t ∷ [])),
  ground arith,
  ground (arith, last_elem c.channels t),
  ground (arith, length-append c.channels (t ∷ [])),
)
