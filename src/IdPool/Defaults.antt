-- ===== src/IdPool/Defaults.antt =====
-- The default channel of ChannelsIdsPool.
use bevy_quinnet.Base.{ℕ, ◌≡◌, refl, none, some, arith, ok, ◌≢◌}
use bevy_quinnet.IdPool.{
  ChannelsIdsPool, take_id, release_id, set_default_channel, default_channel, or_id,
}

-- `take_id` sets the default only if there is none, `release_id` clears it only if it is the
-- released id, and `set_default_channel` replaces it by an id that need not be open.
pub default_channel_lem :
    (p : ChannelsIdsPool) (id d : ℕ)
    → ((q : ChannelsIdsPool)
        → take_id p ≡ (ok id, q)
        → default_channel q ≡ or_id (default_channel p) id)
      × (default_channel p ≡ some id → default_channel (release_id p id) ≡ none)
      × (default_channel p ≡ some d → d ≢ id → default_channel (release_id p id) ≡ some d)
      × (default_channel p ≡ none → default_channel (release_id p id) ≡ none)
      × (default_channel (set_default_channel p id) ≡ some id)
unfolding take_id release_id set_default_channel default_channel
default_channel_lem p id d =
    (λ q e. ground arith, λ e. ground arith, λ e n. ground arith, λ e. ground arith, refl)
