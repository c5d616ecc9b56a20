-- ===== src/IdPool/Counting.antt =====
-- The first id of a pool, and those of a new one.
use bevy_quinnet.Base.{ℕ, ◌≡◌, refl, List, ◌∷◌, ok, arith}
use bevy_quinnet.Base.BTreeSet
use bevy_quinnet.IdPool.{ChannelsIdsPool, new, take_id, or_id}

pub take_id_first :
    (p : ChannelsIdsPool) (id : ℕ) (rest : List ℕ)
    → p.available_channel_ids ≡ id ∷ rest
    → take_id p ≡ (
      ok id,
      record { available_channel_ids = rest; default_channel = or_id p.default_channel id },
    )
unfolding take_id
take_id_first p id rest e = ground arith

pub new_ids : new.available_channel_ids ≡ BTreeSet.range 0 256
unfolding new
new_ids = refl
