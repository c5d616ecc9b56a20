-- ===== src/IdPool/Tests.antt =====
-- The theorems of IdPool at concrete pools.
use bevy_quinnet.Base.{
  ℕ, ◌≡◌, ◌≤◌, ◌<◌, ◌↔◌, refl, some, [], ◌∷◌, ok, err, arith, true, false, ◌==◌,
}
use bevy_quinnet.Base.BTreeSet
use bevy_quinnet.Error.{ChannelCreationError}
use bevy_quinnet.IdPool.{ChannelsIdsPool, new, take_id, release_id}
use bevy_quinnet.IdPool.Allocation.{
  IsValid, is_free, Reach, start, next, takes, with, IsPartition, Reach-IsPartition,
  take_id_not_held, take_id_fails_iff, take_id_least, release_id-take_id,
}

abbrev small : ChannelsIdsPool
small = record { available_channel_ids = 3 ∷ 7 ∷ []; default_channel = some 1 }

abbrev smaller : ChannelsIdsPool
smaller = record { available_channel_ids = 7 ∷ []; default_channel = some 1 }

small-IsValid : IsValid small
small-IsValid = (omega arith, omega arith, (omega arith, omega arith, tt))

small_taken : take_id small ≡ (ok 3, smaller)
unfolding take_id
small_taken = refl

-- A new pool, after one id was taken.
abbrev after_one : ChannelsIdsPool
after_one = record { available_channel_ids = BTreeSet.range 1 255; default_channel = some 0 }

abbrev after_two : ChannelsIdsPool
after_two = record { available_channel_ids = BTreeSet.range 2 254; default_channel = some 0 }

first_taken : take_id new ≡ (ok 0, after_one)
unfolding take_id new BTreeSet.range
first_taken = refl

second_taken : take_id after_one ≡ (ok 1, after_two)
unfolding take_id BTreeSet.range
second_taken = refl

one_held : Reach after_one (with (λ j. false) 0)
one_held = next start (takes 0 first_taken refl)

Reach-IsPartition_example : IsPartition after_one (with (λ j. false) 0)
Reach-IsPartition_example = Reach-IsPartition one_held

take_id_not_held_example : with (λ j. false) 0 1 ≡ false
take_id_not_held_example = take_id_not_held one_held second_taken

take_id_fails_iff_example :
    (take_id after_one ≡ (err ChannelCreationError.max_channels_count_reached, after_one))
    ↔ ((j : ℕ) → j < 256 → with (λ j. false) 0 j ≡ true)
take_id_fails_iff_example = take_id_fails_iff one_held

take_id_least_example :
    (is_free 3 small ≡ true)
    × (is_free 3 smaller ≡ false)
    × (3 < 256)
    × ((j : ℕ) → is_free j small ≡ true → 3 ≤ j)
    × ((j : ℕ) → (3 == j) ≡ false → is_free j smaller ≡ is_free j small)
take_id_least_example = take_id_least small smaller 3 small-IsValid small_taken

release_id-take_id_example :
    ((release_id smaller 3).available_channel_ids ≡ 3 ∷ 7 ∷ [])
    × ((take_id (release_id smaller 3)).0 ≡ ok 3)
release_id-take_id_example = release_id-take_id small smaller 3 small-IsValid small_taken
