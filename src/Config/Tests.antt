-- ===== src/Config/Tests.antt =====
-- The theorems of Config at concrete inputs.
use bevy_quinnet.Base.{◌≡◌, [], ◌∷◌, ◌++◌, some, arith, get_elem?}
use bevy_quinnet.Config.{SendChannelsConfiguration, unreliable, ordered_reliable, add}
use bevy_quinnet.Config.Bounds.{add_lem, IsBounded}

abbrev two_channels : SendChannelsConfiguration
two_channels = record { channels = unreliable ∷ unreliable ∷ [] }

add_lem_example :
    ((add two_channels (ordered_reliable 64)).0 ≡ some 2)
    × ((add two_channels (ordered_reliable 64)).1.channels
        ≡ (unreliable ∷ unreliable ∷ []) ++ ordered_reliable 64 ∷ [])
    × (get_elem? (add two_channels (ordered_reliable 64)).1.channels 2 ≡ some (ordered_reliable 64))
    × IsBounded (add two_channels (ordered_reliable 64)).1
add_lem_example = add_lem two_channels (ordered_reliable 64) (omega arith)
