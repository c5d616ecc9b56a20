-- ===== src/Tasks/Kept.antt =====
-- Payloads of which some were lost.
use bevy_quinnet.Base.{List, [], ◌∷◌, ◌++◌}
use bevy_quinnet.Buffer.{Bytes}

-- Some of the payloads, in the same order.
pub data Kept : List Bytes → List Bytes → Type 0 where
  none_left : Kept [] []
  keeps : {ks ms : List Bytes} (m : Bytes) → Kept ks ms → Kept (m ∷ ks) (m ∷ ms)
  drops : {ks ms : List Bytes} (m : Bytes) → Kept ks ms → Kept ks (m ∷ ms)

pub Kept-keep_last :
    {ks ms : List Bytes} (m : Bytes) → Kept ks ms → Kept (ks ++ m ∷ []) (ms ++ m ∷ [])
Kept-keep_last m none_left = keeps m none_left
Kept-keep_last m (keeps x k) = keeps x (Kept-keep_last m k)
Kept-keep_last m (drops x k) = drops x (Kept-keep_last m k)

pub Kept-drop_last : {ks ms : List Bytes} (m : Bytes) → Kept ks ms → Kept ks (ms ++ m ∷ [])
Kept-drop_last m none_left = drops m none_left
Kept-drop_last m (keeps x k) = keeps x (Kept-drop_last m k)
Kept-drop_last m (drops x k) = drops x (Kept-drop_last m k)
