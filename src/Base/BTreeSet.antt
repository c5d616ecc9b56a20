-- ===== src/Base/BTreeSet.antt =====
-- `BTreeSet<u8>` as an ascending list, and its operations.
use bevy_quinnet.Base.Tests.{ltb, ◌==◌, if◌then◌else◌}
use bevy_quinnet.Base.Lists.{length}
use Prim.Native.Nat.{ℕ, zero, suc, ◌+◌, ◌≤◌, ◌<◌}
use mathlib.Core.Path.{◌≡◌, refl, ap}
use mathlib.Core.Bool.{Bool, true, false, ◌||◌, false≢true}
use mathlib.Core.List.{List, [], ◌∷◌}
use native.Mathlib.Omega.{arith}

unfoldable pub contains : ℕ → List ℕ → Bool
contains a [] = false
contains a (x ∷ xs) = x == a || contains a xs

-- An element that is there already is kept.
unfoldable pub insert : ℕ → List ℕ → List ℕ
insert a [] = a ∷ []
insert a (x ∷ xs) = if ltb a x then a ∷ x ∷ xs else if x == a then x ∷ xs else x ∷ insert a xs

-- `(start..start + n).collect()`
unfoldable pub range : ℕ → ℕ → List ℕ
range start zero = []
range start (suc n) = start ∷ range (suc start) n

-- Strictly ascending, from `lo` on and below `hi`.
abbrev pub IsAscending : ℕ → ℕ → List ℕ → Type 0
IsAscending lo hi [] = Unit {0}
IsAscending lo hi (x ∷ xs) = (lo ≤ x) × (x < hi) × IsAscending (suc x) hi xs

pub IsAscending-weaken :
    (lo lo' hi : ℕ) (xs : List ℕ) → lo' ≤ lo → IsAscending lo hi xs → IsAscending lo' hi xs
IsAscending-weaken lo lo' hi [] h s = tt
IsAscending-weaken lo lo' hi (x ∷ xs) h s = (omega arith, s.1, s.2)

pub insert-IsAscending :
    (lo hi a : ℕ) (xs : List ℕ)
    → lo ≤ a
    → a < hi
    → IsAscending lo hi xs
    → IsAscending lo hi (insert a xs)
unfolding insert
insert-IsAscending lo hi a [] p q s = (p, q, tt)
insert-IsAscending lo hi a (x ∷ xs) p q s = ground (arith, insert-IsAscending (suc x) hi a xs)

pub range-IsAscending : (lo n hi : ℕ) → lo + n ≤ hi → IsAscending lo hi (range lo n)
unfolding range
range-IsAscending lo zero hi h = tt
range-IsAscending lo (suc n) hi h =
    (omega arith, omega arith, range-IsAscending (suc lo) n hi (omega arith))

pub contains-insert : (a b : ℕ) (xs : List ℕ) → contains b (insert a xs) ≡ (a == b || contains b xs)
unfolding contains insert
contains-insert a b [] = refl
contains-insert a b (x ∷ xs) = ground (arith, contains-insert a b xs)

pub contains_below :
    (a lo hi : ℕ) (xs : List ℕ) → a < lo → IsAscending lo hi xs → contains a xs ≡ false
unfolding contains
contains_below a lo hi [] h s = refl
contains_below a lo hi (x ∷ xs) h s = ground (arith, contains_below a (suc x) hi xs)

pub contains_bounds :
    (a lo hi : ℕ) (xs : List ℕ) → IsAscending lo hi xs → contains a xs ≡ true → (lo ≤ a) × (a < hi)
unfolding contains
contains_bounds a lo hi [] s c = absurd (false≢true c)
contains_bounds a lo hi (x ∷ xs) s c = ground (arith, contains_bounds a (suc x) hi xs s.2)

pub contains-range : (a lo n : ℕ) → lo ≤ a → a < lo + n → contains a (range lo n) ≡ true
unfolding contains range
contains-range a lo zero p q = absurd (omega arith)
contains-range a lo (suc n) p q = ground (arith, contains-range a (suc lo) n)

pub length-insert_fresh :
    (a : ℕ) (xs : List ℕ) → contains a xs ≡ false → length (insert a xs) ≡ length xs + 1
unfolding contains insert
length-insert_fresh a [] h = omega arith
length-insert_fresh a (x ∷ xs) h = ground (arith, length-insert_fresh a xs)

pub length-range : (lo n : ℕ) → length (range lo n) ≡ n
unfolding range
length-range lo zero = refl
length-range lo (suc n) = ap suc (length-range (suc lo) n)
