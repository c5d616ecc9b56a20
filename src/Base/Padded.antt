-- ===== src/Base/Padded.antt =====
-- A vector indexed by ids that grows on demand: ids beyond its end have a default item.
use Prim.Native.Nat.{ℕ, zero, suc, ◌+◌, ◌-◌, ◌≤◌, ◌<◌}
use mathlib.Core.Path.{◌≡◌, refl, ◌∙◌}
use mathlib.Core.List.{List, [], ◌∷◌, ◌++◌}
use mathlib.Core.Option.{Option, none, some}
use native.Mathlib.Omega.{arith}
use bevy_quinnet.Base.Tests.{◌==◌, if◌then◌else◌}
use bevy_quinnet.Base.Lists.{length, get_elem?, set, replicate, length-append, length-replicate}

abbrev pub or_default {ℓ} : {A : Type ℓ} → A → Option A → A
or_default d none = d
or_default d (some a) = a

module _ {ℓ} {A : Type ℓ} (d : A) where
  abbrev pub item : ℕ → List A → A
  item i xs = or_default d (get_elem? xs i)

  item-replicate : (m j : ℕ) → item j (replicate m d) ≡ d
  item-replicate zero j = refl
  item-replicate (suc m) zero = refl
  item-replicate (suc m) (suc j) = item-replicate m j

  item-pad : (xs : List A) (m j : ℕ) → item j (xs ++ replicate m d) ≡ item j xs
  item-pad [] m j = item-replicate m j
  item-pad (x ∷ xs) m zero = refl
  item-pad (x ∷ xs) m (suc j) = item-pad xs m j

  item-push :
      (xs : List A) (j : ℕ) (a : A)
      → item j (xs ++ a ∷ []) ≡ (if length xs == j then a else item j xs)
  item-push [] zero a = refl
  item-push [] (suc j) a = ground arith
  item-push (x ∷ xs) zero a = ground arith
  item-push (x ∷ xs) (suc j) a = ground (arith, item-push xs j a)

  pub item-set :
      (xs : List A) (i j : ℕ) (a : A)
      → i < length xs
      → item j (set xs i a) ≡ (if i == j then a else item j xs)
  item-set [] i j a h = absurd (omega arith)
  item-set (x ∷ xs) zero zero a h = refl
  item-set (x ∷ xs) zero (suc j) a h = ground arith
  item-set (x ∷ xs) (suc i) zero a h = ground arith
  item-set (x ∷ xs) (suc i) (suc j) a h = ground (arith, item-set xs i j a)

  pub length-fill :
      (xs : List A) (n : ℕ) (a : A)
      → length xs ≤ n
      → length ((xs ++ replicate (n - length xs) d) ++ a ∷ []) ≡ n + 1
  length-fill xs n a h = omega (
    arith,
    length-append (xs ++ replicate (n - length xs) d) (a ∷ []),
    length-append xs (replicate (n - length xs) d),
    length-replicate (n - length xs) d,
  )

  pub item-fill :
      (xs : List A) (n j : ℕ) (a : A)
      → length xs ≤ n
      → item j ((xs ++ replicate (n - length xs) d) ++ a ∷ []) ≡ (if n == j then a else item j xs)
  item-fill xs n j a h = item-push padded j a ∙ rw (long, item-pad xs (n - length xs) j) refl
    where
      padded : List A
      padded = xs ++ replicate (n - length xs) d

      long : length padded ≡ n
      long =
          length-append xs (replicate (n - length xs) d)
          ∙ omega (arith, length-replicate (n - length xs) d)
