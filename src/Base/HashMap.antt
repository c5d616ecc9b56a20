-- ===== src/Base/HashMap.antt =====
-- `HashMap` with integer keys, as its entries in the order in which an iteration meets them.
-- Every statement is about all such orders. An insertion of a new key puts it last.
use bevy_quinnet.Base.Tests.{◌==◌, if◌then◌else◌}
use bevy_quinnet.Base.Lists.{All}
use Prim.Native.Nat.{ℕ}
use mathlib.Core.Path.{◌≡◌, refl}
use mathlib.Core.Bool.{Bool, true, false}
use mathlib.Core.Option.{Option, none, some, none-ne-some}
use mathlib.Core.List.{List, [], ◌∷◌}
use native.Mathlib.Omega.{arith}

abbrev pub HashMap {ℓ} : Type ℓ → Type ℓ
HashMap V = List (ℕ × V)

module _ {ℓ} {V : Type ℓ} where
  unfoldable pub get : ℕ → HashMap V → Option V
  get k [] = none
  get k ((j, v) ∷ m) = if j == k then some v else get k m

  unfoldable pub insert : ℕ → V → HashMap V → HashMap V
  insert k v [] = (k, v) ∷ []
  insert k v ((j, w) ∷ m) = if j == k then (k, v) ∷ m else (j, w) ∷ insert k v m

  unfoldable pub remove : ℕ → HashMap V → HashMap V
  remove k [] = []
  remove k ((j, v) ∷ m) = let rest = remove k m in if j == k then rest else (j, v) ∷ rest

  unfoldable pub contains_key : ℕ → HashMap V → Bool
  contains_key k [] = false
  contains_key k ((j, v) ∷ m) = if j == k then true else contains_key k m

  unfoldable pub keys : HashMap V → List ℕ
  keys [] = []
  keys ((j, v) ∷ m) = j ∷ keys m

  pub get-insert :
      (k j : ℕ) (v : V) (m : HashMap V)
      → get j (insert k v m) ≡ (if k == j then some v else get j m)
  unfolding get insert
  get-insert k j v [] = refl
  get-insert k j v ((i, w) ∷ m) = ground (arith, get-insert k j v m)

  pub get-remove :
      (k j : ℕ) (m : HashMap V) → get j (remove k m) ≡ (if k == j then none else get j m)
  unfolding get remove
  get-remove k j [] = ground arith
  get-remove k j ((i, w) ∷ m) = ground (arith, get-remove k j m)

  pub contains_key-insert :
      (k j : ℕ) (v : V) (m : HashMap V)
      → contains_key j (insert k v m) ≡ (if k == j then true else contains_key j m)
  unfolding contains_key insert
  contains_key-insert k j v [] = refl
  contains_key-insert k j v ((i, w) ∷ m) = ground (arith, contains_key-insert k j v m)

  pub contains_key-remove :
      (k j : ℕ) (m : HashMap V)
      → contains_key j (remove k m) ≡ (if k == j then false else contains_key j m)
  unfolding contains_key remove
  contains_key-remove k j [] = ground arith
  contains_key-remove k j ((i, w) ∷ m) = ground (arith, contains_key-remove k j m)

  pub contains_key-get : (k : ℕ) (m : HashMap V) → (contains_key k m ≡ false) → get k m ≡ none
  unfolding contains_key get
  contains_key-get k [] h = refl
  contains_key-get k ((i, w) ∷ m) h = ground (arith, contains_key-get k m)

  pub get-none : (k : ℕ) (m : HashMap V) → get k m ≡ none → contains_key k m ≡ false
  unfolding contains_key get
  get-none k [] h = refl
  get-none k ((i, w) ∷ m) h = ground (arith, get-none k m)

  pub get-contains_key :
      (k : ℕ) (m : HashMap V) (v : V) → get k m ≡ some v → contains_key k m ≡ true
  unfolding contains_key get
  get-contains_key k [] v h = absurd (none-ne-some v h)
  get-contains_key k ((i, w) ∷ m) v h = ground (arith, get-contains_key k m v)

  -- A property of every entry.
  abbrev pub Entries {κ} : (ℕ → V → Type κ) → HashMap V → Type κ
  Entries P = All (λ (e : ℕ × V). P e.0 e.1)

  pub insert-Entries {κ} :
      (P : ℕ → V → Type κ) (k : ℕ) (v : V) (m : HashMap V)
      → P k v
      → Entries P m
      → Entries P (insert k v m)
  unfolding insert
  insert-Entries P k v [] p h = (p, tt)
  insert-Entries P k v ((j, w) ∷ m) p h = choose (j == k) (insert-Entries P k v m p h.1)
    where
      choose :
          (b : Bool)
          → Entries P (insert k v m)
          → Entries P (if b then (k, v) ∷ m else (j, w) ∷ insert k v m)
      choose true r = (p, h.1)
      choose false r = (h.0, r)

  pub remove-Entries {κ} :
      (P : ℕ → V → Type κ) (k : ℕ) (m : HashMap V) → Entries P m → Entries P (remove k m)
  unfolding remove
  remove-Entries P k [] h = tt
  remove-Entries P k ((j, w) ∷ m) h = choose (j == k) (remove-Entries P k m h.1)
    where
      choose :
          (b : Bool)
          → Entries P (remove k m)
          → Entries P (if b then remove k m else (j, w) ∷ remove k m)
      choose true r = r
      choose false r = (h.0, r)
