-- ===== src/IdPool/Allocation.antt =====
-- Which channel ids are free and which are held, in ChannelsIdsPool of shared/peer_connection.rs.
use bevy_quinnet.Base.{
  ℕ, suc, ◌≤◌, ◌<◌, ◌≡◌, refl, List, [], ◌∷◌, Result, ok, err, ◌==◌, if◌then◌else◌, Bool, true,
  false, not, ◌||◌, arith, ==_refl, ==_iff, ap, ◌↔◌, sym, ◌∙◌,
}
use mathlib.Core.Bool.{false≢true}
use bevy_quinnet.Base.BTreeSet
use bevy_quinnet.Base.BTreeSet.{
  IsAscending, insert-IsAscending, IsAscending-weaken, range-IsAscending, contains-insert,
  contains_below, contains_bounds, contains-range,
}
use bevy_quinnet.Error.{ChannelCreationError}
use bevy_quinnet.IdPool.{ChannelsIdsPool, new, take_id, release_id, set_default_channel}

-- The pool is an ordered set of `u8`s.
abbrev pub IsValid : ChannelsIdsPool → Type 0
IsValid p = IsAscending 0 256 p.available_channel_ids

abbrev pub is_free : ℕ → ChannelsIdsPool → Bool
is_free id p = BTreeSet.contains id p.available_channel_ids

pub new-IsValid : IsValid new
unfolding new
new-IsValid = range-IsAscending 0 256 256 (omega arith)

pub release_id-IsValid :
    (p : ChannelsIdsPool) (id : ℕ) → id < 256 → IsValid p → IsValid (release_id p id)
unfolding release_id
release_id-IsValid p id h v = insert-IsAscending 0 256 id p.available_channel_ids (omega arith) h v

pub take_id-IsValid : (p : ChannelsIdsPool) → IsValid p → IsValid (take_id p).1
unfolding take_id
take_id-IsValid p = go p.available_channel_ids refl
  where
    go : (ids : List ℕ) → p.available_channel_ids ≡ ids → IsValid p → IsValid (take_id p).1
    go [] e v = ground arith
    go (x ∷ rest) e v = ground (arith, IsAscending-weaken (suc x) 0 256 rest)

-- A successful `take_id` splits off the least free id.
pub take_id_ok :
    (p q : ChannelsIdsPool) (id : ℕ)
    → take_id p ≡ (ok id, q)
    → p.available_channel_ids ≡ id ∷ q.available_channel_ids
unfolding take_id
take_id_ok p q id e = ground arith

pub take_id_err :
    (p : ChannelsIdsPool) (x : ChannelCreationError) → (take_id p).0 ≡ err x → (take_id p).1 ≡ p
unfolding take_id
take_id_err p x e = ground arith

-- In a valid pool, a take_id that succeeds hands out the least free id, which is below 256 and not
-- free afterwards; all other ids are as free as before.
pub take_id_least :
    (p q : ChannelsIdsPool) (id : ℕ)
    → IsValid p
    → take_id p ≡ (ok id, q)
    → (is_free id p ≡ true)
      × (is_free id q ≡ false)
      × (id < 256)
      × ((j : ℕ) → is_free j p ≡ true → id ≤ j)
      × ((j : ℕ) → (id == j) ≡ false → is_free j q ≡ is_free j p)
unfolding BTreeSet.contains
take_id_least p q id v e = (
  ground (arith, split, ==_refl id),
  ground (arith, split, contains_below id (suc id) 256 q.available_channel_ids),
  ground (arith, split),
  λ j f. ground (
    arith,
    split,
    contains_bounds j 0 256 p.available_channel_ids,
    contains_bounds j (suc id) 256 q.available_channel_ids,
  ),
  λ j n. ground (arith, split),
)
  where
    split : p.available_channel_ids ≡ id ∷ q.available_channel_ids
    split = take_id_ok p q id e

-- Giving an id back makes that one free, and no other.
pub is_free-release_id :
    (p : ChannelsIdsPool) (id j : ℕ) → is_free j (release_id p id) ≡ (id == j || is_free j p)
unfolding release_id
is_free-release_id p id j = contains-insert id j p.available_channel_ids

insert_front :
    (id : ℕ) (rest : List ℕ) → IsAscending (suc id) 256 rest → BTreeSet.insert id rest ≡ id ∷ rest
unfolding BTreeSet.insert
insert_front id [] s = refl
insert_front id (x ∷ rest) s = ground arith

-- In a valid pool, releasing the id that was just taken restores the free ids, and the next take_id
-- hands out that id again.
pub release_id-take_id :
    (p q : ChannelsIdsPool) (id : ℕ)
    → IsValid p
    → take_id p ≡ (ok id, q)
    → ((release_id q id).available_channel_ids ≡ p.available_channel_ids)
      × ((take_id (release_id q id)).0 ≡ ok id)
unfolding release_id take_id
release_id-take_id p q id v e = (
  ground (arith, split, insert_front id q.available_channel_ids),
  ground (arith, split, insert_front id q.available_channel_ids),
)
  where
    split : p.available_channel_ids ≡ id ∷ q.available_channel_ids
    split = take_id_ok p q id e

-- The ids that callers hold. A caller releases only what it holds.
abbrev pub Holds : Type 0
Holds = ℕ → Bool

abbrev pub with : Holds → ℕ → Holds
with held id = λ j. id == j || held j

abbrev pub without : Holds → ℕ → Holds
without held id = λ j. if id == j then false else held j

pub data Step (p : ChannelsIdsPool) (held : Holds) (q : ChannelsIdsPool) (held' : Holds)
    : Type 0 where
  takes : (id : ℕ) → take_id p ≡ (ok id, q) → held' ≡ with held id → Step p held q held'
  releases :
      (id : ℕ)
      → held id ≡ true
      → q ≡ release_id p id
      → held' ≡ without held id
      → Step p held q held'
  sets_default : (id : ℕ) → q ≡ set_default_channel p id → held' ≡ held → Step p held q held'

pub data Reach : ChannelsIdsPool → Holds → Type 0 where
  start : Reach new (λ j. false)
  next :
      {p q : ChannelsIdsPool} {held held' : Holds}
      → Reach p held
      → Step p held q held'
      → Reach q held'

pub record IsPartition (p : ChannelsIdsPool) (held : Holds) : Type 0 where
  pub valid : IsValid p
  pub in_range : (j : ℕ) → held j ≡ true → j < 256
  pub split : (j : ℕ) → j < 256 → is_free j p ≡ not (held j)

Step-IsPartition :
    {p q : ChannelsIdsPool} {held held' : Holds}
    → Step p held q held'
    → IsPartition p held
    → IsPartition q held'
unfolding set_default_channel
Step-IsPartition {p} {q} {held} {held'} (takes id e h) i = record {
  valid = rw (← pool) (take_id-IsValid p i.valid);
  in_range = λ j. rw h (λ t. ground (arith, least.2, i.in_range j));
  split = λ j lt. rw h (ground (arith, i.split j lt, least.1, least.4 j, ==_iff id j));
}
  where
    pool : (take_id p).1 ≡ q
    pool = ap (λ (r : Result ℕ ChannelCreationError × ChannelsIdsPool). r.1) e

    least :
        (is_free id p ≡ true)
        × (is_free id q ≡ false)
        × (id < 256)
        × ((j : ℕ) → is_free j p ≡ true → id ≤ j)
        × ((j : ℕ) → (id == j) ≡ false → is_free j q ≡ is_free j p)
    least = take_id_least p q id i.valid e
Step-IsPartition {p} {q} {held} {held'} (releases id had e h) i = record {
  valid = rw e (release_id-IsValid p id (i.in_range id had) i.valid);
  in_range = λ j. rw h (λ t. ground (arith, i.in_range j));
  split = λ j lt. rw (e, h) (rw (is_free-release_id p id j) (ground (arith, i.split j lt)));
}
Step-IsPartition {p} {q} {held} {held'} (sets_default id e h) i = record {
  valid = rw e i.valid;
  in_range = rw h i.in_range;
  split = λ j lt. rw (e, h) (i.split j lt);
}

new-IsPartition : IsPartition new (λ j. false)
unfolding new
new-IsPartition = record {
  valid = new-IsValid;
  in_range = λ j e. absurd (false≢true e);
  split = λ j lt. contains-range j 0 256 (omega arith) (omega arith);
}

-- Whatever ids are taken, given back by those who hold them, or set as default, from a new pool on:
-- each of the 256 ids is either free or held and never both, and only ids below 256 are held.
pub Reach-IsPartition : {p : ChannelsIdsPool} {held : Holds} → Reach p held → IsPartition p held
Reach-IsPartition start = new-IsPartition
Reach-IsPartition (next r s) = Step-IsPartition s (Reach-IsPartition r)

-- In a pool reached from a new one, an id that take_id hands out is held by no caller.
pub take_id_not_held :
    {p q : ChannelsIdsPool} {held : Holds} {id : ℕ}
    → Reach p held
    → take_id p ≡ (ok id, q)
    → held id ≡ false
take_id_not_held {p} {q} {held} {id} r e =
    ground (arith, i.split id, take_id_least p q id i.valid e)
  where
    i : IsPartition p held
    i = Reach-IsPartition r

none_free :
    (p : ChannelsIdsPool)
    → ((j : ℕ) → j < 256 → is_free j p ≡ false)
    → IsValid p
    → p.available_channel_ids ≡ []
unfolding BTreeSet.contains
none_free p h v = go p.available_channel_ids refl
  where
    go : (ids : List ℕ) → p.available_channel_ids ≡ ids → p.available_channel_ids ≡ []
    go [] e = e
    go (x ∷ rest) e = ground (arith, h x, ==_refl x)

-- In a pool reached from a new one, take_id fails and changes nothing exactly when all 256 ids are
-- held.
pub take_id_fails_iff :
    {p : ChannelsIdsPool} {held : Holds}
    → Reach p held
    → (take_id p ≡ (err ChannelCreationError.max_channels_count_reached, p))
      ↔ ((j : ℕ) → j < 256 → held j ≡ true)
unfolding take_id BTreeSet.contains
take_id_fails_iff {p} {held} r = (forward, backward)
  where
    i : IsPartition p held
    i = Reach-IsPartition r

    empty :
        take_id p ≡ (err ChannelCreationError.max_channels_count_reached, p)
        → p.available_channel_ids ≡ []
    empty e = ground arith

    forward :
        take_id p ≡ (err ChannelCreationError.max_channels_count_reached, p)
        → (j : ℕ) → j < 256
        → held j ≡ true
    forward e j lt = not_false (held j) (sym (i.split j lt) ∙ rw (empty e) refl)
      where
        not_false : (b : Bool) → not b ≡ false → b ≡ true
        not_false true h = refl
        not_false false h = sym h

    backward :
        ((j : ℕ) → j < 256 → held j ≡ true)
        → take_id p ≡ (err ChannelCreationError.max_channels_count_reached, p)
    backward h = ground (arith, none_free p (λ j lt. ground (arith, i.split j lt, h j lt)) i.valid)
