-- ===== src/Tasks/Spawner/Closing.antt =====
-- When `send_channels_tasks_spawner` closes its connection.
use bevy_quinnet.Base.{
  ℕ, zero, suc, ◌+◌, ◌≡◌, refl, ap, List, [], ◌∷◌, some, get_elem?, length, arith,
}
use mathlib.Core.Option.{none-ne-some}
use bevy_quinnet.Tasks.Spawner.{
  Spawner, SpawnerPhase, listening, waiting, closed, Keeper, new_spawner, spawn_keeper,
  stop_listening, remove_at, end_keeper, close_connection, Step, creates, spawns_message, stops,
  ends, closes, Reach, here, next,
}

-- The spawner's own clone.
abbrev own : SpawnerPhase → ℕ
own listening = 1
own waiting = 0
own closed = 0

-- A closed connection has no task left.
abbrev EndedFor : SpawnerPhase → List Keeper → Type 0
EndedFor closed ks = ks ≡ []
EndedFor _ ks = Unit {0}

record IsCounted (p : Spawner) : Type 0 where
  counted : p.keepalives ≡ length p.tasks + own p.phase
  ended : EndedFor p.phase p.tasks

length-remove_at :
    (i : ℕ) (ks : List Keeper) (k : Keeper)
    → get_elem? ks i ≡ some k
    → length ks ≡ suc (length (remove_at i ks))
length-remove_at i [] k e = cc
length-remove_at zero (x ∷ ks) k e = refl
length-remove_at (suc i) (x ∷ ks) k e = ap suc (length-remove_at i ks k e)

length-nil : (ks : List Keeper) → length ks ≡ 0 → ks ≡ []
length-nil [] e = refl
length-nil (k ∷ ks) e = absurd (omega arith)

still_ended :
    (ph : SpawnerPhase) (ks : List Keeper) → EndedFor ph ks → (i : ℕ) → EndedFor ph (remove_at i ks)
still_ended listening ks h i = tt
still_ended waiting ks h i = tt
still_ended closed ks h i = rw h

-- A task that spawns another is not yet at its end, so the connection is not closed.
not_ended :
    (ph : SpawnerPhase) (ks : List Keeper) (i : ℕ) (k x : Keeper)
    → EndedFor ph ks
    → get_elem? ks i ≡ some k
    → EndedFor ph (x ∷ ks)
not_ended listening ks i k x h e = tt
not_ended waiting ks i k x h e = tt
not_ended closed ks i k x h e = absurd (none-ne-some k (rw h at e))

Step-IsCounted : {p p' : Spawner} → Step p p' → IsCounted p → IsCounted p'
unfolding spawn_keeper stop_listening end_keeper close_connection
Step-IsCounted (creates p id config e) c = record {
  counted = omega (arith, c.counted);
  ended = rw e tt;
}
Step-IsCounted (spawns_message p i id m e) c = record {
  counted = omega (arith, c.counted);
  ended = not_ended p.phase p.tasks i _ _ c.ended e;
}
Step-IsCounted (stops p e) c = record {
  counted = let count = rw e at c.counted in omega arith;
  ended = tt;
}
Step-IsCounted (ends p i k e) c = record {
  counted = omega (arith, c.counted, length-remove_at i p.tasks k e);
  ended = still_ended p.phase p.tasks c.ended i;
}
Step-IsCounted (closes p e z) c =
    let count = rw e at c.counted in
    record { counted = omega arith; ended = length-nil p.tasks (omega arith) }

Reach-IsCounted : {p : Spawner} → Reach new_spawner p → IsCounted p
unfolding new_spawner
Reach-IsCounted here = record { counted = refl; ended = tt }
Reach-IsCounted (next r st) = Step-IsCounted st (Reach-IsCounted r)

-- Whatever happens from a new spawner on, once its connection is closed no channel's task runs, nor
-- any that an unordered channel has spawned, and no clone of the keepalive sender is left.
pub Reach-closed :
    {p : Spawner} → Reach new_spawner p → p.phase ≡ closed → (p.tasks ≡ []) × (p.keepalives ≡ 0)
Reach-closed {p = p} r e = (none_left, omega (arith, ap length none_left, count))
  where
    none_left : p.tasks ≡ []
    none_left = rw e at (Reach-IsCounted r).ended

    count : p.keepalives ≡ length p.tasks + 0
    count = rw e at (Reach-IsCounted r).counted

abbrev pub Closable : Spawner → Type 0
Closable p = (p' : Spawner) × Reach p p' × (p'.phase ≡ closed)

Reach-first : {p q r : Spawner} → Step p q → Reach q r → Reach p r
Reach-first st here = next here st
Reach-first st (next r st') = next (Reach-first st r) st'

first_task :
    (n : ℕ) (ks : List Keeper) → length ks ≡ suc n → (k : Keeper) × (get_elem? ks 0 ≡ some k)
first_task n [] e = absurd (omega arith)
first_task n (k ∷ ks) e = (k, refl)

-- The tasks end one after the other.
end_all : (n : ℕ) (p : Spawner) → length p.tasks ≡ n → p.phase ≡ waiting → IsCounted p → Closable p
unfolding end_keeper close_connection
end_all zero p l e c =
    let count = rw e at c.counted in
    (close_connection p, next here (closes p e (omega arith)), refl)
end_all (suc n) p l e c =
    let (k, g) = first_task n p.tasks l in
    let (p', r, x) =
      end_all n (end_keeper 0 p) (omega (arith, length-remove_at 0 p.tasks k g)) e
        (Step-IsCounted (ends p 0 k g) c) in
    (p', Reach-first (ends p 0 k g) r, x)

closable : (ph : SpawnerPhase) (p : Spawner) → p.phase ≡ ph → IsCounted p → Closable p
unfolding stop_listening
closable closed p e c = (p, here, e)
closable waiting p e c = end_all (length p.tasks) p refl e c
closable listening p e c =
    let (p', r, x) =
      end_all (length p.tasks) (stop_listening p) refl refl (Step-IsCounted (stops p e) c) in
    (p', Reach-first (stops p e) r, x)

-- From everything that can be reached from a new spawner there are steps that lead to a closed
-- connection.
pub Reach-can_close : {p : Spawner} → Reach new_spawner p → Closable p
Reach-can_close {p = p} r = closable p.phase p refl (Reach-IsCounted r)
