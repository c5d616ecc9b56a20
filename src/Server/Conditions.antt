-- ===== src/Server/Conditions.antt =====
-- The run conditions of server.rs. The `Local` of a condition is passed in and returned.
use bevy_quinnet.Base.{
  ℕ, ◌+◌, ◌≡◌, refl, List, [], ◌∷◌, Option, none, some, Bool, true, false, ◌&&◌, not, arith,
}
use bevy_quinnet.Server.{ServerNet}
use bevy_quinnet.Server.Events.{QuinnetServer, is_listening}

module _ (V : ServerNet) where
  unfoldable pub server_listening : Option (QuinnetServer V) → Bool
  server_listening none = false
  server_listening (some server) = is_listening V server

  unfoldable pub server_just_opened : Bool → Option (QuinnetServer V) → Bool × Bool
  server_just_opened was_listening server =
      let listening : Bool = elim server [ none ↦ false | some s ↦ is_listening V s ] in
      (not was_listening && listening, listening)

  unfoldable pub server_just_closed : Bool → Option (QuinnetServer V) → Bool × Bool
  server_just_closed was_listening server =
      let closed : Bool = elim server [ none ↦ true | some s ↦ not (is_listening V s) ] in
      (was_listening && closed, not closed)

  abbrev pub count_true : Bool → ℕ
  count_true true = 1
  count_true false = 0

  -- How often a condition holds over the updates that see these servers.
  abbrev pub opened_count : Bool → List (Option (QuinnetServer V)) → ℕ
  opened_count was [] = 0
  opened_count was (s ∷ rest) =
      let (holds, now) = server_just_opened was s in count_true holds + opened_count now rest

  abbrev pub closed_count : Bool → List (Option (QuinnetServer V)) → ℕ
  closed_count was [] = 0
  closed_count was (s ∷ rest) =
      let (holds, now) = server_just_closed was s in count_true holds + closed_count now rest

  abbrev pub last_listening : Bool → List (Option (QuinnetServer V)) → Bool
  last_listening was [] = was
  last_listening was (s ∷ rest) = last_listening (server_listening s) rest

  not-not : (b : Bool) → not (not b) ≡ b
  not-not true = refl
  not-not false = refl

  edge :
      (was now : Bool) (opened closed last : ℕ)
      → count_true now + opened ≡ closed + last
      → count_true was + (count_true (not was && now) + opened)
        ≡ count_true (was && not now) + closed + last
  edge true true opened closed last e = omega arith
  edge true false opened closed last e = omega arith
  edge false true opened closed last e = omega arith
  edge false false opened closed last e = omega arith

  -- Over any updates, counting the listening before the first as 1 and at the last as 1:
  -- server_just_opened holds as often as server_just_closed, up to that difference.
  pub opened_count-closed_count :
      (was : Bool) (seen : List (Option (QuinnetServer V)))
      → count_true was + opened_count was seen
        ≡ closed_count was seen + count_true (last_listening was seen)
  unfolding server_listening server_just_opened server_just_closed is_listening
  opened_count-closed_count was [] = omega arith
  opened_count-closed_count true (none ∷ rest) = omega (arith, opened_count-closed_count false rest)
  opened_count-closed_count false (none ∷ rest) =
      omega (arith, opened_count-closed_count false rest)
  opened_count-closed_count was (some s ∷ rest) =
      rw (not-not (is_listening V s))
        (edge was (is_listening V s) _ _ _ (opened_count-closed_count (is_listening V s) rest))
