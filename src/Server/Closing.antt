-- ===== src/Server/Closing.antt =====
-- Closing a channel of an endpoint on all its clients.
use bevy_quinnet.Base.{
  ℕ, ◌≡◌, refl, ap, sym, ◌∙◌, [], ◌∷◌, some, Result, ok, err, true, false, ◌==◌, ==_refl,
  if◌then◌else◌, arith, Option-cases, Bool-cases, inl, inr,
}
use mathlib.Core.Bool.{false≢true}
use mathlib.Core.Option.{none-ne-some, some-injective}
use bevy_quinnet.Base.HashMap
use bevy_quinnet.Base.HashMap.{HashMap, contains_key-remove, get-contains_key, get-none}
use bevy_quinnet.Error.{ChannelCloseError}
use bevy_quinnet.IdPool.{release_id}
use bevy_quinnet.IdPool.Allocation.{is_free, is_free-release_id, release_id-IsValid}
use bevy_quinnet.Peer.{internal_close_channel}
use bevy_quinnet.Peer.Opening.{is_open, is_open-internal_close_channel, err-ne-ok}
use bevy_quinnet.Server.{ServerNet, ServerSideConnection, Endpoint}
use bevy_quinnet.Server.Channels.{close_on_all, close_opened, close_channel, Closing, keep_first}
use bevy_quinnet.Server.Consistency.{IsConsistent}

module _ (V : ServerNet) where
  abbrev Closed : Type 0
  Closed = Result (Unit {0}) ChannelCloseError × ServerSideConnection V × V.net.World

  -- What the loop makes of the first client's result.
  abbrev closing_with : HashMap (ServerSideConnection V) → ℕ → ℕ → Closed → Closing V
  closing_with rest id k (ok _, c, w) = keep_first V k c (close_on_all V rest id w)
  closing_with rest id k (err x, c, w) = (err x, (k, c) ∷ rest, w)

  close_on_all-cons :
      (k : ℕ) (c : ServerSideConnection V) (rest : HashMap (ServerSideConnection V)) (id : ℕ)
      (w : V.net.World)
      → close_on_all V ((k, c) ∷ rest) id w
        ≡ closing_with rest id k (internal_close_channel V.net c id w)
  unfolding close_on_all
  close_on_all-cons k c rest id w = go (internal_close_channel V.net c id w)
    where
      go :
          (r : Closed)
          → ◌≡◌ {A = Closing V}
              (elim r.0 [
                | ok _ ↦ keep_first V k r.1 (close_on_all V rest id r.2)
                | err x ↦ (err x, (k, r.1) ∷ rest, r.2)
              ])
              (closing_with rest id k r)
      go (ok _, c', w') = refl
      go (err x, c', w') = refl

  -- The client `cid` after the loop is that before it, with the id closed.
  abbrev ClosedOn : HashMap (ServerSideConnection V) → ℕ → HashMap (ServerSideConnection V) → Type 0
  ClosedOn clients id clients' =
      (cid : ℕ) (c' : ServerSideConnection V)
      → HashMap.get cid clients' ≡ some c'
      → (c : ServerSideConnection V) × (HashMap.get cid clients ≡ some c)
        × ((j : ℕ) → is_open V.net c' j ≡ (if id == j then false else is_open V.net c j))

  closing_with_ok :
      (rest : HashMap (ServerSideConnection V)) (id k : ℕ) (c : ServerSideConnection V)
      (w : V.net.World) (r : Closed)
      → internal_close_channel V.net c id w ≡ r
      → ((w' : V.net.World)
          → (close_on_all V rest id w').0 ≡ ok tt
          → ClosedOn rest id (close_on_all V rest id w').1)
      → (closing_with rest id k r).0 ≡ ok tt
      → ClosedOn ((k, c) ∷ rest) id (closing_with rest id k r).1
  unfolding HashMap.get
  closing_with_ok rest id k c w (err x, c1, w1) e later f cid c' g = absurd (err-ne-ok f)
  closing_with_ok rest id k c w (ok _, c1, w1) e later f cid c' g = elim (Bool-cases (k == cid)) [
    | inl y ↦ (
      c,
      rw y refl,
      λ j. rw (sym (some-injective c1 c' (sym (at_first y) ∙ g))) (
          ap (λ (r : Closed). is_open V.net r.1 j) (sym e)
          ∙ is_open-internal_close_channel V.net c id j w),
    )
    | inr n ↦ (let (d, p, o) = later w1 f cid c' (sym (at_later n) ∙ g) in (d, rw n p, o))
  ]
    where
      at_first :
          (k == cid) ≡ true → HashMap.get cid (closing_with rest id k (ok tt, c1, w1)).1 ≡ some c1
      at_first y = rw y refl

      at_later :
          (k == cid) ≡ false
          → HashMap.get cid (closing_with rest id k (ok tt, c1, w1)).1
            ≡ HashMap.get cid (close_on_all V rest id w1).1
      at_later n = rw n refl

  close_on_all_ok :
      (clients : HashMap (ServerSideConnection V)) (id : ℕ) (w : V.net.World)
      → (close_on_all V clients id w).0 ≡ ok tt
      → ClosedOn clients id (close_on_all V clients id w).1
  unfolding close_on_all HashMap.get
  close_on_all_ok [] id w = λ f cid c' g. absurd (none-ne-some c' g)
  close_on_all_ok ((k, c) ∷ rest) id w = rw (close_on_all-cons k c rest id w) (
      closing_with_ok rest id k c w (internal_close_channel V.net c id w) refl
        (λ w'. close_on_all_ok rest id w'))

  -- What `close_opened` makes of the loop's result.
  abbrev closed_with :
      Endpoint V → ℕ → Closing V → Result (Unit {0}) ChannelCloseError × Endpoint V × V.net.World
  closed_with e id (ok _, clients, w) = (
    ok tt,
    record e {
      clients = clients;
      opened_channels = HashMap.remove id e.opened_channels;
      send_channel_ids = release_id e.send_channel_ids id;
    },
    w,
  )
  closed_with e id (err x, clients, w) = (
    err x,
    record e { clients = clients; opened_channels = HashMap.remove id e.opened_channels },
    w,
  )

  close_channel-eq :
      (e : Endpoint V) (id : ℕ) (w : V.net.World)
      → HashMap.contains_key id e.opened_channels ≡ true
      → close_channel V e id w ≡ closed_with e id (close_on_all V e.clients id w)
  unfolding close_channel close_opened
  close_channel-eq e id w h = elim (Option-cases (HashMap.get id e.opened_channels)) [
    | inl n ↦ absurd (false≢true (sym (get-none id e.opened_channels n) ∙ h))
    | inr (config, p) ↦ rw (p, close_channel) (go (close_on_all V e.clients id w))
  ]
    where
      go :
          (r : Closing V)
          → ◌≡◌ {A = Result (Unit {0}) ChannelCloseError × Endpoint V × V.net.World}
              (elim r.0 [
                | ok _ ↦ closed_with e id (ok tt, r.1, r.2)
                | err x ↦ closed_with e id (err x, r.1, r.2)
              ])
              (closed_with e id r)
      go (ok _, clients, w') = refl
      go (err x, clients, w') = refl

  closed_with_ok :
      (e : Endpoint V) (id : ℕ) (r : Closing V)
      → IsConsistent V e
      → HashMap.contains_key id e.opened_channels ≡ true
      → (r.0 ≡ ok tt → ClosedOn e.clients id r.1)
      → (closed_with e id r).0 ≡ ok tt
      → IsConsistent V (closed_with e id r).1
        × (is_free id (closed_with e id r).1.send_channel_ids ≡ true)
        × (HashMap.contains_key id (closed_with e id r).1.opened_channels ≡ false)
  closed_with_ok e id (err x, clients, w) v h on f = absurd (err-ne-ok f)
  closed_with_ok e id (ok _, clients, w) v h on f = (
    record {
      ids = release_id-IsValid e.send_channel_ids id (v.in_range id h) v.ids;
      in_range = λ j g. v.in_range j (ground (arith, contains_key-remove id j e.opened_channels));
      split = λ j lt.
          rw
            (is_free-release_id e.send_channel_ids id j, contains_key-remove id j e.opened_channels)
            (ground (arith, v.split j lt));
      clients_open = λ cid c' g j.
          let (c, p, o) = on refl cid c' g in
          rw (o j, contains_key-remove id j e.opened_channels)
            (ground (arith, v.clients_open cid c p j));
    },
    rw (is_free-release_id e.send_channel_ids id id) (ground (arith, ==_refl id)),
    rw (contains_key-remove id id e.opened_channels) (ground (arith, ==_refl id)),
  )

  -- If close_channel succeeds on a channel that a consistent endpoint lists, the endpoint stays
  -- consistent, so the channel is closed on every client, and its id is no longer listed and is
  -- free.
  pub close_channel_ok :
      (e : Endpoint V) (id : ℕ) (w : V.net.World)
      → IsConsistent V e
      → HashMap.contains_key id e.opened_channels ≡ true
      → (close_channel V e id w).0 ≡ ok tt
      → IsConsistent V (close_channel V e id w).1
        × (is_free id (close_channel V e id w).1.send_channel_ids ≡ true)
        × (HashMap.contains_key id (close_channel V e id w).1.opened_channels ≡ false)
  close_channel_ok e id w v h =
      rw (close_channel-eq e id w h)
        (closed_with_ok e id (close_on_all V e.clients id w) v h (close_on_all_ok e.clients id w))

  closed_with_err :
      (e : Endpoint V) (id : ℕ) (r : Closing V) (x : ChannelCloseError)
      → IsConsistent V e
      → HashMap.contains_key id e.opened_channels ≡ true
      → (closed_with e id r).0 ≡ err x
      → (is_free id (closed_with e id r).1.send_channel_ids ≡ false)
        × (HashMap.contains_key id (closed_with e id r).1.opened_channels ≡ false)
  closed_with_err e id (ok _, clients, w) x v h f = absurd (err-ne-ok (sym f))
  closed_with_err e id (err y, clients, w) x v h f = (
    ground (arith, v.split id (v.in_range id h)),
    rw (contains_key-remove id id e.opened_channels) (ground (arith, ==_refl id)),
  )

  -- If close_channel fails on a channel that a consistent endpoint lists, its id is afterwards
  -- neither listed nor free.
  pub close_channel_err :
      (e : Endpoint V) (id : ℕ) (w : V.net.World) (x : ChannelCloseError)
      → IsConsistent V e
      → HashMap.contains_key id e.opened_channels ≡ true
      → (close_channel V e id w).0 ≡ err x
      → (is_free id (close_channel V e id w).1.send_channel_ids ≡ false)
        × (HashMap.contains_key id (close_channel V e id w).1.opened_channels ≡ false)
  close_channel_err e id w x v h =
      rw (close_channel-eq e id w h) (closed_with_err e id (close_on_all V e.clients id w) x v h)
