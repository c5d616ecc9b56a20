-- ===== src/Peer/Opening.antt =====
-- Opening a channel on a connection: which ids are open after it.
use bevy_quinnet.Base.{
  ℕ, ◌≡◌, refl, ap, Option, none, some, Result, ok, err, Bool, true, false, ◌==◌, if◌then◌else◌,
  arith,
}
use bevy_quinnet.Error.{AsyncChannelError}
use bevy_quinnet.Config.{ChannelConfig}
use bevy_quinnet.Net.{Net}
use bevy_quinnet.Peer.{
  PeerConnection, Channel, create_unregistered_connection_channel, register_connection_channel,
  create_connection_channel, register_created, close_taken, internal_close_channel, close_taken,
}
use bevy_quinnet.Peer.Slots.{slot, slot-register_connection_channel, slot-internal_close_channel}

abbrev pub is_some {ℓ} : {A : Type ℓ} → Option A → Bool
is_some none = false
is_some (some a) = true

-- A channel is open under the id.
abbrev pub is_open : (N : Net) {S : Type 0} → PeerConnection N S → ℕ → Bool
is_open N c id = is_some (slot N c id)

pub err-ne-ok {ℓ κ} :
    {A : Type ℓ} {E : Type κ} {a : A} {e : E} → ◌≡◌ {A = Result A E} (err e) (ok a) → ⊥
err-ne-ok h = cc

module _ (N : Net) {S : Type 0} where
  pub created_id :
      (c : PeerConnection N S) (id : ℕ) (config : ChannelConfig) (w : N.World) (ch : Channel N)
      → (create_unregistered_connection_channel N c id config w).0 ≡ ok ch
      → ch.id ≡ id
  unfolding create_unregistered_connection_channel
  created_id c id config w ch e = ground arith

  pub is_open-register_connection_channel :
      (c : PeerConnection N S) (ch : Channel N) (j : ℕ)
      → is_open N (register_connection_channel N c ch) j
        ≡ (if ch.id == j then true else is_open N c j)
  is_open-register_connection_channel c ch j =
      rw (slot-register_connection_channel N c ch j) (ground arith)

  pub is_open-create_connection_channel :
      (c : PeerConnection N S) (id j : ℕ) (config : ChannelConfig) (w : N.World)
      → (create_connection_channel N c id config w).0 ≡ ok tt
      → is_open N (create_connection_channel N c id config w).1 j
        ≡ (if id == j then true else is_open N c j)
  unfolding create_connection_channel register_created
  is_open-create_connection_channel c id j config w =
      go (create_unregistered_connection_channel N c id config w) refl
    where
      go :
          (r : Result (Channel N) AsyncChannelError × N.World)
          → (create_unregistered_connection_channel N c id config w) ≡ r
          → (register_created N c r).0 ≡ ok tt
          → is_open N (register_created N c r).1 j ≡ (if id == j then true else is_open N c j)
      go (ok ch, w') e h = rw (
        is_open-register_connection_channel c ch j,
        created_id c id config w ch
            (ap (λ (r : Result (Channel N) AsyncChannelError × N.World). r.0) e),
      )
      go (err x, w') e h = cc

  -- A failed creation leaves the connection as it was.
  pub create_connection_channel_err :
      (c : PeerConnection N S) (id : ℕ) (config : ChannelConfig) (w : N.World)
      (x : AsyncChannelError)
      → (create_connection_channel N c id config w).0 ≡ err x
      → (create_connection_channel N c id config w).1 ≡ c
  unfolding create_connection_channel register_created
  create_connection_channel_err c id config w x =
      go (create_unregistered_connection_channel N c id config w)
    where
      go :
          (r : Result (Channel N) AsyncChannelError × N.World)
          → (register_created N c r).0 ≡ err x
          → (register_created N c r).1 ≡ c
      go (ok ch, w') h = cc
      go (err y, w') h = refl

  pub is_open-internal_close_channel :
      (c : PeerConnection N S) (id j : ℕ) (w : N.World)
      → is_open N (internal_close_channel N c id w).1 j ≡ (if id == j then false else is_open N c j)
  is_open-internal_close_channel c id j w =
      rw (slot-internal_close_channel N c id j w) (ground arith)

  pub create_connection_channel-specific :
      (c : PeerConnection N S) (id : ℕ) (config : ChannelConfig) (w : N.World)
      → (create_connection_channel N c id config w).1.specific ≡ c.specific
  unfolding create_connection_channel register_created register_connection_channel
  create_connection_channel-specific c id config w =
      go (create_unregistered_connection_channel N c id config w)
    where
      go :
          (r : Result (Channel N) AsyncChannelError × N.World)
          → (register_created N c r).1.specific ≡ c.specific
      go (ok ch, w') = refl
      go (err y, w') = refl

  pub internal_close_channel-specific :
      (c : PeerConnection N S) (id : ℕ) (w : N.World)
      → (internal_close_channel N c id w).1.specific ≡ c.specific
  unfolding internal_close_channel close_taken
  internal_close_channel-specific c id w = ground (arith, close_taken-specific)
    where
      close_taken-specific :
          (c' : PeerConnection N S) (o : Option (Option (Channel N)))
          → (close_taken N c' o w).1.specific ≡ c'.specific
      close_taken-specific c' (some (some ch)) = refl
      close_taken-specific c' (some none) = refl
      close_taken-specific c' none = refl
