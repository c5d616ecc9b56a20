-- ===== src/Client/Ids.antt =====
-- The channel ids of a connection of a client: what opening and closing channels do to them.
use bevy_quinnet.Base.{
  ℕ, ◌≡◌, ◌<◌, refl, ap, sym, ◌∙◌, Option, none, List, Result, ok, err, Bool, true, false, ◌==◌,
  ◌||◌, if◌then◌else◌, arith, Bool-cases, inl, inr, ==_iff, ==_refl,
}
use bevy_quinnet.Error.{AsyncChannelError, ChannelCreationError, ChannelCloseError}
use bevy_quinnet.Config.{ChannelConfig}
use bevy_quinnet.IdPool.{ChannelsIdsPool, take_id, release_id}
use bevy_quinnet.IdPool.Allocation.{
  IsValid, is_free, take_id-IsValid, take_id_least, take_id_err, is_free-release_id,
  release_id-IsValid,
}
use bevy_quinnet.Base.Padded.{item}
use bevy_quinnet.Peer.{Channel, create_connection_channel, internal_close_channel}
use bevy_quinnet.Peer.Opening.{
  err-ne-ok, is_some, is_open, is_open-create_connection_channel, create_connection_channel_err,
  is_open-internal_close_channel, create_connection_channel-specific,
  internal_close_channel-specific,
}
use bevy_quinnet.Client.{ClientNet, ClientConnection, ClientSideConnection}
use bevy_quinnet.Client.Connection.{open_channel, close_channel, set_ids}

abbrev pub is_ok {ℓ κ} : {A : Type ℓ} {E : Type κ} → Result A E → Bool
is_ok (ok a) = true
is_ok (err e) = false

-- No open channel has a free id.
pub record IsAgreed (V : ClientNet) (c : ClientSideConnection V) : Type 0 where
  pub ids : IsValid c.specific.send_channel_ids
  pub in_range : (id : ℕ) → is_open V.net c id ≡ true → id < 256
  pub taken : (id : ℕ) → is_open V.net c id ≡ true → is_free id c.specific.send_channel_ids ≡ false

module _ (V : ClientNet) where
  -- The result of a call of `open_channel`: a new id is opened, or no channel is.
  pub data Opened (c : ClientSideConnection V)
      (r : Result ℕ ChannelCreationError × ClientSideConnection V × V.net.World) : Type 0 where
    opens :
        (id : ℕ)
        → r.0 ≡ ok id
        → is_open V.net c id ≡ false
        → ((j : ℕ) → is_open V.net r.1 j ≡ (if id == j then true else is_open V.net c j))
        → Opened c r
    fails :
        (x : ChannelCreationError) → r.0 ≡ err x → r.1.send_channels ≡ c.send_channels → Opened c r

  -- The connection with its id taken and the channel open, or with its id taken and nothing open.
  agreed :
      (c c' : ClientSideConnection V) (ids : ChannelsIdsPool) (id : ℕ)
      → IsAgreed V c
      → take_id c.specific.send_channel_ids ≡ (ok id, ids)
      → c'.specific.send_channel_ids ≡ ids
      → ((j : ℕ) → is_open V.net c' j ≡ true → (id == j || is_open V.net c j) ≡ true)
      → IsAgreed V c'
  agreed c c' ids id v e s o =
      let (_, f, lt, _, keep) = take_id_least c.specific.send_channel_ids ids id v.ids e in
      record {
        ids = rw s (
            rw (sym (ap (λ (t : Result ℕ ChannelCreationError × ChannelsIdsPool). t.1) e))
              (take_id-IsValid c.specific.send_channel_ids v.ids));
        in_range = λ j h. elim (Bool-cases (id == j)) [
          | inl y ↦ rw (sym ((==_iff id j).0 y)) lt
          | inr n ↦ v.in_range j (ground (arith, o j h))
        ];
        taken = λ j h. elim (Bool-cases (id == j)) [
          | inl y ↦ rw (s, sym ((==_iff id j).0 y)) f
          | inr n ↦ rw s (keep j n ∙ v.taken j (ground (arith, o j h)))
        ];
      }

  abbrev Created : Type 0
  Created = Result (Unit {0}) AsyncChannelError × ClientSideConnection V × V.net.World

  -- What `open_channel` makes of the creation's result.
  abbrev answer_with :
      ℕ → Created → Result ℕ ChannelCreationError × ClientSideConnection V × V.net.World
  answer_with id (ok _, c, w) = (ok id, c, w)
  answer_with id (err x, c, w) = (err (ChannelCreationError.async_channel_error x), c, w)

  open_channel_taken :
      (c : ClientSideConnection V) (ids : ChannelsIdsPool) (id : ℕ) (config : ChannelConfig)
      (w : V.net.World)
      → take_id c.specific.send_channel_ids ≡ (ok id, ids)
      → open_channel V c config w
        ≡ answer_with id (create_connection_channel V.net (set_ids V c ids) id config w)
  unfolding open_channel
  open_channel_taken c ids id config w e =
      rw (e, open_channel)
        (rw e (go (create_connection_channel V.net (set_ids V c ids) id config w)))
    where
      go :
          (k : Created)
          → ◌≡◌ {A = Result ℕ ChannelCreationError × ClientSideConnection V × V.net.World}
              (
                elim k.0 [
                  | ok _ ↦ ok id
                  | err x ↦ err (ChannelCreationError.async_channel_error x)
                ],
                k.1,
                k.2,
              )
              (answer_with id k)
      go (ok _, c', w') = refl
      go (err x, c', w') = refl

  open_channel_full :
      (c : ClientSideConnection V) (ids : ChannelsIdsPool) (x : ChannelCreationError)
      (config : ChannelConfig) (w : V.net.World)
      → take_id c.specific.send_channel_ids ≡ (err x, ids)
      → open_channel V c config w ≡ (err x, c, w)
  unfolding open_channel
  open_channel_full c ids x config w e =
      let same : ids ≡ c.specific.send_channel_ids =
        sym (ap (λ (t : Result ℕ ChannelCreationError × ChannelsIdsPool). t.1) e)
        ∙ take_id_err _ x (ap (λ (t : Result ℕ ChannelCreationError × ChannelsIdsPool). t.0) e) in
      rw (e, open_channel) (rw e (rw same refl))

  created-IsAgreed :
      (c : ClientSideConnection V) (ids : ChannelsIdsPool) (id : ℕ) (k : Created)
      → IsAgreed V c
      → take_id c.specific.send_channel_ids ≡ (ok id, ids)
      → k.1.specific.send_channel_ids ≡ ids
      → (k.0 ≡ ok tt
          → (j : ℕ) → is_open V.net k.1 j ≡ (if id == j then true else is_open V.net c j))
      → ((x : AsyncChannelError) → k.0 ≡ err x → k.1.send_channels ≡ c.send_channels)
      → Opened c (answer_with id k) × IsAgreed V (answer_with id k).1
  created-IsAgreed c ids id (ok _, c', w') v e s o n =
      let (free, _, _, _, _) = take_id_least c.specific.send_channel_ids ids id v.ids e in
      (
        opens id refl (ground (arith, v.taken id)) (o refl),
        agreed c c' ids id v e s (λ j h. ground (arith, o refl j)),
      )
  created-IsAgreed c ids id (err x, c', w') v e s o n = (
    fails (ChannelCreationError.async_channel_error x) refl (n x refl),
    agreed c c' ids id v e s (λ j h.
        ground
          (arith, ap (λ (l : List (Option (Channel V.net))). is_some (item none j l)) (n x refl))),
  )

  -- On a client's connection with no free id open, open_channel keeps it so on every branch. Either
  -- it answers an id that was closed, which is then open beside those that were; or it fails, and
  -- the send channels are as before.
  pub open_channel-IsAgreed :
      (c : ClientSideConnection V) (config : ChannelConfig) (w : V.net.World)
      → IsAgreed V c
      → Opened c (open_channel V c config w) × IsAgreed V (open_channel V c config w).1
  open_channel-IsAgreed c config w v = go (take_id c.specific.send_channel_ids) refl
    where
      go :
          (t : Result ℕ ChannelCreationError × ChannelsIdsPool)
          → take_id c.specific.send_channel_ids ≡ t
          → Opened c (open_channel V c config w) × IsAgreed V (open_channel V c config w).1
      go (err x, ids) e = rw (open_channel_full c ids x config w e) (fails x refl refl, v)
      go (ok id, ids) e = rw (open_channel_taken c ids id config w e) (
          created-IsAgreed c ids id (create_connection_channel V.net (set_ids V c ids) id config w)
            v e
            (ap (λ (x : ClientConnection V). x.send_channel_ids)
              (create_connection_channel-specific V.net (set_ids V c ids) id config w))
            (λ f j. is_open-create_connection_channel V.net (set_ids V c ids) id j config w f)
            (λ x f.
              ap (λ (x : ClientSideConnection V). x.send_channels)
                (create_connection_channel_err V.net (set_ids V c ids) id config w x f)))

  -- On a client's connection with no free id open, if take_id succeeds and the creation of the
  -- channel fails, open_channel fails with that error, and the id, which was free, is not free
  -- afterwards although it is not open.
  pub open_channel_leak :
      (c : ClientSideConnection V) (ids : ChannelsIdsPool) (id : ℕ) (x : AsyncChannelError)
      (config : ChannelConfig) (w : V.net.World)
      → IsAgreed V c
      → take_id c.specific.send_channel_ids ≡ (ok id, ids)
      → (create_connection_channel V.net (set_ids V c ids) id config w).0 ≡ err x
      → ((open_channel V c config w).0 ≡ err (ChannelCreationError.async_channel_error x))
        × (is_open V.net (open_channel V c config w).1 id ≡ false)
        × (is_free id (open_channel V c config w).1.specific.send_channel_ids ≡ false)
        × (is_free id c.specific.send_channel_ids ≡ true)
  open_channel_leak c ids id x config w v e f =
      let (free, held, _, _, _) = take_id_least c.specific.send_channel_ids ids id v.ids e in
      rw (open_channel_taken c ids id config w e) (
        go (create_connection_channel V.net (set_ids V c ids) id config w) f
          (create_connection_channel_err V.net (set_ids V c ids) id config w x f) free held)
    where
      go :
          (k : Created)
          → k.0 ≡ err x
          → k.1 ≡ set_ids V c ids
          → is_free id c.specific.send_channel_ids ≡ true
          → is_free id ids ≡ false
          → ((answer_with id k).0 ≡ err (ChannelCreationError.async_channel_error x))
            × (is_open V.net (answer_with id k).1 id ≡ false)
            × (is_free id (answer_with id k).1.specific.send_channel_ids ≡ false)
            × (is_free id c.specific.send_channel_ids ≡ true)
      go (ok _, c', w') f s free held = absurd (err-ne-ok (sym f))
      go (err y, c', w') f s free held = (
        ap (λ (r : Result (Unit {0}) AsyncChannelError). (answer_with id (r, c', w')).0) f,
        rw s (ground (arith, v.taken id)),
        rw s held,
        free,
      )

  abbrev Closed : Type 0
  Closed = Result (Unit {0}) ChannelCloseError × ClientSideConnection V × V.net.World

  -- What `close_channel` makes of the closing's result.
  abbrev release_with : ℕ → Closed → Closed
  release_with id (ok _, c, w) = (ok tt, set_ids V c (release_id c.specific.send_channel_ids id), w)
  release_with id (err x, c, w) = (err x, c, w)

  close_channel-eq :
      (c : ClientSideConnection V) (id : ℕ) (w : V.net.World)
      → close_channel V c id w ≡ release_with id (internal_close_channel V.net c id w)
  unfolding close_channel
  close_channel-eq c id w = go (internal_close_channel V.net c id w)
    where
      go :
          (k : Closed)
          → ◌≡◌ {A = Closed}
              (
                k.0,
                elim k.0 [
                  | ok _ ↦ set_ids V k.1 (release_id k.1.specific.send_channel_ids id)
                  | err _ ↦ k.1
                ],
                k.2,
              )
              (release_with id k)
      go (ok _, c', w') = refl
      go (err x, c', w') = refl

  released-IsAgreed :
      (c : ClientSideConnection V) (id : ℕ) (k : Closed)
      → id < 256
      → IsAgreed V c
      → k.1.specific ≡ c.specific
      → ((j : ℕ) → is_open V.net k.1 j ≡ (if id == j then false else is_open V.net c j))
      → IsAgreed V (release_with id k).1
        × ((j : ℕ)
            → is_open V.net (release_with id k).1 j
              ≡ (if id == j then false else is_open V.net c j))
        × (is_free id (release_with id k).1.specific.send_channel_ids
            ≡ (is_ok k.0 || is_free id c.specific.send_channel_ids))
  released-IsAgreed c id (ok _, c', w') lt v s o = (
    record {
      ids = rw s (release_id-IsValid c.specific.send_channel_ids id lt v.ids);
      in_range = λ j h. ground (arith, o j, v.in_range j);
      taken = λ j h.
          rw (s, is_free-release_id c.specific.send_channel_ids id j)
            (ground (arith, o j, v.taken j));
    },
    o,
    rw (s, is_free-release_id c.specific.send_channel_ids id id) (ground (arith, ==_refl id)),
  )
  released-IsAgreed c id (err x, c', w') lt v s o = (
    record {
      ids = rw s v.ids;
      in_range = λ j h. ground (arith, o j, v.in_range j);
      taken = λ j h. rw s (ground (arith, o j, v.taken j));
    },
    o,
    rw s refl,
  )

  -- On a client's connection with no free id open, close_channel of an id below 256 keeps it so on
  -- every branch, closes that id and no other, and leaves it free exactly if the closing succeeded
  -- or it was free.
  pub close_channel-IsAgreed :
      (c : ClientSideConnection V) (id : ℕ) (w : V.net.World)
      → id < 256
      → IsAgreed V c
      → IsAgreed V (close_channel V c id w).1
        × ((j : ℕ)
            → is_open V.net (close_channel V c id w).1 j
              ≡ (if id == j then false else is_open V.net c j))
        × (is_free id (close_channel V c id w).1.specific.send_channel_ids ≡ (
            is_ok (internal_close_channel V.net c id w).0
            || is_free id c.specific.send_channel_ids))
  close_channel-IsAgreed c id w lt v = rw (close_channel-eq c id w) (
      released-IsAgreed c id (internal_close_channel V.net c id w) lt v
        (internal_close_channel-specific V.net c id w)
        (λ j. is_open-internal_close_channel V.net c id j w))
