-- ===== src/Server/Registering.antt =====
-- The loops of an endpoint over its clients: what creating and registering a channel on each of them,
-- and opening all channels on a new one, does to the ids that are open.
use bevy_quinnet.Base.{
  ℕ, ◌≡◌, refl, sym, ◌∙◌, [], ◌∷◌, some, ok, true, ◌||◌, ◌==◌, ==_refl, if◌then◌else◌, arith,
  Bool-cases, Option-cases, Result-cases, inl, inr,
}
use mathlib.Core.Option.{none-ne-some, some-injective}
use mathlib.Core.Path.{subst}
use bevy_quinnet.Base.HashMap
use bevy_quinnet.Base.HashMap.{
  HashMap, get-insert, contains_key-insert, insert-Entries, Entries, get-contains_key,
  contains_key-get, get-none,
}
use bevy_quinnet.Config.{ChannelConfig}
use bevy_quinnet.Peer.{
  Channel, create_unregistered_connection_channel, register_connection_channel,
  create_connection_channel,
}
use bevy_quinnet.Peer.Opening.{
  is_open, err-ne-ok, created_id, is_open-register_connection_channel,
  is_open-create_connection_channel,
}
use bevy_quinnet.Server.{ServerNet, ServerSideConnection}
use bevy_quinnet.Server.Channels.{create_channels, register_channels}
use bevy_quinnet.Server.Connections.{open_channels_on}

module _ (V : ServerNet) where
  -- The created channels: one for each client, all under the new id.
  pub create_channels-keys :
      (clients : HashMap (ServerSideConnection V)) (id : ℕ) (config : ChannelConfig)
      (created created' : HashMap (Channel V.net)) (w : V.net.World) (cid : ℕ)
      → (create_channels V clients id config created w).0 ≡ ok created'
      → HashMap.contains_key cid created'
        ≡ (HashMap.contains_key cid clients || HashMap.contains_key cid created)
  unfolding create_channels HashMap.contains_key
  create_channels-keys [] id config created created' w cid e = ground arith
  create_channels-keys ((k, conn) ∷ rest) id config created created' w cid e =
      elim (Result-cases (create_unregistered_connection_channel V.net conn id config w).0) [
        | inl (ch, f) ↦ ground (
          arith,
          create_channels-keys rest id config (HashMap.insert k ch created) created'
              (create_unregistered_connection_channel V.net conn id config w).1 cid
              (rw (f, create_channels) at e),
          contains_key-insert k cid ch created,
        )
        | inr (x, f) ↦ absurd (err-ne-ok (rw (f, create_channels) at e))
      ]

  pub create_channels-ids :
      (clients : HashMap (ServerSideConnection V)) (id : ℕ) (config : ChannelConfig)
      (created created' : HashMap (Channel V.net)) (w : V.net.World)
      → (create_channels V clients id config created w).0 ≡ ok created'
      → Entries (λ k ch. ch.id ≡ id) created
      → Entries (λ k ch. ch.id ≡ id) created'
  unfolding create_channels
  create_channels-ids [] id config created created' w e h =
      subst (Entries (λ k ch. ch.id ≡ id)) (cc) h
  create_channels-ids ((k, conn) ∷ rest) id config created created' w e h =
      elim (Result-cases (create_unregistered_connection_channel V.net conn id config w).0) [
        | inl (ch, f) ↦
            create_channels-ids rest id config (HashMap.insert k ch created) created'
              (create_unregistered_connection_channel V.net conn id config w).1
              (rw (f, create_channels) at e)
              (insert-Entries (λ k ch. ch.id ≡ id) k ch created
                (created_id V.net conn id config w ch f) h)
        | inr (x, f) ↦ absurd (err-ne-ok (rw (f, create_channels) at e))
      ]

  -- No client that has a created channel is unknown: registering does not panic.
  pub register_channels_total :
      (created : HashMap (Channel V.net)) (clients : HashMap (ServerSideConnection V))
      → ((cid : ℕ)
          → HashMap.contains_key cid created ≡ true
          → HashMap.contains_key cid clients ≡ true)
      → (clients' : HashMap (ServerSideConnection V)) × (register_channels V created clients
          ≡ some clients')
  unfolding register_channels HashMap.contains_key
  register_channels_total [] clients h = (clients, refl)
  register_channels_total ((k, ch) ∷ rest) clients h = elim (Option-cases (HashMap.get k clients)) [
    | inl e ↦ absurd (ground (arith, h k, get-none k clients e, ==_refl k))
    | inr (conn, e) ↦
        (let (clients', p) =
            register_channels_total rest
              (HashMap.insert k (register_connection_channel V.net conn ch) clients)
              (λ cid q. ground (
                arith,
                contains_key-insert k cid (register_connection_channel V.net conn ch) clients,
                h cid,
              )) in
          (clients', rw (e, register_channels) p))
  ]

  -- Registering opens the new id on every client that has a created channel, and changes nothing else.
  pub register_channels-get :
      (created : HashMap (Channel V.net)) (clients clients' : HashMap (ServerSideConnection V))
      (id cid : ℕ) (c' : ServerSideConnection V)
      → Entries (λ k ch. ch.id ≡ id) created
      → register_channels V created clients ≡ some clients'
      → HashMap.get cid clients' ≡ some c'
      → (c : ServerSideConnection V) × (HashMap.get cid clients ≡ some c)
        × ((j : ℕ)
            → is_open V.net c' j ≡ (
                if id == j
                then HashMap.contains_key cid created || is_open V.net c j
                else is_open V.net c j))
  unfolding register_channels HashMap.contains_key
  register_channels-get [] clients clients' id cid c' h e g = (c', cc, λ j. ground arith)
  register_channels-get ((k, ch) ∷ rest) clients clients' id cid c' h e g =
      elim (Option-cases (HashMap.get k clients)) [
        | inl f ↦ absurd (none-ne-some clients' (rw (f, register_channels) at e))
        | inr (conn, f) ↦ merge conn f (
            register_channels-get rest
              (HashMap.insert k (register_connection_channel V.net conn ch) clients) clients' id cid
              c' h.1 (rw (f, register_channels) at e) g)
      ]
    where
      merge :
          (conn : ServerSideConnection V)
          → HashMap.get k clients ≡ some conn
          → (c1 : ServerSideConnection V) × (HashMap.get cid
                (HashMap.insert k (register_connection_channel V.net conn ch) clients)
              ≡ some c1)
            × ((j : ℕ)
                → is_open V.net c' j ≡ (
                    if id == j
                    then HashMap.contains_key cid rest || is_open V.net c1 j
                    else is_open V.net c1 j))
          → (c : ServerSideConnection V) × (HashMap.get cid clients ≡ some c)
            × ((j : ℕ)
                → is_open V.net c' j ≡ (
                    if id == j
                    then HashMap.contains_key cid ((k, ch) ∷ rest) || is_open V.net c j
                    else is_open V.net c j))
      merge conn f (c1, p, q) = elim (Bool-cases (k == cid)) [
        | inl same ↦ (
          conn,
          ground arith,
          λ j.
              let now : ServerSideConnection V = register_connection_channel V.net conn ch in
              let is_now : c1 ≡ now =
                some-injective c1 now (sym p ∙ get-insert k cid now clients ∙ rw same) in
              ground (
                arith,
                rw is_now at (q j),
                is_open-register_connection_channel V.net conn ch j,
                h.0,
              ),
        )
        | inr other ↦ (
          c1,
          sym (get-insert k cid (register_connection_channel V.net conn ch) clients ∙ rw other) ∙ p,
          λ j. ground (arith, q j),
        )
      ]

  -- A new connection has open what it had, and all ids of the endpoint.
  pub open_channels_on-is_open :
      (opened : HashMap ChannelConfig) (c c' : ServerSideConnection V) (w : V.net.World) (j : ℕ)
      → (open_channels_on V opened c w).0 ≡ ok c'
      → is_open V.net c' j ≡ (HashMap.contains_key j opened || is_open V.net c j)
  unfolding open_channels_on HashMap.contains_key
  open_channels_on-is_open [] c c' w j e = ground arith
  open_channels_on-is_open ((id, config) ∷ rest) c c' w j e =
      elim (Result-cases (create_connection_channel V.net c id config w).0) [
        | inl (u, f) ↦ ground (
          arith,
          open_channels_on-is_open rest (create_connection_channel V.net c id config w).1 c'
              (create_connection_channel V.net c id config w).2 j (rw (f, open_channels_on) at e),
          is_open-create_connection_channel V.net c id j config w f,
        )
        | inr (x, f) ↦ absurd (err-ne-ok (rw (f, open_channels_on) at e))
      ]
