-- ===== src/Server/Consistency.antt =====
-- The invariant of an endpoint: every connected client has open exactly the channels that the
-- endpoint lists as opened, and the ids of those are not free. Which operations keep it.
use bevy_quinnet.Base.{
  ℕ, ◌≡◌, refl, ap, [], none, some, Result, ok, err, true, false, not, ◌<◌, ◌≤◌, ◌==◌, ==_iff,
  if◌then◌else◌, arith, Option-cases, Result-cases, inl, inr,
}
use mathlib.Core.Path.{subst}
use bevy_quinnet.Base.HashMap
use bevy_quinnet.Base.HashMap.{
  HashMap, get-insert, contains_key-insert, contains_key-remove, get-remove, contains_key-get,
  get-contains_key,
}
use bevy_quinnet.Error.{ChannelCreationError}
use bevy_quinnet.Config.{ChannelConfig, CloseReason}
use bevy_quinnet.IdPool.{ChannelsIdsPool, take_id, release_id}
use bevy_quinnet.IdPool.Allocation.{
  IsValid, is_free, take_id-IsValid, take_id_least, take_id_err, release_id-take_id,
}
use bevy_quinnet.Peer.{Channel}
use bevy_quinnet.Server.{ServerNet, ServerSideConnection, Endpoint}
use bevy_quinnet.Server.Channels.{
  open_channel, create_endpoint_channel, create_unregistered_endpoint_channels, commit_channels,
  create_channels, register_channels, Opening, opening_error,
}
use bevy_quinnet.Server.Connections.{internal_disconnect_client}
use bevy_quinnet.Peer.Opening.{is_open}
use bevy_quinnet.Server.Registering.{
  create_channels-keys, create_channels-ids, register_channels_total, register_channels-get,
}

pub record IsConsistent (V : ServerNet) (e : Endpoint V) : Type 0 where
  pub ids : IsValid e.send_channel_ids
  pub in_range : (id : ℕ) → HashMap.contains_key id e.opened_channels ≡ true → id < 256
  pub split :
      (id : ℕ)
      → id < 256
      → is_free id e.send_channel_ids ≡ not (HashMap.contains_key id e.opened_channels)
  pub clients_open :
      (cid : ℕ) (c : ServerSideConnection V)
      → HashMap.get cid e.clients ≡ some c
      → (id : ℕ) → is_open V.net c id ≡ HashMap.contains_key id e.opened_channels

module _ (V : ServerNet) where
  -- The result of a call of `open_channel` on a consistent endpoint: all of it or nothing.
  pub data Opened (e : Endpoint V) (config : ChannelConfig) (r : Opening V ChannelCreationError)
      : Type 0 where
    opens :
        (id : ℕ) (e' : Endpoint V) (w' : V.net.World)
        → r ≡ some (ok id, e', w')
        → HashMap.contains_key id e.opened_channels ≡ false
        → ((j : ℕ)
            → HashMap.get j e'.opened_channels
              ≡ (if id == j then some config else HashMap.get j e.opened_channels))
        → IsConsistent V e'
        → Opened e config r
    fails :
        (x : ChannelCreationError) (e' : Endpoint V) (w' : V.net.World)
        → r ≡ some (err x, e', w')
        → e'.clients ≡ e.clients
        → e'.opened_channels ≡ e.opened_channels
        → e'.send_channel_ids.available_channel_ids ≡ e.send_channel_ids.available_channel_ids
        → Opened e config r

  commit_lem :
      (e : Endpoint V) (id : ℕ) (config : ChannelConfig) (ids : ChannelsIdsPool)
      (created : HashMap (Channel V.net)) (w : V.net.World)
      → IsConsistent V e
      → take_id e.send_channel_ids ≡ (ok id, ids)
      → (create_channels V e.clients id config [] w).0 ≡ ok created
      → (e' : Endpoint V) × (commit_channels V
            (record e { send_channel_ids = ids })
            id
            config
            created
          ≡ some e')
        × (HashMap.contains_key id e.opened_channels ≡ false)
        × ((j : ℕ)
            → HashMap.get j e'.opened_channels
              ≡ (if id == j then some config else HashMap.get j e.opened_channels))
        × IsConsistent V e'
  unfolding commit_channels HashMap.contains_key
  commit_lem e id config ids created w v taken f =
      let (clients', p) = register_channels_total V created e.clients known in
      let e' : Endpoint V = record e {
        clients = clients';
        opened_channels = HashMap.insert id config e.opened_channels;
        send_channel_ids = ids;
      } in
      (
        e',
        rw (p, commit_channels),
        fresh,
        λ j. get-insert id j config e.opened_channels,
        record {
          ids =
              subst IsValid
                (ap (λ (r : Result ℕ ChannelCreationError × ChannelsIdsPool). r.1) taken)
                (take_id-IsValid e.send_channel_ids v.ids);
          in_range = λ j q.
              ground
                (arith, contains_key-insert id j config e.opened_channels, least.2, v.in_range j);
          split = λ j lt. ground (
            arith,
            contains_key-insert id j config e.opened_channels,
            v.split j lt,
            least.1,
            least.4 j,
          );
          clients_open = λ cid c g j. opens_all clients' p cid c g j;
        },
      )
    where
      least :
          (is_free id e.send_channel_ids ≡ true)
          × (is_free id ids ≡ false)
          × (id < 256)
          × ((j : ℕ) → is_free j e.send_channel_ids ≡ true → id ≤ j)
          × ((j : ℕ) → (id == j) ≡ false → is_free j ids ≡ is_free j e.send_channel_ids)
      least = take_id_least e.send_channel_ids ids id v.ids taken

      fresh : HashMap.contains_key id e.opened_channels ≡ false
      fresh = ground (arith, v.split id least.2, least.0)

      known :
          (cid : ℕ)
          → HashMap.contains_key cid created ≡ true
          → HashMap.contains_key cid e.clients ≡ true
      known cid q = ground (arith, create_channels-keys V e.clients id config [] created w cid f)

      opens_all :
          (clients' : HashMap (ServerSideConnection V))
          → register_channels V created e.clients ≡ some clients'
          → (cid : ℕ) (c : ServerSideConnection V) → HashMap.get cid clients' ≡ some c
          → (j : ℕ)
          → is_open V.net c j ≡ HashMap.contains_key j (HashMap.insert id config e.opened_channels)
      opens_all clients' p cid c g j =
          let (c0, g0, q) =
            register_channels-get V created e.clients clients' id cid c
              (create_channels-ids V e.clients id config [] created w f tt) p g in
          ground (
            arith,
            q j,
            create_channels-keys V e.clients id config [] created w cid f,
            get-contains_key cid e.clients c0 g0,
            v.clients_open cid c0 g0 j,
            contains_key-insert id j config e.opened_channels,
          )

  -- `create_endpoint_channel`, after its id was taken.
  create_lem :
      (e : Endpoint V) (id : ℕ) (config : ChannelConfig) (ids : ChannelsIdsPool) (w : V.net.World)
      → IsConsistent V e
      → take_id e.send_channel_ids ≡ (ok id, ids)
      → Opened e config (
          opening_error V
            (create_endpoint_channel V (record e { send_channel_ids = ids }) id config w))
  unfolding create_endpoint_channel create_unregistered_endpoint_channels
  create_lem e id config ids w v taken =
      elim (Result-cases (create_channels V e.clients id config [] w).0) [
        | inl (created, f) ↦
            (let (e', p, fresh, q, v') = commit_lem e id config ids created w v taken f in
              opens id e' (create_channels V e.clients id config [] w).1
                (rw (f, create_endpoint_channel, create_unregistered_endpoint_channels, p)) fresh q
                v')
        | inr (x, f) ↦
            fails (ChannelCreationError.async_channel_error x)
              (record e { send_channel_ids = release_id ids id })
              (create_channels V e.clients id config [] w).1
              (rw (f, create_endpoint_channel, create_unregistered_endpoint_channels)) refl refl
              (release_id-take_id e.send_channel_ids ids id v.ids taken).0
      ]

  -- On a consistent endpoint (every client has open exactly the listed channels, and exactly their
  -- ids are not free) open_channel does not panic. Either it answers an id that was not listed,
  -- which is then listed with its configuration beside all others, and the endpoint stays
  -- consistent; or it fails, and clients, opened channels and free ids are as before.
  pub open_channel_lem :
      (e : Endpoint V) (config : ChannelConfig) (w : V.net.World)
      → IsConsistent V e
      → Opened e config (open_channel V e config w)
  unfolding open_channel
  open_channel_lem e config w v = elim (Result-cases (take_id e.send_channel_ids).0) [
    | inl (id, f) ↦
        rw (f, open_channel)
          (create_lem e id config (take_id e.send_channel_ids).1 w v
            (ap (λ (r : Result ℕ ChannelCreationError). (r, (take_id e.send_channel_ids).1)) f))
    | inr (x, f) ↦
        fails x (record e { send_channel_ids = (take_id e.send_channel_ids).1 }) w
          (rw (f, open_channel)) refl refl
          (ap (λ (p : ChannelsIdsPool). p.available_channel_ids)
            (take_id_err e.send_channel_ids x f))
  ]

  -- Disconnecting a client, known or not, keeps a consistent endpoint consistent; that client is
  -- unknown afterwards and every other one is as before.
  pub internal_disconnect_client_lem :
      (e : Endpoint V) (client_id cid : ℕ) (reason : CloseReason) (w : V.net.World)
      → IsConsistent V e
      → IsConsistent V (internal_disconnect_client V e client_id reason w).1
        × (HashMap.get cid (internal_disconnect_client V e client_id reason w).1.clients
            ≡ (if client_id == cid then none else HashMap.get cid e.clients))
  unfolding internal_disconnect_client
  internal_disconnect_client_lem e client_id cid reason w v =
      elim (Option-cases (HashMap.get client_id e.clients)) [
        | inl f ↦ rw (f, internal_disconnect_client) (v, ground (arith, ==_iff client_id cid))
        | inr (c, f) ↦
            rw (f, internal_disconnect_client)
              (
                record {
                  ids = v.ids;
                  in_range = v.in_range;
                  split = v.split;
                  clients_open = λ k c g.
                      v.clients_open k c (ground (arith, get-remove client_id k e.clients));
                },
                get-remove client_id cid e.clients,
              )
      ]
