-- ===== src/Client/Tracking.antt =====
-- Opening a connection: its configured channels, and what the client keeps track of.
use bevy_quinnet.Base.{
  ℕ, zero, suc, ◌+◌, ◌≤◌, ◌%◌, ◌^◌, ◌≡◌, refl, ap, ◌∙◌, List, [], ◌∷◌, Option, none, some, Result,
  ok, err, ◌==◌, ◌||◌, ◌&&◌, ltb, leb, if◌then◌else◌, arith, length,
}
use bevy_quinnet.Base.BTreeSet
use bevy_quinnet.Base.HashMap
use bevy_quinnet.Base.HashMap.{get-insert}
use bevy_quinnet.Error.{AsyncChannelError, ChannelCreationError}
use bevy_quinnet.Config.{ChannelConfig}
use bevy_quinnet.Config.Bounds.{IsBounded}
use bevy_quinnet.IdPool.{ChannelsIdsPool, take_id, release_id, or_id}
use bevy_quinnet.IdPool.Counting.{take_id_first, new_ids}
use bevy_quinnet.Peer.{
  Channel, create_unregistered_connection_channel, register_connection_channel, new_connection,
}
use bevy_quinnet.Peer.Opening.{err-ne-ok, is_open, created_id, is_open-register_connection_channel}
use bevy_quinnet.Client.{
  ClientNet, ClientConnection, ClientConnectionConfiguration, new_client_connection,
  ClientSideConnection,
}
use bevy_quinnet.Client.Connection.{
  create_client_connection_async_channels, open_configs, open_configured_channels, set_ids,
  Configuring,
}
use bevy_quinnet.Client.Registry.{QuinnetClient, open_connection, fresh_connection}

module _ (V : ClientNet) where
  -- The pool after the first id was taken.
  abbrev taking : ClientSideConnection V → ℕ → ℕ → ClientSideConnection V
  taking c k m = set_ids V c (record {
    available_channel_ids = BTreeSet.range (suc k) m;
    default_channel = or_id c.specific.send_channel_ids.default_channel k;
  })

  abbrev Created : Type 0
  Created = Result (Channel V.net) AsyncChannelError × V.net.World

  -- What the loop makes of the creation's result.
  abbrev continue_with : List ChannelConfig → ClientSideConnection V → ℕ → Created → Configuring V
  continue_with rest c k (ok channel, w) =
      open_configs V rest (register_connection_channel V.net c channel) w
  continue_with rest c k (err x, w) =
      some (err x, set_ids V c (release_id c.specific.send_channel_ids k), w)

  -- What the loop makes of `take_id`'s result.
  abbrev taken_with :
      ChannelConfig
      → List ChannelConfig
      → ClientSideConnection V
      → V.net.World
      → Result ℕ ChannelCreationError × ChannelsIdsPool
      → Configuring V
  taken_with config rest c w (ok k, ids) =
      continue_with rest (set_ids V c ids) k
        (create_unregistered_connection_channel V.net (set_ids V c ids) k config w)
  taken_with config rest c w (err x, ids) = none

  open_configs-taken_with :
      (config : ChannelConfig) (rest : List ChannelConfig) (c : ClientSideConnection V)
      (w : V.net.World)
      → open_configs V (config ∷ rest) c w
        ≡ taken_with config rest c w (take_id c.specific.send_channel_ids)
  unfolding open_configs
  open_configs-taken_with config rest c w = go (take_id c.specific.send_channel_ids)
    where
      created :
          (k : ℕ) (ids : ChannelsIdsPool) (r : Created)
          → ◌≡◌ {A = Configuring V}
              (elim r.0 [
                | ok channel ↦
                    open_configs V rest
                      (register_connection_channel V.net (set_ids V c ids) channel)
                      r.1
                | err x ↦ some (err x, set_ids V c (release_id ids k), r.1)
              ])
              (continue_with rest (set_ids V c ids) k r)
      created k ids (ok ch, w') = refl
      created k ids (err x, w') = refl

      go :
          (t : Result ℕ ChannelCreationError × ChannelsIdsPool)
          → ◌≡◌ {A = Configuring V}
              (elim t.0 [
                | ok k ↦
                    (let (answer, w') =
                        create_unregistered_connection_channel V.net (set_ids V c t.1) k config w in
                      elim answer [
                        | ok channel ↦
                            open_configs V rest
                              (register_connection_channel V.net (set_ids V c t.1) channel)
                              w'
                        | err x ↦ some (err x, set_ids V c (release_id t.1 k), w')
                      ])
                | err _ ↦ none
              ])
              (taken_with config rest c w t)
      go (ok k, ids) =
          created k ids (create_unregistered_connection_channel V.net (set_ids V c ids) k config w)
      go (err x, ids) = refl

  open_configs-cons :
      (config : ChannelConfig) (rest : List ChannelConfig) (c : ClientSideConnection V) (k m : ℕ)
      (w : V.net.World)
      → c.specific.send_channel_ids.available_channel_ids ≡ BTreeSet.range k (suc m)
      → open_configs V (config ∷ rest) c w
        ≡ continue_with rest
            (taking c k m)
            k
            (create_unregistered_connection_channel V.net (taking c k m) k config w)
  unfolding BTreeSet.range
  open_configs-cons config rest c k m w e =
      open_configs-taken_with config rest c w
      ∙ ap (taken_with config rest c w)
          (take_id_first c.specific.send_channel_ids k (BTreeSet.range (suc k) m) e)

  register-ids :
      (c : ClientSideConnection V) (ch : Channel V.net)
      → (register_connection_channel V.net c ch).specific ≡ c.specific
  unfolding register_connection_channel
  register-ids c ch = refl

  -- What the loop does with the configurations from an id on.
  abbrev OpensFrom : ℕ → List ChannelConfig → ClientSideConnection V → Configuring V → Type 0
  OpensFrom k configs c answer =
      (r : Result (Unit {0}) AsyncChannelError) × (c' : ClientSideConnection V) × (w' : V.net.World)
      × (answer ≡ some (r, c', w'))
      × (r ≡ ok tt
          → (j : ℕ)
          → is_open V.net c' j ≡ (is_open V.net c j || (leb k j && ltb j (k + length configs))))

  continue_with_lem :
      (config : ChannelConfig) (rest : List ChannelConfig) (c : ClientSideConnection V) (k m : ℕ)
      (w : V.net.World)
      → ((c1 : ClientSideConnection V) (w' : V.net.World)
          → c1.specific.send_channel_ids.available_channel_ids ≡ BTreeSet.range (suc k) m
          → OpensFrom (suc k) rest c1 (open_configs V rest c1 w'))
      → (x : Created) → create_unregistered_connection_channel V.net (taking c k m) k config w ≡ x
      → OpensFrom k (config ∷ rest) c (continue_with rest (taking c k m) k x)
  continue_with_lem config rest c k m w later (err x, w') f =
      (err x, _, w', refl, λ g j. absurd (err-ne-ok g))
  continue_with_lem config rest c k m w later (ok ch, w') f =
      let c1 = register_connection_channel V.net (taking c k m) ch in
      let (r, c', w'', ends, o) = later c1 w' (
        ap (λ (s : ClientConnection V). s.send_channel_ids.available_channel_ids)
          (register-ids (taking c k m) ch)) in
      let id : ch.id ≡ k =
        created_id V.net (taking c k m) k config w ch (ap (λ (x : Created). x.0) f) in
      (
        r,
        c',
        w'',
        ends,
        λ g j.
            o g j
            ∙ rw (is_open-register_connection_channel V.net (taking c k m) ch j, id) (ground arith),
      )

  -- With as many free ids from `k` on as there are configurations, the loop does not panic. If it
  -- succeeds it has opened the ids from `k` on, one for each configuration, and no other.
  open_configs_lem :
      (configs : List ChannelConfig) (c : ClientSideConnection V) (k m : ℕ) (w : V.net.World)
      → c.specific.send_channel_ids.available_channel_ids ≡ BTreeSet.range k m
      → length configs ≤ m
      → OpensFrom k configs c (open_configs V configs c w)
  unfolding open_configs BTreeSet.range
  open_configs_lem [] c k m w e h = (ok tt, c, w, refl, λ f j. ground arith)
  open_configs_lem (config ∷ rest) c k zero w e h = absurd (omega arith)
  open_configs_lem (config ∷ rest) c k (suc m) w e h =
      rw (open_configs-cons config rest c k m w e) (
        continue_with_lem config rest c k m w
          (λ c1 w' e'. open_configs_lem rest c1 (suc k) m w' e' (omega arith))
          (create_unregistered_connection_channel V.net (taking c k m) k config w) refl)

  -- The connection that `open_connection` builds, before its channels.
  abbrev built :
      QuinnetClient V → ClientConnectionConfiguration V.types → V.net.World → ClientSideConnection V
  built q config w =
      fresh_connection V q.connection_local_id_gen config
        (create_client_connection_async_channels V w).0

  -- What a call of `open_connection` does: it adds a connection, or none.
  pub data ConnectionOpened (q : QuinnetClient V) (config : ClientConnectionConfiguration V.types)
      : Option (Result ℕ AsyncChannelError × QuinnetClient V × V.net.World) → Type 0 where
    opens :
        {q' : QuinnetClient V} {w' : V.net.World} (c : ClientSideConnection V)
        → ((j : ℕ)
            → HashMap.get j q'.connections
              ≡ (if q.connection_local_id_gen == j then some c else HashMap.get j q.connections))
        → ((j : ℕ) → is_open V.net c j ≡ ltb j (length config.send_channels_cfg.channels))
        → q'.default_connection_id ≡ or_id q.default_connection_id q.connection_local_id_gen
        → q'.connection_local_id_gen ≡ (q.connection_local_id_gen + 1) % 2 ^ 64
        → ConnectionOpened q config (some (ok q.connection_local_id_gen, q', w'))
    fails :
        {q' : QuinnetClient V} {w' : V.net.World} (x : AsyncChannelError)
        → q'.connections ≡ q.connections
        → q'.default_connection_id ≡ q.default_connection_id
        → ConnectionOpened q config (some (err x, q', w'))

  -- What `open_connection` makes of the result of opening the channels.
  abbrev opened_with :
      QuinnetClient V
      → ClientConnectionConfiguration V.types
      → V.net.World
      → Result (Unit {0}) AsyncChannelError
      → ClientSideConnection V
      → V.net.World
      → Option (Result ℕ AsyncChannelError × QuinnetClient V × V.net.World)
  opened_with q config w (ok _) c w' =
      let ends = (create_client_connection_async_channels V w).0 in
      some (
        ok q.connection_local_id_gen,
        record {
          connections = HashMap.insert q.connection_local_id_gen c q.connections;
          connection_local_id_gen = (q.connection_local_id_gen + 1) % 2 ^ 64;
          default_connection_id = or_id q.default_connection_id q.connection_local_id_gen;
        },
        V.spawn
            (record {
              local_id = q.connection_local_id_gen;
              endpoint_config = config.addr_config;
              cert_mode = config.cert_mode;
            })
            ends.to_sync_client_send ends.bytes_from_server_send ends.to_channels_recv
            ends.from_channels_send w',
      )
  opened_with q config w (err x) c w' =
      some
        (err x, record q { connection_local_id_gen = (q.connection_local_id_gen + 1) % 2 ^ 64 }, w')

  opened_with_lem :
      (q : QuinnetClient V) (config : ClientConnectionConfiguration V.types) (w : V.net.World)
      (r : Result (Unit {0}) AsyncChannelError) (c : ClientSideConnection V) (w' : V.net.World)
      → (r ≡ ok tt → (j : ℕ) → is_open V.net c j ≡ ltb j (length config.send_channels_cfg.channels))
      → ConnectionOpened q config (opened_with q config w r c w')
  opened_with_lem q config w (ok _) c w' o =
      opens c (λ j. get-insert q.connection_local_id_gen j c q.connections) (o refl) refl refl
  opened_with_lem q config w (err x) c w' o = fails x refl refl

  -- With at most 256 configured channels open_connection does not panic. Either it answers the next
  -- local id, under which the new connection then stands, over whatever stood there and beside all
  -- others, with exactly the ids from 0 up to the number of configured channels open, and it
  -- becomes the default connection if there was none; or it fails, and the connections and the
  -- default are as before.
  pub open_connection_lem :
      (q : QuinnetClient V) (config : ClientConnectionConfiguration V.types) (w : V.net.World)
      → IsBounded config.send_channels_cfg
      → ConnectionOpened q config (open_connection V q config w)
  unfolding open_connection open_configured_channels fresh_connection new_client_connection
      new_connection
  open_connection_lem q config w b =
      let w1 = (create_client_connection_async_channels V w).1 in
      let (r, c', w', e, o) =
        open_configs_lem config.send_channels_cfg.channels (built q config w) 0 256 w1 new_ids b in
      rw (e, open_connection) (opened_with_lem q config w r c' w' (λ f j. o f j ∙ ground arith))
