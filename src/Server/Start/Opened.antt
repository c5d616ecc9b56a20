-- ===== src/Server/Start/Opened.antt =====
-- What `start_endpoint` leaves behind: the configured channels, under the ids from 0 on.
use bevy_quinnet.Base.{
  ℕ, zero, suc, ◌+◌, ◌-◌, ◌≤◌, ◌<◌, ◌≡◌, refl, ap, ◌∙◌, List, [], ◌∷◌, Option, none, some, Result,
  ok, err, length, get_elem?, ◌==◌, if◌then◌else◌, arith, ltb,
}
use mathlib.Core.Path.{subst}
use mathlib.Core.Option.{none-ne-some}
use bevy_quinnet.Base.BTreeSet
use bevy_quinnet.Base.BTreeSet.{
  IsAscending, IsAscending-weaken, range-IsAscending, contains-range, contains_below,
}
use bevy_quinnet.Base.HashMap
use bevy_quinnet.Base.HashMap.{get-insert, contains_key-insert}
use bevy_quinnet.Config.{ChannelConfig}
use bevy_quinnet.IdPool.{or_id}
use bevy_quinnet.IdPool.Counting.{take_id_first, new_ids}
use bevy_quinnet.Peer.{RecvChannelsConfiguration}
use bevy_quinnet.Server.{ServerNet, Endpoint, new_endpoint}
use bevy_quinnet.Server.Channels.{
  unchecked_open_channel, create_endpoint_channel, create_unregistered_endpoint_channels,
  create_channels, commit_channels, register_channels,
}
use bevy_quinnet.Server.Consistency.{IsConsistent}
use bevy_quinnet.Server.Events.{QuinnetServer}
use bevy_quinnet.Server.Certificates.{
  Files, ServerCertificate, EndpointCertificateError, retrieve_certificate,
}
use bevy_quinnet.Server.Start.{
  Setup, EndpointStartError, ServerEndpointConfiguration, Started, open_all, keep_endpoint, listen,
  bound, keep_alive_set, configured, with_certificate, start_endpoint,
}

module _ (V : ServerNet) where
  -- An endpoint with no client, after a channel was opened on it under id `k`.
  abbrev opened_on : Endpoint V → ℕ → List ℕ → ChannelConfig → Endpoint V
  opened_on e k rest config = record e {
    opened_channels = HashMap.insert k config e.opened_channels;
    send_channel_ids = record {
      available_channel_ids = rest;
      default_channel = or_id e.send_channel_ids.default_channel k;
    };
  }

  unchecked_open_channel-first :
      (e : Endpoint V) (k : ℕ) (rest : List ℕ) (config : ChannelConfig) (w : V.net.World)
      → e.clients ≡ []
      → e.send_channel_ids.available_channel_ids ≡ k ∷ rest
      → unchecked_open_channel V e config w ≡ some (ok k, opened_on e k rest config, w)
  unfolding unchecked_open_channel create_endpoint_channel create_unregistered_endpoint_channels
      create_channels commit_channels register_channels
  unchecked_open_channel-first e k rest config w none_yet free =
      rw (take_id_first e.send_channel_ids k rest free, unchecked_open_channel)
        (rw
          (
            none_yet, create_endpoint_channel, create_unregistered_endpoint_channels,
            create_channels, commit_channels, register_channels,
          )
          (λ i. some (
            ok k,
            record e {
              clients = none_yet i;
              opened_channels = HashMap.insert k config e.opened_channels;
              send_channel_ids = (take_id_first e.send_channel_ids k rest free i).1;
            },
            (create_channels V (none_yet i) k config [] w).1,
          )))

  -- Nothing open beside the ids below `k`, all the others free, and no client.
  record IsStarting (k m : ℕ) (e : Endpoint V) : Type 0 where
    no_client : e.clients ≡ []
    free : e.send_channel_ids.available_channel_ids ≡ BTreeSet.range k m
    below : (j : ℕ) → HashMap.contains_key j e.opened_channels ≡ ltb j k

  opened_on-IsStarting :
      (k m : ℕ) (e : Endpoint V) (config : ChannelConfig)
      → IsStarting k (suc m) e
      → IsStarting (suc k) m (opened_on e k (BTreeSet.range (suc k) m) config)
  opened_on-IsStarting k m e config h = record {
    no_client = h.no_client;
    free = refl;
    below = λ j. ground (arith, contains_key-insert k j config e.opened_channels, h.below j);
  }

  -- The channels of a list, under the ids from `k` on, over what stood under an id.
  abbrev listed : List ChannelConfig → ℕ → ℕ → Option ChannelConfig → Option ChannelConfig
  listed [] k j old = old
  listed (config ∷ rest) k j old = listed rest (suc k) j (if k == j then some config else old)

  listed_below :
      (configs : List ChannelConfig) (k j : ℕ) (old : Option ChannelConfig)
      → j < k
      → listed configs k j old ≡ old
  listed_below [] k j old h = refl
  listed_below (config ∷ rest) k j old h =
      listed_below rest (suc k) j (if k == j then some config else old) (omega arith) ∙ ground arith

  listed-get_elem? :
      (configs : List ChannelConfig) (k i : ℕ) → listed configs k (k + i) none ≡ get_elem? configs i
  listed-get_elem? [] k i = refl
  listed-get_elem? (config ∷ rest) k zero =
      listed_below rest (suc k) (k + 0) _ (omega arith) ∙ ground arith
  listed-get_elem? (config ∷ rest) k (suc i) =
      ap (λ (j : ℕ). listed rest (suc k) j (if k == j then some config else none)) shift
      ∙ ap (listed rest (suc k) (suc k + i)) apart
      ∙ listed-get_elem? rest (suc k) i
    where
      shift : k + suc i ≡ suc k + i
      shift = omega arith

      apart : (if k == suc k + i then some config else none) ≡ none
      apart = ground arith

  listed_all :
      (configs : List ChannelConfig) (i : ℕ) → listed configs 0 i none ≡ get_elem? configs i
  listed_all configs i =
      let whole : i ≡ 0 + i = omega arith in
      ap (λ (j : ℕ). listed configs 0 j none) whole ∙ listed-get_elem? configs 0 i

  starting-IsConsistent :
      (k m : ℕ) (e : Endpoint V) → k + m ≡ 256 → IsStarting k m e → IsConsistent V e
  unfolding HashMap.get
  starting-IsConsistent k m e all h = record {
    ids = rw h.free (IsAscending-weaken k 0 256 (BTreeSet.range k m) (omega arith) ascending);
    in_range = λ id g. ground (arith, h.below id);
    split = λ id lt. rw h.free (
        ground (
          arith,
          h.below id,
          contains-range id k m,
          contains_below id k 256 (BTreeSet.range k m),
          ascending,
        ));
    clients_open = λ cid c g id. absurd (none-ne-some c (rw h.no_client at g));
  }
    where
      ascending : IsAscending k 256 (BTreeSet.range k m)
      ascending = range-IsAscending k m 256 (omega arith)

  new_endpoint-IsStarting :
      (close_send : V.handler_closes.Sender) (from_async : V.asyncs.Receiver)
      (cfg : RecvChannelsConfiguration)
      → IsStarting 0 256 (new_endpoint V close_send from_async cfg)
  unfolding new_endpoint HashMap.contains_key
  new_endpoint-IsStarting close_send from_async cfg = record {
    no_client = refl;
    free = new_ids;
    below = λ j. ground arith;
  }

  pub new_endpoint-IsConsistent :
      (close_send : V.handler_closes.Sender) (from_async : V.asyncs.Receiver)
      (cfg : RecvChannelsConfiguration)
      → IsConsistent V (new_endpoint V close_send from_async cfg)
  new_endpoint-IsConsistent close_send from_async cfg =
      starting-IsConsistent 0 256 (new_endpoint V close_send from_async cfg) (omega arith)
        (new_endpoint-IsStarting close_send from_async cfg)

  moved : {k k' m m' : ℕ} {e : Endpoint V} → k ≡ k' → m ≡ m' → IsStarting k m e → IsStarting k' m' e
  moved {k' = k'} {m = m} {e = e} p q h =
      subst (λ (n : ℕ). IsStarting k' n e) q (subst (λ (n : ℕ). IsStarting n m e) p h)

  module _ (s : Files V.net.World) (u : Setup V s) where
    open_all_lem :
        (configs : List ChannelConfig) (k m : ℕ) (e : Endpoint V) (w : V.net.World)
        → length configs ≤ m
        → IsStarting k m e
        → (e' : Endpoint V) × (open_all V s u configs e w ≡ some (ok tt, e', w))
          × IsStarting (k + length configs) (m - length configs) e'
          × ((j : ℕ)
              → HashMap.get j e'.opened_channels
                ≡ listed configs k j (HashMap.get j e.opened_channels))
    unfolding open_all BTreeSet.range
    open_all_lem [] k m e w fits h = (e, refl, moved (omega arith) (omega arith) h, λ j. refl)
    open_all_lem (config ∷ rest) k zero e w fits h = absurd (omega arith)
    open_all_lem (config ∷ rest) k (suc m) e w fits h =
        let (e', ran, h', found) =
          open_all_lem rest (suc k) m (opened_on e k (BTreeSet.range (suc k) m) config) w
            (omega arith) (opened_on-IsStarting k m e config h) in
        (
          e',
          rw
              (
                unchecked_open_channel-first e k (BTreeSet.range (suc k) m) config w h.no_client
                    h.free,
                open_all,
              )
              ran,
          moved (omega arith) (omega arith) h',
          λ j. found j ∙ ap (listed rest (suc k) j) (get-insert k j config e.opened_channels),
        )

    module _ (server : QuinnetServer V) (config : ServerEndpointConfiguration V s u)
        (few : length config.send_channels_cfg.channels ≤ 256) where
      -- A start that is refused leaves the server as it was; another leaves it with an endpoint
      -- that has no client and lists exactly the configured channels, in order.
      pub data StartOutcome (retrieved : Result (ServerCertificate s) (EndpointCertificateError s))
          (r : Started V s u) : Type 0 where
        refuses :
            (x : EndpointStartError V s u) (w' : V.net.World)
            → r ≡ some (err x, server, w')
            → StartOutcome retrieved r
        listens :
            (server_cert : ServerCertificate s) (e : Endpoint V) (w' : V.net.World)
            → r ≡ some (ok server_cert, record { endpoint = some e }, w')
            → retrieved ≡ ok server_cert
            → IsConsistent V e
            → e.clients ≡ []
            → ((i : ℕ)
                → HashMap.get i e.opened_channels ≡ get_elem? config.send_channels_cfg.channels i)
            → StartOutcome retrieved r

      module _ (server_cert : ServerCertificate s) (quinn_config : u.ServerConfig)
          (to_sync : V.asyncs.Sender) (from_async : V.asyncs.Receiver)
          (close_send : V.handler_closes.Sender) where
        listen_lem :
            (socket : u.Socket) (x : Result u.SocketAddr s.IoError) (w : V.net.World)
            → StartOutcome (ok server_cert) (
                listen V s u server config server_cert quinn_config to_sync from_async close_send
                  socket x w)
        unfolding new_endpoint HashMap.get
        listen_lem socket (err x) w = refuses (EndpointStartError.io_error x) w refl
        listen_lem socket (ok addr) w =
            let (e, ran, h, found) =
              open_all_lem config.send_channels_cfg.channels 0 256
                (new_endpoint V close_send from_async config.recv_channels_cfg)
                (u.spawn socket quinn_config to_sync close_send config.recv_channels_cfg w) few
                (new_endpoint-IsStarting close_send from_async config.recv_channels_cfg) in
            listens server_cert e _ (ap (keep_endpoint V s u server_cert server) ran) refl
              (starting-IsConsistent (0 + length config.send_channels_cfg.channels) _ e
                (omega arith) h)
              h.no_client (λ i. found i ∙ listed_all config.send_channels_cfg.channels i)

        bound_lem :
            (x : Result u.Socket s.IoError) (w : V.net.World)
            → StartOutcome (ok server_cert) (
                bound V s u server config server_cert quinn_config to_sync from_async close_send x
                  w)
        bound_lem (err x) w = refuses (EndpointStartError.io_error x) w refl
        bound_lem (ok socket) w = listen_lem socket (u.local_addr socket) w

      keep_alive_lem :
          (server_cert : ServerCertificate s) (x : Option u.ServerConfig) (w : V.net.World)
          → StartOutcome (ok server_cert) (keep_alive_set V s u server config server_cert x w)
      keep_alive_lem server_cert none w = refuses EndpointStartError.lock_acquisition_failure w refl
      keep_alive_lem server_cert (some quinn_config) w =
          bound_lem server_cert quinn_config _ _ _ (u.bind config.local_bind_addr _).0 _

      configured_lem :
          (server_cert : ServerCertificate s) (x : Result u.ServerConfig u.RustlsError)
          (w : V.net.World)
          → StartOutcome (ok server_cert) (configured V s u server config server_cert x w)
      configured_lem server_cert (err x) w = refuses (EndpointStartError.rustls_error x) w refl
      configured_lem server_cert (ok quinn_config) w =
          keep_alive_lem server_cert (u.set_keep_alive quinn_config) w

      with_certificate_lem :
          (r : Result (ServerCertificate s) (EndpointCertificateError s)) (w : V.net.World)
          → StartOutcome r (with_certificate V s u server config (some (r, w)))
      with_certificate_lem (err x) w = refuses (EndpointStartError.certificate_error x) w refl
      with_certificate_lem (ok server_cert) w =
          configured_lem server_cert
            (u.with_single_cert server_cert.cert_chain server_cert.priv_key) w

      -- With at most 256 configured channels, and unless retrieving the certificate panics,
      -- start_endpoint does not panic. Either it fails and leaves the server as it was; or it
      -- answers the retrieved certificate, and the server has an endpoint that is consistent, has
      -- no client and lists exactly the configured channels under the ids from 0 on, in order.
      pub start_endpoint_lem :
          (r : Result (ServerCertificate s) (EndpointCertificateError s)) (w w' : V.net.World)
          → retrieve_certificate s config.cert_mode w ≡ some (r, w')
          → StartOutcome r (start_endpoint V s u server config w)
      unfolding start_endpoint
      start_endpoint_lem r w w' e = rw e (with_certificate_lem r w')
