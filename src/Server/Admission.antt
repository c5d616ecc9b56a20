-- ===== src/Server/Admission.antt =====
-- A new connection of an endpoint: `handle_new_connection` of server/endpoint.rs.
use bevy_quinnet.Base.{
  ℕ, ◌+◌, ◌%◌, ◌^◌, ◌≡◌, refl, sym, ◌∙◌, some, Result, ok, err, false, ◌==◌, if◌then◌else◌, arith,
  Bool-cases, Result-cases, inl, inr,
}
use mathlib.Core.Option.{some-injective}
use bevy_quinnet.Base.HashMap
use bevy_quinnet.Base.HashMap.{
  HashMap, get-insert, contains_key-insert, contains_key-remove, get-remove, contains_key-get,
  get-contains_key,
}
use bevy_quinnet.Error.{AsyncChannelError, internal_channel_closed}
use bevy_quinnet.Server.{ServerNet, ServerSideConnection, Endpoint}
use bevy_quinnet.Server.Connections.{handle_new_connection, accept_connection, open_channels_on}
use bevy_quinnet.Peer.Opening.{is_open}
use bevy_quinnet.Server.Registering.{open_channels_on-is_open}
use bevy_quinnet.Server.{client_connected_ack}
use bevy_quinnet.Server.Connections.{count_connect}
use bevy_quinnet.Server.Consistency.{IsConsistent}

module _ (V : ServerNet) where
  abbrev pub next_client_id : Endpoint V → ℕ
  next_client_id e = (e.client_id_gen + 1) % 2 ^ 64

  -- The two outcomes for a new connection.
  pub data Admission (e : Endpoint V) (r : Result ℕ AsyncChannelError × Endpoint V × V.net.World)
      : Type 0 where
    admits :
        (c : ServerSideConnection V) (e' : Endpoint V) (w' : V.net.World)
        → r ≡ (ok (next_client_id e), e', w')
        → e'.client_id_gen ≡ next_client_id e
        → e'.stats ≡ count_connect e.stats
        → ((cid : ℕ)
            → HashMap.get cid e'.clients
              ≡ (if next_client_id e == cid then some c else HashMap.get cid e.clients))
        → IsConsistent V e'
        → Admission e r
    refuses :
        (x : AsyncChannelError) (e' : Endpoint V) (w' : V.net.World)
        → r ≡ (err x, e', w')
        → e'.clients ≡ e.clients
        → e'.stats ≡ e.stats
        → IsConsistent V e'
        → Admission e r

  accept_connection_lem :
      (e : Endpoint V) (c : ServerSideConnection V) (w : V.net.World)
      → IsConsistent V e
      → ((id : ℕ) → is_open V.net c id ≡ HashMap.contains_key id e.opened_channels)
      → Admission e (accept_connection V e c w)
  unfolding accept_connection
  accept_connection_lem e c w v all_open =
      elim (Result-cases
        (V.syncs.try_send c.specific.to_connection_send (client_connected_ack (next_client_id e))
          w).0) [
            | inl (u, f) ↦
                rw (f, accept_connection)
                  (admits c
                    (record e {
                      clients = HashMap.insert (next_client_id e) c e.clients;
                      client_id_gen = next_client_id e;
                      stats = count_connect e.stats;
                    })
                    _ refl refl refl (λ cid. get-insert (next_client_id e) cid c e.clients)
                    (record {
                      ids = v.ids;
                      in_range = v.in_range;
                      split = v.split;
                      clients_open = inserted;
                    }))
            | inr (x, f) ↦
                rw (f, accept_connection)
                  (refuses internal_channel_closed (record e { client_id_gen = next_client_id e }) _
                    refl refl refl
                    (record {
                      ids = v.ids;
                      in_range = v.in_range;
                      split = v.split;
                      clients_open = v.clients_open;
                    }))
          ]
    where
      inserted :
          (cid : ℕ) (d : ServerSideConnection V)
          → HashMap.get cid (HashMap.insert (next_client_id e) c e.clients) ≡ some d
          → (id : ℕ) → is_open V.net d id ≡ HashMap.contains_key id e.opened_channels
      inserted cid d g id = elim (Bool-cases (next_client_id e == cid)) [
        | inl same ↦
            rw
              (← some-injective c d
                (sym (rw same at (get-insert (next_client_id e) cid c e.clients)) ∙ g))
              (all_open id)
        | inr other ↦
            v.clients_open cid d
              (sym (rw other at (get-insert (next_client_id e) cid c e.clients)) ∙ g) id
      ]

  -- On a consistent endpoint, a new connection with no open channel is either admitted under the
  -- next client id, counted, and every other client kept; or refused, with clients and statistics
  -- as before. The endpoint stays consistent: an admitted client has all listed channels open.
  pub handle_new_connection_lem :
      (e : Endpoint V) (connection : ServerSideConnection V) (w : V.net.World)
      → IsConsistent V e
      → ((id : ℕ) → is_open V.net connection id ≡ false)
      → Admission e (handle_new_connection V e connection w)
  unfolding handle_new_connection
  handle_new_connection_lem e connection w v none_open =
      elim (Result-cases (open_channels_on V e.opened_channels connection w).0) [
        | inl (c, f) ↦
            rw (f, handle_new_connection)
              (accept_connection_lem e c (open_channels_on V e.opened_channels connection w).1 v
                (λ id. ground (
                  arith,
                  open_channels_on-is_open V e.opened_channels connection c w id f,
                  none_open id,
                )))
        | inr (x, f) ↦ rw (f, handle_new_connection) (refuses x e _ refl refl refl v)
      ]
