-- ===== src/Client/Conditions.antt =====
-- The run conditions of client.rs. The `Local` of a condition is passed in and returned.
use bevy_quinnet.Base.{Option, none, some, Bool, true, false, ◌&&◌, not}
use bevy_quinnet.Client.{ClientNet}
use bevy_quinnet.Client.Registry.{QuinnetClient, is_connecting, is_connected, is_disconnected}

module _ (V : ClientNet) where
  pub client_connecting : Option (QuinnetClient V) → Bool
  client_connecting none = false
  client_connecting (some client) = is_connecting V client

  pub client_connected : Option (QuinnetClient V) → Bool
  client_connected none = false
  client_connected (some client) = is_connected V client

  pub client_just_connected : Bool → Option (QuinnetClient V) → Bool × Bool
  client_just_connected last_connected client =
      let connected_now : Bool = elim client [ none ↦ false | some q ↦ is_connected V q ] in
      (not last_connected && connected_now, connected_now)

  pub client_just_disconnected : Bool → Option (QuinnetClient V) → Bool × Bool
  client_just_disconnected last_connected client =
      let disconnected_now : Bool = elim client [ none ↦ true | some q ↦ is_disconnected V q ] in
      (last_connected && disconnected_now, not disconnected_now)
