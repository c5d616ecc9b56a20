-- ===== src/Peer/Reading.antt =====
-- Reading and clearing the receive buffers of a connection.
use bevy_quinnet.Base.{
  ℕ, ◌≡◌, refl, List, [], ◌∷◌, Option, none, some, get_elem?_above, if◌then◌else◌, arith, ◌==◌, map,
}
use bevy_quinnet.Base.Padded.{item-set}
use bevy_quinnet.Buffer.{Bytes}
use bevy_quinnet.Net.{Net}
use bevy_quinnet.Peer.{PeerConnection}
use bevy_quinnet.Peer.Receive.{internal_receive_payload, clear_stale_received_payloads}
use bevy_quinnet.Peer.Buffers.{buffered}

abbrev pub oldest : List Bytes → Option Bytes
oldest [] = none
oldest (p ∷ ps) = some p

abbrev pub others : List Bytes → List Bytes
others [] = []
others (p ∷ ps) = ps

buffered_empty : (buffers : List (List Bytes)) (j : ℕ) → buffered j (map (λ b. []) buffers) ≡ []
buffered_empty [] j = refl
buffered_empty (b ∷ buffers) Prim.Native.Nat.zero = refl
buffered_empty (b ∷ buffers) (Prim.Native.Nat.suc j) = buffered_empty buffers j

module _ (N : Net) {S : Type 0} where
  -- A read answers the oldest payload of its channel, or none, and removes that one; the buffers of
  -- all other channels are as before.
  pub internal_receive_payload_lem :
      (c : PeerConnection N S) (id j : ℕ)
      → ((internal_receive_payload N c id).0 ≡ oldest (buffered id c.recv_channels_payloads))
        × (buffered j (internal_receive_payload N c id).1.recv_channels_payloads ≡ (
            if id == j
            then others (buffered id c.recv_channels_payloads)
            else buffered j c.recv_channels_payloads))
  unfolding internal_receive_payload
  internal_receive_payload_lem c id j = (
    ground arith,
    ground (
      arith,
      get_elem?_above c.recv_channels_payloads id,
      item-set [] c.recv_channels_payloads id j (others (buffered id c.recv_channels_payloads)),
    ),
  )

  -- The clearing at the end of an update empties the buffer of every channel if it is enabled, and
  -- changes no buffer otherwise.
  pub clear_stale_received_payloads_lem :
      (c : PeerConnection N S) (j : ℕ)
      → buffered j (clear_stale_received_payloads N c).recv_channels_payloads ≡ (
          if c.recv_channels_cfg.clear_stale_received_payloads
          then []
          else buffered j c.recv_channels_payloads)
  unfolding clear_stale_received_payloads
  clear_stale_received_payloads_lem c j = ground (arith, buffered_empty c.recv_channels_payloads j)
