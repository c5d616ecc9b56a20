-- ===== src/Client/Messages/InOrder.antt =====
-- The messages that a client reads from a channel.
use bevy_quinnet.Base.{
  ℕ, zero, suc, ◌≡◌, ◌≢◌, refl, ap, ◌∙◌, List, [], ◌∷◌, ◌++◌, Option, none, some, Result, ok, err,
  map, length, ◌==◌, if◌then◌else◌, ==_refl,
}
use bevy_quinnet.Buffer.{Bytes}
use bevy_quinnet.Bincode.{Bincode, BincodeLaws, Encodes}
use bevy_quinnet.Peer.Receive.{internal_receive_payload}
use bevy_quinnet.Peer.Buffers.{buffered}
use bevy_quinnet.Peer.Reading.{internal_receive_payload_lem, oldest, others}
use bevy_quinnet.Client.{
  ClientNet, ClientSideConnection, InternalConnectionState, ConnectionClosed, closed_connection,
}
use bevy_quinnet.Client.Connection.{receive_payload}
use bevy_quinnet.Client.Messages.{ClientMessageReceiveError, receive_message_on, read}

module _ (V : ClientNet) {T : Type 0} (b : Bincode T) (laws : BincodeLaws b) where
  -- `receive_message_on`, so many times: the answers, and the connection in the end.
  abbrev pub receive_times :
      ℕ
      → ClientSideConnection V
      → ℕ
      → List (Result (Option T) ClientMessageReceiveError) × ClientSideConnection V
  receive_times zero c id = ([], c)
  receive_times (suc n) c id =
      let (answer, c') = receive_message_on V b c id in
      let (answers, c'') = receive_times n c' id in (answer ∷ answers, c'')

  abbrev pub IsOpen : ClientSideConnection V → Type 0
  IsOpen c = c.specific.state ≢ InternalConnectionState.disconnected

  receive_payload_open :
      (c : ClientSideConnection V) (id : ℕ)
      → IsOpen c
      → receive_payload V c id
        ≡ (ok (internal_receive_payload V.net c id).0, (internal_receive_payload V.net c id).1)
  unfolding receive_payload
  receive_payload_open c id h = by_state c.specific.state h
    where
      by_state :
          (state : InternalConnectionState V.types.Handle)
          → state ≢ InternalConnectionState.disconnected
          → ◌≡◌ {A = Result (Option Bytes) ConnectionClosed × ClientSideConnection V}
              (elim state [
                | InternalConnectionState.disconnected ↦ (err closed_connection, c)
                | InternalConnectionState.connecting ↦ (
                  ok (internal_receive_payload V.net c id).0,
                  (internal_receive_payload V.net c id).1,
                )
                | InternalConnectionState.connected _ _ ↦ (
                  ok (internal_receive_payload V.net c id).0,
                  (internal_receive_payload V.net c id).1,
                )
              ])
              (ok (internal_receive_payload V.net c id).0, (internal_receive_payload V.net c id).1)
      by_state InternalConnectionState.connecting g = refl
      by_state (InternalConnectionState.connected x i) g = refl
      by_state InternalConnectionState.disconnected g = absurd (g refl)

  rest_of : ClientSideConnection V → ℕ → ClientSideConnection V
  rest_of c id = (internal_receive_payload V.net c id).1

  rest_of-IsOpen : (c : ClientSideConnection V) (id : ℕ) → IsOpen c → IsOpen (rest_of c id)
  unfolding rest_of internal_receive_payload
  rest_of-IsOpen c id h = h

  receive_message_open :
      (c : ClientSideConnection V) (id : ℕ)
      → IsOpen c
      → receive_message_on V b c id
        ≡ (read V b (ok (oldest (buffered id c.recv_channels_payloads))), rest_of c id)
  unfolding receive_message_on rest_of
  receive_message_open c id h = rw (receive_payload_open c id h) (
      ap (λ (p : Option Bytes). (read V b (ok p), (internal_receive_payload V.net c id).1))
        (internal_receive_payload_lem V.net c id id).0)

  rest_of-buffered :
      (c : ClientSideConnection V) (id j : ℕ)
      → buffered j (rest_of c id).recv_channels_payloads ≡ (
          if id == j
          then others (buffered id c.recv_channels_payloads)
          else buffered j c.recv_channels_payloads)
  unfolding rest_of
  rest_of-buffered c id j = (internal_receive_payload_lem V.net c id j).1

  rest_of_self :
      (c : ClientSideConnection V) (id : ℕ)
      → buffered id (rest_of c id).recv_channels_payloads
        ≡ others (buffered id c.recv_channels_payloads)
  rest_of_self c id = rest_of-buffered c id id ∙ rw (==_refl id)

  -- Let a client's connection not be disconnected, and let the payloads that wait on a channel be
  -- encodings of messages by a codec that decodes what it encodes. As many calls of
  -- receive_message_on as there are messages, and one more, answer the messages, in order, and then
  -- that none is there; the channel's buffer is empty afterwards.
  pub receive_times_lem :
      (ms : List T) (ps : List Bytes) (c : ClientSideConnection V) (id : ℕ)
      → IsOpen c
      → buffered id c.recv_channels_payloads ≡ ps
      → Encodes b ms ps
      → ((receive_times (suc (length ms)) c id).0 ≡ map (λ m. ok (some m)) ms ++ ok none ∷ [])
        × (buffered id (receive_times (suc (length ms)) c id).1.recv_channels_payloads ≡ [])
  receive_times_lem [] [] c id h e enc = (
    rw (receive_message_open c id h, e) refl,
    rw (receive_message_open c id h) (rest_of_self c id ∙ ap others e),
  )
  receive_times_lem [] (p ∷ ps) c id h e enc = absurd enc
  receive_times_lem (m ∷ ms) [] c id h e enc = absurd enc
  receive_times_lem (m ∷ ms) (p ∷ ps) c id h e enc =
      let (answers, empty) =
        receive_times_lem ms ps (rest_of c id) id (rest_of-IsOpen c id h)
          (rest_of_self c id ∙ ap others e) enc.1 in
      (
        rw (receive_message_open c id h, e, laws.decode-encode m p enc.0)
            (ap (◌∷◌ (ok (some m))) answers),
        rw (receive_times, receive_message_open c id h) empty,
      )
