-- ===== src/ClientId/Exchange.antt =====
-- A client's id, from the server to the client.
use bevy_quinnet.Base.{
  ℕ, ◌^◌, ◌≤◌, ◌<◌, ◌≡◌, ap, [], ◌++◌, some, ok, length, length-append, arith, leb, true,
}
use bevy_quinnet.Buffer.{Bytes, Buffer, BufferLaws}
use bevy_quinnet.Tasks.Receiver.{next}
use bevy_quinnet.ClientId.{client_id_bytes, retrieved, receive_client_id}

module _ (b : Buffer) (laws : BufferLaws b) where
  id_bytes : (client_id : ℕ) → client_id_bytes b client_id ≡ laws.uint_bytes client_id 8
  unfolding client_id_bytes
  id_bytes client_id = laws.put_uint_lem client_id 8 []

  long_enough : (n : ℕ) → 8 ≤ n → leb 8 n ≡ true
  long_enough n h = ground arith

  -- The frame that the server fills with a client's id below 256^8, with any bytes behind it, is
  -- received by the client as that id.
  pub receive-client_id_bytes :
      (QuicError : Type 0) (client_id : ℕ) (rest : Bytes)
      → client_id < 256 ^ 8
      → receive_client_id b {QuicError = QuicError}
          (next (ok (some (ok (client_id_bytes b client_id ++ rest)))))
        ≡ retrieved client_id
  unfolding receive_client_id
  receive-client_id_bytes QuicError client_id rest h = rw (id_bytes client_id) (
      rw (long_enough (length (laws.uint_bytes client_id 8 ++ rest)) enough)
        (ap retrieved (laws.get_uint_lem client_id 8 rest h)))
    where
      enough : 8 ≤ length (laws.uint_bytes client_id 8 ++ rest)
      enough = omega (
        arith,
        length-append (laws.uint_bytes client_id 8) rest,
        laws.length-uint_bytes client_id 8,
      )
