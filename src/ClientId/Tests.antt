-- ===== src/ClientId/Tests.antt =====
-- The exchange of one id.
use bevy_quinnet.Base.{◌≡◌, [], ◌++◌, some, ok, arith}
use bevy_quinnet.Buffer.{big_endian, big_endian_laws}
use bevy_quinnet.Tasks.Receiver.{next}
use bevy_quinnet.ClientId.{client_id_bytes, retrieved, receive_client_id}
use bevy_quinnet.ClientId.Exchange.{receive-client_id_bytes}

receive-client_id_bytes_example :
    receive_client_id big_endian {QuicError = Unit {0}}
      (next (ok (some (ok (client_id_bytes big_endian 300 ++ [])))))
    ≡ retrieved 300
receive-client_id_bytes_example =
    receive-client_id_bytes big_endian big_endian_laws (Unit {0}) 300 [] (omega arith)
