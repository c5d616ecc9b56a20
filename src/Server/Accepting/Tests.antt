-- ===== src/Server/Accepting/Tests.antt =====
-- A connection that is announced to an endpoint. The world holds the messages for the endpoint, with
-- what is left of a connection when the ends of its queues, of which there is one, are forgotten.
use bevy_quinnet.Base.{
  ℕ, ◌≡◌, refl, ap, List, [], ◌∷◌, ◌++◌, Option, none, some, Result, ok, err, true, map, ◌⊎◌, inl,
  inr,
}
use bevy_quinnet.Buffer.{Bytes}
use bevy_quinnet.Net.{Net, Mpsc, MpscLaws, TryRecvError, empty}
use bevy_quinnet.Net.Example.{sink, signal}
use bevy_quinnet.Peer.{Channel, ConnectionStats, PeerConnection, RecvChannelsConfiguration}
use bevy_quinnet.Server.{
  ServerNet, ServerSideConnection, ServerAsyncMessage, ServerConnection, Endpoint, new_endpoint,
  client_connected, client_connection_closed,
}
use bevy_quinnet.Server.Accepting.{TaskEnds, announce}
use bevy_quinnet.Server.Accepting.Announced.{Creates, announce-handle_new_connection}
use bevy_quinnet.Server.Admission.{Admission}
use bevy_quinnet.Server.Connections.{handle_new_connection}
use bevy_quinnet.Server.Start.Opened.{new_endpoint-IsConsistent}
use bevy_quinnet.Tasks.Receiver.Arrival.{IsOpen}

record Stored : Type 0 where
  channels : List (Option ℕ)
  stats : ConnectionStats
  payloads : List (List Bytes)
  cfg : RecvChannelsConfiguration

abbrev World : Type 0
World = List (Stored ⊎ ℕ)

abbrev net : Net
net = record {
  World = World;
  payloads = sink World _ true;
  channel_closes = sink World (Unit {0}) true;
  channel_syncs = sink World _ true;
  channel_asyncs = sink World _ true;
  received = sink World _ true;
  closes = signal World _;
}

abbrev Connection : Type 0
Connection = ServerConnection (Unit {0}) (Unit {0})

abbrev Message : Type 0
Message = ServerAsyncMessage net Connection

abbrev id_of : Option (Channel net) → Option ℕ
id_of none = none
id_of (some c) = some c.id

abbrev with_id : Option ℕ → Option (Channel net)
with_id none = none
with_id (some id) = some (record { id = id; sender = tt; close_sender = tt })

with_id-id_of : (cs : List (Option (Channel net))) → map with_id (map id_of cs) ≡ cs
with_id-id_of [] = refl
with_id-id_of (none ∷ cs) = ap (◌∷◌ none) (with_id-id_of cs)
with_id-id_of (some c ∷ cs) = ap (◌∷◌ (some c)) (with_id-id_of cs)

abbrev encode : Message → Stored ⊎ ℕ
encode (client_connected c) = inl (record {
  channels = map id_of c.send_channels;
  stats = c.stats;
  payloads = c.recv_channels_payloads;
  cfg = c.recv_channels_cfg;
})
encode (client_connection_closed id) = inr id

abbrev connection_with : Stored → List (Option (Channel net)) → PeerConnection net Connection
connection_with s cs = record {
  specific = record { connection_handle = tt; to_connection_send = tt };
  send_channels = cs;
  bytes_from_peer_recv = tt;
  to_channels_send = tt;
  from_channels_recv = tt;
  close_send = tt;
  stats = s.stats;
  recv_channels_payloads = s.payloads;
  recv_channels_cfg = s.cfg;
}

abbrev decode : Stored ⊎ ℕ → Message
decode (inl s) = client_connected (connection_with s (map with_id s.channels))
decode (inr id) = client_connection_closed id

abbrev with_channels : PeerConnection net Connection → List (Option (Channel net)) → Message
with_channels c cs = client_connected (record c { send_channels = cs })

decode-encode : (m : Message) → decode (encode m) ≡ m
decode-encode (client_connected c) = ap (with_channels c) (with_id-id_of c.send_channels)
decode-encode (client_connection_closed id) = refl

abbrev first : World → Result Message TryRecvError × World
first [] = (err empty, [])
first (a ∷ rest) = (ok (decode a), rest)

abbrev arrivals : Mpsc World Message
arrivals = record {
  Sender = Unit {0};
  Receiver = Unit {0};
  channel = λ n w. (tt, tt, w);
  try_send = λ s a w. (ok tt, w ++ encode a ∷ []);
  blocking_send = λ s a w. (ok tt, w ++ encode a ∷ []);
  send = λ s a w. (ok tt, w ++ encode a ∷ []);
  try_recv = λ r w. first w;
}

first-cons :
    (w : World) (m : Message) (rest : List Message)
    → map decode w ≡ m ∷ rest
    → ((first w).0 ≡ ok m) × (map decode (first w).1 ≡ rest)
first-cons [] m rest e = cc
first-cons (x ∷ xs) m rest e = (cc, cc)

first-nil :
    (w : World)
    → map decode w ≡ []
    → (x : TryRecvError) × ((first w).0 ≡ err x) × (map decode (first w).1 ≡ [])
first-nil [] e = (empty, refl, refl)
first-nil (x ∷ xs) e = cc

abbrev arrival_laws : MpscLaws arrivals
arrival_laws = record {
  backlog = λ r w. map decode w;
  try_recv_cons = λ r w m rest e. first-cons w m rest e;
  try_recv_nil = λ r w e. first-nil w e;
}

added : (w : World) (m : Message) → map decode (w ++ encode m ∷ []) ≡ map decode w ++ m ∷ []
added [] m = ap (λ (x : Message). x ∷ []) (decode-encode m)
added (x ∷ xs) m = ap (◌∷◌ (decode x)) (added xs m)

arrivals-IsOpen : IsOpen arrivals arrival_laws tt tt
arrivals-IsOpen = record { send_ok = λ a w. refl; send_backlog = λ a w. added w a }

abbrev server_net : ServerNet
server_net = record {
  net = net;
  Handle = Unit {0};
  syncs = sink World _ true;
  asyncs = arrivals;
  handler_closes = signal World _;
}

creates : Creates server_net arrival_laws tt
creates = record {
  closes_kept = λ n w. refl;
  received_kept = λ n w. refl;
  syncs_kept = λ n w. refl;
  channel_asyncs_kept = λ n w. refl;
  channel_syncs_kept = λ n w. refl;
}

abbrev cfg : RecvChannelsConfiguration
cfg = record {
  max_buffered_payloads_count_per_channel = 2;
  max_receive_channels_count = 3;
  clear_stale_received_payloads = true;
}

abbrev endpoint : Endpoint server_net
endpoint = new_endpoint server_net tt tt cfg

announce-handle_new_connection_example :
    (c : ServerSideConnection server_net) × (ends : TaskEnds server_net) × (w' : World) × (announce
        server_net tt tt cfg []
      ≡ some (ends, w'))
    × (c.specific.connection_handle ≡ tt)
    × ((first w').0 ≡ ok (client_connected c))
    × Admission server_net endpoint (handle_new_connection server_net endpoint c (first w').1)
unfolding new_endpoint
announce-handle_new_connection_example =
    announce-handle_new_connection server_net arrival_laws tt creates tt arrivals-IsOpen tt cfg []
      endpoint refl (new_endpoint-IsConsistent server_net tt tt cfg) refl
