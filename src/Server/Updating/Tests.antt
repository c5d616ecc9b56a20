-- ===== src/Server/Updating/Tests.antt =====
-- The update of a server at which two clients arrive, the first of them leaves, and the second one's
-- channel reports a lost connection.
use bevy_quinnet.Base.{
  ℕ, ◌≤◌, ◌≡◌, refl, List, [], ◌∷◌, Option, none, some, Result, ok, err, true, false, length, map,
  arith,
}
use bevy_quinnet.Net.{
  Net, Mpsc, MpscLaws, full, TryRecvError, empty, ChannelAsyncMessage, lost_connection,
}
use bevy_quinnet.Net.Example.{sink, signal, pop, queue_laws}
use bevy_quinnet.Peer.{
  PeerConnection, close, try_recv_from_channels, new_connection, RecvChannelsConfiguration,
}
use bevy_quinnet.Peer.Opening.{is_open}
use bevy_quinnet.Server.{
  ServerNet, ServerAsyncMessage, ServerConnection, Endpoint, new_endpoint, client_connected,
  client_connection_closed,
}
use bevy_quinnet.Server.Consistency.{IsConsistent}
use bevy_quinnet.Server.Start.Opened.{new_endpoint-IsConsistent}
use bevy_quinnet.Server.Connections.{
  handle_new_connection, accept_connection, open_channels_on, try_disconnect_closed_client,
  internal_disconnect_client, try_disconnect_client, disconnect_client,
}
use bevy_quinnet.Server.Events.{
  Written, handle_server_events, handle_messages, handle_message, drain_clients, drain_channels,
  disconnect_lost,
}
use bevy_quinnet.Base.HashMap
use bevy_quinnet.Base.BTreeSet.{contains}
use bevy_quinnet.Server.Quiet.{Keeps, Quiet}
use bevy_quinnet.Server.Updating.{Emptied, handle_server_events_lem}

-- What arrives: a connection, or the end of a client's.
record World : Type 0 where
  arriving : List (Option ℕ)
  waiting : List ChannelAsyncMessage

abbrev channel_queue : Mpsc World ChannelAsyncMessage
channel_queue = record {
  Sender = Unit {0};
  Receiver = Unit {0};
  channel = λ n w. (tt, tt, w);
  try_send = λ s a w. (err full, w);
  blocking_send = λ s a w. (ok tt, w);
  send = λ s a w. (ok tt, w);
  try_recv = λ r w. ((pop w.waiting).0, record w { waiting = (pop w.waiting).1 });
}

abbrev net : Net
net = record {
  World = World;
  payloads = sink World _ true;
  channel_closes = sink World (Unit {0}) true;
  channel_syncs = sink World _ true;
  channel_asyncs = channel_queue;
  received = sink World _ true;
  closes = signal World _;
}

abbrev Connection : Type 0
Connection = ServerConnection (Unit {0}) (Unit {0})

abbrev cfg : RecvChannelsConfiguration
cfg = record {
  max_buffered_payloads_count_per_channel = 2;
  max_receive_channels_count = 3;
  clear_stale_received_payloads = true;
}

abbrev newcomer : PeerConnection net Connection
newcomer =
    new_connection net (record { connection_handle = tt; to_connection_send = tt }) tt tt tt tt cfg

abbrev message_of : Option ℕ → ServerAsyncMessage net Connection
message_of none = client_connected newcomer
message_of (some client_id) = client_connection_closed client_id

abbrev arrive :
    List (Option ℕ) → Result (ServerAsyncMessage net Connection) TryRecvError × List (Option ℕ)
arrive [] = (err empty, [])
arrive (a ∷ rest) = (ok (message_of a), rest)

abbrev arrivals : Mpsc World (ServerAsyncMessage net Connection)
arrivals = record {
  Sender = Unit {0};
  Receiver = Unit {0};
  channel = λ n w. (tt, tt, w);
  try_send = λ s a w. (err full, w);
  blocking_send = λ s a w. (ok tt, w);
  send = λ s a w. (ok tt, w);
  try_recv = λ r w. ((arrive w.arriving).0, record w { arriving = (arrive w.arriving).1 });
}

abbrev server_net : ServerNet
server_net = record {
  net = net;
  Handle = Unit {0};
  syncs = sink World _ true;
  asyncs = arrivals;
  handler_closes = signal World _;
}

abbrev waiting_laws : MpscLaws channel_queue
waiting_laws = record {
  backlog = λ r w. w.waiting;
  try_recv_cons =
      λ r w m rest e. (queue_laws ChannelAsyncMessage).try_recv_cons tt w.waiting m rest e;
  try_recv_nil = λ r w e. (queue_laws ChannelAsyncMessage).try_recv_nil tt w.waiting e;
}

arrive-cons :
    (ws : List (Option ℕ)) (m : ServerAsyncMessage net Connection)
    (rest : List (ServerAsyncMessage net Connection))
    → map message_of ws ≡ m ∷ rest
    → ((arrive ws).0 ≡ ok m) × (map message_of (arrive ws).1 ≡ rest)
arrive-cons [] m rest e = cc
arrive-cons (x ∷ xs) m rest e = (cc, cc)

arrive-nil :
    (ws : List (Option ℕ))
    → map message_of ws ≡ []
    → (x : TryRecvError) × ((arrive ws).0 ≡ err x) × (map message_of (arrive ws).1 ≡ [])
arrive-nil [] e = (empty, refl, refl)
arrive-nil (x ∷ xs) e = cc

abbrev arrival_laws : MpscLaws arrivals
arrival_laws = record {
  backlog = λ r w. map message_of w.arriving;
  try_recv_cons = λ r w m rest e. arrive-cons w.arriving m rest e;
  try_recv_nil = λ r w e. arrive-nil w.arriving e;
}

pop_shorter : (xs : List ChannelAsyncMessage) → length (pop xs).1 ≤ length xs
pop_shorter [] = omega arith
pop_shorter (x ∷ xs) = omega arith

kept : {X : Type 0} (f : World → X) → Keeps server_net f
kept f = record {
  payloads_channel = λ n w. refl;
  channel_closes_channel = λ n w. refl;
  channel_syncs_try_send = λ s m w. refl;
  syncs_try_send = λ s m w. refl;
  closes_send = λ s r w. refl;
}

quiet : Quiet server_net arrival_laws waiting_laws
quiet = record {
  asyncs_kept = λ r. kept (arrival_laws.backlog r);
  channels_kept = λ r. kept (waiting_laws.backlog r);
  asyncs-channels = λ r q w. refl;
  channels-asyncs = λ r q w. refl;
  channels-channels = λ q r w. pop_shorter w.waiting;
}

abbrev busy : World
busy = record {
  arriving = none ∷ some 1 ∷ none ∷ [];
  waiting = lost_connection ∷ lost_connection ∷ [];
}

abbrev endpoint : Endpoint server_net
endpoint = new_endpoint server_net tt tt cfg

no_channels : (id : ℕ) → is_open net newcomer id ≡ false
unfolding new_connection
no_channels id = refl

handle_server_events_lem_example :
    (e' : Endpoint server_net) × (t : Written) × (w' : World) × (handle_server_events server_net 4
        endpoint busy
      ≡ some (e', t, w'))
    × IsConsistent server_net e'
    × (map message_of w'.arriving ≡ [])
    × Emptied server_net arrival_laws waiting_laws quiet e'.clients w'
unfolding new_endpoint
handle_server_events_lem_example =
    handle_server_events_lem server_net arrival_laws waiting_laws quiet 4 endpoint busy
      (new_endpoint-IsConsistent server_net tt tt cfg) (no_channels, (tt, (no_channels, tt)))
      (omega arith) (λ q. omega arith)

abbrev outcome : Option (Endpoint server_net × Written × World) → List ℕ × List ℕ × List ℕ
outcome none = ([], [], [])
outcome (some (e, t, w)) = (t.connected, t.lost, HashMap.keys e.clients)

-- Two clients came, both are lost and nobody is left.
update : outcome (handle_server_events server_net 4 endpoint busy) ≡ (1 ∷ 2 ∷ [], 1 ∷ 2 ∷ [], [])
unfolding handle_server_events handle_messages handle_message handle_new_connection
    accept_connection open_channels_on try_disconnect_closed_client internal_disconnect_client
    drain_clients drain_channels disconnect_lost try_disconnect_client disconnect_client
    new_endpoint try_recv_from_channels close HashMap.insert HashMap.remove HashMap.get
    HashMap.contains_key HashMap.keys contains
update = refl
