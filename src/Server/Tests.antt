-- ===== src/Server/Tests.antt =====
-- The theorems of Server at a concrete endpoint.
use bevy_quinnet.Base.{
  ℕ, zero, suc, sym, inl, inr, Bool-cases, ◌≢◌, ◌⊎◌, Result, ◌≡◌, ◌<◌, refl, List, [], ◌∷◌, Option,
  none, some, ok, err, Bool, true, false, arith, ◌==◌,
}
use mathlib.Core.Option.{none-ne-some, some-injective}
use bevy_quinnet.Base.{map}
use bevy_quinnet.Base.HashMap
use bevy_quinnet.Base.HashMap.{Entries}
use bevy_quinnet.Base.BTreeSet
use bevy_quinnet.Base.BTreeSet.{
  range-IsAscending, contains-range, contains_below, IsAscending-weaken,
}
use bevy_quinnet.Error.{ChannelCloseError}
use bevy_quinnet.Config.{unreliable, local_order}
use bevy_quinnet.IdPool.Allocation.{is_free}
use bevy_quinnet.Net.Example.{sink_net, sink, signal, try_answer}
use bevy_quinnet.Peer
use bevy_quinnet.Peer.{
  internal_close_channel, close_taken, new_connection, RecvChannelsConfiguration,
}
use bevy_quinnet.Peer.Opening.{is_open}
use bevy_quinnet.Server.{
  ServerNet, ServerSideConnection, ServerGroupSendError, Endpoint, new_endpoint,
}
use bevy_quinnet.Server.Channels.{open_channel, close_channel, close_on_all, close_opened}
use bevy_quinnet.Server.Connections.{internal_disconnect_client, handle_new_connection}
use bevy_quinnet.Server.Events.{QuinnetServer, is_listening}
use bevy_quinnet.Server.Consistency.{
  IsConsistent, Opened, open_channel_lem, internal_disconnect_client_lem,
}
use bevy_quinnet.Server.Admission.{Admission, handle_new_connection_lem}
use bevy_quinnet.Bincode.{bytes_codec}
use bevy_quinnet.Server.Messages.{send_group_message_on}
use bevy_quinnet.Server.Messages.Group.{as_message, send_group_message_on_lem}
use bevy_quinnet.Server.Send.{broadcast_payload_on, send_group_payload_on}
use bevy_quinnet.Server.Sending.{counted, enqueue_all, queue_error, broadcast_payload_on_lem}
use bevy_quinnet.Net.{Mpsc, empty}
use bevy_quinnet.Buffer.{Bytes}
use bevy_quinnet.Error.{full_queue}
use bevy_quinnet.Server.Closing.{close_channel_ok, close_channel_err}
use bevy_quinnet.Server.Conditions.{
  server_listening, server_just_opened, server_just_closed, opened_count, closed_count,
  opened_count-closed_count,
}

-- A server whose channels can be closed, or not.
abbrev server_net : Bool → ServerNet
server_net closes = record {
  net = sink_net (Unit {0}) true closes;
  Handle = Unit {0};
  syncs = sink (Unit {0}) _ true;
  asyncs = sink (Unit {0}) _ true;
  handler_closes = signal (Unit {0}) _;
}

abbrev cfg : RecvChannelsConfiguration
cfg = record {
  max_buffered_payloads_count_per_channel = 2;
  max_receive_channels_count = 3;
  clear_stale_received_payloads = true;
}

abbrev fresh : (closes : Bool) → ServerSideConnection (server_net closes)
fresh closes =
    new_connection (sink_net (Unit {0}) true closes)
      (record { connection_handle = tt; to_connection_send = tt }) tt tt tt tt cfg

-- One client, with channel 0 open.
abbrev endpoint : (closes : Bool) → Endpoint (server_net closes)
endpoint closes = record (new_endpoint (server_net closes) tt tt cfg) {
  clients =
      (
        1,
        record (fresh closes) {
          send_channels = some (record { id = 0; sender = tt; close_sender = tt }) ∷ [];
        },
      )
      ∷ [];
  client_id_gen = 1;
  opened_channels = (0, unreliable) ∷ [];
  send_channel_ids = record {
    available_channel_ids = BTreeSet.range 1 255;
    default_channel = some 0;
  };
}

abbrev client : (closes : Bool) → ServerSideConnection (server_net closes)
client closes = record (fresh closes) {
  send_channels = some (record { id = 0; sender = tt; close_sender = tt }) ∷ [];
}

ids_from_one : BTreeSet.IsAscending 1 256 (BTreeSet.range 1 255)
ids_from_one = range-IsAscending 1 255 256 (omega arith)

not_below : (id : ℕ) → id < 1 → BTreeSet.contains id (BTreeSet.range 1 255) ≡ false
not_below id h = contains_below id 1 256 (BTreeSet.range 1 255) h ids_from_one

client_open :
    (closes : Bool) (id : ℕ)
    → is_open (server_net closes).net (client closes) id
      ≡ HashMap.contains_key id (endpoint closes).opened_channels
unfolding new_endpoint new_connection HashMap.contains_key
client_open closes zero = refl
client_open closes (suc id) = ground arith

endpoint-IsConsistent : (closes : Bool) → IsConsistent (server_net closes) (endpoint closes)
unfolding new_endpoint new_connection HashMap.contains_key HashMap.get
endpoint-IsConsistent closes = record {
  ids = IsAscending-weaken 1 0 256 (BTreeSet.range 1 255) (omega arith) ids_from_one;
  in_range = λ id h. ground arith;
  split = λ id lt. ground (arith, contains-range id 1 255, not_below id);
  clients_open = λ cid c g id. elim (Bool-cases (1 == cid)) [
    | inl y ↦ rw (sym (some-injective (client closes) c (rw y at g))) (client_open closes id)
    | inr n ↦ absurd (none-ne-some c (rw n at g))
  ];
}

open_channel_lem_example :
    Opened
      (server_net true)
      (endpoint true)
      unreliable
      (open_channel (server_net true) (endpoint true) unreliable tt)
open_channel_lem_example =
    open_channel_lem (server_net true) (endpoint true) unreliable tt (endpoint-IsConsistent true)

internal_disconnect_client_lem_example :
    IsConsistent
      (server_net true)
      (internal_disconnect_client (server_net true) (endpoint true) 1 local_order tt).1
    × (HashMap.get 1
          (internal_disconnect_client (server_net true) (endpoint true) 1 local_order tt).1.clients
        ≡ none)
internal_disconnect_client_lem_example =
    internal_disconnect_client_lem (server_net true) (endpoint true) 1 1 local_order tt
      (endpoint-IsConsistent true)

no_channels : (id : ℕ) → is_open (server_net true).net (fresh true) id ≡ false
unfolding new_connection
no_channels id = refl

handle_new_connection_lem_example :
    Admission
      (server_net true)
      (endpoint true)
      (handle_new_connection (server_net true) (endpoint true) (fresh true) tt)
handle_new_connection_lem_example =
    handle_new_connection_lem (server_net true) (endpoint true) (fresh true) tt
      (endpoint-IsConsistent true) no_channels

closes_everywhere : (close_channel (server_net true) (endpoint true) 0 tt).0 ≡ ok tt
unfolding new_endpoint new_connection close_channel close_opened close_on_all internal_close_channel
    close_taken Peer.close_channel HashMap.get
closes_everywhere = refl

is_listed : (closes : Bool) → HashMap.contains_key 0 (endpoint closes).opened_channels ≡ true
unfolding HashMap.contains_key
is_listed closes = refl

close_channel_ok_example :
    IsConsistent (server_net true) (close_channel (server_net true) (endpoint true) 0 tt).1
    × (is_free 0 (close_channel (server_net true) (endpoint true) 0 tt).1.send_channel_ids ≡ true)
    × (HashMap.contains_key 0
          (close_channel (server_net true) (endpoint true) 0 tt).1.opened_channels
        ≡ false)
close_channel_ok_example =
    close_channel_ok (server_net true) (endpoint true) 0 tt (endpoint-IsConsistent true)
      (is_listed true) closes_everywhere

close_fails :
    (close_channel (server_net false) (endpoint false) 0 tt).0
    ≡ err ChannelCloseError.channel_already_closed
unfolding new_endpoint new_connection close_channel close_opened close_on_all internal_close_channel
    close_taken Peer.close_channel HashMap.get
close_fails = refl

close_channel_err_example :
    (is_free 0 (close_channel (server_net false) (endpoint false) 0 tt).1.send_channel_ids ≡ false)
    × (HashMap.contains_key 0
          (close_channel (server_net false) (endpoint false) 0 tt).1.opened_channels
        ≡ false)
close_channel_err_example =
    close_channel_err (server_net false) (endpoint false) 0 tt
      ChannelCloseError.channel_already_closed (endpoint-IsConsistent false) (is_listed false)
      close_fails

-- Not there, listening twice, closed.
abbrev seen : List (Option (QuinnetServer (server_net true)))
seen =
    none
    ∷ some (record { endpoint = some (endpoint true) })
    ∷ some (record { endpoint = some (endpoint true) })
    ∷ some (record { endpoint = none })
    ∷ []

opened_count-closed_count_example :
    opened_count (server_net true) false seen ≡ closed_count (server_net true) false seen
unfolding server_listening server_just_opened server_just_closed is_listening
opened_count-closed_count_example = opened_count-closed_count (server_net true) false seen

-- Queues that are full, or not.
abbrev full_or_not : Mpsc (Unit {0}) Bytes
full_or_not = record {
  Sender = Bool;
  Receiver = Unit {0};
  channel = λ n w. (true, tt, w);
  try_send = λ takes a w. (try_answer takes, w);
  blocking_send = λ takes a w. (ok tt, w);
  send = λ takes a w. (ok tt, w);
  try_recv = λ r w. (err empty, w);
}

abbrev busy_net : ServerNet
busy_net = record {
  net = record {
    World = Unit {0};
    payloads = full_or_not;
    channel_closes = sink (Unit {0}) (Unit {0}) true;
    channel_syncs = sink (Unit {0}) _ true;
    channel_asyncs = sink (Unit {0}) _ true;
    received = sink (Unit {0}) _ true;
    closes = signal (Unit {0}) _;
  };
  Handle = Unit {0};
  syncs = sink (Unit {0}) _ true;
  asyncs = sink (Unit {0}) _ true;
  handler_closes = signal (Unit {0}) _;
}

abbrev busy_client : Bool → ServerSideConnection busy_net
busy_client takes =
    record (new_connection busy_net.net (record { connection_handle = tt; to_connection_send = tt })
      tt tt tt tt cfg) {
        send_channels = some (record { id = 0; sender = takes; close_sender = tt }) ∷ [];
      }

-- The first client's queue is full.
abbrev busy : Endpoint busy_net
busy = record (new_endpoint busy_net tt tt cfg) {
  clients = (1, busy_client false) ∷ (7, busy_client true) ∷ [];
}

all_open : Entries (λ cid c. is_open busy_net.net c 0 ≡ true) busy.clients
all_open = (refl, (refl, tt))

abbrev one_full : ServerGroupSendError
one_full = (1, queue_error full_queue) ∷ []

broadcast_payload_on_lem_example :
    (r : Result (Unit {0}) ServerGroupSendError) × (broadcast_payload_on busy_net busy 0
        (1 ∷ 2 ∷ [])
        tt
      ≡ (
        r,
        record busy {
          clients = map (λ entry. (entry.0, counted busy_net (1 ∷ 2 ∷ []) entry.1)) busy.clients;
        },
        tt,
      ))
    × (((one_full ≡ []) × (r ≡ ok tt)) ⊎ ((one_full ≢ []) × (r ≡ err one_full)))
unfolding enqueue_all new_connection new_endpoint
broadcast_payload_on_lem_example = broadcast_payload_on_lem busy_net busy 0 (1 ∷ 2 ∷ []) tt all_open

send_group_message_on_lem_example :
    send_group_message_on (server_net true) bytes_codec (endpoint true) (1 ∷ 7 ∷ []) 0 9 tt
    ≡ as_message
        (server_net true)
        bytes_codec
        (send_group_payload_on (server_net true) (endpoint true) (1 ∷ 7 ∷ []) 0 (9 ∷ []) tt)
send_group_message_on_lem_example =
    send_group_message_on_lem (server_net true) bytes_codec (endpoint true) (1 ∷ 7 ∷ []) 0 9
      (9 ∷ []) tt refl
