-- ===== src/Client/Tests.antt =====
-- The theorems of Client at concrete connections.
use bevy_quinnet.Base.{
  ℕ, ◌≢◌, ◌⊎◌, ◌≡◌, ◌≤◌, ◌+◌, refl, List, [], ◌∷◌, none, some, Result, length, ok, err, Bool, true,
  false, arith, if◌then◌else◌, ◌==◌, ◌||◌,
}
use bevy_quinnet.Error.{full_queue, ChannelCreationError}
use bevy_quinnet.Config.{unreliable, SendChannelsConfiguration}
use bevy_quinnet.IdPool.{new, ChannelsIdsPool, take_id}
use bevy_quinnet.IdPool.Allocation.{is_free, new-IsValid}
use bevy_quinnet.IdPool.Counting.{take_id_first, new_ids}
use bevy_quinnet.Base.BTreeSet
use bevy_quinnet.Certificate.{skip_verification}
use bevy_quinnet.Net.Example.{sink_net, queue, queue_laws}
use bevy_quinnet.Peer.{
  new_connection, RecvChannelsConfiguration, internal_close_channel, create_connection_channel,
  create_unregistered_connection_channel,
}
use bevy_quinnet.Peer.Opening.{is_open}
use bevy_quinnet.Client.{
  Types, ClientNet, ClientSideConnection, ClientAsyncMessage, ConnectionState,
  new_client_connection, ClientConnectionConfiguration, ClientAddrConfiguration,
}
use bevy_quinnet.Client.Connection.{open_channel, close_channel, set_ids, from_internal}
use bevy_quinnet.Client.Registry.{new_client, open_connection}
use bevy_quinnet.Client.Events.{handle_messages, ClientEvent}
use bevy_quinnet.Client.Lifecycle.{
  transitions, handle_messages-lost_count, handle_messages_lem, lost_count, connected_count,
  is_live,
}
use bevy_quinnet.Client.Ids.{
  IsAgreed, Opened, open_channel-IsAgreed, open_channel_leak, close_channel-IsAgreed, is_ok,
}
use bevy_quinnet.Client.Verification.{
  Outside, TofuServerVerification, VerificationError, abort_requested, abort_not_signalled,
  verify_server_cert, known,
}
use bevy_quinnet.Client.Verification.Untrusted.{abort_of, verify_server_cert-untrusted}
use bevy_quinnet.Net.{TrySendError}
use bevy_quinnet.Buffer.{Bytes}
use bevy_quinnet.Bincode.{BincodeLaws, bytes_codec}
use bevy_quinnet.Peer.Buffers.{buffered}
use bevy_quinnet.Client.Messages.InOrder.{receive_times, receive_times_lem}
use bevy_quinnet.Client.Tracking.{ConnectionOpened, open_connection_lem}

abbrev types : Types
types = record {
  Handle = Unit {0};
  QuicError = Unit {0};
  ServerName = Unit {0};
  ActionSender = Unit {0};
  SocketAddr = Unit {0};
  Text = Unit {0};
}

-- A client whose connections can open channels, or not. Its world is the queue of its messages.
abbrev client_net : Bool → ClientNet
client_net opens = record {
  net = sink_net (List (ClientAsyncMessage types)) opens true;
  types = types;
  asyncs = queue (ClientAsyncMessage types);
  spawn = λ config s1 s2 r3 s4 w. w;
}

abbrev addr : ClientAddrConfiguration (Unit {0}) (Unit {0})
addr = record { server_addr = tt; server_hostname = tt; local_bind_addr = tt }

abbrev cfg : RecvChannelsConfiguration
cfg = record {
  max_buffered_payloads_count_per_channel = 2;
  max_receive_channels_count = 3;
  clear_stale_received_payloads = true;
}

abbrev two_channels : SendChannelsConfiguration
two_channels = record { channels = unreliable ∷ unreliable ∷ [] }

abbrev connection : (opens : Bool) → ClientSideConnection (client_net opens)
connection opens =
    new_connection (sink_net (List (ClientAsyncMessage types)) opens true)
      (new_client_connection (client_net opens) 0 addr skip_verification two_channels tt) tt tt tt
      tt cfg

connection-IsAgreed : (opens : Bool) → IsAgreed (client_net opens) (connection opens)
unfolding new_connection new_client_connection
connection-IsAgreed opens = record {
  ids = new-IsValid;
  in_range = λ id h. ground arith;
  taken = λ id h. ground arith;
}

-- It connects, is closed twice, and connects again.
abbrev messages : List (ClientAsyncMessage types)
messages =
    ClientAsyncMessage.connected tt none
    ∷ ClientAsyncMessage.connection_closed
    ∷ ClientAsyncMessage.connection_closed
    ∷ ClientAsyncMessage.connected tt none
    ∷ []

handle_messages-lost_count_example :
    (c' : ClientSideConnection (client_net true)) × (events : List (ClientEvent types)) × (w' : List
      (ClientAsyncMessage types))
    × (handle_messages (client_net true) 5 0 (connection true) messages ≡ some (c', events, w'))
    × (lost_count types events + is_live types (from_internal c'.specific.state)
        ≤ 1 + connected_count types events)
unfolding new_connection new_client_connection from_internal
handle_messages-lost_count_example =
    handle_messages-lost_count (client_net true) (queue_laws (ClientAsyncMessage types))
      (λ r s reason w. refl) 5 0 (connection true) messages (omega arith)

handle_messages_lem_example :
    (c' : ClientSideConnection (client_net true)) × (w' : List (ClientAsyncMessage types))
    × (handle_messages (client_net true) 5 0 (connection true) messages
        ≡ some (c', (transitions types 0 ConnectionState.connecting messages).1, w'))
    × (from_internal c'.specific.state
        ≡ (transitions types 0 ConnectionState.connecting messages).0)
    × (w' ≡ [])
unfolding new_connection new_client_connection from_internal
handle_messages_lem_example =
    handle_messages_lem (client_net true) (queue_laws (ClientAsyncMessage types))
      (λ r s reason w. refl) 5 0 (connection true) messages messages refl (omega arith)

open_channel-IsAgreed_example :
    Opened
      (client_net true)
      (connection true)
      (open_channel (client_net true) (connection true) unreliable [])
    × IsAgreed (client_net true) (open_channel (client_net true) (connection true) unreliable []).1
open_channel-IsAgreed_example =
    open_channel-IsAgreed (client_net true) (connection true) unreliable []
      (connection-IsAgreed true)

-- The ids after the first was taken.
abbrev ids_left : ChannelsIdsPool
ids_left = record { available_channel_ids = BTreeSet.range 1 255; default_channel = some 0 }

refused :
    (create_connection_channel
      (client_net false).net
      (set_ids (client_net false) (connection false) ids_left)
      0
      unreliable
      []).0
    ≡ err full_queue
unfolding create_connection_channel create_unregistered_connection_channel
refused = refl

taken : take_id (connection false).specific.send_channel_ids ≡ (ok 0, ids_left)
unfolding new_connection new_client_connection BTreeSet.range new
taken = take_id_first new 0 (BTreeSet.range 1 255) new_ids

open_channel_leak_example :
    ((open_channel (client_net false) (connection false) unreliable []).0
      ≡ err (ChannelCreationError.async_channel_error full_queue))
    × (is_open
          (client_net false).net
          (open_channel (client_net false) (connection false) unreliable []).1
          0
        ≡ false)
    × (is_free 0
          (open_channel
            (client_net false)
            (connection false)
            unreliable
            []).1.specific.send_channel_ids
        ≡ false)
    × (is_free 0 (connection false).specific.send_channel_ids ≡ true)
open_channel_leak_example =
    open_channel_leak (client_net false) (connection false) ids_left 0 full_queue unreliable []
      (connection-IsAgreed false) taken refused

close_channel-IsAgreed_example :
    IsAgreed (client_net true) (close_channel (client_net true) (connection true) 3 []).1
    × ((j : ℕ)
        → is_open (client_net true).net (close_channel (client_net true) (connection true) 3 []).1 j
          ≡ (if 3 == j then false else is_open (client_net true).net (connection true) j))
    × (is_free 3
          (close_channel (client_net true) (connection true) 3 []).1.specific.send_channel_ids
        ≡ (is_ok (internal_close_channel (client_net true).net (connection true) 3 []).0
            || is_free 3 (connection true).specific.send_channel_ids))
close_channel-IsAgreed_example =
    close_channel-IsAgreed (client_net true) (connection true) 3 [] (omega arith)
      (connection-IsAgreed true)

abbrev config : ClientConnectionConfiguration types
config = record {
  addr_config = addr;
  cert_mode = skip_verification;
  send_channels_cfg = two_channels;
  recv_channels_cfg = cfg;
}

open_connection_lem_example :
    ConnectionOpened
      (client_net true)
      (new_client (client_net true))
      config
      (open_connection (client_net true) (new_client (client_net true)) config [])
open_connection_lem_example =
    open_connection_lem (client_net true) (new_client (client_net true)) config [] (omega arith)

-- Server names are all the same, and a certificate is its own fingerprint.
abbrev outside : Outside (client_net true)
outside = record {
  same_name = λ n m. true;
  digest = λ certificate. certificate;
  ActionReceiver = Unit {0};
  oneshot = λ w. (tt, tt, w);
  block_on = λ r w. (none, w);
  store_known_hosts_to_file = λ file store w. (ok tt, w);
}

-- The server was known under another fingerprint, and nothing is configured.
abbrev verifier : TofuServerVerification (client_net true) outside
verifier = record {
  store = (tt, 1 ∷ 2 ∷ []) ∷ [];
  verifier_behaviour = [];
  to_sync_client = tt;
  hosts_file = none;
}

other_fingerprint : ◌≢◌ {A = Bytes} (1 ∷ 2 ∷ []) (1 ∷ 3 ∷ [])
other_fingerprint e = cc

abbrev told : ClientAsyncMessage types
told = abort_of (client_net true) outside (1 ∷ 3 ∷ []) [] tt (1 ∷ 2 ∷ [])

verify_server_cert-untrusted_example :
    (e : VerificationError) × (verify_server_cert
        (client_net true)
        outside
        verifier
        (1 ∷ 3 ∷ [])
        []
        tt
        []
      ≡ some (err e, told ∷ []))
    × (((◌≡◌ {A = Result (Unit {0}) TrySendError} (ok tt) (ok tt)) × (e ≡ abort_requested))
        ⊎ ((x : TrySendError) × (◌≡◌ {A = Result (Unit {0}) TrySendError} (ok tt) (err x))
            × (e ≡ abort_not_signalled)))
unfolding known
verify_server_cert-untrusted_example =
    verify_server_cert-untrusted (client_net true) outside verifier (1 ∷ 3 ∷ []) [] tt (1 ∷ 2 ∷ [])
      [] refl other_fingerprint tt

-- Two messages wait on channel 1.
abbrev reading : ClientSideConnection (client_net true)
reading = record (connection true) { recv_channels_payloads = [] ∷ ((7 ∷ []) ∷ (8 ∷ []) ∷ []) ∷ [] }

bytes_laws : BincodeLaws bytes_codec
bytes_laws = record { decode-encode = by_payload }
  where
    by_payload :
        (m : ℕ) (payload : Bytes)
        → ◌≡◌ {A = Result Bytes (Unit {0})} (ok (m ∷ [])) (ok payload)
        → bytes_codec.decode_from_slice payload ≡ ok (m, length payload)
    by_payload m [] e = cc
    by_payload m (x ∷ []) e = cc
    by_payload m (x ∷ y ∷ xs) e = cc

receive_times_lem_example :
    ((receive_times (client_net true) bytes_codec bytes_laws 3 reading 1).0
      ≡ ok (some 7) ∷ ok (some 8) ∷ ok none ∷ [])
    × (buffered 1
          (receive_times
            (client_net true)
            bytes_codec
            bytes_laws
            3
            reading
            1).1.recv_channels_payloads
        ≡ [])
unfolding new_connection new_client_connection
receive_times_lem_example =
    receive_times_lem (client_net true) bytes_codec bytes_laws (7 ∷ 8 ∷ [])
      ((7 ∷ []) ∷ (8 ∷ []) ∷ []) reading 1 (λ e. cc) refl (refl, (refl, tt))
