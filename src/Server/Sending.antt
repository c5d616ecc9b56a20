-- ===== src/Server/Sending.antt =====
-- What a broadcast of server/endpoint.rs does to the clients and their queues, and what it answers.
use bevy_quinnet.Base.{
  ℕ, ◌+◌, ◌%◌, ◌^◌, ◌≡◌, ◌≢◌, ◌⊎◌, refl, sym, ap, ◌∙◌, List, [], ◌∷◌, ◌++◌, none, some, Result, ok,
  err, map_err, map, length, true, Option-cases, inl, inr,
}
use mathlib.Core.Bool.{false≢true}
use mathlib.Core.List.{append_assoc, append-nil}
use bevy_quinnet.Base.HashMap.{HashMap, Entries}
use bevy_quinnet.Buffer.{Bytes}
use bevy_quinnet.Error.{AsyncChannelError, ConnectionSendError, full_queue, internal_channel_closed}
use bevy_quinnet.Net.{TrySendError, full, closed}
use bevy_quinnet.Peer.{internal_send_payload, send_payload, count_sent, of_try_send, Channel}
use bevy_quinnet.Peer.Slots.{slot, internal_send_payload_lem}
use bevy_quinnet.Peer.Opening.{is_open, is_some}
use bevy_quinnet.Server.{
  ServerNet, ServerSideConnection, Endpoint, ServerSendError, ServerGroupSendError,
}
use bevy_quinnet.Server.Send.{send_to_all, broadcast_payload_on, push_failure, group_result}

-- The answers of the clients' queues.
abbrev pub Answers : Type 0
Answers = List (ℕ × Result (Unit {0}) TrySendError)

abbrev pub queue_error : AsyncChannelError → ServerSendError
queue_error x = ServerSendError.connection_send_error (ConnectionSendError.channel_send_error x)

-- The clients whose queue is full or gone.
abbrev pub failures : Answers → ServerGroupSendError
failures [] = []
failures ((cid, ok _) ∷ rest) = failures rest
failures ((cid, err full) ∷ rest) = (cid, queue_error full_queue) ∷ failures rest
failures ((cid, err closed) ∷ rest) = (cid, queue_error internal_channel_closed) ∷ failures rest

push_failure-failures :
    (errs : ServerGroupSendError) (cid : ℕ) (sent : Result (Unit {0}) TrySendError) (rest : Answers)
    → push_failure errs cid (
          map_err ServerSendError.connection_send_error
            (map_err ConnectionSendError.channel_send_error (map_err of_try_send sent)))
        ++ failures rest
      ≡ errs ++ failures ((cid, sent) ∷ rest)
push_failure-failures errs cid (ok u) rest = refl
push_failure-failures errs cid (err full) rest = append_assoc errs (_ ∷ []) (failures rest)
push_failure-failures errs cid (err closed) rest = append_assoc errs (_ ∷ []) (failures rest)

group_result_lem :
    (errs : ServerGroupSendError)
    → ((errs ≡ []) × (group_result errs ≡ ok tt)) ⊎ ((errs ≢ []) × (group_result errs ≡ err errs))
group_result_lem [] = inl (refl, refl)
group_result_lem (x ∷ errs) = inr (λ e. cc, refl)

module _ (V : ServerNet) where
  -- A client whose sent bytes, a `u64`, are counted.
  abbrev pub counted : Bytes → ServerSideConnection V → ServerSideConnection V
  counted payload c = record c {
    stats = record (c.stats) {
      sent_bytes_count = (c.stats.sent_bytes_count + length payload) % 2 ^ 64;
    };
  }

  -- The payload put into the queue of each client's channel, one after the other.
  unfoldable pub enqueue_all :
      HashMap (ServerSideConnection V) → ℕ → Bytes → V.net.World → Answers × V.net.World
  enqueue_all [] id payload w = ([], w)
  enqueue_all ((cid, c) ∷ rest) id payload w = elim (slot V.net c id) [
    | some ch ↦
        (let (sent, w') = V.net.payloads.try_send ch.sender payload w in
          let (later, w'') = enqueue_all rest id payload w' in ((cid, sent) ∷ later, w''))
    | none ↦ enqueue_all rest id payload w
  ]

  abbrev Sent : Type 0
  Sent = Result (Unit {0}) ConnectionSendError × ServerSideConnection V × V.net.World

  sends_open :
      (c : ServerSideConnection V) (id : ℕ) (payload : Bytes) (w : V.net.World) (ch : Channel V.net)
      → slot V.net c id ≡ some ch
      → ◌≡◌ {A = Sent} (internal_send_payload V.net c id payload w) (
        map_err ConnectionSendError.channel_send_error
            (map_err of_try_send (V.net.payloads.try_send ch.sender payload w).0),
        counted payload c,
        (V.net.payloads.try_send ch.sender payload w).1,
      )
  unfolding send_payload count_sent
  sends_open c id payload w ch s = (internal_send_payload_lem V.net c id payload w).0 ch s

  send_to_all_lem :
      (clients : HashMap (ServerSideConnection V)) (id : ℕ) (payload : Bytes)
      (errs : ServerGroupSendError) (w : V.net.World)
      → Entries (λ cid c. is_open V.net c id ≡ true) clients
      → send_to_all V clients id payload errs w ≡ (
        errs ++ failures (enqueue_all clients id payload w).0,
        map (λ entry. (entry.0, counted payload entry.1)) clients,
        (enqueue_all clients id payload w).1,
      )
  unfolding send_to_all enqueue_all
  send_to_all_lem [] id payload errs w o = rw append-nil refl
  send_to_all_lem ((cid, c) ∷ rest) id payload errs w o = elim (Option-cases (slot V.net c id)) [
    | inl n ↦ absurd (false≢true (sym (ap is_some n) ∙ o.0))
    | inr (ch, s) ↦
        (let sent = V.net.payloads.try_send ch.sender payload w in
          rw (sends_open c id payload w ch s, s, enqueue_all)
            (rw (send_to_all_lem rest id payload _ sent.1 o.1) (
              ap
                (λ (errs' : ServerGroupSendError). (
                  errs',
                  (cid, counted payload c) ∷ map (λ entry. (entry.0, counted payload entry.1)) rest,
                  (enqueue_all rest id payload sent.1).1,
                ))
                (push_failure-failures errs cid sent.0 (enqueue_all rest id payload sent.1).0))))
  ]

  -- If every client has the channel open, a broadcast on it puts the payload, with one try_send
  -- each and one after the other, into the queue of every client's channel, even behind one that
  -- refuses it, and does nothing else to the world. Each client's sent bytes are counted and
  -- nothing else in the endpoint changes. It answers the clients whose queue was full or gone, in
  -- order, each with that error, or success if there is none.
  pub broadcast_payload_on_lem :
      (e : Endpoint V) (id : ℕ) (payload : Bytes) (w : V.net.World)
      → Entries (λ cid c. is_open V.net c id ≡ true) e.clients
      → (r : Result (Unit {0}) ServerGroupSendError) × (broadcast_payload_on V e id payload w ≡ (
        r,
        record e { clients = map (λ entry. (entry.0, counted payload entry.1)) e.clients },
        (enqueue_all e.clients id payload w).1,
      ))
        × (((failures (enqueue_all e.clients id payload w).0 ≡ []) × (r ≡ ok tt))
            ⊎ ((failures (enqueue_all e.clients id payload w).0 ≢ [])
                × (r ≡ err (failures (enqueue_all e.clients id payload w).0))))
  unfolding broadcast_payload_on
  broadcast_payload_on_lem e id payload w o = (
    group_result (failures (enqueue_all e.clients id payload w).0),
    rw (send_to_all_lem e.clients id payload [] w o) refl,
    group_result_lem (failures (enqueue_all e.clients id payload w).0),
  )
