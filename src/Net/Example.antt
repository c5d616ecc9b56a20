-- ===== src/Net/Example.antt =====
-- Small queues, on which the operations run.
use bevy_quinnet.Base.{ℕ, ◌≡◌, refl, List, [], ◌∷◌, ◌++◌, Result, ok, err, Bool, true, false}
use bevy_quinnet.Buffer.{Bytes}
use bevy_quinnet.Net.{
  Net, Mpsc, MpscLaws, Broadcast, SendError, TrySendError, full, TryRecvError, empty, no_receiver,
}

abbrev pub try_answer : Bool → Result (Unit {0}) TrySendError
try_answer true = ok tt
try_answer false = err full

abbrev pub send_answer : Bool → Result (Unit {0}) SendError
send_answer true = ok tt
send_answer false = err no_receiver

-- A queue that takes everything, or refuses everything, and never yields anything.
abbrev pub sink : (W A : Type 0) → Bool → Mpsc W A
sink W A takes = record {
  Sender = Unit {0};
  Receiver = Unit {0};
  channel = λ n w. (tt, tt, w);
  try_send = λ s a w. (try_answer takes, w);
  blocking_send = λ s a w. (send_answer takes, w);
  send = λ s a w. (send_answer takes, w);
  try_recv = λ r w. (err empty, w);
}

abbrev pub pop : {A : Type 0} → List A → Result A TryRecvError × List A
pop [] = (err empty, [])
pop (a ∷ rest) = (ok a, rest)

-- A queue that is all of the world.
abbrev pub queue : (A : Type 0) → Mpsc (List A) A
queue A = record {
  Sender = Unit {0};
  Receiver = Unit {0};
  channel = λ n w. (tt, tt, w);
  try_send = λ s a w. (ok tt, w ++ a ∷ []);
  blocking_send = λ s a w. (ok tt, w ++ a ∷ []);
  send = λ s a w. (ok tt, w ++ a ∷ []);
  try_recv = λ r w. pop w;
}

abbrev pub queue_laws : (A : Type 0) → MpscLaws (queue A)
queue_laws A = record { backlog = λ r w. w; try_recv_cons = cons; try_recv_nil = nil }
  where
    cons :
        (r : Unit {0}) (w : List A) (a : A) (rest : List A)
        → w ≡ a ∷ rest
        → ((pop w).0 ≡ ok a) × ((pop w).1 ≡ rest)
    cons r w a rest e = rw e (refl, refl)

    nil :
        (r : Unit {0}) (w : List A)
        → w ≡ []
        → (e : TryRecvError) × ((pop w).0 ≡ err e) × ((pop w).1 ≡ [])
    nil r w e = rw e (empty, refl, refl)

abbrev pub signal : (W A : Type 0) → Broadcast W A
signal W A = record { Sender = Unit {0}; channel = λ n w. (tt, w); send = λ s a w. (ok tt, w) }

-- The queues of a connection: `opens` is whether a channel can be created, `closes` whether one can
-- be closed.
abbrev pub sink_net : (W : Type 0) (opens closes : Bool) → Net
sink_net W opens closes = record {
  World = W;
  payloads = sink W Bytes true;
  channel_closes = sink W (Unit {0}) closes;
  channel_syncs = sink W _ opens;
  channel_asyncs = sink W _ true;
  received = sink W (ℕ × Bytes) true;
  closes = signal W _;
}

-- The same over the queue of the payloads that wait.
abbrev pub queue_net : Net
queue_net = record {
  World = List (ℕ × Bytes);
  payloads = sink (List (ℕ × Bytes)) Bytes true;
  channel_closes = sink (List (ℕ × Bytes)) (Unit {0}) true;
  channel_syncs = sink (List (ℕ × Bytes)) _ true;
  channel_asyncs = sink (List (ℕ × Bytes)) _ true;
  received = queue (ℕ × Bytes);
  closes = signal (List (ℕ × Bytes)) _;
}
