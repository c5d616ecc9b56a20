-- ===== src/Tasks/Receiver/Arrival.antt =====
-- What the receive tasks put in the queue of the connection, and a channel from one end to the other.
use bevy_quinnet.Base.{
  ℕ, ◌≡◌, refl, sym, ap, ◌∙◌, List, [], ◌∷◌, ◌++◌, Option, none, some, Result, ok, map,
}
use mathlib.Core.List.{append_assoc, append-nil}
use bevy_quinnet.Buffer.{Bytes, Buffer}
use bevy_quinnet.Codec.{decode_incoming_reliable_message}
use bevy_quinnet.Net.{Net, Mpsc, MpscLaws}
use bevy_quinnet.Tasks.Receiver.{
  ReceiverPhase, reading, stopped, Turn, next, forward, on_frame, reliable_stream_receiver_task,
}

-- A queue with a receiver takes each message, at its end.
pub record IsOpen {W A : Type 0} (q : Mpsc W A) (laws : MpscLaws q) (sender : q.Sender)
    (r : q.Receiver) : Type 0 where
  pub send_ok : (a : A) (w : W) → (q.send sender a w).0 ≡ ok tt
  pub send_backlog :
      (a : A) (w : W) → laws.backlog r (q.send sender a w).1 ≡ laws.backlog r w ++ a ∷ []

-- The answers of a framed stream that yields these frames and ends.
abbrev pub frame_answers : List Bytes → List (Turn (Option (Result Bytes (Unit {0}))))
frame_answers [] = next none ∷ []
frame_answers (f ∷ fs) = next (some (ok f)) ∷ frame_answers fs

module _ (net : Net) (b : Buffer) (laws : MpscLaws net.received) (sender : net.received.Sender)
    (r : net.received.Receiver) (open_queue : IsOpen net.received laws sender r) where
  forward_lem :
      (message : ℕ × Bytes) (w : net.World)
      → forward net b sender message w ≡ (reading, (net.received.send sender message w).1)
  unfolding forward
  forward_lem message w = rw (open_queue.send_ok message w, forward)

  on_frame_lem :
      (f : Bytes) (message : ℕ × Bytes) (w : net.World)
      → decode_incoming_reliable_message b f ≡ some message
      → on_frame net b sender f w ≡ (reading, (net.received.send sender message w).1)
  unfolding on_frame
  on_frame_lem f message w e = rw (e, on_frame) (forward_lem message w)

  -- The task on the rest of the answers, once a frame is in the queue.
  on_answer :
      (f : Bytes) (message : ℕ × Bytes) (es : List (Turn (Option (Result Bytes (Unit {0})))))
      (w : net.World)
      → decode_incoming_reliable_message b f ≡ some message
      → reliable_stream_receiver_task net b sender (next (some (ok f)) ∷ es) w
        ≡ reliable_stream_receiver_task net b sender es (net.received.send sender message w).1
  unfolding reliable_stream_receiver_task
  on_answer f message es w e =
      rw (on_frame_lem f message w e, reliable_stream_receiver_task)
        (ap (λ (x : ReceiverPhase × net.World). reliable_stream_receiver_task net b sender es x.1)
          (on_frame_lem f message w e))

  -- When every frame decodes, the task for a stream stops, and the messages of the frames stand
  -- behind those that waited for the dispatcher, in order.
  pub stream_receives :
      (frames : List Bytes) (messages : List (ℕ × Bytes)) (w : net.World)
      → map (decode_incoming_reliable_message b) frames ≡ map some messages
      → ((reliable_stream_receiver_task net b sender (frame_answers frames) w).0 ≡ stopped)
        × (laws.backlog r (reliable_stream_receiver_task net b sender (frame_answers frames) w).1
            ≡ laws.backlog r w ++ messages)
  unfolding reliable_stream_receiver_task
  stream_receives [] [] w e = (refl, sym (append-nil (laws.backlog r w)))
  stream_receives [] (x ∷ xs) w e = cc
  stream_receives (f ∷ fs) [] w e = cc
  stream_receives (f ∷ fs) (x ∷ xs) w e = rw (on_answer f x (frame_answers fs) w (cc)) (
      let (p, q) = stream_receives fs xs (net.received.send sender x w).1 (cc) in
      (
        p,
        q
            ∙ ap (λ (l : List (ℕ × Bytes)). l ++ xs) (open_queue.send_backlog x w)
            ∙ append_assoc (laws.backlog r w) (x ∷ []) xs,
      ))
