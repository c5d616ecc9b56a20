-- ===== src/Tasks/Schedule.antt =====
-- A channel task among the other tasks: everything that may happen from its start, one await point
-- at a time, and what follows for any record of its work that each of its steps extends.
use bevy_quinnet.Base.{◌≡◌, ◌⊎◌, List, [], ◌∷◌, ◌++◌, Option, ok, err}
use bevy_quinnet.Buffer.{Bytes}
use bevy_quinnet.Config.{CloseReason, local_order}
use bevy_quinnet.Net.{Net, MpscLaws, TryRecvError}
use bevy_quinnet.Tasks.Quinn.{Streams}
use bevy_quinnet.Tasks.{
  ChannelTask, Phase, sending, reporting, flushing, ended, close_reason, after_select,
}

module _ (net : Net) (s : Streams net.World) (laws : MpscLaws net.payloads)
    (r : net.payloads.Receiver) (task : ChannelTask net.World)
    (Others : List Bytes → net.World → net.World → Type 0) where
  -- In `select!`, where a close signal is still polled.
  abbrev pub IsSelecting : Phase → Type 0
  IsSelecting p = (p ≡ sending) ⊎ (p ≡ reporting)

  -- From world `w0`: all payloads queued so far, the phase and the world. `Others more w w'` is what
  -- the other tasks do in between, which queues `more`. `recv` completes where `try_recv` yields.
  pub data Run (w0 : net.World) : List Bytes → Phase → net.World → Type 0 where
    starts :
        {q : List Bytes} {p : Phase} {w : net.World}
        → q ≡ laws.backlog r w0
        → p ≡ sending
        → w ≡ w0
        → Run w0 q p w
    others :
        {q q' more : List Bytes} {p : Phase} {w w' : net.World}
        → Run w0 q p w
        → Others more w w'
        → q' ≡ q ++ more
        → Run w0 q' p w'
    takes :
        {q : List Bytes} {p p' : Phase} {w w' : net.World} (m : Bytes)
        → Run w0 q p w
        → p ≡ sending
        → (net.payloads.try_recv r w).0 ≡ ok m
        → p' ≡ (task.on_bytes m (net.payloads.try_recv r w).1).0
        → w' ≡ (task.on_bytes m (net.payloads.try_recv r w).1).1
        → Run w0 q p' w'
    reports :
        {q : List Bytes} {p p' : Phase} {w w' : net.World}
        → Run w0 q p w
        → p ≡ reporting
        → p' ≡ (task.report w).0
        → w' ≡ (task.report w).1
        → Run w0 q p' w'
    -- `close_recv.recv()`
    closes :
        {q : List Bytes} {p p' : Phase} {w : net.World} (signal : Option CloseReason)
        → Run w0 q p w
        → IsSelecting p
        → p' ≡ after_select (close_reason signal)
        → Run w0 q p' w
    -- `channel_close_recv.recv()`, or the end of the loop
    closes_channel :
        {q : List Bytes} {p p' : Phase} {w : net.World}
        → Run w0 q p w
        → IsSelecting p
        → p' ≡ after_select local_order
        → Run w0 q p' w
    drains :
        {q : List Bytes} {p : Phase} {w w' : net.World} (m : Bytes)
        → Run w0 q p w
        → p ≡ flushing
        → (net.payloads.try_recv r w).0 ≡ ok m
        → w' ≡ task.on_remaining m (net.payloads.try_recv r w).1
        → Run w0 q p w'
    finishes :
        {q : List Bytes} {p p' : Phase} {w w' : net.World} (e : TryRecvError)
        → Run w0 q p w
        → p ≡ flushing
        → (net.payloads.try_recv r w).0 ≡ err e
        → p' ≡ ended
        → w' ≡ task.finish (net.payloads.try_recv r w).1
        → Run w0 q p' w'

  -- What the queue is to a task: only its own receives take from it.
  pub record IsQueue : Type 0 where
    pub others_queue :
        {more : List Bytes} {w w' : net.World}
        → Others more w w'
        → laws.backlog r w' ≡ laws.backlog r w ++ more
    pub on_bytes_queue :
        (m : Bytes) (w : net.World) → laws.backlog r (task.on_bytes m w).1 ≡ laws.backlog r w
    pub on_remaining_queue :
        (m : Bytes) (w : net.World) → laws.backlog r (task.on_remaining m w) ≡ laws.backlog r w
    pub report_queue : (w : net.World) → laws.backlog r (task.report w).1 ≡ laws.backlog r w
    pub finish_queue : (w : net.World) → laws.backlog r (task.finish w) ≡ laws.backlog r w

  -- A record of the payloads that were handled, in a world, which each step extends or keeps.
  pub record IsRecord (Handled : List Bytes → net.World → Type 0) : Type 0 where
    pub others_keep :
        {done more : List Bytes} {w w' : net.World}
        → Others more w w'
        → Handled done w
        → Handled done w'
    pub take_keeps :
        {done : List Bytes} (w : net.World)
        → Handled done w
        → Handled done (net.payloads.try_recv r w).1
    pub on_bytes_extends :
        {done : List Bytes} (m : Bytes) (w : net.World)
        → Handled done w
        → Handled (done ++ m ∷ []) (task.on_bytes m w).1
    pub on_remaining_extends :
        {done : List Bytes} (m : Bytes) (w : net.World)
        → Handled done w
        → Handled (done ++ m ∷ []) (task.on_remaining m w)
    pub report_keeps :
        {done : List Bytes} (w : net.World) → Handled done w → Handled done (task.report w).1
    pub finish_keeps :
        {done : List Bytes} (w : net.World) → Handled done w → Handled done (task.finish w)
