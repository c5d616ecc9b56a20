-- ===== src/Tasks/Accounting.antt =====
-- What every schedule of a channel task keeps: what it handled, followed by what waits in its queue,
-- is what was queued, in order. And the loop that sends what is left ends.
use bevy_quinnet.Base.{
  ℕ, zero, suc, ◌<◌, ◌≡◌, ◌≢◌, ◌⊎◌, inl, inr, refl, sym, ap, ◌∙◌, List, [], ◌∷◌, ◌++◌, Option, none,
  some, ok, err, length, arith, Result-cases,
}
use mathlib.Core.Option.{some-injective, none-ne-some}
use mathlib.Core.List.{append_assoc, append-nil}
use bevy_quinnet.Buffer.{Bytes}
use bevy_quinnet.Net.{Net, MpscLaws, TryRecvError}
use bevy_quinnet.Tasks.Quinn.{Streams}
use bevy_quinnet.Config.{CloseReason, local_order, peer_closed}
use bevy_quinnet.Tasks.{ChannelTask, Phase, flushing, ended, drain, end_in, end_task}
use bevy_quinnet.Tasks.Schedule.{
  Run, starts, others, takes, reports, closes, closes_channel, drains, finishes, IsQueue, IsRecord,
  IsSelecting,
}

module _ (net : Net) (s : Streams net.World) (laws : MpscLaws net.payloads)
    (r : net.payloads.Receiver) (task : ChannelTask net.World)
    (Others : List Bytes → net.World → net.World → Type 0)
    (queue : IsQueue net s laws r task Others) (Handled : List Bytes → net.World → Type 0)
    (extends : IsRecord net s laws r task Others Handled) where
  -- What was handled, then what waits, is what was queued.
  abbrev pub Accounts : List Bytes → net.World → Type 0
  Accounts q w = (done : List Bytes) × Handled done w × (done ++ laws.backlog r w ≡ q)

  -- A receive that yields: the payload was the first that waits.
  received :
      (w : net.World) (m : Bytes)
      → (net.payloads.try_recv r w).0 ≡ ok m
      → laws.backlog r w ≡ m ∷ laws.backlog r (net.payloads.try_recv r w).1
  received w m e = by_backlog (laws.backlog r w) refl
    where
      by_backlog :
          (ms : List Bytes)
          → laws.backlog r w ≡ ms
          → laws.backlog r w ≡ m ∷ laws.backlog r (net.payloads.try_recv r w).1
      by_backlog [] h = let step = laws.try_recv_nil r w h in cc (e, step.1)
      by_backlog (x ∷ xs) h = let step = laws.try_recv_cons r w x xs h in cc (e, h, step.0, step.1)

  refused :
      (w : net.World) (e : TryRecvError)
      → (net.payloads.try_recv r w).0 ≡ err e
      → (laws.backlog r w ≡ []) × (laws.backlog r (net.payloads.try_recv r w).1 ≡ [])
  refused w e h = by_backlog (laws.backlog r w) refl
    where
      by_backlog :
          (ms : List Bytes)
          → laws.backlog r w ≡ ms
          → (laws.backlog r w ≡ []) × (laws.backlog r (net.payloads.try_recv r w).1 ≡ [])
      by_backlog [] g = (g, (laws.try_recv_nil r w g).2)
      by_backlog (x ∷ xs) g = let step = laws.try_recv_cons r w x xs g in cc (h, step.0)

  one_more :
      (q done rest rest' : List Bytes) (m : Bytes)
      → done ++ rest ≡ q
      → rest ≡ m ∷ rest'
      → (done ++ m ∷ []) ++ rest' ≡ q
  one_more q done rest rest' m e h = simp append_assoc (rw (← h) e)

  others_Accounts :
      {q q' more : List Bytes} {w w' : net.World}
      → Others more w w'
      → q' ≡ q ++ more
      → Accounts q w
      → Accounts q' w'
  others_Accounts {more = more} {w = w} o e (done, h, a) = (
    done,
    extends.others_keep o h,
    ap (◌++◌ done) (queue.others_queue o)
        ∙ sym (append_assoc done (laws.backlog r w) more)
        ∙ ap (λ (t : List Bytes). t ++ more) a
        ∙ sym e,
  )

  -- A payload leaves the queue and is handled, whatever handles it.
  handled_Accounts :
      {q : List Bytes} (w w' : net.World) (m : Bytes)
      → (net.payloads.try_recv r w).0 ≡ ok m
      → laws.backlog r w' ≡ laws.backlog r (net.payloads.try_recv r w).1
      → ((done : List Bytes) → Handled done w → Handled (done ++ m ∷ []) w')
      → Accounts q w
      → Accounts q w'
  handled_Accounts {q = q} w w' m e g extend (done, h, a) = (
    done ++ m ∷ [],
    extend done h,
    rw g (
        one_more q done (laws.backlog r w) (laws.backlog r (net.payloads.try_recv r w).1) m a
          (received w m e)),
  )

  kept_Accounts :
      {q : List Bytes} (w w' : net.World)
      → laws.backlog r w' ≡ laws.backlog r w
      → ((done : List Bytes) → Handled done w → Handled done w')
      → Accounts q w
      → Accounts q w'
  kept_Accounts w w' g keep (done, h, a) = (done, keep done h, ap (◌++◌ done) g ∙ a)

  -- At every point of every schedule.
  pub Run-Accounts :
      {w0 : net.World} {q : List Bytes} {p : Phase} {w : net.World}
      → Handled [] w0
      → Run net s laws r task Others w0 q p w
      → Accounts q w
  Run-Accounts h0 (starts e p g) = ([], rw g h0, rw g (sym e))
  Run-Accounts h0 (others run o e) = others_Accounts o e (Run-Accounts h0 run)
  Run-Accounts h0 (takes {w = w} m run p e f g) = rw g (
      handled_Accounts w _ m e (queue.on_bytes_queue m (net.payloads.try_recv r w).1)
        (λ done h. extends.on_bytes_extends m _ (extends.take_keeps w h)) (Run-Accounts h0 run))
  Run-Accounts h0 (reports {w = w} run p f g) = rw g (
      kept_Accounts w _ (queue.report_queue w) (λ done h. extends.report_keeps w h)
        (Run-Accounts h0 run))
  Run-Accounts h0 (closes signal run sel e) = Run-Accounts h0 run
  Run-Accounts h0 (closes_channel run sel e) = Run-Accounts h0 run
  Run-Accounts h0 (drains {w = w} m run p e g) = rw g (
      handled_Accounts w _ m e (queue.on_remaining_queue m (net.payloads.try_recv r w).1)
        (λ done h. extends.on_remaining_extends m _ (extends.take_keeps w h)) (Run-Accounts h0 run))
  Run-Accounts h0 (finishes {w = w} e run p h f g) = rw g (
      kept_Accounts w _ (queue.finish_queue (net.payloads.try_recv r w).1 ∙ same (refused w e h))
        (λ done k. extends.finish_keeps _ (extends.take_keeps w k)) (Run-Accounts h0 run))
    where
      same : {xs ys : List Bytes} → (xs ≡ []) × (ys ≡ []) → ys ≡ xs
      same (g, g') = g' ∙ sym g

  drain_all :
      (ms : List Bytes) (fuel : ℕ) (w : net.World) (done : List Bytes)
      → laws.backlog r w ≡ ms
      → length ms < fuel
      → Handled done w
      → (w' : net.World) × (drain net s fuel task.on_remaining r w ≡ some w')
        × Handled (done ++ ms) w'
        × (laws.backlog r w' ≡ [])
  unfolding drain
  drain_all ms zero w done e lt h = absurd (omega arith)
  drain_all [] (suc fuel) w done e lt h = stop (laws.try_recv_nil r w e)
    where
      stop :
          (x : TryRecvError) × ((net.payloads.try_recv r w).0 ≡ err x)
            × (laws.backlog r (net.payloads.try_recv r w).1 ≡ [])
          → (w' : net.World) × (drain net s (suc fuel) task.on_remaining r w ≡ some w')
            × Handled (done ++ []) w'
            × (laws.backlog r w' ≡ [])
      stop (x, f, g) =
          ((net.payloads.try_recv r w).1, rw (f, drain), rw append-nil (extends.take_keeps w h), g)
  drain_all (m ∷ ms) (suc fuel) w done e lt h = go (laws.try_recv_cons r w m ms e) (
      drain_all ms fuel (task.on_remaining m (net.payloads.try_recv r w).1) (done ++ m ∷ [])
        (queue.on_remaining_queue m _ ∙ (laws.try_recv_cons r w m ms e).1) (omega arith)
        (extends.on_remaining_extends m _ (extends.take_keeps w h)))
    where
      next : net.World
      next = task.on_remaining m (net.payloads.try_recv r w).1

      go :
          ((net.payloads.try_recv r w).0 ≡ ok m)
            × (laws.backlog r (net.payloads.try_recv r w).1 ≡ ms)
          → (w' : net.World) × (drain net s fuel task.on_remaining r next ≡ some w')
            × Handled ((done ++ m ∷ []) ++ ms) w'
            × (laws.backlog r w' ≡ [])
          → (w' : net.World) × (drain net s (suc fuel) task.on_remaining r w ≡ some w')
            × Handled (done ++ m ∷ ms) w'
            × (laws.backlog r w' ≡ [])
      go (f, g) (w', d, k, n) = (w', rw (f, drain) d, rw append_assoc at k, n)

  -- Left alone, the loop after the `select!` ends: one round for each payload that waits and one
  -- more are enough. Wherever a schedule has led, all that was queued is then handled.
  pub Run-drain :
      {w0 : net.World} {q : List Bytes} {p : Phase} {w : net.World} (fuel : ℕ)
      → Handled [] w0
      → Run net s laws r task Others w0 q p w
      → length (laws.backlog r w) < fuel
      → (w' : net.World) × (drain net s fuel task.on_remaining r w ≡ some w')
        × Handled q (task.finish w')
        × (laws.backlog r w' ≡ [])
  Run-drain {q = q} {w = w} fuel h0 run lt = go (Run-Accounts h0 run)
    where
      go :
          Accounts q w
          → (w' : net.World) × (drain net s fuel task.on_remaining r w ≡ some w')
            × Handled q (task.finish w')
            × (laws.backlog r w' ≡ [])
      go (done, h, a) = closing (drain_all (laws.backlog r w) fuel w done refl lt h)
        where
          closing :
              (w' : net.World) × (drain net s fuel task.on_remaining r w ≡ some w')
                × Handled (done ++ laws.backlog r w) w'
                × (laws.backlog r w' ≡ [])
              → (w' : net.World) × (drain net s fuel task.on_remaining r w ≡ some w')
                × Handled q (task.finish w')
                × (laws.backlog r w' ≡ [])
          closing (w', d, k, n) = (w', d, extends.finish_keeps w' (rw a at k), n)

  -- The loop over what is left is a part of a schedule.
  drain-Run :
      {w0 : net.World} {q : List Bytes} {p : Phase} (fuel : ℕ) (w w' : net.World)
      → Run net s laws r task Others w0 q p w
      → p ≡ flushing
      → drain net s fuel task.on_remaining r w ≡ some w'
      → Run net s laws r task Others w0 q ended (task.finish w')
  unfolding drain
  drain-Run zero w w' run e d = absurd (none-ne-some w' d)
  drain-Run (suc fuel) w w' run e d = elim (Result-cases (net.payloads.try_recv r w).0) [
    | inl (m, f) ↦ drain-Run fuel _ w' (drains m run e f refl) e (rw (f, drain) at d)
    | inr (x, f) ↦ finishes x run e f refl (
        ap task.finish (sym (some-injective (net.payloads.try_recv r w).1 w' (rw (f, drain) at d))))
  ]

  -- How a task ends that was in its `select!` when its close signal was answered: after a peer that
  -- has closed at once, and otherwise when all that was ever queued is handled.
  abbrev pub Ends : net.World → List Bytes → net.World → ℕ → Option CloseReason → Type 0
  Ends w0 q w fuel signal =
      ((signal ≡ some peer_closed)
        × (end_task net s fuel signal task r w ≡ some w)
        × Run net s laws r task Others w0 q ended w)
      ⊎ ((signal ≢ some peer_closed)
          × (w' : net.World) × (end_task net s fuel signal task r w ≡ some w')
          × Handled q w'
          × (laws.backlog r w' ≡ [])
          × Run net s laws r task Others w0 q ended w')

  flushed :
      {w0 : net.World} {q : List Bytes} {w : net.World} (fuel : ℕ)
      → Handled [] w0
      → Run net s laws r task Others w0 q flushing w
      → length (laws.backlog r w) < fuel
      → (w' : net.World) × (end_in net s flushing fuel task r w ≡ some w')
        × Handled q w'
        × (laws.backlog r w' ≡ [])
        × Run net s laws r task Others w0 q ended w'
  unfolding end_in
  flushed {w = w} fuel h0 run enough =
      let (w', d, h, empty) = Run-drain fuel h0 run enough in
      (
        task.finish w',
        rw (d, end_in) refl,
        h,
        queue.finish_queue w' ∙ empty,
        drain-Run fuel w w' run refl d,
      )

  pub Run-end_task :
      {w0 : net.World} {q : List Bytes} {p : Phase} {w : net.World} (fuel : ℕ)
      (signal : Option CloseReason)
      → Handled [] w0
      → Run net s laws r task Others w0 q p w
      → IsSelecting net s laws r task Others p
      → length (laws.backlog r w) < fuel
      → Ends w0 q w fuel signal
  unfolding end_task end_in
  Run-end_task fuel none h0 run sel enough =
      let (w', e, h, empty, run') = flushed fuel h0 (closes none run sel refl) enough in
      inr (λ x. cc, w', e, h, empty, run')
  Run-end_task fuel (some local_order) h0 run sel enough =
      let (w', e, h, empty, run') =
        flushed fuel h0 (closes (some local_order) run sel refl) enough in
      inr (λ x. cc, w', e, h, empty, run')
  Run-end_task fuel (some peer_closed) h0 run sel enough =
      inl (refl, refl, closes (some peer_closed) run sel refl)
