-- ===== src/Codec/Fragments.antt =====
-- A stream that is read in fragments: bytes arrive and `decode` is called in any order.
use bevy_quinnet.Base.{
  ℕ, zero, suc, ◌≤◌, ◌≡◌, refl, sym, ap, ◌∙◌, List, [], ◌∷◌, ◌++◌, Option, none, some, Result, ok,
  err, length, All, arith,
}
use mathlib.Core.List.{append_assoc, append-nil}
use bevy_quinnet.Buffer.{Bytes, Buffer, BufferLaws}
use bevy_quinnet.Codec.{QuinnetProtocolCodecDecoder, decode, new_decoder, IoError, head}
use bevy_quinnet.Codec.Wire.{Pending, at_head, in_frame, waits, yields, decode-Polled, IsSendable}

pub data Event : Type 0 where
  arrives : Bytes → Event
  polls : Event

abbrev pub arrivals : List Event → Bytes
arrivals [] = []
arrivals (arrives c ∷ es) = c ++ arrivals es
arrivals (polls ∷ es) = arrivals es

abbrev pub Run : Type 0
Run = Option (List Bytes × QuinnetProtocolCodecDecoder × Bytes)

abbrev pub prepend : Bytes → Run → Run
prepend f none = none
prepend f (some (fs, d, src)) = some (f ∷ fs, d, src)

abbrev pub resume : Result (Option Bytes) IoError → Run → Run
resume (ok none) r = r
resume (ok (some f)) r = prepend f r
resume (err e) r = none

abbrev pub prepend_all : List Bytes → Run → Run
prepend_all [] r = r
prepend_all (f ∷ fs) r = prepend f (prepend_all fs r)

abbrev pub repeat_polls : ℕ → List Event
repeat_polls zero = []
repeat_polls (suc n) = polls ∷ repeat_polls n

-- The frames that the calls yield, the decoder and the buffer in the end; `none` once a call fails.
pub run : Buffer → QuinnetProtocolCodecDecoder → Bytes → List Event → Run
run b d src [] = some ([], d, src)
run b d src (arrives c ∷ es) = run b d (src ++ c) es
run b d src (polls ∷ es) = let (r, d', src') = decode b d src in resume r (run b d' src' es)

module _ (b : Buffer) (laws : BufferLaws b) (limit : ℕ) where
  -- A run that has read a part of a stream of frames: it has yielded a first part of the frames,
  -- and is ready for the others.
  pub data Progress (later : Bytes) (frames : List Bytes) (r : Run) : Type 0 where
    progress :
        (out left : List Bytes) (d : QuinnetProtocolCodecDecoder) (src : Bytes)
        → r ≡ some (out, d, src)
        → frames ≡ out ++ left
        → Pending b laws limit d src later left
        → Progress later frames r

  prepend-Progress :
      {later : Bytes} {frames : List Bytes} {r : Run} (f : Bytes)
      → Progress later frames r
      → Progress later (f ∷ frames) (prepend f r)
  prepend-Progress f (progress out left d src e g p) =
      progress (f ∷ out) left d src (rw e) (ap (◌∷◌ f) g) p

  arrives-Pending :
      {d : QuinnetProtocolCodecDecoder} {frames : List Bytes} (src c later : Bytes)
      → Pending b laws limit d src (c ++ later) frames
      → Pending b laws limit d (src ++ c) later frames
  arrives-Pending src c later (at_head m e) = at_head m (append_assoc src c later ∙ e)
  arrives-Pending src c later (in_frame f fs m g e) =
      in_frame f fs m g (append_assoc src c later ∙ e)

  -- From a decoder and buffer that are ready for frames within the limits, once all of the run's
  -- arrivals and some later bytes have come, no order of arrivals and calls of decode fails: the
  -- frames that come out are the first ones, whole and in order, and the decoder is ready for the
  -- rest.
  pub run-Progress :
      (d : QuinnetProtocolCodecDecoder) (src later : Bytes) (frames : List Bytes) (es : List Event)
      → All (IsSendable limit) frames
      → Pending b laws limit d src (arrivals es ++ later) frames
      → Progress later frames (run b d src es)
  unfolding run
  run-Progress d src later frames [] s p = progress [] frames d src refl refl p
  run-Progress d src later frames (arrives c ∷ es) s p =
      run-Progress d (src ++ c) later frames es s (arrives-Pending src c _ (rw append_assoc at p))
  run-Progress d src later frames (polls ∷ es) s p =
      elim (decode-Polled b laws limit d src (arrivals es ++ later) frames s p) [
        | waits e p' n ↦
            rw e (run-Progress (decode b d src).1 (decode b d src).2 later frames es s p')
        | yields f fs g e p' n ↦
            rw (e, g)
              (prepend-Progress f
                (run-Progress (decode b d src).1 (decode b d src).2 later fs es (rw g at s).1 p'))
      ]

  Pending-nil :
      {d : QuinnetProtocolCodecDecoder} {src : Bytes}
      → Pending b laws limit d src [] []
      → (d ≡ record { state = head; max_frame_len = limit }) × (src ≡ [])
  Pending-nil {src = src} (at_head m e) = (m, sym (append-nil src) ∙ e)
  Pending-nil (in_frame f fs m g e) = absurd (omega (arith, ap length g))

  -- Once all bytes are there, as many calls as there are frames left yield all of them.
  pub run-repeat_polls :
      (d : QuinnetProtocolCodecDecoder) (src : Bytes) (frames : List Bytes) (n : ℕ)
      → All (IsSendable limit) frames
      → Pending b laws limit d src [] frames
      → length frames ≤ n
      → run b d src (repeat_polls n) ≡ some (frames, new_decoder limit, [])
  unfolding run new_decoder
  run-repeat_polls d src [] zero s p h = rw (Pending-nil p).0 (rw (Pending-nil p).1)
  run-repeat_polls d src (f ∷ fs) zero s p h = absurd (omega arith)
  run-repeat_polls d src frames (suc n) s p h =
      elim (decode-Polled b laws limit d src [] frames s p) [
        | waits e p' none_left ↦ rw e (
            run-repeat_polls (decode b d src).1 (decode b d src).2 frames n s p'
              (omega (arith, ap length (none_left refl))))
        | yields f fs g e p' lt ↦
            rw (e, g)
              (ap (prepend f) (
                run-repeat_polls (decode b d src).1 (decode b d src).2 fs n (rw g at s).1 p'
                  (omega (arith, h, ap length g))))
      ]

-- What a run yields when more events follow it.
abbrev pub continue : Buffer → Run → List Event → Run
continue b none es = none
continue b (some (out, d, src)) es = prepend_all out (run b d src es)

continue-prepend :
    (b : Buffer) (f : Bytes) (r : Run) (es : List Event)
    → continue b (prepend f r) es ≡ prepend f (continue b r es)
continue-prepend b f none es = refl
continue-prepend b f (some (out, d, src)) es = refl

continue-resume :
    (b : Buffer) (x : Result (Option Bytes) IoError) (r : Run) (es : List Event)
    → continue b (resume x r) es ≡ resume x (continue b r es)
continue-resume b (ok none) r es = refl
continue-resume b (ok (some f)) r es = continue-prepend b f r es
continue-resume b (err e) r es = refl

pub run-append :
    (b : Buffer) (d : QuinnetProtocolCodecDecoder) (src : Bytes) (es es' : List Event)
    → run b d src (es ++ es') ≡ continue b (run b d src es) es'
unfolding run
run-append b d src [] es' = refl
run-append b d src (arrives c ∷ es) es' = run-append b d (src ++ c) es es'
run-append b d src (polls ∷ es) es' =
    ap (resume (decode b d src).0) (run-append b (decode b d src).1 (decode b d src).2 es es')
    ∙ sym
        (continue-resume b (decode b d src).0 (run b (decode b d src).1 (decode b d src).2 es) es')
