-- ===== src/Codec/Wire.antt =====
-- What stands on the wire: each frame behind its length, in four bytes. One call of `decode` against
-- the frames that are still to come.
use bevy_quinnet.Base.{
  ℕ, suc, ◌+◌, ◌^◌, ◌≤◌, ◌<◌, ◌≡◌, refl, ap, ◌∙◌, List, [], ◌∷◌, ◌++◌, Option, none, some, Result,
  ok, err, length, length-append, arith, ltb, le→ltb, lt→ltb, All, inl, inr, if◌then◌else◌,
  Bool-cases, ltb→lt, ◌≢◌, take-length-append, drop-length-append, false,
}
use mathlib.Core.List.{append_assoc, append-nil}
use bevy_quinnet.Buffer.{Bytes, Buffer, BufferLaws}
use bevy_quinnet.Codec.{
  QuinnetProtocolCodecEncoder, QuinnetProtocolCodecDecoder, head, data_of, encode, decode,
  decode_head, decode_data, finish_decode, after_head, IoError, invalid_input,
}

-- A list that starts with `zs` and has at least its length goes on behind it.
pub split_prefix {ℓ} :
    {A : Type ℓ} (xs ys zs ws : List A)
    → xs ++ ys ≡ zs ++ ws
    → length zs ≤ length xs
    → (t : List A) × (xs ≡ zs ++ t) × (t ++ ys ≡ ws)
split_prefix {A = A} xs ys [] ws e h = (xs, refl, e)
split_prefix {A = A} [] ys (z ∷ zs) ws e h = absurd (omega arith)
split_prefix {A = A} (x ∷ xs) ys (z ∷ zs) ws e h =
    again (split_prefix xs ys zs ws (cc) (omega arith))
  where
    again :
        (t : List A) × (xs ≡ zs ++ t) × (t ++ ys ≡ ws)
        → (t : List A) × (x ∷ xs ≡ (z ∷ zs) ++ t) × (t ++ ys ≡ ws)
    again (t, p, q) = (t, cc, q)

-- What a decoder accepts: a frame holds at least the channel id, and its length fits the limit
-- and the length field.
pub record IsSendable (limit : ℕ) (frame : Bytes) : Type 0 where
  pub holds_id : 0 < length frame
  pub within : length frame ≤ limit
  pub fits : length frame < 256 ^ 4

module _ (b : Buffer) (laws : BufferLaws b) where
  abbrev pub header : Bytes → Bytes
  header frame = laws.uint_bytes (length frame) 4

  abbrev pub wire : List Bytes → Bytes
  wire [] = []
  wire (f ∷ fs) = header f ++ (f ++ wire fs)

  pub encode_lem :
      (e : QuinnetProtocolCodecEncoder) (payload dst : Bytes)
      → e.raw_channel_id < 256
      → (length payload ≤ e.max_frame_len
          → encode b e payload dst ≡ (ok tt, dst ++ wire ((e.raw_channel_id ∷ payload) ∷ [])))
        × (e.max_frame_len < length payload → encode b e payload dst ≡ (err invalid_input, dst))
  unfolding encode
  encode_lem e payload dst h = (
    λ p.
        rw (le→ltb _ _ p, laws.put_uint_lem, laws.put_u8_lem _ _ h, laws.extend_from_slice_lem, one)
          (simp (append_assoc, append-nil)),
    λ p. rw (lt→ltb _ _ p),
  )
    where
      one : 1 + length payload ≡ suc (length payload)
      one = omega arith

  -- For a channel id that fits a byte: if the payload is within the limit, encode appends the frame
  -- of the id and the payload behind its length; otherwise it fails and leaves the buffer as it
  -- was.
  pub encode_result :
      (e : QuinnetProtocolCodecEncoder) (payload dst : Bytes)
      → e.raw_channel_id < 256
      → encode b e payload dst ≡ (
          if ltb e.max_frame_len (length payload)
          then (err invalid_input, dst)
          else (ok tt, dst ++ wire ((e.raw_channel_id ∷ payload) ∷ [])))
  encode_result e payload dst h = elim (Bool-cases (ltb e.max_frame_len (length payload))) [
    | inl long ↦ rw long ((encode_lem e payload dst h).1 (ltb→lt _ _ long))
    | inr fits ↦ rw fits ((encode_lem e payload dst h).0 (ground arith))
  ]

  -- The decoder and its buffer, before bytes that have not come yet, have these frames to yield.
  pub data Pending (limit : ℕ) (d : QuinnetProtocolCodecDecoder) (src later : Bytes)
      (frames : List Bytes) : Type 0 where
    at_head :
        d ≡ record { state = head; max_frame_len = limit }
        → src ++ later ≡ wire frames
        → Pending limit d src later frames
    in_frame :
        (f : Bytes) (fs : List Bytes)
        → d ≡ record { state = data_of (length f); max_frame_len = limit }
        → frames ≡ f ∷ fs
        → src ++ later ≡ f ++ wire fs
        → Pending limit d src later frames

  -- The two outcomes of one call: no frame yet, or the first frame that is due.
  pub data Polled (limit : ℕ) (later : Bytes) (frames : List Bytes) (src : Bytes)
      (r : Result (Option Bytes) IoError × QuinnetProtocolCodecDecoder × Bytes) : Type 0 where
    waits :
        r.0 ≡ ok none
        → Pending limit r.1 r.2 later frames
        → ((later ≡ []) → frames ≡ [])
        → Polled limit later frames src r
    yields :
        (f : Bytes) (fs : List Bytes)
        → frames ≡ f ∷ fs
        → r.0 ≡ ok (some f)
        → Pending limit r.1 r.2 later fs
        → length r.2 < length src
        → Polled limit later frames src r

  too_short :
      (src later rest : Bytes) (n : ℕ)
      → src ++ later ≡ rest
      → n ≤ length rest
      → length src < n
      → later ≢ []
  too_short src later rest n e h short none_left =
      absurd (omega (arith, ap length e, ap length none_left, length-append src later))

  -- The end of a call, in a frame.
  finish_Polled :
      (limit : ℕ) (src later f : Bytes) (fs : List Bytes) (d : QuinnetProtocolCodecDecoder)
      → 0 < length f
      → d.max_frame_len ≡ limit
      → src ++ later ≡ f ++ wire fs
      → Polled limit later
          (f ∷ fs)
          src
          (finish_decode b d (length f) (decode_data b (length f) src))
  unfolding finish_decode decode_data
  finish_Polled limit src later f fs d h m e = elim (Bool-cases (ltb (length src) (length f))) [
    | inl short ↦
        rw (short, finish_decode, decode_data)
          (waits refl (in_frame f fs (rw m) refl e) (λ l. absurd (
            too_short src later (f ++ wire fs) (length f) e
              (omega (arith, length-append f (wire fs))) (ltb→lt _ _ short) l)))
    | inr enough ↦
        rw (enough, finish_decode, decode_data)
          (whole enough (split_prefix src later f (wire fs) e (ground arith)))
  ]
    where
      whole :
          ltb (length src) (length f) ≡ false
          → (t : Bytes) × (src ≡ f ++ t) × (t ++ later ≡ wire fs)
          → Polled limit later (f ∷ fs) src (
            ok (some (b.split_to (length f) src).0),
            record d { state = head },
            (b.split_to (length f) src).1,
          )
      whole enough (t, p, q) = rw cut (yields f fs refl refl (at_head (rw m) q) shorter)
        where
          cut : b.split_to (length f) src ≡ (f, t)
          cut =
              laws.split_to_lem (length f) src (ground arith)
              ∙ rw p (rw (take-length-append f t, drop-length-append f t))

          shorter : length t < length src
          shorter = omega (arith, h, ap length p, length-append f t)

  Polled-weaken :
      (limit : ℕ) (later : Bytes) (frames : List Bytes) (src src' : Bytes)
      (r : Result (Option Bytes) IoError × QuinnetProtocolCodecDecoder × Bytes)
      → length src ≤ length src'
      → Polled limit later frames src r
      → Polled limit later frames src' r
  Polled-weaken limit later frames src src' r h (waits e p n) = waits e p n
  Polled-weaken limit later frames src src' r h (yields f fs e x p n) =
      yields f fs e x p (omega arith)

  head_Polled :
      (limit : ℕ) (src later : Bytes) (frames : List Bytes) (d : QuinnetProtocolCodecDecoder)
      → All (IsSendable limit) frames
      → d ≡ record { state = head; max_frame_len = limit }
      → src ++ later ≡ wire frames
      → Polled limit later frames src (after_head b d (decode_head b d src))
  unfolding after_head decode_head
  head_Polled limit src later [] d s m e =
      rw
        (
          lt→ltb (length src) 5 (omega (arith, ap length e, length-append src later)),
          after_head,
          decode_head,
        )
        (waits refl (at_head m e) (λ l. refl))
  head_Polled limit src later (f ∷ fs) d s m e = elim (Bool-cases (ltb (length src) 5)) [
    | inl short ↦
        rw (short, after_head, decode_head)
          (waits refl (at_head m e) (λ l. absurd (
            too_short src later (wire (f ∷ fs)) 5 e
              (omega (
                arith,
                s.0.holds_id,
                laws.length-uint_bytes (length f) 4,
                length-append (header f) (f ++ wire fs),
                length-append f (wire fs),
              ))
              (ltb→lt _ _ short) l)))
    | inr enough ↦
        rw (enough, after_head, decode_head)
          (whole enough (split_prefix src later (header f) (f ++ wire fs) e (four_le enough)))
  ]
    where
      four_le : ltb (length src) 5 ≡ false → length (header f) ≤ length src
      four_le enough = rw laws.length-uint_bytes (ground arith)

      whole :
          ltb (length src) 5 ≡ false
          → (t : Bytes) × (src ≡ header f ++ t) × (t ++ later ≡ f ++ wire fs)
          → Polled limit later (f ∷ fs) src (
              after_head b d (
                if ltb d.max_frame_len (b.get_uint 4 src)
                then (err IoError.invalid_data, src)
                else (ok (some (b.get_uint 4 src)), b.advance 4 src)))
      whole enough (t, p, q) =
          rw (value, rest, le→ltb d.max_frame_len (length f) (omega (arith, limits, s.0.within)))
            (Polled-weaken limit later (f ∷ fs) t src _
              (omega (arith, ap length p, length-append (header f) t))
              (finish_Polled limit t later f fs d s.0.holds_id limits q))
        where
          limits : d.max_frame_len ≡ limit
          limits = ap (λ (x : QuinnetProtocolCodecDecoder). x.max_frame_len) m

          value : b.get_uint 4 src ≡ length f
          value = rw p (laws.get_uint_lem (length f) 4 t s.0.fits)

          rest : b.advance 4 src ≡ t
          rest =
              laws.advance_lem 4 src (ground arith)
              ∙ rw p (rw laws.length-uint_bytes at (drop-length-append (header f) t))

  -- Let a decoder and its buffer be ready, before the bytes still to come, for frames of at least
  -- one byte that are within the decoder's limit and the length field. Then one call of decode
  -- either waits, ready for the same frames, which cannot be if all bytes are there and a frame is
  -- due; or yields the first frame, shortens the buffer, and is ready for the others. It never
  -- refuses.
  pub decode-Polled :
      (limit : ℕ) (d : QuinnetProtocolCodecDecoder) (src later : Bytes) (frames : List Bytes)
      → All (IsSendable limit) frames
      → Pending limit d src later frames
      → Polled limit later frames src (decode b d src)
  unfolding decode
  decode-Polled limit d src later frames s (at_head m e) =
      rw m (head_Polled limit src later frames _ s refl e)
  decode-Polled limit d src later frames s (in_frame f fs m g e) =
      rw (m, g)
        (finish_Polled limit src later f fs
          (record { state = data_of (length f); max_frame_len = limit }) (rw g at s).0.holds_id refl
          e)
