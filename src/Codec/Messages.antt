-- ===== src/Codec/Messages.antt =====
-- From the sender's payloads to the receiver's messages: encoder, stream in fragments, decoder and
-- `decode_incoming_reliable_message`; and a datagram there and back.
use bevy_quinnet.Base.{
  ℕ, suc, ◌^◌, ◌≤◌, ◌<◌, ◌≡◌, refl, sym, ap, ◌∙◌, List, [], ◌∷◌, ◌++◌, none, some, length,
  length-append, All, arith, map, ltb, All-append_right, ltb→lt, if◌then◌else◌, Bool-cases, inl,
  inr,
}
use mathlib.Core.List.{append_assoc, append-nil}
use bevy_quinnet.Buffer.{Bytes, Buffer, BufferLaws}
use bevy_quinnet.Codec.{
  QuinnetProtocolCodecEncoder, QuinnetProtocolCodecDecoder, encode, new_decoder,
  decode_incoming_reliable_message, unreliable_datagram, read_datagram,
}
use bevy_quinnet.Codec.Wire.{Pending, at_head, wire, encode_lem, IsSendable}
use bevy_quinnet.Codec.Fragments.{
  Event, arrivals, run, repeat_polls, Progress, progress, run-Progress, run-repeat_polls,
  run-append, prepend_all,
}

-- The payloads that an encoder with this limit accepts.
abbrev pub accepted : ℕ → List Bytes → List Bytes
accepted limit [] = []
accepted limit (p ∷ ps) = if ltb limit (length p) then accepted limit ps else p ∷ accepted limit ps

abbrev pub addressed : ℕ → List Bytes → List Bytes
addressed id = map (λ p. id ∷ p)

-- The buffer after the sends of a channel task, which goes on after a refusal.
unfoldable pub encode_all : Buffer → QuinnetProtocolCodecEncoder → List Bytes → Bytes → Bytes
encode_all b e [] dst = dst
encode_all b e (p ∷ ps) dst = encode_all b e ps (encode b e p dst).1

prepend_all-some :
    (out left : List Bytes) (d : QuinnetProtocolCodecDecoder) (src : Bytes)
    → prepend_all out (some (left, d, src)) ≡ some (out ++ left, d, src)
prepend_all-some [] left d src = refl
prepend_all-some (f ∷ out) left d src = rw (prepend_all-some out left d src)

module _ (b : Buffer) (laws : BufferLaws b) where
  wire-append : (fs gs : List Bytes) → wire b laws (fs ++ gs) ≡ wire b laws fs ++ wire b laws gs
  wire-append [] gs = refl
  wire-append (f ∷ fs) gs = simp (wire-append fs gs, append_assoc)

  -- For a channel id that fits a byte, the buffer after any sends holds what it held, followed by
  -- one frame for each payload within the limit, in the order of the sends.
  pub encode_all-wire :
      (e : QuinnetProtocolCodecEncoder) (ps : List Bytes) (dst : Bytes)
      → e.raw_channel_id < 256
      → encode_all b e ps dst
        ≡ dst ++ wire b laws (addressed e.raw_channel_id (accepted e.max_frame_len ps))
  unfolding encode_all
  encode_all-wire e [] dst h = simp append-nil
  encode_all-wire e (p ∷ ps) dst h = elim (Bool-cases (ltb e.max_frame_len (length p))) [
    | inl large ↦
        rw (large, (encode_lem b laws e p dst h).1 (ltb→lt _ _ large)) (encode_all-wire e ps dst h)
    | inr fits ↦
        rw (fits, (encode_lem b laws e p dst h).0 (ground arith))
          (encode_all-wire e ps _ h ∙ simp (append_assoc, append-nil))
  ]

  sendable :
      (id most limit : ℕ) (ps : List Bytes)
      → most < limit
      → limit < 256 ^ 4
      → All (IsSendable limit) (addressed id (accepted most ps))
  sendable id most limit [] h g = tt
  sendable id most limit (p ∷ ps) h g = elim (Bool-cases (ltb most (length p))) [
    | inl large ↦ rw large (sendable id most limit ps h g)
    | inr fits ↦ rw fits (
      record { holds_id = omega arith; within = ground arith; fits = ground arith },
      sendable id most limit ps h g,
    )
  ]

  pub length-accepted : (most : ℕ) (ps : List Bytes) → length (accepted most ps) ≤ length ps
  length-accepted most [] = omega arith
  length-accepted most (p ∷ ps) = ground (arith, length-accepted most ps)

  length-addressed : (id : ℕ) (ps : List Bytes) → length (addressed id ps) ≡ length ps
  length-addressed id [] = refl
  length-addressed id (p ∷ ps) = ap suc (length-addressed id ps)

  decode_incoming_lem :
      (id : ℕ) (p : Bytes) → decode_incoming_reliable_message b (id ∷ p) ≡ some (id, p)
  unfolding decode_incoming_reliable_message
  decode_incoming_lem id p = rw (
    laws.get_u8_lem,
    laws.split_off_lem 1 (id ∷ p) (omega arith),
    decode_incoming_reliable_message,
  )

  decode_incoming_all :
      (id : ℕ) (ps : List Bytes)
      → map (decode_incoming_reliable_message b) (addressed id ps) ≡ map (λ p. some (id, p)) ps
  decode_incoming_all id [] = refl
  decode_incoming_all id (p ∷ ps) = rw (decode_incoming_lem id p, decode_incoming_all id ps)

  -- Let a channel id fit a byte, let an encoder's limit be below the decoder's, and that below
  -- 2^32. If the bytes that arrive, in any fragments and with decode called at any moments, are
  -- what encoding the payloads wrote, then the run with one more call per payload never fails and
  -- ends in a fresh decoder with an empty buffer; its frames, read as messages, are exactly the
  -- payloads within the encoder's limit, once each, whole, in order and under the channel's id.
  pub delivery :
      (e : QuinnetProtocolCodecEncoder) (limit : ℕ) (ps : List Bytes) (es : List Event)
      → e.raw_channel_id < 256
      → e.max_frame_len < limit
      → limit < 256 ^ 4
      → arrivals es ≡ encode_all b e ps []
      → (frames : List Bytes) × (run b (new_decoder limit) [] (es ++ repeat_polls (length ps))
          ≡ some (frames, new_decoder limit, []))
        × (map (decode_incoming_reliable_message b) frames
            ≡ map (λ p. some (e.raw_channel_id, p)) (accepted e.max_frame_len ps))
  unfolding new_decoder
  delivery e limit ps es h lt g all = (
    frames,
    finish (run-Progress b laws limit (new_decoder limit) [] [] frames es can start),
    decode_incoming_all e.raw_channel_id (accepted e.max_frame_len ps),
  )
    where
      frames : List Bytes
      frames = addressed e.raw_channel_id (accepted e.max_frame_len ps)

      can : All (IsSendable limit) frames
      can = sendable e.raw_channel_id e.max_frame_len limit ps lt g

      start : Pending b laws limit (new_decoder limit) [] (arrivals es ++ []) frames
      start = at_head refl (append-nil (arrivals es) ∙ all ∙ encode_all-wire e ps [] h)

      finish :
          Progress b laws limit [] frames (run b (new_decoder limit) [] es)
          → run b (new_decoder limit) [] (es ++ repeat_polls (length ps))
            ≡ some (frames, new_decoder limit, [])
      finish (progress out left d src r split p) =
          rw (run-append b (new_decoder limit) [] es (repeat_polls (length ps)), r)
            (ap (prepend_all out) (
                run-repeat_polls b laws limit d src left (length ps)
                  (All-append_right _ out left (rw split at can)) p enough)
              ∙ prepend_all-some out left (new_decoder limit) []
              ∙ ap (λ (fs : List Bytes). some (fs, new_decoder limit, [])) (sym split))
        where
          enough : length left ≤ length ps
          enough = omega (
            arith,
            length-addressed e.raw_channel_id (accepted e.max_frame_len ps),
            length-accepted e.max_frame_len ps,
            ap length split,
            length-append out left,
          )

  pub unreliable_datagram_lem :
      (id : ℕ) (payload : Bytes) → id < 256 → unreliable_datagram b payload id ≡ id ∷ payload
  unfolding unreliable_datagram
  unreliable_datagram_lem id payload h =
      ap (b.extend_from_slice payload) (laws.put_u8_lem id [] h)
      ∙ laws.extend_from_slice_lem payload (id ∷ [])

  read_front :
      (id : ℕ) (payload : Bytes)
      → read_datagram b (id ∷ payload)
        ≡ (if ltb 0 (length payload) then some (id, payload) else none)
  unfolding read_datagram
  read_front id payload = ground (arith, laws.split_off_lem 1 (id ∷ payload) (omega arith))

  -- For a channel id that fits a byte, the datagram of a payload is read back as that id and
  -- payload, unless the payload is empty: then it is skipped.
  pub read-unreliable_datagram :
      (id : ℕ) (payload : Bytes)
      → id < 256
      → read_datagram b (unreliable_datagram b payload id)
        ≡ (if ltb 0 (length payload) then some (id, payload) else none)
  read-unreliable_datagram id payload h =
      rw (unreliable_datagram_lem id payload h) (read_front id payload)
