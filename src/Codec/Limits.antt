-- ===== src/Codec/Limits.antt =====
-- The size limits of the two ends, and what a peer can send that an encoder never writes.
use bevy_quinnet.Base.{
  ℕ, suc, ◌+◌, ◌^◌, ◌<◌, ◌≡◌, ◌∙◌, [], ◌∷◌, ◌++◌, none, some, ok, err, length, length-append, arith,
  le→ltb, lt→ltb, drop-length-append,
}
use bevy_quinnet.Buffer.{Bytes, Buffer, BufferLaws}
use bevy_quinnet.Codec.{
  encode, decode, decode_head, decode_data, finish_decode, after_head, new_decoder,
  decode_incoming_reliable_message, invalid_data,
}
use bevy_quinnet.Codec.Wire.{wire, encode_lem}

module _ (b : Buffer) (laws : BufferLaws b) where
  -- A frame over the decoder's limit is refused at its header, and nothing is consumed: every later
  -- call refuses as well.
  refuses :
      (limit n : ℕ) (rest : Bytes)
      → limit < n
      → n < 256 ^ 4
      → 0 < length rest
      → decode b (new_decoder limit) (laws.uint_bytes n 4 ++ rest)
        ≡ (err invalid_data, new_decoder limit, laws.uint_bytes n 4 ++ rest)
  unfolding decode decode_head after_head new_decoder
  refuses limit n rest h g p = rw (
    le→ltb (length (laws.uint_bytes n 4 ++ rest)) 5
        (omega (arith, length-append (laws.uint_bytes n 4) rest, laws.length-uint_bytes n 4)),
    laws.get_uint_lem n 4 rest g,
    lt→ltb limit n h,
    decode,
    decode_head,
    after_head,
  )

  -- With one limit on both sides, below 2^32 - 1, a payload that is not empty and has exactly that
  -- size is encoded with success, and its frame is refused by the decoder.
  pub decode-encode_at_limit :
      (id limit : ℕ) (payload : Bytes)
      → id < 256
      → 0 < length payload
      → length payload ≡ limit
      → limit + 1 < 256 ^ 4
      → (out : Bytes) × (encode b (record { max_frame_len = limit; raw_channel_id = id }) payload []
          ≡ (ok tt, out))
        × (decode b (new_decoder limit) out ≡ (err invalid_data, new_decoder limit, out))
  decode-encode_at_limit id limit payload h p e g = (
    wire b laws ((id ∷ payload) ∷ []),
    (encode_lem b laws _ payload [] h).0 (omega arith),
    refuses limit (suc (length payload)) (id ∷ (payload ++ [])) (omega arith) (omega arith)
        (omega arith),
  )

  -- A header that announces an empty frame, with at least one byte behind it, is accepted by a
  -- fresh decoder, which yields the empty frame; reading the channel id of an empty frame panics.
  pub decode_empty_frame :
      (limit : ℕ) (rest : Bytes)
      → 0 < length rest
      → (decode b (new_decoder limit) (laws.uint_bytes 0 4 ++ rest)
          ≡ (ok (some []), new_decoder limit, rest))
        × (decode_incoming_reliable_message b [] ≡ none)
  unfolding decode decode_head decode_data finish_decode after_head new_decoder
      decode_incoming_reliable_message
  decode_empty_frame limit rest p = (
    rw (
      le→ltb (length (laws.uint_bytes 0 4 ++ rest)) 5
          (omega (arith, length-append (laws.uint_bytes 0 4) rest, laws.length-uint_bytes 0 4)),
      laws.get_uint_lem 0 4 rest (omega arith),
      le→ltb limit 0 (omega arith),
      laws.advance_lem 4 (laws.uint_bytes 0 4 ++ rest)
            (omega (arith, length-append (laws.uint_bytes 0 4) rest, laws.length-uint_bytes 0 4))
          ∙ rw laws.length-uint_bytes at (drop-length-append (laws.uint_bytes 0 4) rest),
      le→ltb (length rest) 0 (omega arith),
      laws.split_to_lem 0 rest (omega arith),
      decode,
      decode_head,
      after_head,
      decode_data,
      finish_decode,
    ),
    rw (laws.get_u8_empty, decode_incoming_reliable_message),
  )
