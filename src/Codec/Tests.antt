-- ===== src/Codec/Tests.antt =====
-- The theorems of Codec at a concrete stream, over the big-endian buffer.
use bevy_quinnet.Base.{◌≡◌, refl, List, [], ◌∷◌, ◌++◌, map, none, some, ok, err, All, arith}
use bevy_quinnet.Buffer.{Bytes, big_endian, big_endian_laws, be_bytes}
use bevy_quinnet.Codec.{
  QuinnetProtocolCodecEncoder, new_decoder, encode, decode, decode_incoming_reliable_message,
  invalid_data, unreliable_datagram, read_datagram, invalid_input,
}
use bevy_quinnet.Codec.Wire.{
  wire, IsSendable, Pending, at_head, Polled, decode-Polled, encode_result,
}
use bevy_quinnet.Codec.Fragments.{
  Event, arrives, polls, arrivals, run, run-Progress, Progress, repeat_polls,
}
use bevy_quinnet.Codec.Messages.{
  delivery, encode_all, encode_all-wire, accepted, addressed, read-unreliable_datagram,
}
use bevy_quinnet.Codec.Limits.{decode-encode_at_limit, decode_empty_frame}

-- Channel 7, with payloads of at most two bytes.
abbrev encoder : QuinnetProtocolCodecEncoder
encoder = record { max_frame_len = 2; raw_channel_id = 7 }

-- The second payload is too long.
abbrev payloads : List Bytes
payloads = (1 ∷ 2 ∷ []) ∷ (3 ∷ 4 ∷ 5 ∷ []) ∷ (6 ∷ []) ∷ []

-- The stream, in three parts.
abbrev events : List Event
events =
    polls
    ∷ arrives (0 ∷ 0 ∷ 0 ∷ 3 ∷ 7 ∷ [])
    ∷ polls
    ∷ arrives (1 ∷ 2 ∷ 0 ∷ [])
    ∷ polls
    ∷ arrives (0 ∷ 0 ∷ 2 ∷ 7 ∷ 6 ∷ [])
    ∷ []

stream : arrivals events ≡ encode_all big_endian encoder payloads []
unfolding encode_all encode big_endian be_bytes
stream = refl

delivery_example :
    (frames : List Bytes) × (run big_endian (new_decoder 3) [] (events ++ repeat_polls 3)
      ≡ some (frames, new_decoder 3, []))
    × (map (decode_incoming_reliable_message big_endian) frames
        ≡ map (λ p. some (7, p)) (accepted 2 payloads))
delivery_example =
    delivery big_endian big_endian_laws encoder 3 payloads events (omega arith) (omega arith)
      (omega arith) stream

encode_all-wire_example :
    encode_all big_endian encoder payloads (9 ∷ [])
    ≡ (9 ∷ []) ++ wire big_endian big_endian_laws (addressed 7 (accepted 2 payloads))
encode_all-wire_example =
    encode_all-wire big_endian big_endian_laws encoder payloads (9 ∷ []) (omega arith)

encode_result_example :
    encode big_endian encoder (3 ∷ 4 ∷ 5 ∷ []) (9 ∷ []) ≡ (err invalid_input, 9 ∷ [])
encode_result_example =
    encode_result big_endian big_endian_laws encoder (3 ∷ 4 ∷ 5 ∷ []) (9 ∷ []) (omega arith)

abbrev frames : List Bytes
frames = (7 ∷ 1 ∷ 2 ∷ []) ∷ []

frames-IsSendable : All (IsSendable 3) frames
frames-IsSendable =
    (record { holds_id = omega arith; within = omega arith; fits = omega arith }, tt)

-- The header and a part of the frame are there.
frames-Pending :
    Pending big_endian big_endian_laws 3
      (new_decoder 3)
      (0 ∷ 0 ∷ 0 ∷ 3 ∷ 7 ∷ [])
      (1 ∷ 2 ∷ [])
      frames
unfolding new_decoder big_endian_laws be_bytes
frames-Pending = at_head refl refl

decode-Polled_example :
    Polled big_endian big_endian_laws 3
      (1 ∷ 2 ∷ [])
      frames
      (0 ∷ 0 ∷ 0 ∷ 3 ∷ 7 ∷ [])
      (decode big_endian (new_decoder 3) (0 ∷ 0 ∷ 0 ∷ 3 ∷ 7 ∷ []))
decode-Polled_example =
    decode-Polled big_endian big_endian_laws 3 (new_decoder 3) (0 ∷ 0 ∷ 0 ∷ 3 ∷ 7 ∷ []) (1 ∷ 2 ∷ [])
      frames frames-IsSendable frames-Pending

stream-Pending :
    Pending big_endian big_endian_laws 3
      (new_decoder 3)
      []
      ((0 ∷ 0 ∷ 0 ∷ 3 ∷ 7 ∷ 1 ∷ []) ++ 2 ∷ [])
      frames
unfolding new_decoder big_endian_laws be_bytes
stream-Pending = at_head refl refl

run-Progress_example : Progress big_endian big_endian_laws 3 (2 ∷ []) frames (
    run big_endian
      (new_decoder 3)
      []
      (arrives (0 ∷ 0 ∷ []) ∷ polls ∷ arrives (0 ∷ 3 ∷ 7 ∷ 1 ∷ []) ∷ polls ∷ []))
run-Progress_example =
    run-Progress big_endian big_endian_laws 3 (new_decoder 3) [] (2 ∷ []) frames
      (arrives (0 ∷ 0 ∷ []) ∷ polls ∷ arrives (0 ∷ 3 ∷ 7 ∷ 1 ∷ []) ∷ polls ∷ []) frames-IsSendable
      stream-Pending

read-unreliable_datagram_example :
    read_datagram big_endian (unreliable_datagram big_endian (5 ∷ 6 ∷ []) 255)
    ≡ some (255, 5 ∷ 6 ∷ [])
read-unreliable_datagram_example =
    read-unreliable_datagram big_endian big_endian_laws 255 (5 ∷ 6 ∷ []) (omega arith)

decode-encode_at_limit_example :
    (out : Bytes) × (encode big_endian encoder (8 ∷ 9 ∷ []) [] ≡ (ok tt, out))
    × (decode big_endian (new_decoder 2) out ≡ (err invalid_data, new_decoder 2, out))
decode-encode_at_limit_example =
    decode-encode_at_limit big_endian big_endian_laws 7 2 (8 ∷ 9 ∷ []) (omega arith) (omega arith)
      refl (omega arith)

decode_empty_frame_example :
    (decode big_endian (new_decoder 2) (big_endian_laws.uint_bytes 0 4 ++ 1 ∷ [])
      ≡ (ok (some []), new_decoder 2, 1 ∷ []))
    × (decode_incoming_reliable_message big_endian [] ≡ none)
decode_empty_frame_example = decode_empty_frame big_endian big_endian_laws 2 (1 ∷ []) (omega arith)
