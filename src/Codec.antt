-- ===== src/Codec.antt =====
-- shared/channels/reliable/codec.rs, with the message framing of recv.rs and of the unreliable
-- channels. `reserve` and `with_capacity` change no content and have no counterpart.
pub mod Wire
pub mod Fragments
pub mod Messages
pub mod Limits
mod Tests
use bevy_quinnet.Base.{
  ℕ, ◌+◌, ◌≤◌, ◌<◌, List, [], ◌∷◌, ◌++◌, Option, none, some, Result, ok, err, length, ltb, leb,
  if◌then◌else◌,
}
use bevy_quinnet.Buffer.{Bytes, Buffer}
use bevy_quinnet.Config.{
  protocol_header_len, reliable_frame_length_field_len, reliable_frame_total_header_len,
  channel_id_len,
}

-- `io::ErrorKind` of the two refusals.
pub data IoError : Type 0 where
  invalid_input invalid_data : IoError

pub record QuinnetProtocolCodecEncoder : Type 0 where
  pub max_frame_len : ℕ
  pub raw_channel_id : ℕ

pub data DecodeState : Type 0 where
  head : DecodeState
  data_of : ℕ → DecodeState

pub record QuinnetProtocolCodecDecoder : Type 0 where
  pub state : DecodeState
  pub max_frame_len : ℕ

-- `QuinnetProtocolCodecDecoder::new`
pub new_decoder : ℕ → QuinnetProtocolCodecDecoder
new_decoder max_frame_len = record { state = head; max_frame_len = max_frame_len }

module _ (b : Buffer) where
  -- The result, and `dst` after the call.
  unfoldable pub encode :
      QuinnetProtocolCodecEncoder → Bytes → Bytes → Result (Unit {0}) IoError × Bytes
  encode e frame dst = if ltb e.max_frame_len (length frame) then (err invalid_input, dst) else (
    ok tt,
    b.extend_from_slice frame (
        b.put_u8 e.raw_channel_id
          (b.put_uint (protocol_header_len + length frame) reliable_frame_length_field_len dst)),
  )

  -- The result, and `src` after the call.
  pub decode_head : QuinnetProtocolCodecDecoder → Bytes → Result (Option ℕ) IoError × Bytes
  decode_head d src =
      let payload_length : ℕ = b.get_uint reliable_frame_length_field_len src in
      if ltb (length src) reliable_frame_total_header_len
      then (ok none, src)
      else if ltb d.max_frame_len payload_length
      then (err invalid_data, src)
      else (ok (some payload_length), b.advance reliable_frame_length_field_len src)

  pub decode_data : ℕ → Bytes → Option Bytes × Bytes
  decode_data payload_length src =
      if ltb (length src) payload_length
      then (none, src)
      else (let (data_bytes, rest) = b.split_to payload_length src in (some data_bytes, rest))

  -- The end of `decode`, once the length of the payload is known.
  finish_decode :
      QuinnetProtocolCodecDecoder
      → ℕ
      → Option Bytes × Bytes
      → Result (Option Bytes) IoError × QuinnetProtocolCodecDecoder × Bytes
  finish_decode d payload_length (some data_bytes, rest) =
      (ok (some data_bytes), record d { state = head }, rest)
  finish_decode d payload_length (none, rest) =
      (ok none, record d { state = data_of payload_length }, rest)

  after_head :
      QuinnetProtocolCodecDecoder
      → Result (Option ℕ) IoError × Bytes
      → Result (Option Bytes) IoError × QuinnetProtocolCodecDecoder × Bytes
  unfolding finish_decode
  after_head d (ok (some payload_length), src) =
      finish_decode d payload_length (decode_data payload_length src)
  after_head d (ok none, src) = (ok none, d, src)
  after_head d (err e, src) = (err e, d, src)

  -- The result, the decoder and `src` after the call.
  unfoldable pub decode :
      QuinnetProtocolCodecDecoder
      → Bytes
      → Result (Option Bytes) IoError × QuinnetProtocolCodecDecoder × Bytes
  unfolding after_head
  decode d src = elim d.state [
    | head ↦ after_head d (decode_head d src)
    | data_of payload_length ↦ finish_decode d payload_length (decode_data payload_length src)
  ]

  -- recv.rs. `none` is the panic of `get_u8` on an empty frame.
  pub decode_incoming_reliable_message : Bytes → Option (ℕ × Bytes)
  decode_incoming_reliable_message msg_bytes =
      let (payload, _) = b.split_off channel_id_len msg_bytes in
      elim (b.get_u8 msg_bytes) [ some channel_id ↦ some (channel_id, payload) | none ↦ none ]

  -- unreliable/send.rs: the datagram that is handed to the connection.
  unfoldable pub unreliable_datagram : Bytes → ℕ → Bytes
  unreliable_datagram msg_bytes channel_id = b.extend_from_slice msg_bytes (b.put_u8 channel_id [])

  -- unreliable/recv.rs: the loop's body. `none` is the `continue` on a datagram with no payload.
  pub read_datagram : Bytes → Option (ℕ × Bytes)
  read_datagram msg_bytes =
      let (payload, front) = b.split_off 1 msg_bytes in
      if leb (length msg_bytes) channel_id_len
      then none
      else elim front [ channel_id ∷ _ ↦ some (channel_id, payload) | [] ↦ none ]
