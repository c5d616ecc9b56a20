-- ===== src/Server/Messages/Group.antt =====
-- A message to a group of clients: the loop that is written out again for messages.
use bevy_quinnet.Base.{ℕ, ◌≡◌, refl, ap, List, [], ◌∷◌, Result, ok, map_err}
use bevy_quinnet.Bincode.{Bincode}
use bevy_quinnet.Buffer.{Bytes}
use bevy_quinnet.Server.{ServerNet, Endpoint, ServerGroupSendError, ServerGroupPayloadSendError}
use bevy_quinnet.Server.Send.{
  send_payload_on, send_group_payload_on, send_to_group, group_result, push_failure,
}
use bevy_quinnet.Server.Messages.{
  ServerGroupMessageSendError, send_bytes_to_group, send_group_message_on, Sent,
}

-- The error of the payloads' function, as the messages' function gives it.
abbrev pub as_message_error : ServerGroupPayloadSendError → ServerGroupMessageSendError
as_message_error ServerGroupPayloadSendError.no_default_channel =
    ServerGroupMessageSendError.no_default_channel
as_message_error (ServerGroupPayloadSendError.group_send_error errs) =
    ServerGroupMessageSendError.group_send_error errs

module _ (V : ServerNet) {T : Type 0} (c : Bincode T) where
  send_bytes_to_group_lem :
      (e : Endpoint V) (client_ids : List ℕ) (channel_id : ℕ) (bytes : Bytes)
      (errs : ServerGroupSendError) (w : V.net.World)
      → send_bytes_to_group V c e client_ids channel_id bytes errs w
        ≡ send_to_group V e client_ids channel_id bytes errs w
  unfolding send_bytes_to_group send_to_group
  send_bytes_to_group_lem e [] channel_id bytes errs w = refl
  send_bytes_to_group_lem e (client_id ∷ client_ids) channel_id bytes errs w =
      send_bytes_to_group_lem (send_payload_on V e client_id channel_id bytes w).1 client_ids
        channel_id bytes
        (push_failure errs client_id (send_payload_on V e client_id channel_id bytes w).0)
        (send_payload_on V e client_id channel_id bytes w).2

  -- What the payloads' function answers, with the messages' error.
  abbrev pub as_message :
      Result (Unit {0}) ServerGroupPayloadSendError × Endpoint V × V.net.World
      → Sent V c ServerGroupMessageSendError
  as_message (sent, e, w) = (map_err as_message_error sent, e, w)

  regrouped :
      (errs : ServerGroupSendError)
      → map_err ServerGroupMessageSendError.group_send_error (group_result errs)
        ≡ map_err as_message_error
            (map_err ServerGroupPayloadSendError.group_send_error (group_result errs))
  regrouped [] = refl
  regrouped (x ∷ errs) = refl

  -- If a message encodes as a payload, send_group_message_on, whose loop is written out again, does
  -- to the endpoint and the queues what send_group_payload_on does with that payload, and answers
  -- the same errors.
  pub send_group_message_on_lem :
      (e : Endpoint V) (client_ids : List ℕ) (channel_id : ℕ) (m : T) (payload : Bytes)
      (w : V.net.World)
      → c.encode_to_vec m ≡ ok payload
      → send_group_message_on V c e client_ids channel_id m w
        ≡ as_message (send_group_payload_on V e client_ids channel_id payload w)
  unfolding send_group_message_on send_group_payload_on
  send_group_message_on_lem e client_ids channel_id m payload w h =
      rw (h, send_group_message_on)
        (rw (send_bytes_to_group_lem e client_ids channel_id payload [] w) (
          ap
            (λ (r : Result (Unit {0}) ServerGroupMessageSendError). (
              r,
              (send_to_group V e client_ids channel_id payload [] w).1,
              (send_to_group V e client_ids channel_id payload [] w).2,
            ))
            (regrouped (send_to_group V e client_ids channel_id payload [] w).0)))
