-- ===== src/Peer/Refusals.antt =====
-- Which errors a dispatch of received payloads gathers, told from how many payloads each buffer holds.
use bevy_quinnet.Base.{
  ℕ, ◌+◌, ◌<◌, ◌≡◌, refl, sym, ap, ◌∙◌, List, [], ◌∷◌, ◌++◌, Option, none, some, length,
  length-append, get_elem?, get_elem?_above, ltb, if◌then◌else◌, arith, ◌==◌, ==_iff, true, false,
  Bool-cases, Option-cases, inl, inr,
}
use mathlib.Core.List.{append_assoc, append-nil}
use bevy_quinnet.Error.{RecvChannelError, recv_channel_full, max_recv_channel_count_reached}
use bevy_quinnet.Buffer.{Bytes}
use bevy_quinnet.Peer.{RecvChannelsConfiguration}
use bevy_quinnet.Peer.Receive.{dispatch_payload, push_error, into_buffer, into_new_buffer}
use bevy_quinnet.Peer.Buffers.{
  buffered, deliver, IsWithin, dispatch_payload-IsWithin, dispatch_payload-buffered,
}

module _ (cfg : RecvChannelsConfiguration) where
  -- One more payload on a channel.
  abbrev pub bump : ℕ → (ℕ → ℕ) → ℕ → ℕ
  bump id held j = if id == j then held j + 1 else held j

  -- The errors for the payloads that come in while the channels hold this many.
  unfoldable pub refusals : (ℕ → ℕ) → List (ℕ × Bytes) → List RecvChannelError
  refusals held [] = []
  refusals held ((id, payload) ∷ rest) = elim (ltb id cfg.max_receive_channels_count) [
    | false ↦ max_recv_channel_count_reached id ∷ refusals held rest
    | true ↦ elim (ltb (held id) cfg.max_buffered_payloads_count_per_channel) [
      | true ↦ refusals (bump id held) rest
      | false ↦ recv_channel_full id ∷ refusals held rest
    ]
  ]

  abbrev pub held_in : List (List Bytes) → ℕ → ℕ
  held_in buffers j = length (buffered j buffers)

  -- The error for one payload.
  abbrev refusal : ℕ → ℕ → Option RecvChannelError
  refusal id count =
      if ltb id cfg.max_receive_channels_count
      then if ltb count cfg.max_buffered_payloads_count_per_channel
        then none
        else some (recv_channel_full id)
      else some (max_recv_channel_count_reached id)

  dispatch_payload-refusal :
      (buffers : List (List Bytes)) (id : ℕ) (payload : Bytes)
      → 0 < cfg.max_buffered_payloads_count_per_channel
      → IsWithin cfg buffers
      → (dispatch_payload cfg buffers id payload).0 ≡ refusal id (held_in buffers id)
  unfolding dispatch_payload into_buffer into_new_buffer
  dispatch_payload-refusal buffers id payload h v = elim (Option-cases (get_elem? buffers id)) [
    | inr (b, e) ↦ rw (e, dispatch_payload) (ground (arith, get_elem?_above buffers id, v.channels))
    | inl e ↦ rw (e, dispatch_payload) (ground arith)
  ]

  -- The buffers hold this many, on the channels that are received.
  abbrev Agree : (ℕ → ℕ) → List (List Bytes) → Type 0
  Agree held buffers = (j : ℕ) → j < cfg.max_receive_channels_count → held j ≡ held_in buffers j

  -- The counts after one payload.
  counts : (ℕ → ℕ) → ℕ → ℕ → ℕ
  counts held id =
      if ltb id cfg.max_receive_channels_count
      then if ltb (held id) cfg.max_buffered_payloads_count_per_channel then bump id held else held
      else held

  held_in-dispatch_payload :
      (held : ℕ → ℕ) (buffers : List (List Bytes)) (id : ℕ) (payload : Bytes)
      → 0 < cfg.max_buffered_payloads_count_per_channel
      → IsWithin cfg buffers
      → Agree held buffers
      → Agree (counts held id) (dispatch_payload cfg buffers id payload).1
  unfolding counts
  held_in-dispatch_payload held buffers id payload h v a j lt = ground (
    arith,
    ap (λ (l : List Bytes). length l) (dispatch_payload-buffered cfg buffers id j payload h v),
    a j lt,
    a id,
    ==_iff id j,
    length-append (buffered id buffers) (payload ∷ []),
  )

  refusals-cons :
      (held : ℕ → ℕ) (id : ℕ) (payload : Bytes) (rest : List (ℕ × Bytes))
      (errs : List RecvChannelError)
      → errs ++ refusals held ((id, payload) ∷ rest)
        ≡ push_error errs (refusal id (held id)) ++ refusals (counts held id) rest
  unfolding refusals counts
  refusals-cons held id payload rest errs =
      elim (Bool-cases (ltb id cfg.max_receive_channels_count)) [
        | inr far ↦
            rw (refusals, far)
              (sym
                (append_assoc errs (max_recv_channel_count_reached id ∷ []) (refusals held rest)))
        | inl near ↦ elim (Bool-cases (ltb (held id) cfg.max_buffered_payloads_count_per_channel)) [
          | inl room ↦ rw (refusals, near, room) refl
          | inr no_room ↦
              rw (refusals, near, no_room)
                (sym (append_assoc errs (recv_channel_full id ∷ []) (refusals held rest)))
        ]
      ]

  pub deliver-refusals :
      (held : ℕ → ℕ) (buffers : List (List Bytes)) (errs : List RecvChannelError)
      (backlog : List (ℕ × Bytes))
      → 0 < cfg.max_buffered_payloads_count_per_channel
      → IsWithin cfg buffers
      → Agree held buffers
      → (deliver cfg buffers errs backlog).0 ≡ errs ++ refusals held backlog
  unfolding deliver refusals
  deliver-refusals held buffers errs [] h v a = sym (append-nil errs)
  deliver-refusals held buffers errs ((id, payload) ∷ rest) h v a =
      let one = dispatch_payload cfg buffers id payload in
      deliver-refusals (counts held id) one.1 (push_error errs one.0) rest h
        (dispatch_payload-IsWithin cfg buffers id payload h v)
        (held_in-dispatch_payload held buffers id payload h v a)
      ∙ ap (λ (e : Option RecvChannelError). push_error errs e ++ refusals (counts held id) rest)
          (dispatch_payload-refusal buffers id payload h v ∙ same_refusal)
      ∙ sym (refusals-cons held id payload rest errs)
    where
      same_refusal : refusal id (held_in buffers id) ≡ refusal id (held id)
      same_refusal = ground (arith, a id)
