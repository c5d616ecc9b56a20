-- ===== src/Peer/Buffers.antt =====
-- The receive buffers of a connection against their description: for each channel, the oldest
-- payloads that came in, up to the limit, and an error for each payload that is dropped.
use bevy_quinnet.Base.{
  ℕ, ◌≤◌, ◌<◌, ◌≡◌, List, [], ◌∷◌, ◌++◌, none, length, length-append, length-set, get_elem?,
  get_elem?_above, get_elem?_below, ltb, if◌then◌else◌, arith, ◌==◌, ==_iff, Bool-cases,
  Option-cases, inl, inr, ltb→lt, All, All-append, All-set, All-replicate,
}
use bevy_quinnet.Base.Padded.{item, item-set, item-fill, length-fill}
use bevy_quinnet.Error.{RecvChannelError}
use bevy_quinnet.Buffer.{Bytes}
use bevy_quinnet.Peer.{RecvChannelsConfiguration}
use bevy_quinnet.Peer.Receive.{dispatch_payload, push_error, into_buffer, into_new_buffer}

-- The buffer of a channel; a channel that nothing came in on has an empty one.
abbrev pub buffered : ℕ → List (List Bytes) → List Bytes
buffered = item []

-- The loop of the dispatch, on the payloads that wait, in their order.
unfoldable pub deliver :
    RecvChannelsConfiguration
    → List (List Bytes)
    → List RecvChannelError
    → List (ℕ × Bytes)
    → List RecvChannelError × List (List Bytes)
deliver cfg buffers errs [] = (errs, buffers)
deliver cfg buffers errs ((id, payload) ∷ rest) =
    let (e, buffers') = dispatch_payload cfg buffers id payload in
    deliver cfg buffers' (push_error errs e) rest

-- The payloads that came in on one channel.
abbrev pub incoming : ℕ → List (ℕ × Bytes) → List Bytes
incoming j [] = []
incoming j ((id, payload) ∷ rest) =
    let others = incoming j rest in if id == j then payload ∷ others else others

-- No more buffers, and no longer ones, than the configuration allows.
pub record IsWithin (cfg : RecvChannelsConfiguration) (buffers : List (List Bytes)) : Type 0 where
  pub channels : length buffers ≤ cfg.max_receive_channels_count
  pub payloads :
      All (λ (b : List Bytes). length b ≤ cfg.max_buffered_payloads_count_per_channel) buffers

module _ (cfg : RecvChannelsConfiguration) where
  abbrev pub Fits : List Bytes → Type 0
  Fits b = length b ≤ cfg.max_buffered_payloads_count_per_channel

  pub beyond :
      (buffers : List (List Bytes)) (id : ℕ) → get_elem? buffers id ≡ none → length buffers ≤ id
  beyond buffers id e = ground (arith, get_elem?_below buffers id)

  into_buffer-IsWithin :
      (buffers : List (List Bytes)) (id : ℕ) (payload : Bytes) (b : List Bytes)
      → IsWithin cfg buffers
      → IsWithin cfg (into_buffer cfg buffers id payload b).1
  unfolding into_buffer
  into_buffer-IsWithin buffers id payload b v =
      elim (Bool-cases (ltb (length b) cfg.max_buffered_payloads_count_per_channel)) [
        | inl room ↦
            rw (room, into_buffer)
              (record {
                channels = rw (length-set buffers id (b ++ payload ∷ [])) v.channels;
                payloads =
                    All-set Fits buffers id _ v.payloads
                      (ground (arith, length-append b (payload ∷ [])));
              })
        | inr no_room ↦ rw (no_room, into_buffer) v
      ]

  into_new_buffer-IsWithin :
      (buffers : List (List Bytes)) (id : ℕ) (payload : Bytes)
      → 0 < cfg.max_buffered_payloads_count_per_channel
      → length buffers ≤ id
      → IsWithin cfg buffers
      → IsWithin cfg (into_new_buffer cfg buffers id payload).1
  unfolding into_new_buffer
  into_new_buffer-IsWithin buffers id payload h le v =
      elim (Bool-cases (ltb id cfg.max_receive_channels_count)) [
        | inl room ↦
            rw (room, into_new_buffer)
              (record {
                channels =
                    rw (length-fill [] buffers id (payload ∷ []) le)
                      (omega (arith, ltb→lt _ _ room));
                payloads =
                    All-append Fits _ _
                      (All-append Fits _ _ v.payloads (All-replicate Fits _ [] (omega arith)))
                      (omega arith);
              })
        | inr no_room ↦ rw (no_room, into_new_buffer) v
      ]

  pub dispatch_payload-IsWithin :
      (buffers : List (List Bytes)) (id : ℕ) (payload : Bytes)
      → 0 < cfg.max_buffered_payloads_count_per_channel
      → IsWithin cfg buffers
      → IsWithin cfg (dispatch_payload cfg buffers id payload).1
  unfolding dispatch_payload
  dispatch_payload-IsWithin buffers id payload h v = elim (Option-cases (get_elem? buffers id)) [
    | inr (b, e) ↦ rw (e, dispatch_payload) (into_buffer-IsWithin buffers id payload b v)
    | inl e ↦
        rw (e, dispatch_payload)
          (into_new_buffer-IsWithin buffers id payload h (beyond buffers id e) v)
  ]

  pub deliver-IsWithin :
      (buffers : List (List Bytes)) (errs : List RecvChannelError) (backlog : List (ℕ × Bytes))
      → 0 < cfg.max_buffered_payloads_count_per_channel
      → IsWithin cfg buffers
      → IsWithin cfg (deliver cfg buffers errs backlog).1
  unfolding deliver
  deliver-IsWithin buffers errs [] h v = v
  deliver-IsWithin buffers errs ((id, payload) ∷ rest) h v =
      deliver-IsWithin (dispatch_payload cfg buffers id payload).1
        (push_error errs (dispatch_payload cfg buffers id payload).0) rest h
        (dispatch_payload-IsWithin buffers id payload h v)

  -- What one payload does to the buffer of its channel.
  abbrev pub admit : ℕ → List Bytes → Bytes → List Bytes
  admit id old payload =
      if ltb id cfg.max_receive_channels_count
      then if ltb (length old) cfg.max_buffered_payloads_count_per_channel
        then old ++ payload ∷ []
        else old
      else old

  pub dispatch_payload-buffered :
      (buffers : List (List Bytes)) (id j : ℕ) (payload : Bytes)
      → 0 < cfg.max_buffered_payloads_count_per_channel
      → IsWithin cfg buffers
      → buffered j (dispatch_payload cfg buffers id payload).1
        ≡ (if id == j then admit id (buffered id buffers) payload else buffered j buffers)
  unfolding dispatch_payload into_buffer into_new_buffer
  dispatch_payload-buffered buffers id j payload h v = elim (Option-cases (get_elem? buffers id)) [
    | inr (b, e) ↦
        rw (e, dispatch_payload)
          (elim (Bool-cases (ltb (length b) cfg.max_buffered_payloads_count_per_channel)) [
            | inl room ↦
                ground
                  (arith, item-set [] buffers id j (b ++ payload ∷ []), get_elem?_above buffers id)
            | inr no_room ↦ ground (arith, ==_iff id j, get_elem?_above buffers id)
          ])
    | inl e ↦
        rw (e, dispatch_payload)
          (ground (arith, beyond buffers id e, item-fill [] buffers id j (payload ∷ [])))
  ]
