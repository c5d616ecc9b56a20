-- ===== src/Peer/Dispatch/Whole.antt =====
-- A whole dispatch of received payloads, told without the functions of the code: its answer, the
-- buffers and the counters.
use bevy_quinnet.Base.{
  ℕ, ◌+◌, ◌%◌, ◌^◌, ◌<◌, ◌≡◌, ◌≢◌, ◌⊎◌, refl, ◌∙◌, List, [], ◌∷◌, ◌++◌, some, Result, ok, err,
  length, take, arith, inl, inr,
}
use bevy_quinnet.Error.{RecvChannelError}
use bevy_quinnet.Buffer.{Bytes}
use bevy_quinnet.Net.{Net, MpscLaws}
use bevy_quinnet.Peer.{PeerConnection, ConnectionStats, count_received}
use bevy_quinnet.Peer.Receive.{dispatch_received_payloads_to_channel_buffers, report}
use bevy_quinnet.Peer.Buffers.{buffered, incoming, IsWithin, deliver-IsWithin}
use bevy_quinnet.Peer.Dispatch.{deliver-buffered, count_all, dispatch_ends}
use bevy_quinnet.Peer.Refusals.{refusals, held_in, deliver-refusals}

abbrev pub bytes_in : List (ℕ × Bytes) → ℕ
bytes_in [] = 0
bytes_in ((id, payload) ∷ rest) = length payload + bytes_in rest

-- The counters modulo their width.
count_all_lem :
    (s : ConnectionStats) (backlog : List (ℕ × Bytes))
    → ((count_all s backlog).received_bytes_count % 2 ^ 64
        ≡ (s.received_bytes_count + bytes_in backlog) % 2 ^ 64)
      × ((count_all s backlog).received_messages_count % 2 ^ 64
          ≡ (s.received_messages_count + length backlog) % 2 ^ 64)
      × ((count_all s backlog).sent_bytes_count ≡ s.sent_bytes_count)
unfolding count_received
count_all_lem s [] = (omega arith, omega arith, refl)
count_all_lem s ((id, payload) ∷ rest) =
    let (p, q, r) = count_all_lem (count_received s (length payload)) rest in
    (omega (arith, p), omega (arith, q), r)

report_lem :
    (errs : List RecvChannelError)
    → ((errs ≡ []) × (report errs ≡ ok tt)) ⊎ ((errs ≢ []) × (report errs ≡ err errs))
report_lem [] = inl (refl, refl)
report_lem (e ∷ errs) = inr (λ x. cc, refl)

module _ (N : Net) {S : Type 0} (laws : MpscLaws N.received) where
  -- The errors for what waits for a connection.
  abbrev pub refused : PeerConnection N S → List (ℕ × Bytes) → List RecvChannelError
  refused c = refusals c.recv_channels_cfg (held_in c.recv_channels_cfg c.recv_channels_payloads)

  -- What a dispatch answers, and what it leaves in the connection and in channel `j`'s buffer.
  pub record Received (c : PeerConnection N S) (backlog : List (ℕ × Bytes)) (j : ℕ)
      (r : Result (Unit {0}) (List RecvChannelError)) (c' : PeerConnection N S) (w' : N.World)
      : Type 0 where
    pub answer :
        ((refused c backlog ≡ []) × (r ≡ ok tt))
        ⊎ ((refused c backlog ≢ []) × (r ≡ err (refused c backlog)))
    pub buffer :
        buffered j c'.recv_channels_payloads
        ≡ take c.recv_channels_cfg.max_buffered_payloads_count_per_channel
            (buffered j c.recv_channels_payloads ++ incoming j backlog)
    pub within : IsWithin c.recv_channels_cfg c'.recv_channels_payloads
    pub bytes_counted :
        c'.stats.received_bytes_count % 2 ^ 64
        ≡ (c.stats.received_bytes_count + bytes_in backlog) % 2 ^ 64
    pub messages_counted :
        c'.stats.received_messages_count % 2 ^ 64
        ≡ (c.stats.received_messages_count + length backlog) % 2 ^ 64
    pub sent_kept : c'.stats.sent_bytes_count ≡ c.stats.sent_bytes_count
    pub sends_kept : c'.send_channels ≡ c.send_channels
    pub drained : laws.backlog c'.bytes_from_peer_recv w' ≡ []

  -- With more fuel than waiting payloads, a positive limit per channel and buffers within the
  -- limits, a dispatch ends. It has taken all that waited; the buffer of a channel below the
  -- channel limit holds what it held followed by what came in on that channel, in order, cut to the
  -- limit; and the buffers are within the limits. It answers, in order, one error for each payload
  -- that found its channel's buffer full or its channel not received, or success if there is none.
  -- Received bytes and messages are counted, modulo 2^64, the sent bytes are not, and the send
  -- channels are kept.
  pub dispatch_received_payloads_lem :
      (fuel : ℕ) (c : PeerConnection N S) (w : N.World) (j : ℕ)
      → length (laws.backlog c.bytes_from_peer_recv w) < fuel
      → 0 < c.recv_channels_cfg.max_buffered_payloads_count_per_channel
      → IsWithin c.recv_channels_cfg c.recv_channels_payloads
      → j < c.recv_channels_cfg.max_receive_channels_count
      → (r : Result (Unit {0}) (List RecvChannelError)) × (c' : PeerConnection N S) × (w' : N.World)
        × (dispatch_received_payloads_to_channel_buffers N fuel c w ≡ some (r, c', w'))
        × Received c (laws.backlog c.bytes_from_peer_recv w) j r c' w'
  dispatch_received_payloads_lem fuel c w j h positive v lt =
      let (errs, c', w', ends, d) = dispatch_ends N laws fuel c w h in
      let backlog = laws.backlog c.bytes_from_peer_recv w in
      let cfg = c.recv_channels_cfg in
      let told : errs ≡ refused c backlog =
        d.errors
        ∙ deliver-refusals cfg (held_in cfg c.recv_channels_payloads) c.recv_channels_payloads []
            backlog positive v (λ i le. refl) in
      let (p, q, s) = count_all_lem c.stats backlog in
      (
        report errs,
        c',
        w',
        ends,
        record {
          answer = rw told (report_lem (refused c backlog));
          buffer =
              rw d.buffers
                (deliver-buffered cfg c.recv_channels_payloads [] backlog j positive v lt);
          within =
              rw d.buffers (deliver-IsWithin cfg c.recv_channels_payloads [] backlog positive v);
          bytes_counted = rw d.counted p;
          messages_counted = rw d.counted q;
          sent_kept = rw d.counted s;
          sends_kept = d.sends;
          drained = d.drained;
        },
      )
