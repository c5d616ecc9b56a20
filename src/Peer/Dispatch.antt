-- ===== src/Peer/Dispatch.antt =====
-- What a dispatch of received payloads leaves in the buffers, and its loop.
pub mod Whole
use bevy_quinnet.Base.{
  ℕ, zero, suc, ◌+◌, ◌-◌, ◌≤◌, ◌<◌, ◌≡◌, refl, sym, ◌∙◌, List, [], ◌∷◌, ◌++◌, some, length,
  length-append, get_elem?, set, replicate, arith, Option-cases, inl, inr, All-get_elem?, take,
  take_full, take_all, ok, err,
}
use mathlib.Core.List.{append_assoc, append-nil}
use bevy_quinnet.Error.{RecvChannelError}
use bevy_quinnet.Buffer.{Bytes}
use bevy_quinnet.Net.{Net, MpscLaws, TryRecvError}
use bevy_quinnet.Peer.{RecvChannelsConfiguration, PeerConnection, ConnectionStats, count_received}
use bevy_quinnet.Peer.Receive.{
  dispatch_payload, push_error, dispatch_loop, into_buffer, into_new_buffer,
  dispatch_received_payloads_to_channel_buffers, dequeue_undispatched_bytes_from_peer, report,
}
use bevy_quinnet.Peer.Buffers.{
  buffered, deliver, incoming, IsWithin, dispatch_payload-IsWithin, dispatch_payload-buffered,
}

length-buffered :
    (cfg : RecvChannelsConfiguration) (buffers : List (List Bytes)) (j : ℕ)
    → IsWithin cfg buffers
    → length (buffered j buffers) ≤ cfg.max_buffered_payloads_count_per_channel
length-buffered cfg buffers j v = elim (Option-cases (get_elem? buffers j)) [
  | inl e ↦ rw e (omega arith)
  | inr (b, e) ↦ rw e (All-get_elem? _ buffers j b v.payloads e)
]

pub deliver-buffered :
    (cfg : RecvChannelsConfiguration) (buffers : List (List Bytes)) (errs : List RecvChannelError)
    (backlog : List (ℕ × Bytes)) (j : ℕ)
    → 0 < cfg.max_buffered_payloads_count_per_channel
    → IsWithin cfg buffers
    → j < cfg.max_receive_channels_count
    → buffered j (deliver cfg buffers errs backlog).1
      ≡ take cfg.max_buffered_payloads_count_per_channel (buffered j buffers ++ incoming j backlog)
unfolding deliver
deliver-buffered cfg buffers errs [] j h v lt = rw (append-nil (buffered j buffers)) (
    sym (
      take_all cfg.max_buffered_payloads_count_per_channel (buffered j buffers)
        (length-buffered cfg buffers j v)))
deliver-buffered cfg buffers errs ((id, payload) ∷ rest) j h v lt =
    deliver-buffered cfg (dispatch_payload cfg buffers id payload).1
      (push_error errs (dispatch_payload cfg buffers id payload).0) rest j h
      (dispatch_payload-IsWithin cfg buffers id payload h v) lt
    ∙ rw (dispatch_payload-buffered cfg buffers id j payload h v) (
        ground (
          arith,
          length-buffered cfg buffers j v,
          append_assoc (buffered j buffers) (payload ∷ []) (incoming j rest),
          take_full cfg.max_buffered_payloads_count_per_channel (buffered j buffers)
              (incoming j rest),
          take_full cfg.max_buffered_payloads_count_per_channel (buffered j buffers)
              (payload ∷ incoming j rest),
        ))

-- All payloads in all buffers.
abbrev pub total : List (List Bytes) → ℕ
total [] = 0
total (b ∷ bs) = length b + total bs

total-append : (xs ys : List (List Bytes)) → total (xs ++ ys) ≡ total xs + total ys
total-append [] ys = omega arith
total-append (x ∷ xs) ys = omega (arith, total-append xs ys)

total-replicate : (n : ℕ) → total (replicate n []) ≡ 0
total-replicate zero = refl
total-replicate (suc n) = omega (arith, total-replicate n)

total-set :
    (xs : List (List Bytes)) (i : ℕ) (b b' : List Bytes)
    → get_elem? xs i ≡ some b
    → total (set xs i b') + length b ≡ total xs + length b'
total-set [] i b b' e = ground arith
total-set (x ∷ xs) zero b b' e = ground arith
total-set (x ∷ xs) (suc i) b b' e = omega (arith, total-set xs i b b' e)

total-dispatch_payload :
    (cfg : RecvChannelsConfiguration) (buffers : List (List Bytes)) (errs : List RecvChannelError)
    (id : ℕ) (payload : Bytes)
    → total (dispatch_payload cfg buffers id payload).1
        + length (push_error errs (dispatch_payload cfg buffers id payload).0)
      ≡ total buffers + length errs + 1
unfolding dispatch_payload into_buffer into_new_buffer
total-dispatch_payload cfg buffers errs id payload = elim (Option-cases (get_elem? buffers id)) [
  | inr (b, e) ↦
      rw (e, dispatch_payload)
        (ground (
          arith,
          total-set buffers id b (b ++ payload ∷ []) e,
          length-append b (payload ∷ []),
          length-append errs (RecvChannelError.recv_channel_full id ∷ []),
        ))
  | inl e ↦
      rw (e, dispatch_payload)
        (ground (
          arith,
          total-append (buffers ++ replicate (id - length buffers) []) ((payload ∷ []) ∷ []),
          total-append buffers (replicate (id - length buffers) []),
          total-replicate (id - length buffers),
          length-append errs (RecvChannelError.max_recv_channel_count_reached id ∷ []),
        ))
]

-- No payload is lost without an error: after a dispatch, the payloads in the buffers and the errors
-- are together as many as the payloads and errors before and the payloads that came in.
pub total-deliver :
    (cfg : RecvChannelsConfiguration) (buffers : List (List Bytes)) (errs : List RecvChannelError)
    (backlog : List (ℕ × Bytes))
    → total (deliver cfg buffers errs backlog).1 + length (deliver cfg buffers errs backlog).0
      ≡ total buffers + length errs + length backlog
unfolding deliver
total-deliver cfg buffers errs [] = omega arith
total-deliver cfg buffers errs ((id, payload) ∷ rest) = omega (
  arith,
  total-deliver cfg (dispatch_payload cfg buffers id payload).1
      (push_error errs (dispatch_payload cfg buffers id payload).0) rest,
  total-dispatch_payload cfg buffers errs id payload,
)

-- The counters after these payloads.
abbrev pub count_all : ConnectionStats → List (ℕ × Bytes) → ConnectionStats
count_all s [] = s
count_all s ((id, payload) ∷ rest) = count_all (count_received s (length payload)) rest

module _ (N : Net) {S : Type 0} (laws : MpscLaws N.received) where
  -- What a finished dispatch has done with the payloads that waited.
  pub record Dispatched (c : PeerConnection N S) (errs : List RecvChannelError)
      (backlog : List (ℕ × Bytes)) (errs' : List RecvChannelError) (c' : PeerConnection N S)
      (w' : N.World) : Type 0 where
    pub errors : errs' ≡ (deliver c.recv_channels_cfg c.recv_channels_payloads errs backlog).0
    pub buffers :
        c'.recv_channels_payloads
        ≡ (deliver c.recv_channels_cfg c.recv_channels_payloads errs backlog).1
    pub counted : c'.stats ≡ count_all c.stats backlog
    pub sends : c'.send_channels ≡ c.send_channels
    pub drained : laws.backlog c'.bytes_from_peer_recv w' ≡ []

  dequeue_err :
      (c : PeerConnection N S) (w : N.World) (x : TryRecvError)
      → (N.received.try_recv c.bytes_from_peer_recv w).0 ≡ err x
      → dequeue_undispatched_bytes_from_peer N c w
        ≡ (err x, c, (N.received.try_recv c.bytes_from_peer_recv w).1)
  unfolding dequeue_undispatched_bytes_from_peer
  dequeue_err c w x f = rw (f, dequeue_undispatched_bytes_from_peer)

  dequeue_ok :
      (c : PeerConnection N S) (w : N.World) (id : ℕ) (payload : Bytes)
      → (N.received.try_recv c.bytes_from_peer_recv w).0 ≡ ok (id, payload)
      → dequeue_undispatched_bytes_from_peer N c w ≡ (
        ok (id, payload),
        record c { stats = count_received c.stats (length payload) },
        (N.received.try_recv c.bytes_from_peer_recv w).1,
      )
  unfolding dequeue_undispatched_bytes_from_peer
  dequeue_ok c w id payload f = rw (f, dequeue_undispatched_bytes_from_peer)

  -- With more fuel than there are payloads the loop ends.
  dispatch_loop_ends :
      (fuel : ℕ) (c : PeerConnection N S) (errs : List RecvChannelError) (w : N.World)
      (backlog : List (ℕ × Bytes))
      → laws.backlog c.bytes_from_peer_recv w ≡ backlog
      → length backlog < fuel
      → (errs' : List RecvChannelError) × (c' : PeerConnection N S) × (w' : N.World)
        × (dispatch_loop N fuel c errs w ≡ some (errs', c', w'))
        × Dispatched c errs backlog errs' c' w'
  unfolding dispatch_loop deliver
  dispatch_loop_ends zero c errs w backlog e h = absurd (omega arith)
  dispatch_loop_ends (suc fuel) c errs w [] e h =
      let (x, f, g) = laws.try_recv_nil c.bytes_from_peer_recv w e in
      (
        errs,
        c,
        (N.received.try_recv c.bytes_from_peer_recv w).1,
        rw (dequeue_err c w x f, dispatch_loop) (rw (dequeue_err c w x f)),
        record { errors = refl; buffers = refl; counted = refl; sends = refl; drained = g },
      )
  dispatch_loop_ends (suc fuel) c errs w ((id, payload) ∷ rest) e h =
      let (f, g) = laws.try_recv_cons c.bytes_from_peer_recv w (id, payload) rest e in
      let one = dispatch_payload c.recv_channels_cfg c.recv_channels_payloads id payload in
      let c1 : PeerConnection N S = record c {
        stats = count_received c.stats (length payload);
        recv_channels_payloads = one.1;
      } in
      let w1 = (N.received.try_recv c.bytes_from_peer_recv w).1 in
      let (errs', c', w', ends, d) =
        dispatch_loop_ends fuel c1 (push_error errs one.0) w1 rest g (omega arith) in
      (
        errs',
        c',
        w',
        rw (dequeue_ok c w id payload f, dispatch_loop) (rw (dequeue_ok c w id payload f) ends),
        record {
          errors = d.errors;
          buffers = d.buffers;
          counted = d.counted;
          sends = d.sends;
          drained = d.drained;
        },
      )

  pub dispatch_ends :
      (fuel : ℕ) (c : PeerConnection N S) (w : N.World)
      → length (laws.backlog c.bytes_from_peer_recv w) < fuel
      → (errs : List RecvChannelError) × (c' : PeerConnection N S) × (w' : N.World)
        × (dispatch_received_payloads_to_channel_buffers N fuel c w ≡ some (report errs, c', w'))
        × Dispatched c [] (laws.backlog c.bytes_from_peer_recv w) errs c' w'
  unfolding dispatch_received_payloads_to_channel_buffers
  dispatch_ends fuel c w h =
      let (errs, c', w', ends, d) = dispatch_loop_ends fuel c [] w _ refl h in
      (errs, c', w', rw (ends, dispatch_received_payloads_to_channel_buffers), d)
