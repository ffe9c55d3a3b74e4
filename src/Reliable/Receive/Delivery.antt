-- ===== src/Reliable/Receive/Delivery.antt =====
-- Reassembly delivers the sender's stream: whatever is lost, repeated or reordered on the way.
pub mod Trace
use ashfall.Prelude.{
  ℕ, zero, suc, ◌+◌, ◌%◌, ◌≤◌, ◌<◌, ◌≡◌, ◌≢◌, refl, ap, sym, subst, ◌∙◌, inl, inr, Option, none,
  some, List, [], ◌∷◌, ◌++◌, arith, append_assoc, append-nil, true, Bool-cases, Option-cases,
  length, length-append, ◌==◌, nat_eq, wrapping_add, wrapping_sub, ltb,
}
use ashfall.Map
use ashfall.Map.Laws.{
  lookup-insert, map_laws, lookup-empty, lookup-remove_inv, lookup-insert_inv, size-remove-lt,
}
use ashfall.Reliable.{Bytes, ReliableChannel, new}
use ashfall.Reliable.Receive.{drain, pop_front, recv, take_ready, take_control_frames}

-- Packet `n` may arrive while packet `k` is the next in order: it is a copy of one of the last 65504
-- packets, or less than a full turn of the sequence numbers ahead.
pub record IsNear (k n : ℕ) : Type 0 where
  pub not_too_old : k ≤ n + 65504
  pub not_too_new : n < k + 65536

module _ (sent : ℕ → Bytes) where
  -- The first `k` packets of the stream.
  pub stream : ℕ → List Bytes
  stream zero = []
  stream (suc k) = stream k ++ sent k ∷ []

  length-stream : (k : ℕ) → length (stream k) ≡ k
  unfolding stream
  length-stream zero = refl
  length-stream (suc k) = omega (arith, length-append (stream k) (sent k ∷ []), length-stream k)

  -- After `k` packets in order, of which the client has taken `taken`.
  record Inv (taken : List Bytes) (k : ℕ) (ch : ReliableChannel) : Type 0 where
    seq : ch.recv_seq ≡ k % 65536
    ordered : taken ++ ch.ready_queue ≡ stream k
    held :
        (w : ℕ) (d : Bytes)
        → Map.lookup ch.recv_buffer w ≡ some d
        → (n : ℕ) × (k ≤ n) × (n < k + 32) × (w ≡ n % 65536) × (d ≡ sent n)

  deliver-Inv :
      (taken : List Bytes) (k : ℕ) (ch : ReliableChannel) (d : Bytes)
      → Inv taken k ch
      → Map.lookup ch.recv_buffer ch.recv_seq ≡ some d
      → Inv taken (suc k) (record ch {
        recv_buffer = Map.remove ch.recv_buffer ch.recv_seq;
        recv_seq = wrapping_add ch.recv_seq 1;
        ready_queue = ch.ready_queue ++ d ∷ [];
      })
  unfolding stream
  deliver-Inv taken k ch d v found =
      let (n, lo, hi, w, e) = v.held ch.recv_seq d found in
      let same : n ≡ k = omega (arith, v.seq) in
      record {
        seq = omega (arith, v.seq);
        ordered = ground (arith, append_assoc taken ch.ready_queue (d ∷ []), v.ordered);
        held = λ w' d' found'.
            let (apart, old) = lookup-remove_inv ch.recv_buffer ch.recv_seq w' d' found' in
            let (n', lo', hi', w'-n', e') = v.held w' d' old in
            let moved : n' ≢ k = λ s. apart (ground (arith, v.seq)) in
            (n', omega arith, omega arith, w'-n', e');
      }

  -- Where the fuel exceeds the size of the buffer, the loop ends with nothing left to deliver.
  drain-Inv :
      (fuel : ℕ) (taken : List Bytes) (k : ℕ) (ch : ReliableChannel)
      → length ch.recv_buffer.entries < fuel
      → Inv taken k ch
      → (j : ℕ) × (k ≤ j)
        × Inv taken j (drain fuel ch)
        × (Map.lookup (drain fuel ch).recv_buffer (drain fuel ch).recv_seq ≡ none)
  unfolding drain
  drain-Inv zero taken k ch h v = absurd (omega arith)
  drain-Inv (suc fuel) taken k ch h v =
      elim (Option-cases (Map.lookup ch.recv_buffer ch.recv_seq)) [
        | inl e ↦ (k, omega arith, rw (e, drain) v, rw (e, drain) e)
        | inr (d, e) ↦
            let smaller = size-remove-lt ch.recv_buffer ch.recv_seq d e in
            let (j, le, v', done) =
              drain-Inv fuel taken (suc k) _ (omega (arith, smaller))
                (deliver-Inv taken k ch d v e) in
            (j, omega arith, rw (e, drain) v', rw (e, drain) done)
      ]

  accept-Inv :
      (taken : List Bytes) (k : ℕ) (ch : ReliableChannel)
      → Inv taken k ch
      → Map.lookup ch.recv_buffer ch.recv_seq ≡ none
      → Inv taken (suc k) (record ch {
        recv_seq = wrapping_add ch.recv_seq 1;
        ack_pending = true;
        ready_queue = ch.ready_queue ++ sent k ∷ [];
      })
  unfolding stream
  accept-Inv taken k ch v fresh = record {
    seq = omega (arith, v.seq);
    ordered = ground (arith, append_assoc taken ch.ready_queue (sent k ∷ []), v.ordered);
    held = λ w d found.
        let (n, lo, hi, w-n, e) = v.held w d found in
        let moved : n ≢ k = λ s. ground (arith, v.seq) in (n, omega arith, omega arith, w-n, e);
  }

  buffer-Inv :
      (taken : List Bytes) (k n : ℕ) (ch : ReliableChannel) (nacks : List ℕ)
      → k < n
      → n < k + 32
      → Inv taken k ch
      → Inv taken k (record ch {
        recv_buffer = Map.insert ch.recv_buffer (n % 65536) (sent n);
        pending_nacks = nacks;
        nack_pending = true;
      })
  buffer-Inv taken k n ch nacks lo hi v = record {
    seq = v.seq;
    ordered = v.ordered;
    held = λ w d found. elim (lookup-insert_inv ch.recv_buffer (n % 65536) w (sent n) d found) [
      | inl (w-n, e) ↦ (n, omega arith, omega arith, sym w-n, sym e)
      | inr old ↦ v.held w d old
    ];
  }

  -- The state in which `recv` leaves the channel when packet `n` arrives and `k` is awaited.
  record Received (taken : List Bytes) (k n : ℕ) (ch : ReliableChannel) : Type 0 where
    next : ℕ
    forward : k ≤ next
    advances : n ≡ k → k < next
    inv : Inv taken next ch
    drained : Map.lookup ch.recv_buffer ch.recv_seq ≡ none

  recv-Received :
      (taken : List Bytes) (k n : ℕ) (ch : ReliableChannel)
      → Inv taken k ch
      → Map.lookup ch.recv_buffer ch.recv_seq ≡ none
      → IsNear k n
      → Received taken k n (recv ch (n % 65536) (sent n))
  unfolding recv
  recv-Received taken k n ch v fresh near = elim (Bool-cases (n % 65536 == ch.recv_seq)) [
    | inl e ↦
        let same : n ≡ k = ground (arith, v.seq) in
        let start =
          subst
            (λ m. Inv taken (suc k) (record ch {
              recv_seq = wrapping_add ch.recv_seq 1;
              ack_pending = true;
              ready_queue = ch.ready_queue ++ sent m ∷ [];
            }))
            (sym same) (accept-Inv taken k ch v fresh) in
        let (j, le, v', done) =
          drain-Inv (suc (length ch.recv_buffer.entries)) taken (suc k) _ (omega arith) start in
        rw e
          (record { next = j; forward = omega arith; advances = λ _. le; inv = v'; drained = done })
    | inr apart ↦ elim (Bool-cases (ltb (wrapping_sub (n % 65536) ch.recv_seq) 32)) [
      | inl e ↦
          let lo : k < n = ground (arith, v.seq) in
          let hi : n < k + 32 = ground (arith, v.seq) in
          rw (apart, e)
            (record {
              next = k;
              forward = omega arith;
              advances = λ same. absurd (omega arith);
              inv = buffer-Inv taken k n ch _ lo hi v;
              drained =
                  ground (arith, lookup-insert ch.recv_buffer (n % 65536) ch.recv_seq (sent n));
            })
      | inr e ↦
          let moved : n ≢ k = λ same. ground (arith, v.seq) in
          rw (apart, e)
            (record {
              next = k;
              forward = omega arith;
              advances = λ same. absurd (moved same);
              inv = v;
              drained = fresh;
            })
    ]
  ]
