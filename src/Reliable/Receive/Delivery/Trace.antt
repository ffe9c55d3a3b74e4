-- ===== src/Reliable/Receive/Delivery/Trace.antt =====
-- Runs of the receiving channel: what reaches the server is a prefix of what was sent.
use ashfall.Prelude.{
  if◌then◌else◌, nat_eq, ◌==◌, nat_beq_iff, ℕ, suc, ◌+◌, ◌%◌, ◌≤◌, ◌<◌, ◌≡◌, refl, ap, sym, ◌∙◌,
  none, some, List, [], ◌∷◌, ◌++◌, arith, append_assoc, length, length-append, ◌==◌, nat_eq,
}
use ashfall.Map
use ashfall.Map.Laws.{lookup-empty}
use ashfall.Reliable.{Bytes, ReliableChannel, new}
use ashfall.Reliable.Receive.{pop_front, recv, take_ready, take_control_frames}
use ashfall.Reliable.Receive.Delivery.{IsNear, stream, length-stream, Inv, recv-Received}

-- Sending control frames touches neither the buffer nor the packets that are ready.
take_control_frames_kept :
    (ch : ReliableChannel)
    → ((take_control_frames ch).1.recv_seq ≡ ch.recv_seq)
      × ((take_control_frames ch).1.recv_buffer ≡ ch.recv_buffer)
      × ((take_control_frames ch).1.ready_queue ≡ ch.ready_queue)
unfolding take_control_frames
take_control_frames_kept ch = (ground arith, ground arith, ground arith)

module _ (sent : ℕ → Bytes) where
  -- The channel's life as a receiver: frames of the stream arrive in any order, some never and some
  -- twice; the server takes delivered packets and sends its control frames when it likes.
  pub data Reaches : ReliableChannel → List Bytes → Type 0 where
    opened : Reaches new []
    arrived :
        {ch : ReliableChannel} {taken : List Bytes}
        → Reaches ch taken
        → (n : ℕ) → IsNear (length taken + length ch.ready_queue) n
        → Reaches (recv ch (n % 65536) (sent n)) taken
    took :
        {ch : ReliableChannel} {taken : List Bytes} (d : Bytes)
        → Reaches ch taken
        → (take_ready ch).0 ≡ some d
        → Reaches (take_ready ch).1 (taken ++ d ∷ [])
    answered :
        {ch : ReliableChannel} {taken : List Bytes}
        → Reaches ch taken
        → Reaches (take_control_frames ch).1 taken

  record Settled (ch : ReliableChannel) (taken : List Bytes) : Type 0 where
    count : ℕ
    inv : Inv sent taken count ch
    drained : Map.lookup ch.recv_buffer ch.recv_seq ≡ none

  count-eq :
      {ch : ReliableChannel} {taken : List Bytes} {k : ℕ}
      → Inv sent taken k ch
      → k ≡ length taken + length ch.ready_queue
  count-eq {ch} {taken} {k} v =
      omega (arith, length-stream sent k, ap length v.ordered, length-append taken ch.ready_queue)

  new-Inv : Inv sent [] 0 new
  unfolding new stream
  new-Inv = record {
    seq = refl;
    ordered = refl;
    held = λ w d found. ground (arith, lookup-empty {V = Bytes} w);
  }

  took-Settled :
      (taken : List Bytes) (ch : ReliableChannel) (d : Bytes) (queue : List Bytes)
      → ch.ready_queue ≡ queue
      → (pop_front ch queue).0 ≡ some d
      → Settled ch taken
      → Settled (pop_front ch queue).1 (taken ++ d ∷ [])
  unfolding pop_front
  took-Settled taken ch d [] q h s = absurd (cc)
  took-Settled taken ch d (x ∷ rest) q h s = record {
    count = s.count;
    inv = record {
      seq = s.inv.seq;
      ordered = ground (arith, append_assoc taken (d ∷ []) rest, s.inv.ordered);
      held = s.inv.held;
    };
    drained = s.drained;
  }

  answered-Settled :
      (ch : ReliableChannel) (taken : List Bytes)
      → Settled ch taken
      → Settled (take_control_frames ch).1 taken
  answered-Settled ch taken s =
      let (seq, buffer, ready) = take_control_frames_kept ch in
      record {
        count = s.count;
        inv = record {
          seq = rw seq s.inv.seq;
          ordered = rw ready s.inv.ordered;
          held = rw buffer s.inv.held;
        };
        drained = rw (buffer, seq) s.drained;
      }

  Reaches-Settled :
      {ch : ReliableChannel} {taken : List Bytes} → Reaches ch taken → Settled ch taken
  unfolding take_ready
  Reaches-Settled opened = record {
    count = 0;
    inv = new-Inv;
    drained = unfold new in lookup-empty {V = Bytes} 0;
  }
  Reaches-Settled (arrived {ch = ch} {taken = taken} r n near) =
      let s = Reaches-Settled r in
      let near' : IsNear s.count n = rw (count-eq s.inv) near in
      let r' = recv-Received sent taken s.count n ch s.inv s.drained near' in
      record { count = r'.next; inv = r'.inv; drained = r'.drained }
  Reaches-Settled (took {ch = ch} {taken = taken} d r e) =
      took-Settled taken ch d ch.ready_queue refl e (Reaches-Settled r)
  Reaches-Settled (answered {ch = ch} {taken = taken} r) =
      answered-Settled ch taken (Reaches-Settled r)

  -- Whatever arrives within a turn of the sequence numbers, what the server has been handed and what
  -- waits for it are together the first packets of the sender's stream, in the sender's order.
  pub Reaches-prefix :
      {ch : ReliableChannel} {taken : List Bytes}
      → Reaches ch taken
      → taken ++ ch.ready_queue ≡ stream sent (length taken + length ch.ready_queue)
  Reaches-prefix r = let s = Reaches-Settled r in s.inv.ordered ∙ ap (stream sent) (count-eq s.inv)

  progress :
      {ch : ReliableChannel} {taken : List Bytes}
      → Reaches ch taken
      → (n : ℕ) → IsNear (length taken + length ch.ready_queue) n
      → (n ≡ length taken + length ch.ready_queue
          → length ch.ready_queue < length (recv ch (n % 65536) (sent n)).ready_queue)
        × (length ch.ready_queue ≤ length (recv ch (n % 65536) (sent n)).ready_queue)
        × (Map.lookup
              (recv ch (n % 65536) (sent n)).recv_buffer
              (recv ch (n % 65536) (sent n)).recv_seq
            ≡ none)
  progress {ch} {taken} r n near =
      let s = Reaches-Settled r in
      let here = count-eq s.inv in
      let near' : IsNear s.count n = rw here near in
      let r' = recv-Received sent taken s.count n ch s.inv s.drained near' in
      let there = count-eq r'.inv in
      let forward = r'.forward in
      let advances = r'.advances in
      (
        (λ e. omega (arith, here, there, advances (e ∙ sym here))),
        omega (arith, here, there, forward),
        r'.drained,
      )

  -- The arrival of the next packet in order makes at least one more packet ready, no arrival takes one
  -- away, and afterwards no packet that is next in order is left behind in the buffer.
  pub Reaches-progress :
      {ch : ReliableChannel} {taken : List Bytes}
      → Reaches ch taken
      → (n : ℕ) → IsNear (length taken + length ch.ready_queue) n
      → ((if n == length taken + length ch.ready_queue
            then suc (length ch.ready_queue)
            else length ch.ready_queue)
          ≤ length (recv ch (n % 65536) (sent n)).ready_queue)
        × (Map.lookup
              (recv ch (n % 65536) (sent n)).recv_buffer
              (recv ch (n % 65536) (sent n)).recv_seq
            ≡ none)
  Reaches-progress {ch} {taken} r n near =
      let (next, keeps, drained) = progress r n near in
      (ground (arith, nat_beq_iff n (length taken + length ch.ready_queue)), drained)
