-- ===== src/Reliable/Receive/Ready.antt =====
-- The queue of ready packets: first in, first out.
use ashfall.Prelude.{
  ℕ, zero, suc, ◌≡◌, ap, sym, ◌∙◌, true, inl, inr, some, List, [], ◌∷◌, ◌++◌, arith, append_assoc,
  append-nil, Option-cases, length, ◌==◌, nat_eq, wrapping_add,
}
use ashfall.Map
use ashfall.Map.{Map}
use ashfall.Reliable.{Bytes, ReliableChannel}
use ashfall.Reliable.Receive.{drain, recv, pop_front, take_ready}

-- Draining adds packets at the back.
drain_appends :
    (fuel : ℕ) (ch : ReliableChannel)
    → (more : List Bytes) × ((drain fuel ch).ready_queue ≡ ch.ready_queue ++ more)
unfolding drain
drain_appends zero ch = ([], sym (append-nil ch.ready_queue))
drain_appends (suc fuel) ch = elim (Option-cases (Map.lookup ch.recv_buffer ch.recv_seq)) [
  | inl e ↦ ([], rw (e, drain) (sym (append-nil ch.ready_queue)))
  | inr (d, e) ↦
      let (more, h) = drain_appends fuel (record ch {
        recv_buffer = Map.remove ch.recv_buffer ch.recv_seq;
        recv_seq = wrapping_add ch.recv_seq 1;
        ready_queue = ch.ready_queue ++ d ∷ [];
      }) in
      (d ∷ more, rw (e, drain) (h ∙ append_assoc ch.ready_queue (d ∷ []) more))
]

first_ready :
    (ch : ReliableChannel) (d : Bytes) (more queue : List Bytes)
    → queue ≡ d ∷ more
    → (pop_front ch queue).0 ≡ some d
unfolding pop_front
first_ready ch d more [] h = absurd (cc)
first_ready ch d more (x ∷ rest) h = ground arith

-- With nothing waiting, the packet that arrives next in order is the one handed on.
pub take_ready-recv :
    (ch : ReliableChannel) (seq : ℕ) (d : Bytes)
    → ch.recv_seq ≡ seq
    → ch.ready_queue ≡ []
    → (take_ready (recv ch seq d)).0 ≡ some d
unfolding take_ready recv
take_ready-recv ch seq d next empty =
    let accepted = record ch {
      recv_seq = wrapping_add ch.recv_seq 1;
      ack_pending = true;
      ready_queue = ch.ready_queue ++ d ∷ [];
    } in
    let same : (seq == ch.recv_seq) ≡ true = ground arith in
    let (more, h) = drain_appends (suc (length ch.recv_buffer.entries)) accepted in
    rw same (
      first_ready (drain (suc (length ch.recv_buffer.entries)) accepted) d more _
        (h ∙ ap (λ (q : List Bytes). (q ++ d ∷ []) ++ more) empty))
