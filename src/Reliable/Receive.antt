-- ===== src/Reliable/Receive.antt =====
-- What `ReliableChannel` receives: reassembly in order, and the acknowledgements it owes.
pub mod Delivery
pub mod Ready
use ashfall.Prelude.{
  ℕ, zero, suc, ◌+◌, Bool, true, false, not, ◌&&◌, Option, none, some, List, [], ◌∷◌, ◌++◌, ltb,
  ◌==◌, nat_eq, if◌then◌else◌, length, contains, wrapping_add, wrapping_sub,
}
use ashfall.Map
use ashfall.Map.{Map}
use ashfall.Transport.{encode_ctrl_ack, encode_ctrl_nack}
use ashfall.Reliable.{Bytes, ReliableChannel, recv_window}

-- The `while let` loop of `recv`; each round takes an entry out of the buffer.
drain : ℕ → ReliableChannel → ReliableChannel
drain zero ch = ch
drain (suc fuel) ch = elim (Map.lookup ch.recv_buffer ch.recv_seq) [
  | none ↦ ch
  | some d ↦ drain fuel (record ch {
    recv_buffer = Map.remove ch.recv_buffer ch.recv_seq;
    recv_seq = wrapping_add ch.recv_seq 1;
    ready_queue = ch.ready_queue ++ d ∷ [];
  })
]

-- The `for i in 0..gap` loop of `recv`, from `i` on, with `left` rounds to go.
nack_gaps : ℕ → ℕ → ℕ → Map ℕ Bytes → List ℕ → List ℕ
nack_gaps zero i recv_seq buffer nacks = nacks
nack_gaps (suc left) i recv_seq buffer nacks =
    let missing = wrapping_add recv_seq i in
    nack_gaps left (i + 1) recv_seq buffer (
      if not (Map.contains_key buffer missing) && not (contains nacks missing)
      then nacks ++ missing ∷ []
      else nacks)

unfoldable pub recv : ReliableChannel → ℕ → Bytes → ReliableChannel
unfolding drain nack_gaps
recv ch seq d =
    let accepted = record ch {
      recv_seq = wrapping_add ch.recv_seq 1;
      ack_pending = true;
      ready_queue = ch.ready_queue ++ d ∷ [];
    } in
    let buffer = Map.insert ch.recv_buffer seq d in
    let gap = wrapping_sub seq ch.recv_seq in
    if seq == ch.recv_seq
    then drain (suc (length ch.recv_buffer.entries)) accepted
    else if ltb gap recv_window
    then record ch {
      recv_buffer = buffer;
      pending_nacks = nack_gaps gap 0 ch.recv_seq buffer ch.pending_nacks;
      nack_pending = true;
    }
    else ch

pop_front : ReliableChannel → List Bytes → Option Bytes × ReliableChannel
pop_front ch [] = (none, ch)
pop_front ch (d ∷ rest) = (some d, record ch { ready_queue = rest })

unfoldable pub take_ready : ReliableChannel → Option Bytes × ReliableChannel
unfolding pop_front
take_ready ch = pop_front ch ch.ready_queue

abbrev pub is_empty {ℓ} : {A : Type ℓ} → List A → Bool
is_empty [] = true
is_empty (x ∷ xs) = false

take_acks : ReliableChannel → List Bytes × ReliableChannel
take_acks ch =
    if ch.ack_pending
    then (encode_ctrl_ack (wrapping_sub ch.recv_seq 1) ∷ [], record ch { ack_pending = false })
    else ([], ch)

take_nacks : ReliableChannel → List Bytes × ReliableChannel
take_nacks ch =
    if ch.nack_pending && not (is_empty ch.pending_nacks)
    then (
      encode_ctrl_nack ch.pending_nacks ∷ [],
      record ch { pending_nacks = []; nack_pending = false },
    )
    else ([], ch)

unfoldable pub take_control_frames : ReliableChannel → List Bytes × ReliableChannel
unfolding take_acks take_nacks
take_control_frames ch =
    let (acks, ch') = take_acks ch in let (nacks, ch'') = take_nacks ch' in (acks ++ nacks, ch'')
