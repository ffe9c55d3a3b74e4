-- ===== src/Reliable/Send.antt =====
-- What `ReliableChannel` sends: the queues, the window, acknowledgements and retransmission.
pub mod Window
pub mod Retransmit
use ashfall.Prelude.{
  ℕ, ◌+◌, ◌-◌, ◌*◌, ◌^◌, Bool, not, ◌&&◌, Option, none, some, List, [], ◌∷◌, ◌++◌, bit_or, min, ltb,
  leb, ◌==◌, nat_eq, if◌then◌else◌, length, filterb, contains, u16, to_le_bytes, wrapping_add,
  wrapping_sub,
}
use ashfall.Channel.{Channel, system, game, chat, as_u8}
use ashfall.Transport.{channel_reliable_flag, encode_varint_seq}
use ashfall.Reliable.{Bytes, SendEntry, SendQueues, ReliableChannel, max_inflight, max_backoff}
use ashfall.Reliable.Rtt.{update_rtt}

-- `self.send_queues.iter().flatten()`
abbrev pub flatten : SendQueues → List SendEntry
flatten q = q.system_queue ++ (q.game_queue ++ q.chat_queue)

unfoldable pub next_seq : ReliableChannel → ℕ × ReliableChannel
next_seq ch = (ch.send_seq, record ch { send_seq = wrapping_add ch.send_seq 1 })

unfoldable pub can_send : ReliableChannel → Bool
can_send ch =
    ltb
      (length ch.send_queues.system_queue
        + length ch.send_queues.game_queue
        + length ch.send_queues.chat_queue)
      max_inflight

push_entry : SendEntry → Channel → SendQueues → SendQueues
push_entry entry system q = record q { system_queue = q.system_queue ++ entry ∷ [] }
push_entry entry game q = record q { game_queue = q.game_queue ++ entry ∷ [] }
push_entry entry chat q = record q { chat_queue = q.chat_queue ++ entry ∷ [] }

unfoldable pub enqueue : ReliableChannel → Channel → ℕ → Bytes → ℕ → ReliableChannel
unfolding push_entry
enqueue ch channel seq bytes now =
    let entry : SendEntry = record {
      seq = seq;
      channel = channel;
      sent_at = now;
      bytes = bytes;
      retransmits = 0;
    } in
    record ch { send_queues = push_entry entry channel ch.send_queues }

unfoldable pub resend_frame : SendEntry → Bytes
resend_frame entry =
    let seq_bytes = encode_varint_seq entry.seq in
    to_le_bytes (u16 (length seq_bytes + length entry.bytes))
    ++ (bit_or channel_reliable_flag (as_u8 entry.channel) ∷ (seq_bytes ++ entry.bytes))

-- The body of both retransmission loops, for the entries that a test selects.
resend : (SendEntry → Bool) → ℕ → List SendEntry → List SendEntry × List Bytes
resend due now [] = ([], [])
resend due now (e ∷ es) =
    let (rest, out) = resend due now es in
    let e' : SendEntry = record e { sent_at = now; retransmits = e.retransmits + 1 } in
    if due e then (e' ∷ rest, resend_frame e' ∷ out) else (e ∷ rest, out)

resend_queues : (SendEntry → Bool) → ℕ → ReliableChannel → ReliableChannel × List Bytes
unfolding resend
resend_queues due now ch =
    let (s, out_s) = resend due now ch.send_queues.system_queue in
    let (g, out_g) = resend due now ch.send_queues.game_queue in
    let (c, out_c) = resend due now ch.send_queues.chat_queue in
    (
      record ch { send_queues = record { system_queue = s; game_queue = g; chat_queue = c } },
      out_s ++ (out_g ++ out_c),
    )

-- `duration_since` is 0 for a reading that lies ahead.
unfoldable pub is_expired : ℕ → ℕ → SendEntry → Bool
is_expired rto now e = leb (rto * 2 ^ min e.retransmits max_backoff) (now - e.sent_at)

unfoldable pub retransmit_expired : ReliableChannel → ℕ → ReliableChannel × List Bytes
unfolding resend_queues is_expired
retransmit_expired ch now = resend_queues (is_expired ch.rto now) now ch

unfoldable pub nack_retransmit : ReliableChannel → List ℕ → ℕ → ReliableChannel × List Bytes
unfolding resend_queues
nack_retransmit ch missing now = resend_queues (λ e. contains missing e.seq) now ch

-- A queue's first entry of a sequence number.
find_seq : ℕ → List SendEntry → Option SendEntry
find_seq seq [] = none
find_seq seq (e ∷ es) = if e.seq == seq then some e else find_seq seq es

-- Seqs strictly after `ack_seq` in the 16-bit space.
abbrev pub is_after : ℕ → SendEntry → Bool
is_after ack_seq e = not (e.seq == ack_seq) && ltb (wrapping_sub e.seq ack_seq) 0x8000

sample_rtt : ReliableChannel → Option SendEntry → ℕ → ReliableChannel
sample_rtt ch none now = ch
sample_rtt ch (some e) now = update_rtt ch (now - e.sent_at)

unfoldable pub ack_recv : ReliableChannel → ℕ → ℕ → ReliableChannel
unfolding sample_rtt find_seq
ack_recv ch ack_seq now =
    let sampled = sample_rtt ch (find_seq ack_seq (flatten ch.send_queues)) now in
    record sampled {
      send_queues = record {
        system_queue = filterb (is_after ack_seq) ch.send_queues.system_queue;
        game_queue = filterb (is_after ack_seq) ch.send_queues.game_queue;
        chat_queue = filterb (is_after ack_seq) ch.send_queues.chat_queue;
      };
    }
