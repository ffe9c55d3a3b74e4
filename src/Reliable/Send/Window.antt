-- ===== src/Reliable/Send/Window.antt =====
-- The packets in flight: the window bounds them, and an acknowledgement drops the ones that it covers.
use ashfall.Prelude.{
  ℕ, suc, ◌+◌, ◌%◌, ◌≤◌, ◌<◌, ◌≡◌, ◌↔◌, ◌⊎◌, ap, ◌∙◌, true, Bool, inl, inr, List, [], ◌∷◌, ◌++◌,
  arith, length, length-append, filterb, filterb-append, nat_eq, Bool-cases,
}
use ashfall.Channel.{Channel}
use ashfall.Reliable.{Bytes, SendEntry, SendQueues, ReliableChannel, max_inflight}
use ashfall.Reliable.Send.{flatten, can_send, enqueue, is_after, ack_recv}

abbrev pub in_flight : ReliableChannel → ℕ
in_flight ch = length (flatten ch.send_queues)

length-flatten :
    (q : SendQueues)
    → length (flatten q) ≡ length q.system_queue + length q.game_queue + length q.chat_queue
length-flatten q = omega (
  arith,
  length-append q.system_queue (q.game_queue ++ q.chat_queue),
  length-append q.game_queue q.chat_queue,
)

-- The guard of a send says exactly that the window has room.
pub can_send_iff : (ch : ReliableChannel) → (can_send ch ≡ true) ↔ (in_flight ch < max_inflight)
unfolding can_send
can_send_iff ch = ground (arith, length-flatten ch.send_queues)

length-push : (xs : List SendEntry) (e : SendEntry) → length (xs ++ e ∷ []) ≡ suc (length xs)
length-push xs e = omega (arith, length-append xs (e ∷ []))

-- A packet that is queued, on whichever channel, is one more in flight.
pub in_flight-enqueue :
    (ch : ReliableChannel) (channel : Channel) (seq now : ℕ) (d : Bytes)
    → in_flight (enqueue ch channel seq d now) ≡ suc (in_flight ch)
unfolding enqueue
in_flight-enqueue ch channel seq now d =
    let entry : SendEntry = record {
      seq = seq;
      channel = channel;
      sent_at = now;
      bytes = d;
      retransmits = 0;
    } in
    let q = ch.send_queues in
    ground (
      arith,
      length-flatten q,
      length-flatten (enqueue ch channel seq d now).send_queues,
      length-push q.system_queue entry,
      length-push q.game_queue entry,
      length-push q.chat_queue entry,
    )

-- An entry stands in a list.
abbrev pub Occurs : SendEntry → List SendEntry → Type 0
Occurs e [] = ⊥
Occurs e (x ∷ xs) = (e ≡ x) ⊎ Occurs e xs

Occurs-filterb :
    (p : SendEntry → Bool) (e : SendEntry) (xs : List SendEntry)
    → Occurs e (filterb p xs) ↔ (Occurs e xs × (p e ≡ true))
Occurs-filterb p e [] = (λ h. absurd h, λ h. absurd h.0)
Occurs-filterb p e (x ∷ xs) =
    let (down, up) = Occurs-filterb p e xs in
    elim (Bool-cases (p x)) [
      | inl t ↦ rw t (
        (λ h. elim h [
          | inl same ↦ (inl same, ap p same ∙ t)
          | inr later ↦ (inr (down later).0, (down later).1)
        ]),
        (λ h. elim (h.0) [ inl same ↦ inl same | inr later ↦ inr (up (later, h.1)) ]),
      )
      | inr f ↦ rw f (
        (λ h. (inr (down h).0, (down h).1)),
        (λ h. elim (h.0) [
          | inl same ↦ absurd (cc (ap p same, f, h.1))
          | inr later ↦ up (later, h.1)
        ]),
      )
    ]

update-flatten :
    (ch : ReliableChannel) (seq now : ℕ)
    → flatten (ack_recv ch seq now).send_queues ≡ filterb (is_after seq) (flatten ch.send_queues)
unfolding ack_recv
update-flatten ch seq now =
    let q = ch.send_queues in
    ground (
      arith,
      filterb-append (is_after seq) q.system_queue (q.game_queue ++ q.chat_queue),
      filterb-append (is_after seq) q.game_queue q.chat_queue,
    )

-- Sequence numbers of packets `a` and `n` that lie within half a turn compare as `a` and `n` do.
is_after_iff :
    (a n : ℕ) (e : SendEntry)
    → e.seq ≡ n % 65536
    → n < a + 32768
    → a ≤ n + 32768
    → (is_after (a % 65536) e ≡ true) ↔ (a < n)
is_after_iff a n e same ahead behind = ground arith

-- An acknowledgement of packet `a` drops, among the packets within half a turn of it, exactly those
-- up to `a`: packet `n` stays in flight when it was and `n` comes after `a`.
pub ack_recv-Occurs :
    (ch : ReliableChannel) (a n now : ℕ) (e : SendEntry)
    → e.seq ≡ n % 65536
    → n < a + 32768
    → a ≤ n + 32768
    → Occurs e (flatten (ack_recv ch (a % 65536) now).send_queues)
      ↔ (Occurs e (flatten ch.send_queues) × (a < n))
ack_recv-Occurs ch a n now e same ahead behind =
    let (down, up) = Occurs-filterb (is_after (a % 65536)) e (flatten ch.send_queues) in
    let (later, passes) = is_after_iff a n e same ahead behind in
    rw update-flatten ((λ h. ((down h).0, later (down h).1)), (λ h. up (h.0, passes h.1)))
