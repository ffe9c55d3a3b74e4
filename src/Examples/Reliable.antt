-- ===== src/Examples/Reliable.antt =====
-- Runs of the reliable channels and of the network manager that holds them.
use ashfall.Prelude.{
  ℕ, ◌+◌, ◌*◌, ◌%◌, ◌≤◌, ◌<◌, ◌≡◌, ◌↔◌, ◌⊎◌, refl, suc, none, some, List, [], ◌∷◌, ◌++◌, arith,
  length, ◌==◌, nat_eq, if◌then◌else◌, min, max, wrapping_add,
}
use ashfall.Map
use ashfall.Packet.{game_load}
use ashfall.Channel.{game}
use ashfall.Reliable
use ashfall.Reliable.{Bytes, ReliableChannel, SendEntry, rto_min, rto_max, as_millis, from_millis}
use ashfall.Reliable.Rtt.{update_rtt, toward, apart, update_rtt_bounds}
use ashfall.Reliable.Send.{next_seq, can_send, flatten, enqueue, ack_recv}
use ashfall.Reliable.Send.Window.{Occurs, ack_recv-Occurs, in_flight}
use ashfall.Reliable.Receive.{recv, take_ready}
use ashfall.Reliable.Receive.Delivery.{IsNear, stream}
use ashfall.Reliable.Receive.Delivery.Trace.{
  Reaches, opened, arrived, took, Reaches-prefix, Reaches-progress,
}
use ashfall.Network.{
  Sent, Codec, NetworkManager, register_session, send_reliable, try_recv, ok, err, window_full,
}
use ashfall.Network.Framing.{send_reliable-try_recv}
use ashfall.Network.Window.{send_reliable-window}

abbrev letters : ℕ → Bytes
letters n = n ∷ []

-- Packet 1 overtakes packet 0, and the first of them is handed over.
abbrev both : ReliableChannel
both = recv (recv Reliable.new (1 % 65536) (letters 1)) (0 % 65536) (letters 0)

abbrev nothing : List Bytes
nothing = []

abbrev first : List Bytes
first = (0 ∷ []) ∷ []

both-Reaches : Reaches letters both nothing
unfolding recv Reliable.new
both-Reaches =
    arrived (arrived opened 1 (record { not_too_old = omega arith; not_too_new = omega arith })) 0
      (record { not_too_old = omega arith; not_too_new = omega arith })

took-Reaches : Reaches letters (take_ready both).1 first
unfolding recv Reliable.new take_ready Map.lookup Map.insert Map.remove Map.empty
took-Reaches = took (0 ∷ []) both-Reaches refl

Reaches-prefix_example :
    first ++ (take_ready both).1.ready_queue
    ≡ stream letters (length first + length (take_ready both).1.ready_queue)
Reaches-prefix_example = Reaches-prefix letters took-Reaches

abbrev early : ReliableChannel
early = recv Reliable.new (1 % 65536) (letters 1)

early-Reaches : Reaches letters early nothing
unfolding Reliable.new
early-Reaches = arrived opened 1 (record { not_too_old = omega arith; not_too_new = omega arith })

early-IsNear : IsNear (length nothing + length early.ready_queue) 0
unfolding recv Reliable.new
early-IsNear = record { not_too_old = omega arith; not_too_new = omega arith }

Reaches-progress_example :
    ((if 0 == length nothing + length early.ready_queue
        then suc (length early.ready_queue)
        else length early.ready_queue)
      ≤ length (recv early (0 % 65536) (letters 0)).ready_queue)
    × (Map.lookup
          (recv early (0 % 65536) (letters 0)).recv_buffer
          (recv early (0 % 65536) (letters 0)).recv_seq
        ≡ none)
Reaches-progress_example = Reaches-progress letters early-Reaches 0 early-IsNear

-- Two packets in flight.
abbrev entry : ℕ → SendEntry
entry n = record { seq = n; channel = game; sent_at = 0; bytes = n ∷ []; retransmits = 0 }

abbrev pair : ReliableChannel
pair = enqueue (enqueue Reliable.new game 0 (0 ∷ []) 0) game 1 (1 ∷ []) 0

ack_recv-Occurs_example :
    Occurs (entry 1) (flatten (ack_recv pair (0 % 65536) 5).send_queues)
    ↔ (Occurs (entry 1) (flatten pair.send_queues) × (0 < 1))
ack_recv-Occurs_example = ack_recv-Occurs pair 0 1 5 (entry 1) refl (omega arith) (omega arith)

update_rtt_bounds_example :
    ((update_rtt Reliable.new 40000000).srtt
      ≡ from_millis (toward (as_millis Reliable.new.srtt) (as_millis 40000000) 8))
    × ((update_rtt Reliable.new 40000000).rttvar
        ≡ from_millis (
            toward
              (as_millis Reliable.new.rttvar)
              (apart (as_millis Reliable.new.srtt) (as_millis 40000000))
              4))
    × ((update_rtt Reliable.new 40000000).rto
        ≡ max rto_min (
            min rto_max (
              (update_rtt Reliable.new 40000000).srtt
              + 4 * (update_rtt Reliable.new 40000000).rttvar)))
    × (rto_min ≤ (update_rtt Reliable.new 40000000).rto)
    × ((update_rtt Reliable.new 40000000).rto ≤ rto_max)
update_rtt_bounds_example = update_rtt_bounds Reliable.new 40000000

-- A codec that knows one packet.
abbrev codec : Codec ℕ
codec = record { to_stdvec = λ p. some (7 ∷ []); from_bytes = λ b. some game_load }

abbrev network : NetworkManager
network = register_session (record { reliable = Map.empty; resend_queue = [] }) 9

abbrev unwrap : Sent (Bytes × NetworkManager) → Bytes × NetworkManager
unwrap (ok r) = r
unwrap (err e) = ([], network)

abbrev out : Bytes × NetworkManager
out = unwrap (send_reliable codec network 9 game_load 0)

network-lookup : Map.lookup network.reliable 9 ≡ some Reliable.new
unfolding register_session Map.lookup Map.insert Map.empty
network-lookup = refl

sends : send_reliable codec network 9 game_load 0 ≡ ok (out.0, out.1)
unfolding send_reliable next_seq can_send register_session Map.lookup Map.insert Map.empty
    Reliable.new
sends = refl

fresh-recv_seq : Reliable.new.recv_seq ≡ Reliable.new.send_seq
unfolding Reliable.new
fresh-recv_seq = refl

fresh-ready_queue : Reliable.new.ready_queue ≡ []
unfolding Reliable.new
fresh-ready_queue = refl

fresh-send_seq : Reliable.new.send_seq < 65536
unfolding Reliable.new
fresh-send_seq = omega arith

send_reliable-try_recv_example : (try_recv codec network 9 out.0 5).0 ≡ some game_load
send_reliable-try_recv_example =
    send_reliable-try_recv codec network out.1 network 9 9 0 5 game_load (7 ∷ []) out.0 Reliable.new
      Reliable.new refl refl (omega arith) network-lookup fresh-send_seq sends network-lookup
      fresh-recv_seq fresh-ready_queue

abbrev address : ℕ
address = 9

abbrev elsewhere : ℕ
elsewhere = 4

send_reliable-window_example :
    ((in_flight Reliable.new < 32)
      × ((frame : Bytes) × (net' : NetworkManager) × (ch' : ReliableChannel) × (send_reliable codec
              network 9 game_load 0
            ≡ ok (frame, net'))
          × (in_flight ch' ≡ suc (in_flight Reliable.new))
          × (ch'.send_seq ≡ wrapping_add Reliable.new.send_seq 1)
          × (Map.lookup net'.reliable 4
              ≡ (if address == elsewhere then some ch' else Map.lookup network.reliable 4))))
    ⊎ ((32 ≤ in_flight Reliable.new)
        × (send_reliable codec network 9 game_load 0 ≡ err window_full))
send_reliable-window_example =
    send_reliable-window codec network address elsewhere 0 game_load (7 ∷ []) Reliable.new refl
      network-lookup
