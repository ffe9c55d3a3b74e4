-- ===== src/Examples/Client.antt =====
-- Runs of the client's end of the connection.
use ashfall.Prelude.{ℕ, ◌≡◌, refl, false, some, [], ◌∷◌, ◌++◌, arith, drop, wrapping_add, nat_eq}
use ashfall.Map
use ashfall.Channel.{game}
use ashfall.Transport.{encode_ctrl_ack}
use ashfall.Reliable
use ashfall.Reliable.{Bytes, ReliableChannel, SendEntry}
use ashfall.Reliable.Send.{enqueue, flatten}
use ashfall.Reliable.Send.Window.{Occurs}
use ashfall.Packet.{game_load}
use ashfall.Packet.Routing.{is_unreliable}
use ashfall.Network.{Codec, NetworkManager, try_recv, handle_ctrl_frame}
use ashfall.Network.Framing.{frame_of}
use ashfall.ClientNetwork.{ClientNetwork, send, receive}
use ashfall.ClientNetwork.Uplink.{send-try_recv}
use ashfall.ClientNetwork.Downlink.{receive-acknowledges}

abbrev codec : Codec ℕ
codec = record { to_stdvec = λ p. some (7 ∷ []); from_bytes = λ b. some game_load }

-- A client that has an acknowledgement to send, and a server that knows its address, 9.
abbrev client : ClientNetwork
client = record { send_seq = 0; recv_seq = some 4; ack_queue = encode_ctrl_ack 4 ∷ [] }

abbrev server : NetworkManager
server = record { reliable = Map.insert Map.empty 9 Reliable.new; resend_queue = [] }

server-lookup : Map.lookup server.reliable 9 ≡ some Reliable.new
unfolding Map.lookup Map.insert Map.empty
server-lookup = refl

fresh-recv_seq : Reliable.new.recv_seq ≡ client.send_seq
unfolding Reliable.new
fresh-recv_seq = refl

fresh-ready_queue : Reliable.new.ready_queue ≡ []
unfolding Reliable.new
fresh-ready_queue = refl

loads-reliable : is_unreliable {F = ℕ} game_load ≡ false
unfolding is_unreliable
loads-reliable = refl

send-try_recv_example :
    (frame : Bytes) × (((send codec client game_load).0 ≡ client.ack_queue ++ frame ∷ [])
      × (((try_recv codec server 9 frame 5).0 ≡ some game_load)
          × ((send codec client game_load).1.send_seq ≡ wrapping_add client.send_seq 1)))
send-try_recv_example =
    send-try_recv codec client server 9 5 game_load (7 ∷ []) Reliable.new refl refl loads-reliable
      (omega arith) (omega arith) server-lookup fresh-recv_seq fresh-ready_queue

-- Packets 0 and 1 are on their way, and packet 1 arrives.
abbrev in_the_air : ReliableChannel
in_the_air = enqueue (enqueue Reliable.new game 0 (7 ∷ []) 0) game 1 (7 ∷ []) 0

abbrev waiting : NetworkManager
waiting = record { reliable = Map.insert Map.empty 9 in_the_air; resend_queue = [] }

waiting-lookup : Map.lookup waiting.reliable 9 ≡ some in_the_air
unfolding Map.lookup Map.insert Map.empty
waiting-lookup = refl

abbrev lost : SendEntry
lost = record { seq = 0; channel = game; sent_at = 0; bytes = 7 ∷ []; retransmits = 0 }

receive-acknowledges_example :
    ((receive codec client (frame_of game 1 (7 ∷ []))).1.ack_queue
      ≡ client.ack_queue ++ encode_ctrl_ack 1 ∷ [])
    × ((ch' : ReliableChannel) × ((Map.lookup
              (handle_ctrl_frame waiting 9 (drop 3 (encode_ctrl_ack 1)) 5).reliable
              9
            ≡ some ch')
          × (¬ (Occurs lost (flatten ch'.send_queues)))))
receive-acknowledges_example =
    receive-acknowledges codec client waiting 9 5 1 0 game (7 ∷ []) game_load in_the_air lost
      (omega arith) (omega arith) refl waiting-lookup refl (omega arith) (omega arith)
