-- ===== src/ClientNetwork/Uplink.antt =====
-- From the client to the server: crates/ashfall-client/src/network.rs sends what the server's `try_recv`
-- reads.
use ashfall.Prelude.{
  ℕ, ◌≤◌, ◌<◌, ◌≡◌, refl, false, some, [], ◌∷◌, ◌++◌, length, nat_eq, wrapping_add,
}
use ashfall.Map
use ashfall.Reliable.{Bytes, ReliableChannel}
use ashfall.Packet.{Packet}
use ashfall.Packet.Routing.{from_packet, is_unreliable}
use ashfall.Network.{Codec, NetworkManager, try_recv}
use ashfall.Network.Framing.{frame_of, try_recv-delivers}
use ashfall.ClientNetwork.{ClientNetwork, send}

module _ {F : Type 0} (codec : Codec F) where
  -- A client's reliable packet goes out behind the acknowledgements that were due, in one datagram that
  -- the server reads as that packet, where the server awaits that sequence number and has handed on all
  -- that was ready; the client's next reliable packet has the next number.
  pub send-try_recv :
      (c : ClientNetwork) (peer : NetworkManager) (from later : ℕ) (p : Packet F) (payload : Bytes)
      (there : ReliableChannel)
      → codec.to_stdvec p ≡ some payload
      → codec.from_bytes payload ≡ some p
      → is_unreliable p ≡ false
      → length payload ≤ 65532
      → c.send_seq < 65536
      → Map.lookup peer.reliable from ≡ some there
      → there.recv_seq ≡ c.send_seq
      → there.ready_queue ≡ []
      → (frame : Bytes) × (((send codec c p).0 ≡ c.ack_queue ++ frame ∷ [])
          × (((try_recv codec peer from frame later).0 ≡ some p)
              × ((send codec c p).1.send_seq ≡ wrapping_add c.send_seq 1)))
  unfolding send
  send-try_recv c peer from later p payload there written reads reliable short small found next
        empty =
      (
        frame_of (from_packet p) c.send_seq payload,
        (
          rw (written, reliable) refl,
          (
            try_recv-delivers codec peer from later (from_packet p) c.send_seq p payload there reads
                short small found next empty,
            rw (written, reliable) refl,
          ),
        ),
      )
