-- ===== src/ClientNetwork/Downlink.antt =====
-- From the server to the client: what crates/ashfall-client/src/network.rs acknowledges, and what the
-- server's channel makes of it.
use ashfall.Prelude.{
  ℕ, ◌+◌, ◌%◌, ◌/◌, ◌≤◌, ◌<◌, ◌≡◌, refl, ◌∙◌, nat_beq_iff, false, some, [], ◌∷◌, ◌++◌, length,
  length-append, take_all, drop, drop-length-append, arith, nat_eq, bit_or, ltb, from_le_bytes,
}
use ashfall.Map
use ashfall.Map.Laws.{lookup-insert}
use ashfall.Channel.{Channel, system, game, chat, as_u8}
use ashfall.Transport.{decode_varint_seq, encode_varint_seq, encode_ctrl_ack, channel_reliable_flag}
use ashfall.Transport.RoundTrip.{
  decode_varint_seq-encode, length-encode_varint_seq, decode_ctrl_frame-encode_ctrl_ack,
}
use ashfall.Reliable.{Bytes, ReliableChannel, SendEntry}
use ashfall.Reliable.Send.{ack_recv, flatten}
use ashfall.Reliable.Send.Window.{Occurs, ack_recv-Occurs}
use ashfall.Packet.{Packet}
use ashfall.Network.{Codec, NetworkManager, handle_ctrl_frame}
use ashfall.Network.Framing.{frame_of}
use ashfall.ClientNetwork.{ClientNetwork, packet, receive, read_frame, read_reliable, read_packet}

module _ {F : Type 0} (codec : Codec F) where
  read_frame-data :
      (c : ClientNetwork) (channel : Channel) (payload : Bytes)
      → read_frame codec c (bit_or channel_reliable_flag (as_u8 channel)) payload
        ≡ read_reliable codec c payload (decode_varint_seq payload)
  unfolding read_frame
  read_frame-data c system payload = refl
  read_frame-data c game payload = refl
  read_frame-data c chat payload = refl

  read_reliable-encode :
      (c : ClientNetwork) (seq : ℕ) (payload : Bytes) (p : Packet F)
      → seq < 65536
      → codec.from_bytes payload ≡ some p
      → read_reliable codec c
          (encode_varint_seq seq ++ payload)
          (decode_varint_seq (encode_varint_seq seq ++ payload))
        ≡ (
          packet p,
          record c { recv_seq = some seq; ack_queue = c.ack_queue ++ encode_ctrl_ack seq ∷ [] },
        )
  unfolding read_reliable read_packet
  read_reliable-encode c seq payload p small reads =
      rw (decode_varint_seq-encode seq payload small)
        (rw drop-length-append (rw (reads, read_packet) refl))

  -- A reliable frame, as it is read.
  receive-frame_of :
      (c : ClientNetwork) (channel : Channel) (seq : ℕ) (payload : Bytes) (p : Packet F)
      → seq < 65536
      → length payload ≤ 65532
      → codec.from_bytes payload ≡ some p
      → receive codec c (frame_of channel seq payload) ≡ (
        packet p,
        record c { recv_seq = some seq; ack_queue = c.ack_queue ++ encode_ctrl_ack seq ∷ [] },
      )
  unfolding receive
  receive-frame_of c channel seq payload p small short reads =
      let bounds = length-encode_varint_seq seq in
      let all = length-append (encode_varint_seq seq) payload in
      let rest = encode_varint_seq seq ++ payload in
      let total = (length (encode_varint_seq seq) + length payload) % 65536 in
      let len : from_le_bytes (total % 256) (total / 256 % 256) ≡ length rest =
        omega (arith, bounds, all) in
      let fits : ltb (length rest) (length rest) ≡ false = ground arith in
      rw len (
        rw fits (
          rw (take_all (length rest) rest (omega arith))
            (read_frame-data c channel rest ∙ read_reliable-encode c seq payload p small reads)))

  acked :
      (net : NetworkManager) (addr now n : ℕ) (ch : ReliableChannel)
      → n < 65536
      → Map.lookup net.reliable addr ≡ some ch
      → Map.lookup (handle_ctrl_frame net addr (drop 3 (encode_ctrl_ack n)) now).reliable addr
        ≡ some (ack_recv ch n now)
  unfolding handle_ctrl_frame
  acked net addr now n ch small known =
      rw (decode_ctrl_frame-encode_ctrl_ack n small, handle_ctrl_frame)
        (rw (known, handle_ctrl_frame)
          (ground (
            arith,
            lookup-insert net.reliable addr addr (ack_recv ch n now),
            nat_beq_iff addr addr,
          )))

  forgotten :
      (ch : ReliableChannel) (now n m : ℕ) (lost : SendEntry)
      → n < 65536
      → lost.seq ≡ m
      → m ≤ n
      → n ≤ m + 32768
      → ¬ (Occurs lost (flatten (ack_recv ch n now).send_queues))
  forgotten ch now n m lost small same before near o =
      let whole : n % 65536 ≡ n = omega arith in
      let still : Occurs lost (flatten (ack_recv ch (n % 65536) now).send_queues) = rw whole o in
      let (kept, after) =
        (ack_recv-Occurs ch n m now lost (omega arith) (omega arith) near).0 still in
      omega arith

  -- A client that receives packet `n`, of at most 65532 bytes that the codec reads, acknowledges it
  -- whether or not the ones before it arrived. When the server reads that acknowledgement, no packet `m`
  -- waits any more in the session's send queues, whose entries are what is sent again on a timeout, for
  -- `m` up to `n` as plain numbers (without a wrap between) and at most 32768 below it. What was already
  -- copied to be sent again on a nack is not looked at.
  pub receive-acknowledges :
      (c : ClientNetwork) (net : NetworkManager) (addr now n m : ℕ) (channel : Channel)
      (payload : Bytes) (p : Packet F) (ch : ReliableChannel) (lost : SendEntry)
      → n < 65536
      → length payload ≤ 65532
      → codec.from_bytes payload ≡ some p
      → Map.lookup net.reliable addr ≡ some ch
      → lost.seq ≡ m
      → m ≤ n
      → n ≤ m + 32768
      → ((receive codec c (frame_of channel n payload)).1.ack_queue
          ≡ c.ack_queue ++ encode_ctrl_ack n ∷ [])
        × ((ch' : ReliableChannel) × ((Map.lookup
                  (handle_ctrl_frame net addr (drop 3 (encode_ctrl_ack n)) now).reliable
                  addr
                ≡ some ch')
              × (¬ (Occurs lost (flatten ch'.send_queues)))))
  receive-acknowledges c net addr now n m channel payload p ch lost small short reads known same
        before near =
      (
        rw (receive-frame_of c channel n payload p small short reads) refl,
        (
          ack_recv ch n now,
          (acked net addr now n ch small known, forgotten ch now n m lost small same before near),
        ),
      )
