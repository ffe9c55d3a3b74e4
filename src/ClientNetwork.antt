-- ===== src/ClientNetwork.antt =====
-- crates/ashfall-client/src/network.rs: the client's end of the connection. What goes to the socket is
-- a list of datagrams, and what comes from it is an argument.
pub mod Uplink
pub mod Downlink
use ashfall.Prelude.{
  ℕ, ◌+◌, Bool, true, false, Option, none, some, List, [], ◌∷◌, ◌++◌, bit_and, bit_or, ltb, ◌==◌,
  nat_eq, if◌then◌else◌, length, take, drop, u16, wrapping_add, to_le_bytes, from_le_bytes,
}
use ashfall.Channel.{as_u8}
use ashfall.Transport.{
  channel_ctrl, channel_reliable_flag, encode_varint_seq, decode_varint_seq, encode_ctrl_ack,
}
use ashfall.Reliable.{Bytes}
use ashfall.Packet.{Packet}
use ashfall.Packet.Routing.{from_packet, is_unreliable}
use ashfall.Network.{Codec}

pub record ClientNetwork : Type 0 where
  pub send_seq : ℕ
  pub recv_seq : Option ℕ
  pub ack_queue : List Bytes

-- The fields of a new connection.
unfoldable pub connect : ClientNetwork
connect = record { send_seq = 0; recv_seq = none; ack_queue = [] }

-- A datagram that is no packet, a packet, or an error.
pub data Incoming (F : Type 0) : Type 0 where
  nothing : Incoming F
  packet : Packet F → Incoming F
  malformed : Incoming F

module _ {F : Type 0} (codec : Codec F) where
  send_payload : ClientNetwork → Packet F → Option Bytes → List Bytes × ClientNetwork
  send_payload c p none = (c.ack_queue, record c { ack_queue = [] })
  send_payload c p (some payload) =
      let seq_bytes = encode_varint_seq c.send_seq in
      if is_unreliable p
      then (
        c.ack_queue
            ++ (to_le_bytes (u16 (length payload)) ++ (as_u8 (from_packet p) ∷ payload)) ∷ [],
        record c { ack_queue = [] },
      )
      else (
        c.ack_queue
            ++ (to_le_bytes (u16 (length seq_bytes + length payload))
                ++ (bit_or channel_reliable_flag (as_u8 (from_packet p)) ∷ (seq_bytes ++ payload)))
              ∷ [],
        record c { send_seq = wrapping_add c.send_seq 1; ack_queue = [] },
      )

  -- What goes out, and the client after it: the acknowledgements first, then the packet, unless it
  -- cannot be serialised.
  unfoldable pub send : ClientNetwork → Packet F → List Bytes × ClientNetwork
  unfolding send_payload
  send c p = send_payload c p (codec.to_stdvec p)

  read_packet : Bytes → Incoming F
  read_packet b = elim (codec.from_bytes b) [ none ↦ malformed | some p ↦ packet p ]

  read_reliable : ClientNetwork → Bytes → Option (ℕ × ℕ) → Incoming F × ClientNetwork
  unfolding read_packet
  read_reliable c payload none = (malformed, c)
  read_reliable c payload (some (seq, consumed)) = (
    read_packet (drop consumed payload),
    record c { recv_seq = some seq; ack_queue = c.ack_queue ++ encode_ctrl_ack seq ∷ [] },
  )

  read_frame : ClientNetwork → ℕ → Bytes → Incoming F × ClientNetwork
  unfolding read_reliable
  read_frame c channel_byte payload =
      if channel_byte == channel_ctrl
      then (nothing, c)
      else if bit_and channel_byte channel_reliable_flag == 0
      then (read_packet payload, c)
      else read_reliable c payload (decode_varint_seq payload)

  unfoldable pub receive : ClientNetwork → Bytes → Incoming F × ClientNetwork
  unfolding read_frame
  receive c (lo ∷ hi ∷ channel_byte ∷ rest) =
      let len = from_le_bytes lo hi in
      if ltb (length rest) len then (nothing, c) else read_frame c channel_byte (take len rest)
  receive c _ = (nothing, c)
