-- ===== src/Network/Framing.antt =====
-- A frame that one side builds is taken apart by the other: the channel, the sequence number and the
-- payload come through.
use ashfall.Prelude.{
  ℕ, ◌+◌, ◌%◌, ◌/◌, ◌≤◌, ◌<◌, ◌≡◌, refl, ◌∙◌, false, some, [], ◌∷◌, ◌++◌, arith, bit_or, ltb,
  nat_eq, from_le_bytes, to_le_bytes, length, length-append, take_all, drop-length-append,
}
use ashfall.Map
use ashfall.Map.{Map}
use ashfall.Channel.{Channel, system, game, chat, as_u8}
use ashfall.Transport.{encode_varint_seq, channel_reliable_flag}
use ashfall.Transport.RoundTrip.{decode_varint_seq-encode, length-encode_varint_seq}
use ashfall.Reliable.{Bytes, ReliableChannel}
use ashfall.Reliable.Send.{next_seq}
use ashfall.Reliable.Receive.Ready.{take_ready-recv}
use ashfall.Packet.{Packet}
use ashfall.Packet.Routing.{from_packet}
use ashfall.Network.{
  Codec, NetworkManager, ok, send_reliable, decode_ready, try_recv, recv_on, recv_reliable,
  on_frame, reliable_frame, ensure_registered,
}

known-registered :
    (net : NetworkManager) (addr : ℕ) (ch : ReliableChannel)
    → Map.lookup net.reliable addr ≡ some ch
    → ensure_registered net addr ≡ net
unfolding ensure_registered
known-registered net addr ch e = rw e

-- The frame of a sequence number and a payload, on a channel.
abbrev pub frame_of : Channel → ℕ → Bytes → Bytes
frame_of channel seq payload =
    to_le_bytes ((length (encode_varint_seq seq) + length payload) % 65536)
    ++ (bit_or channel_reliable_flag (as_u8 channel) ∷ (encode_varint_seq seq ++ payload))

module _ {F : Type 0} (codec : Codec F) where
  -- The bytes that a successful send puts on the wire.
  sent_frame :
      (net net' : NetworkManager) (addr now : ℕ) (packet : Packet F) (payload frame : Bytes)
      (ch : ReliableChannel)
      → codec.to_stdvec packet ≡ some payload
      → Map.lookup net.reliable addr ≡ some ch
      → send_reliable codec net addr packet now ≡ ok (frame, net')
      → frame ≡ frame_of (from_packet packet) ch.send_seq payload
  unfolding send_reliable reliable_frame next_seq
  sent_frame net net' addr now packet payload frame ch written known sent = ground arith

  on_frame-data :
      (net : NetworkManager) (addr now : ℕ) (channel : Channel) (payload : Bytes)
      → on_frame codec net addr (bit_or channel_reliable_flag (as_u8 channel)) payload now
        ≡ recv_reliable codec net addr payload
  unfolding on_frame
  on_frame-data net addr now system payload = refl
  on_frame-data net addr now game payload = refl
  on_frame-data net addr now chat payload = refl

  recv_reliable-encode :
      (net : NetworkManager) (addr seq : ℕ) (payload : Bytes)
      → seq < 65536
      → recv_reliable codec net addr (encode_varint_seq seq ++ payload)
        ≡ recv_on codec
            (ensure_registered net addr)
            addr
            seq
            payload
            (Map.lookup (ensure_registered net addr).reliable addr)
  unfolding recv_reliable
  recv_reliable-encode net addr seq payload small =
      rw (decode_varint_seq-encode seq payload small, recv_reliable) (rw drop-length-append)

  -- A reliable frame of any channel reaches `recv` with its sequence number and its payload.
  try_recv-frame_of :
      (net : NetworkManager) (addr now : ℕ) (channel : Channel) (seq : ℕ) (payload : Bytes)
      → seq < 65536
      → length payload ≤ 65532
      → try_recv codec net addr (frame_of channel seq payload) now
        ≡ recv_on codec
            (ensure_registered net addr)
            addr
            seq
            payload
            (Map.lookup (ensure_registered net addr).reliable addr)
  unfolding try_recv
  try_recv-frame_of net addr now channel seq payload small short =
      let bounds = length-encode_varint_seq seq in
      let all = length-append (encode_varint_seq seq) payload in
      let rest = encode_varint_seq seq ++ payload in
      let total = (length (encode_varint_seq seq) + length payload) % 65536 in
      let len : from_le_bytes (total % 256) (total / 256 % 256) ≡ length rest =
        omega (arith, bounds, all) in
      let fits : ltb (length rest) (length rest) ≡ false = ground arith in
      rw len (
        rw fits (
          rw (take_all (length rest) rest (omega arith)) (
            on_frame-data net addr now channel rest
            ∙ recv_reliable-encode net addr seq payload small)))

  pub try_recv-delivers :
      (peer : NetworkManager) (from later : ℕ) (channel : Channel) (seq : ℕ) (packet : Packet F)
      (payload : Bytes) (there : ReliableChannel)
      → codec.from_bytes payload ≡ some packet
      → length payload ≤ 65532
      → seq < 65536
      → Map.lookup peer.reliable from ≡ some there
      → there.recv_seq ≡ seq
      → there.ready_queue ≡ []
      → (try_recv codec peer from (frame_of channel seq payload) later).0 ≡ some packet
  unfolding decode_ready recv_on
  try_recv-delivers peer from later channel seq packet payload there reads short small found next
        empty =
      let registered : ensure_registered peer from ≡ peer =
        known-registered peer from there found in
      rw (try_recv-frame_of peer from later channel seq payload small short) (
        rw registered (
          rw (found, recv_on)
            (rw (take_ready-recv there seq payload next empty, decode_ready) reads)))

  -- What one side sends reliably on a channel is what the other side's `try_recv` returns, where the
  -- receiver awaits that sequence number and has handed on all that was ready, and the codec reads
  -- back what it wrote.
  pub send_reliable-try_recv :
      (net net' peer : NetworkManager) (addr from now later : ℕ) (packet : Packet F)
      (payload frame : Bytes) (ch there : ReliableChannel)
      → codec.to_stdvec packet ≡ some payload
      → codec.from_bytes payload ≡ some packet
      → length payload ≤ 65532
      → Map.lookup net.reliable addr ≡ some ch
      → ch.send_seq < 65536
      → send_reliable codec net addr packet now ≡ ok (frame, net')
      → Map.lookup peer.reliable from ≡ some there
      → there.recv_seq ≡ ch.send_seq
      → there.ready_queue ≡ []
      → (try_recv codec peer from frame later).0 ≡ some packet
  send_reliable-try_recv net net' peer addr from now later packet payload frame ch there written
        reads short known small sent found next empty =
      rw (sent_frame net net' addr now packet payload frame ch written known sent) (
        try_recv-delivers peer from later (from_packet packet) ch.send_seq packet payload there
          reads short small found next empty)
