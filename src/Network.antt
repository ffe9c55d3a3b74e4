-- ===== src/Network.antt =====
-- `NetworkManager` of crates/ashfall-server/src/network.rs: frames in and out of the reliable channels.
-- An address is a number. What is handed to the socket is a list of (address, bytes), and the clock is
-- an argument. The serialisation of a packet (`postcard`) is a parameter.
pub mod Framing
pub mod Rate
pub mod Window
use ashfall.Prelude.{
  ℕ, ◌+◌, Bool, true, false, Option, none, some, List, [], ◌∷◌, ◌++◌, bit_and, bit_or, ltb, ◌==◌,
  nat_eq, if◌then◌else◌, length, take, drop, u16, to_le_bytes, from_le_bytes, map,
}
use ashfall.Map
use ashfall.Map.{Map}
use ashfall.Channel.{as_u8}
use ashfall.Packet.{Packet}
use ashfall.Packet.Routing.{from_packet, is_unreliable}
use ashfall.Transport.{
  CtrlFrame, ack, nack, channel_ctrl, channel_reliable_flag, encode_varint_seq, decode_varint_seq,
  decode_ctrl_frame,
}
use ashfall.Reliable
use ashfall.Reliable.{Bytes, ReliableChannel, header_size}
use ashfall.Reliable.Send.{
  next_seq, can_send, enqueue, retransmit_expired, nack_retransmit, ack_recv,
}
use ashfall.Reliable.Receive.{recv, take_ready, take_control_frames}

-- `postcard::to_stdvec` and `from_bytes`, which may fail.
pub record Codec (F : Type 0) : Type 0 where
  pub to_stdvec : Packet F → Option Bytes
  pub from_bytes : Bytes → Option (Packet F)

pub record NetworkManager : Type 0 where
  pub reliable : Map ℕ ReliableChannel
  pub resend_queue : List (ℕ × Bytes)

pub data SendError : Type 0 where
  not_serialised not_registered window_full : SendError

pub data Sent {ℓ} (A : Type ℓ) : Type ℓ where
  ok : A → Sent A
  err : SendError → Sent A

unfoldable pub register_session : NetworkManager → ℕ → NetworkManager
register_session net addr = record net { reliable = Map.insert net.reliable addr Reliable.new }

unfoldable pub remove_session : NetworkManager → ℕ → NetworkManager
remove_session net addr = record net { reliable = Map.remove net.reliable addr }

module _ {F : Type 0} (codec : Codec F) where
  -- A frame of `send_reliable`: length, channel byte, sequence number, payload.
  pub reliable_frame : Packet F → ℕ → Bytes → Bytes
  reliable_frame packet seq payload =
      let seq_bytes = encode_varint_seq seq in
      to_le_bytes (u16 (length seq_bytes + length payload))
      ++ (bit_or channel_reliable_flag (as_u8 (from_packet packet)) ∷ (seq_bytes ++ payload))

  send_on :
      NetworkManager
      → ℕ
      → Packet F
      → ℕ
      → Bytes
      → Option ReliableChannel
      → Sent (Bytes × NetworkManager)
  send_on net addr packet now payload none = err not_registered
  send_on net addr packet now payload (some ch) =
      let (seq, ch') = next_seq ch in
      let ch'' = enqueue ch' (from_packet packet) seq payload now in
      if can_send ch
      then ok (
        reliable_frame packet seq payload,
        record net { reliable = Map.insert net.reliable addr ch'' },
      )
      else err window_full

  unfoldable pub send_reliable : NetworkManager → ℕ → Packet F → ℕ → Sent (Bytes × NetworkManager)
  unfolding send_on
  send_reliable net addr packet now = elim (codec.to_stdvec packet) [
    | none ↦ err not_serialised
    | some payload ↦ send_on net addr packet now payload (Map.lookup net.reliable addr)
  ]

  pub send_unreliable : Packet F → Sent Bytes
  send_unreliable packet = elim (codec.to_stdvec packet) [
    | none ↦ err not_serialised
    | some payload ↦
        ok (to_le_bytes (u16 (length payload)) ++ (as_u8 (from_packet packet) ∷ payload))
  ]

  broadcast_one : NetworkManager → ℕ → Packet F → ℕ → List (ℕ × Bytes) × NetworkManager
  broadcast_one net addr packet now = elim (send_reliable net addr packet now) [
    | ok (frame, net') ↦ ((addr, frame) ∷ [], net')
    | err _ ↦ ([], net)
  ]

  broadcast_frame : ℕ → Sent Bytes → List (ℕ × Bytes)
  broadcast_frame addr (ok frame) = (addr, frame) ∷ []
  broadcast_frame addr (err _) = []

  -- A failure to send to one address is logged, and the loop goes on.
  pub broadcast : NetworkManager → List ℕ → Packet F → ℕ → List (ℕ × Bytes) × NetworkManager
  unfolding broadcast_one broadcast_frame
  broadcast net [] packet now = ([], net)
  broadcast net (addr ∷ addrs) packet now =
      let (out, net') =
        (if is_unreliable packet
          then (broadcast_frame addr (send_unreliable packet), net)
          else broadcast_one net addr packet now) in
      let (rest, net'') = broadcast net' addrs packet now in (out ++ rest, net'')

-- NACKed frames go to the back of the resend queue.
on_ctrl : NetworkManager → ℕ → ℕ → CtrlFrame → ReliableChannel → NetworkManager
on_ctrl net addr now (ack seq) ch = record net {
  reliable = Map.insert net.reliable addr (ack_recv ch seq now);
}
on_ctrl net addr now (nack missing) ch =
    let (ch', frames) = nack_retransmit ch missing now in
    record {
      reliable = Map.insert net.reliable addr ch';
      resend_queue = net.resend_queue ++ map (λ (f : Bytes). (addr, f)) frames;
    }

unfoldable pub handle_ctrl_frame : NetworkManager → ℕ → Bytes → ℕ → NetworkManager
unfolding on_ctrl
handle_ctrl_frame net addr payload now = elim (decode_ctrl_frame payload) [
  | none ↦ net
  | some frame ↦ elim (Map.lookup net.reliable addr) [
    | none ↦ net
    | some ch ↦ on_ctrl net addr now frame ch
  ]
]

-- `if !self.reliable.contains_key(&addr) { self.register_session(addr) }`
ensure_registered : NetworkManager → ℕ → NetworkManager
unfolding register_session
ensure_registered net addr =
    if Map.contains_key net.reliable addr then net else register_session net addr

module _ {F : Type 0} (codec : Codec F) where
  decode_ready : Option Bytes → Option (Packet F)
  decode_ready none = none
  decode_ready (some d) = codec.from_bytes d

  recv_on :
      NetworkManager → ℕ → ℕ → Bytes → Option ReliableChannel → Option (Packet F) × NetworkManager
  unfolding decode_ready
  recv_on net addr seq d none = (none, net)
  recv_on net addr seq d (some ch) =
      let (ready, ch') = take_ready (recv ch seq d) in
      (decode_ready ready, record net { reliable = Map.insert net.reliable addr ch' })

  -- A frame with a sequence number, on channel 0, 1 or 2.
  recv_reliable : NetworkManager → ℕ → Bytes → Option (Packet F) × NetworkManager
  unfolding recv_on ensure_registered
  recv_reliable net addr payload =
      let net' = ensure_registered net addr in
      elim (decode_varint_seq payload) [
        | none ↦ (none, net')
        | some (seq, consumed) ↦
            recv_on net' addr seq (drop consumed payload) (Map.lookup net'.reliable addr)
      ]

  on_frame : NetworkManager → ℕ → ℕ → Bytes → ℕ → Option (Packet F) × NetworkManager
  unfolding recv_reliable
  on_frame net addr channel_byte payload now =
      if channel_byte == channel_ctrl
      then (none, handle_ctrl_frame net addr payload now)
      else if bit_and channel_byte channel_reliable_flag == 0
      then (codec.from_bytes payload, net)
      else if ltb 2 (bit_and channel_byte 0x7F)
      then (none, net)
      else recv_reliable net addr payload

  -- A datagram: shorter than its header, or than the length that it names, it is dropped.
  pub try_recv : NetworkManager → ℕ → Bytes → ℕ → Option (Packet F) × NetworkManager
  unfolding on_frame
  try_recv net addr (lo ∷ hi ∷ channel_byte ∷ rest) now =
      let len = from_le_bytes lo hi in
      if ltb (length rest) len
      then (none, net)
      else on_frame net addr channel_byte (take len rest) now
  try_recv net addr _ now = (none, net)

-- One session's part of `tick`: expired packets first, then what it owes its peer.
tick_channel : ReliableChannel → ℕ → ReliableChannel × List Bytes
tick_channel ch now =
    let (ch', expired) = retransmit_expired ch now in
    let (frames, ch'') = take_control_frames ch' in (ch'', expired ++ frames)

tick_sessions : List (ℕ × ReliableChannel) → ℕ → List (ℕ × ReliableChannel) × List (ℕ × Bytes)
unfolding tick_channel
tick_sessions [] now = ([], [])
tick_sessions ((addr, ch) ∷ rest) now =
    let (ch', frames) = tick_channel ch now in
    let (rest', out) = tick_sessions rest now in
    ((addr, ch') ∷ rest', map (λ (f : Bytes). (addr, f)) frames ++ out)

-- The queue of resent frames, then every session's frames.
unfoldable pub tick : NetworkManager → ℕ → NetworkManager × List (ℕ × Bytes)
unfolding tick_sessions
tick net now =
    let (sessions, out) = tick_sessions net.reliable.entries now in
    (
      record { reliable = record { entries = sessions }; resend_queue = [] },
      net.resend_queue ++ out,
    )
