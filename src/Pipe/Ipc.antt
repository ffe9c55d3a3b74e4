-- ===== src/Pipe/Ipc.antt =====
-- crates/ashfall-client/src/ipc: the client's end of the stream from the bridge, and the commands that it
-- sends there. What the transport hands over is a list of pieces; an empty piece is a closed connection.
pub mod Chunks
use ashfall.Prelude.{
  ℕ, zero, suc, ◌+◌, ◌/◌, ◌%◌, Bool, true, false, Option, none, some, List, [], ◌∷◌, ◌++◌, ltb,
  ◌==◌, nat_eq, if◌then◌else◌, length, drop, leb, u8, u32, min, to_le_bytes4, from_le_bytes4,
}
use ashfall.Prelude.Int.{ℤ}
use ashfall.Reliable.{Bytes}
use ashfall.Pipe.{PipeFrame, encode_frame, split_frames}

abbrev pub pipe_op_command : ℕ
pipe_op_command = 2

abbrev pub pipe_op_return : ℕ
pipe_op_return = 3

abbrev pub pipe_op_event : ℕ
pipe_op_event = 7

-- `i32` and `f32` travel as the four bytes of their bit pattern.
pub data Param : Type 0 where
  u32_param i32_param f32_param : ℕ → Param
  bool_param : Bool → Param
  str_param : Bytes → Param
  u8_param : ℕ → Param

unfoldable pub encode_into : Param → Bytes → Bytes
encode_into (u32_param v) buf = buf ++ to_le_bytes4 v
encode_into (i32_param v) buf = buf ++ to_le_bytes4 v
encode_into (f32_param v) buf = buf ++ to_le_bytes4 v
encode_into (u8_param v) buf = buf ++ v ∷ []
encode_into (bool_param v) buf = buf ++ (if v then 1 else 0) ∷ []
encode_into (str_param s) buf = buf ++ u8 (length s) ∷ s

unfoldable pub encode_params : List Param → Bytes → Bytes
encode_params [] buf = buf
encode_params (p ∷ ps) buf = encode_params ps (encode_into p buf)

-- Why a command has no answer.
pub data Failure : Type 0 where
  stub_mode bridge_disconnected : Failure

pub data CommandResult (F : Type 0) : Type 0 where
  floats : List F → CommandResult F
  int : ℤ → CommandResult F
  text : Bytes → CommandResult F
  actor_state : (idle moving weapon flags : ℕ) (alerted sneaking : Bool) → CommandResult F
  success : CommandResult F
  error : Failure → CommandResult F

pub record IpcClient : Type 0 where
  pub is_stub : Bool
  pub next_key : ℕ
  pub returns : List Bytes
  pub read_buf : Bytes
  pub event_buf : List PipeFrame

-- The payload of an answer starts with the key of its request.
unfoldable pub answers : ℕ → Bytes → Bool
answers key (a ∷ b ∷ c ∷ d ∷ rest) = from_le_bytes4 a b c d == key
answers key _ = false

-- The first payload with the key, behind the key, and the payloads without that one.
unfoldable pub take_from : ℕ → List Bytes → Option Bytes × List Bytes
unfolding answers
take_from key [] = (none, [])
take_from key (p ∷ ps) =
    let (found, others) = take_from key ps in
    if answers key p then (some (drop 4 p), ps) else (found, p ∷ others)

unfoldable pub take_found : IpcClient → Option Bytes × List Bytes → Option Bytes × IpcClient
take_found c (none, others) = (none, c)
take_found c (some p, others) = (some p, record c { returns = others })

unfoldable pub take_return : ℕ → IpcClient → Option Bytes × IpcClient
unfolding take_from take_found
take_return key c = take_found c (take_from key c.returns)

-- Events and answers are kept, other frames are not.
unfoldable pub route : List PipeFrame → IpcClient → IpcClient
route [] c = c
route (frame ∷ frames) c = route frames (
    if frame.opcode == pipe_op_event
    then record c { event_buf = c.event_buf ++ frame ∷ [] }
    else if frame.opcode == pipe_op_return
    then record c { returns = c.returns ++ frame.payload ∷ [] }
    else c)

unfoldable pub ingest : IpcClient → Bytes → IpcClient
unfolding route
ingest c bytes =
    let (frames, rest) = split_frames (c.read_buf ++ bytes) in
    route frames (record c { read_buf = rest })

-- `poll_events`, at what the transport has ready.
unfoldable pub poll_events : IpcClient → Bytes → List PipeFrame × IpcClient
unfolding ingest
poll_events c ready =
    let after = if ltb 0 (length ready) then ingest c ready else c in
    (after.event_buf, record after { event_buf = [] })

-- The frame of a command.
unfoldable pub request : ℕ → ℕ → List Param → Bytes
unfolding encode_params encode_into
request key opcode params =
    encode_frame pipe_op_command
      (encode_params params (to_le_bytes4 key ++ to_le_bytes4 opcode ++ u8 (length params) ∷ []))

-- `CommandResult::decode`; `of_le_bytes` is `f32::from_le_bytes`.
module _ {F : Type 0} (of_le_bytes : ℕ → ℕ → ℕ → ℕ → F) where
  read_floats : ℕ → Bytes → List F
  read_floats (suc n) (a ∷ b ∷ c ∷ d ∷ rest) = of_le_bytes a b c d ∷ read_floats n rest
  read_floats _ _ = []

  unfoldable pub decode : Bytes → CommandResult F
  unfolding read_floats
  decode bytes =
      if leb 12 (length bytes)
      then floats (read_floats (min (length bytes / 4) 3) bytes)
      else success

  unfoldable pub or_later :
      Option Bytes × IpcClient → CommandResult F × IpcClient → CommandResult F × IpcClient
  unfolding decode
  or_later (some result, c) later = (decode result, c)
  or_later (none, c) later = later

  -- The loop of `execute`: a look for the answer before each read.
  unfoldable pub await_return : ℕ → IpcClient → List Bytes → CommandResult F × IpcClient
  unfolding take_return ingest or_later
  await_return key c [] = or_later (take_return key c) (error bridge_disconnected, c)
  await_return key c (piece ∷ pieces) = or_later (take_return key c) (
      if length piece == 0
      then (error bridge_disconnected, c)
      else await_return key (ingest c piece) pieces)

  -- What is sent, if anything, the answer, and the client.
  unfoldable pub execute :
      IpcClient → ℕ → List Param → List Bytes → Option Bytes × (CommandResult F × IpcClient)
  unfolding await_return request
  execute c opcode params pieces =
      let key = c.next_key in
      if c.is_stub then (none, (error stub_mode, c)) else (
        some (request key opcode params),
        await_return key (record c { next_key = u32 (key + 1) }) pieces,
      )
