-- ===== src/Pipe.antt =====
-- crates/ashfall-core/src/event.rs: the frames of the byte stream between the bridge in the game's
-- process and the client, and the events that they carry. Bytes are natural numbers.
pub mod Stream
pub mod Events
pub mod Ipc
use ashfall.Prelude.{
  ℕ, zero, suc, ◌+◌, ◌/◌, ◌%◌, List, [], ◌∷◌, ◌++◌, ltb, if◌then◌else◌, length, take, drop, u16,
  to_le_bytes, from_le_bytes,
}
use ashfall.Reliable.{Bytes}

pub record PipeFrame : Type 0 where
  pub opcode : ℕ
  pub payload : Bytes

unfoldable pub encode_frame : ℕ → Bytes → Bytes
encode_frame opcode payload = to_le_bytes (u16 (length payload)) ++ opcode ∷ payload

-- The loop of `split_frames`, at what is left of the buffer.
pub split_from : ℕ → Bytes → List PipeFrame × Bytes
split_from zero buf = ([], buf)
split_from (suc fuel) [] = ([], [])
split_from (suc fuel) (a ∷ []) = ([], a ∷ [])
split_from (suc fuel) (a ∷ b ∷ []) = ([], a ∷ b ∷ [])
split_from (suc fuel) (lo ∷ hi ∷ opcode ∷ rest) =
    let len = from_le_bytes lo hi in
    let (frames, left) = split_from fuel (drop len rest) in
    if ltb (length rest) len
    then ([], lo ∷ hi ∷ opcode ∷ rest)
    else (record { opcode = opcode; payload = take len rest } ∷ frames, left)

-- The complete frames, and the bytes that await the rest of the next one. A frame takes bytes, so that
-- the buffer's length is fuel enough.
unfoldable pub split_frames : Bytes → List PipeFrame × Bytes
unfolding split_from
split_frames buf = split_from (length buf) buf
