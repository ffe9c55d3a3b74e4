-- ===== src/Bridge/Serve.antt =====
-- `handle_client` and `dispatch` of crates/ashfall-bridge/src/network.rs: what one turn of the loop makes of
-- what its read gave, and what it writes. A write that fails is ignored.
use ashfall.Prelude.{
  ℕ, Option, none, some, List, [], ◌∷◌, ◌++◌, ◌==◌, nat_eq, if◌then◌else◌, flatten, from_le_bytes4,
}
use ashfall.Reliable.{Bytes}
use ashfall.Pipe.{PipeFrame, encode_frame, split_frames}
use ashfall.Pipe.Ipc.{pipe_op_command}
use ashfall.Bridge.{Bridge, Engine, encode_pipe_return, take_event_frames}
use ashfall.Bridge.Commands.{execute}

abbrev pub pipe_sys_wakeup : ℕ
pipe_sys_wakeup = 1

abbrev pub pipe_error_close : ℕ
pipe_error_close = 6

-- A read of the socket.
pub data Read : Type 0 where
  closed failed idle : Read
  piece : Bytes → Read

abbrev close_frame : Bytes
close_frame = encode_frame pipe_error_close []

module _ {G : Type 0} (e : Engine G) where
  -- The count of the parameters is not looked at.
  command : Bytes → Bridge G → Bytes × Bridge G
  command (a ∷ b ∷ c ∷ d ∷ f ∷ g ∷ h ∷ i ∷ param_count ∷ params) bridge =
      let (result, bridge') = execute e (from_le_bytes4 f g h i) params bridge in
      (encode_pipe_return (from_le_bytes4 a b c d) result, bridge')
  command _ bridge = (close_frame, bridge)

  unfoldable pub dispatch : PipeFrame → Bridge G → Bytes × Bridge G
  unfolding command
  dispatch frame b =
      if frame.opcode == pipe_sys_wakeup
      then (encode_frame pipe_sys_wakeup [], b)
      else if frame.opcode == pipe_op_command
      then command frame.payload b
      else (close_frame, b)

  unfoldable pub dispatch_all : List PipeFrame → Bridge G → Bytes × Bridge G
  unfolding dispatch
  dispatch_all [] b = ([], b)
  dispatch_all (frame ∷ frames) b =
      let (response, b') = dispatch frame b in
      let (responses, b'') = dispatch_all frames b' in (response ++ responses, b'')

  -- The answers are written, and then the events.
  abbrev pub written : Bytes × Bridge G → Bytes → Bytes × (Bytes × Bridge G)
  written (responses, b) rest =
      let (events, b') = take_event_frames b in (responses ++ flatten events, (rest, b'))

  -- What is written, what is kept of the input, and the bridge.
  unfoldable pub turn : Bytes → Bridge G → Bytes × (Bytes × Bridge G)
  unfolding dispatch_all
  turn pending b = let (frames, rest) = split_frames pending in written (dispatch_all frames b) rest

  -- The loop ends when the connection does.
  unfoldable pub serve : Bytes → Bridge G → Read → Option (Bytes × (Bytes × Bridge G))
  unfolding turn
  serve pending b closed = none
  serve pending b failed = none
  serve pending b idle = some (turn pending b)
  serve pending b (piece bytes) = some (turn (pending ++ bytes) b)
