-- ===== src/Bridge.antt =====
-- crates/ashfall-bridge/src/network.rs, without its socket: what the library in the game's process keeps,
-- the samples that it takes of actors, and its frames. The process itself (its memory, and the routines
-- that hooks/vtable.rs calls in it) is the parameter `Engine`, whose getters leave it as it is. An `f32` is
-- its 32 bits, and an `Instant` a number of nanoseconds.
pub mod Opcodes
pub mod Hooks
pub mod Commands
pub mod Debug
pub mod Serve
pub mod Answer
pub mod Apply
pub mod Discovery
use ashfall.Prelude.{
  ℕ, ◌+◌, ◌-◌, Bool, true, false, Option, none, some, List, [], ◌∷◌, ◌++◌, ltb, ◌==◌, nat_eq,
  if◌then◌else◌, contains, map, length, drop, u8, to_le_bytes4, from_le_bytes4,
}
use ashfall.Map.Iter.{other_than}
use ashfall.Reliable.{Bytes}
use ashfall.Pipe.{PipeFrame, encode_frame, split_frames}
use ashfall.Pipe.Ipc.{pipe_op_command, pipe_op_return}
use ashfall.Pipe.Events.{Bits3, PlayerStateEvent, encode_player_state_event, encode_npc_state_event}

pub record ActorState : Type 0 where
  pub idle : ℕ
  pub moving : ℕ
  pub weapon : ℕ
  pub flags : ℕ
  pub alerted : Bool
  pub sneaking : Bool

-- The game's process: reads of its memory, calls of its routines, and the accessors of hooks/vtable.rs.
pub record Engine (G : Type 0) : Type 0 where
  pub is_fnv : G → Bool
  pub lookup_form_by_id : G → ℕ → ℕ
  pub rd_u32 : G → ℕ → ℕ
  pub read_bytes : G → (addr len : ℕ) → Bytes
  pub routine : (addr : ℕ) → List ℕ → G → ℕ × G
  pub vcall : (obj index : ℕ) → List ℕ → G → ℕ × G
  pub set_full_name : (field : ℕ) → Bytes → G → G
  pub fire_routine_addr : G → ℕ
  pub get_pos : G → ℕ → Bits3
  pub get_angle : G → ℕ → Bits3
  pub get_cell : G → ℕ → ℕ
  pub get_base : G → ℕ → ℕ
  pub get_lock : G → ℕ → ℕ
  pub get_parent_cell : G → ℕ → ℕ
  pub get_combat_target : G → ℕ → ℕ
  pub get_actor_state : G → ℕ → ActorState
  pub get_actor_value : G → (ref_id index : ℕ) → ℕ
  pub get_actor_base_value : G → (ref_id index : ℕ) → ℕ
  pub get_name : G → ℕ → Bytes
  pub get_enabled : G → ℕ → Bool
  pub set_pos : ℕ → Bits3 → G → G
  pub set_angle : ℕ → Bits3 → G → G
  pub set_parent_cell : (ref_id value : ℕ) → G → G
  pub set_scale : (ref_id value : ℕ) → G → G
  pub set_actor_value : (ref_id index value : ℕ) → G → G
  pub set_enabled : ℕ → Bool → G → G
  pub set_lock : ℕ → Bool → G → G
  pub probe_saves : G → Bytes × G
  pub dump_image : G → Bytes × G
  -- The bytes between the fields of a sample.
  pub padding : G → Bits3

-- The statics of the library, beside the process that it is in.
pub record Bridge (G : Type 0) : Type 0 where
  pub game : G
  pub event_queue : List Bytes
  pub last_report : Option ℕ
  pub tracked_actors : List ℕ
  pub current : List ℕ
  pub last : List ℕ

abbrev pub local_player_ref : ℕ
local_player_ref = 0x14

unfoldable pub encode_pipe_command : ℕ → ℕ → Bytes → Bytes
encode_pipe_command key func params =
    encode_frame pipe_op_command
      (to_le_bytes4 key ++ (to_le_bytes4 func ++ u8 (length params) ∷ params))

unfoldable pub encode_pipe_return : ℕ → Bytes → Bytes
encode_pipe_return key result = encode_frame pipe_op_return (to_le_bytes4 key ++ result)

return_of : ℕ → Bytes → Option (ℕ × ℕ × Bytes)
return_of opcode (a ∷ b ∷ c ∷ d ∷ rest) =
    if opcode == pipe_op_return then some (opcode, from_le_bytes4 a b c d, rest) else none
return_of opcode _ = none

first_return : List PipeFrame → Option (ℕ × ℕ × Bytes)
unfolding return_of
first_return [] = none
first_return (frame ∷ frames) = return_of frame.opcode frame.payload

unfoldable pub decode_pipe_return : Bytes → Option (ℕ × ℕ × Bytes)
unfolding first_return
decode_pipe_return bytes = first_return (split_frames bytes).0

module _ {G : Type 0} where
  unfoldable pub push_event_frame : Bridge G → Bytes → Bridge G
  push_event_frame b frame = record b { event_queue = b.event_queue ++ frame ∷ [] }

  unfoldable pub take_event_frames : Bridge G → List Bytes × Bridge G
  take_event_frames b = (b.event_queue, record b { event_queue = [] })

  unfoldable pub track_actor : Bridge G → ℕ → Bridge G
  track_actor b ref_id =
      if contains b.tracked_actors ref_id
      then b
      else record b { tracked_actors = b.tracked_actors ++ ref_id ∷ [] }

  unfoldable pub untrack_actor : Bridge G → ℕ → Bridge G
  untrack_actor b ref_id = record b { tracked_actors = other_than ref_id b.tracked_actors }

module _ {G : Type 0} (e : Engine G) where
  -- What a sample says of an actor.
  unfoldable pub sample : G → ℕ → PlayerStateEvent
  sample g ref_id =
      let state = e.get_actor_state g ref_id in
      record {
        ref_id = ref_id;
        pos = e.get_pos g ref_id;
        angle = e.get_angle g ref_id;
        idle = state.idle;
        moving = state.moving;
        moving_xy = state.flags;
        weapon = state.weapon;
        alerted = state.alerted;
        sneaking = state.sneaking;
        health = e.get_actor_value g ref_id 0x14;
      }

  unfoldable pub report_player_state : Bridge G → Bytes × Bridge G
  unfolding sample push_event_frame
  report_player_state b =
      let frame = encode_player_state_event (e.padding b.game) (sample b.game local_player_ref) in
      (frame, push_event_frame b frame)

  sample_each : Bridge G → List ℕ → Bridge G
  unfolding sample push_event_frame
  sample_each b [] = b
  sample_each b (ref_id ∷ ref_ids) =
      sample_each
        (push_event_frame b (encode_npc_state_event (e.padding b.game) (sample b.game ref_id)))
        ref_ids

  unfoldable pub sample_tracked : Bridge G → Bridge G
  unfolding sample_each
  sample_tracked b = sample_each b b.tracked_actors

  -- Whether the last sample of the player is less than 100 milliseconds old.
  unfoldable pub too_early : Option ℕ → (now : ℕ) → Bool
  too_early none now = false
  too_early (some prev) now = ltb (now - prev) 100000000

  -- Every frame of the game. Nothing is ever queued for the game's thread.
  unfoldable pub report_player_state_due : Bridge G → (now : ℕ) → Option Bytes × Bridge G
  unfolding too_early report_player_state
  report_player_state_due b now =
      let (frame, sampled) = report_player_state (record b { last_report = some now }) in
      if too_early b.last_report now then (none, b) else (some frame, sampled)
