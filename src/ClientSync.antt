-- ===== src/ClientSync.antt =====
-- crates/ashfall-client/src/sync.rs: the game's events become packets for the server, and the server's
-- packets become commands for the game. A command is its opcode with its parameters.
pub mod Samples
use ashfall.Prelude.{
  ℕ, ◌≡◌, Bool, true, false, Option, none, some, List, [], ◌∷◌, ◌++◌, ◌-◌, bit_or, bit_and, ◌==◌,
  nat_eq, if◌then◌else◌,
}
use ashfall.Prelude.Int.{pos}
use ashfall.Map
use ashfall.Float.{Float}
use ashfall.Reliable.{Bytes}
use ashfall.Packet.{
  Packet, Vec3, object_remove, update_pos, update_angle, update_scale, update_lock, update_activate,
  update_sound, actor_new, update_actor_dead, update_actor_value, update_fire_weapon,
  ownership_claim, actor_state_delta,
}
use ashfall.Pipe.{PipeFrame}
use ashfall.Pipe.Ipc.{Param, u32_param, f32_param, u8_param, pipe_op_event}
use ashfall.Pipe.Events.{
  Bits3, PlayerStateEvent, NpcSpawnEvent, NpcRemoveEvent, event_player_state, event_npc_spawn,
  event_npc_remove, event_npc_state, event_activate, event_fire, decode_event, decode_ref_event,
  decode_npc_remove, decode_npc_spawn, decode_player_state,
}

abbrev pub op_set_pos : ℕ
op_set_pos = 0x0002

abbrev pub op_set_angle : ℕ
op_set_angle = 0x0004

abbrev pub op_set_actor_value : ℕ
op_set_actor_value = 0x0009

abbrev pub op_get_activate : ℕ
op_get_activate = 0x000C

abbrev pub op_fire_weapon : ℕ
op_fire_weapon = 0x000D

abbrev pub op_set_lock : ℕ
op_set_lock = 0x0013

abbrev pub op_play_sound : ℕ
op_play_sound = 0x0015

abbrev pub op_kill : ℕ
op_kill = 0x0023

abbrev pub op_set_scale : ℕ
op_set_scale = 0x002B

-- The network id of a reference of the game, and back.
unfoldable pub entity_id : ℕ → ℕ
entity_id ref_id = bit_or 0x80000000 ref_id

unfoldable pub ref_of_entity : ℕ → Option ℕ
ref_of_entity id = if bit_and id 0x80000000 == 0 then none else some (bit_and id 0x7FFFFFFF)

-- `f32::from_bits` and `f32::to_bits`, and what a byte reads as in the place of a `bool`.
pub record Layout (F : Type 0) : Type 0 where
  pub of_bits : ℕ → F
  pub to_bits : F → ℕ
  pub as_bool : ℕ → Bool
  pub as_bool-zero : as_bool 0 ≡ false
  pub as_bool-one : as_bool 1 ≡ true

module _ {F : Type 0} (f : Float F) (l : Layout F) where
  unfoldable pub vec3_of : Bits3 → Vec3 F
  vec3_of v = (l.of_bits v.0, l.of_bits v.1, l.of_bits v.2)

  -- The packets of a sample of an actor: the player's own, or one that the client simulates.
  unfoldable pub sample_packets : ℕ → PlayerStateEvent → List (Packet F)
  unfolding vec3_of
  sample_packets id e =
      update_pos id (vec3_of e.pos)
      ∷ update_angle id (l.of_bits e.angle.0, l.of_bits e.angle.2)
      ∷ actor_state_delta id (some e.idle) (some e.moving) (some e.moving_xy) (some e.weapon)
          (some e.alerted) (some e.sneaking) none
      ∷ update_actor_value id false 0x14 (l.of_bits e.health)
      ∷ []

  unfoldable pub spawn_packets : NpcSpawnEvent → List (Packet F)
  unfolding vec3_of
  spawn_packets e =
      let id = entity_id e.ref_id in
      actor_new id e.ref_id e.base_id Map.empty Map.empty 0 (pos 0) 0 0 0 0 false false false false
        0 (pos 0) f.one
      ∷ update_pos id (vec3_of e.pos)
      ∷ ownership_claim id
      ∷ []

  -- The packets of what was decoded, if anything was.
  abbrev packets_of : {A : Type 0} → (A → List (Packet F)) → Option A → List (Packet F)
  packets_of g none = []
  packets_of g (some a) = g a

  unfoldable pub event_packets : ℕ → Option (ℕ × Bytes) → List (Packet F)
  unfolding sample_packets spawn_packets
  event_packets local none = []
  event_packets local (some (event_type, bytes)) =
      if event_type == event_player_state
      then packets_of (sample_packets local) (decode_player_state l.as_bool bytes)
      else if event_type == event_npc_spawn
      then packets_of spawn_packets (decode_npc_spawn bytes)
      else if event_type == event_npc_state
      then packets_of (λ (e : PlayerStateEvent). sample_packets (entity_id e.ref_id) e)
          (decode_player_state l.as_bool bytes)
      else if event_type == event_npc_remove
      then packets_of (λ (e : NpcRemoveEvent). object_remove (entity_id e.ref_id) false ∷ [])
          (decode_npc_remove bytes)
      else if event_type == event_activate
      then packets_of (λ ref_id. update_activate (entity_id ref_id) local ∷ [])
          (decode_ref_event bytes)
      else if event_type == event_fire
      then packets_of (λ ref_id. update_fire_weapon local ref_id ∷ []) (decode_ref_event bytes)
      else []

  unfoldable pub events_to_packets : List PipeFrame → ℕ → List (Packet F)
  unfolding event_packets
  events_to_packets [] local = []
  events_to_packets (frame ∷ frames) local =
      (if frame.opcode == pipe_op_event
        then event_packets local (decode_event frame.payload)
        else [])
      ++ events_to_packets frames local

  abbrev Command : Type 0
  Command = ℕ × List Param

  -- A command for the reference of the entity, if it is known.
  unfoldable pub addressed : Option ℕ → ℕ → List Param → List Command
  addressed none op params = []
  addressed (some ref_id) op params = (op, u32_param ref_id ∷ params) ∷ []

  abbrev f32_of : F → Param
  f32_of v = f32_param (l.to_bits v)

  -- The same for an entity other than the local player.
  unfoldable pub remote : ℕ → ℕ → Option ℕ → ℕ → List Param → List Command
  unfolding addressed
  remote id local ref op params = if id == local then [] else addressed ref op params

  unfoldable pub packet_commands : ℕ → (ℕ → Option ℕ) → Packet F → List Command
  unfolding remote
  packet_commands local resolve (update_pos id p) =
      remote id local (resolve id) op_set_pos (f32_of p.0 ∷ f32_of p.1 ∷ f32_of p.2 ∷ [])
  packet_commands local resolve (update_angle id angle) =
      remote id local (resolve id) op_set_angle
        (f32_of angle.0 ∷ f32_of f.zero ∷ f32_of angle.1 ∷ [])
  packet_commands local resolve (update_actor_value id is_base index value) =
      remote id local (resolve id) op_set_actor_value (u8_param index ∷ f32_of value ∷ [])
  packet_commands local resolve (update_actor_dead id true limbs cause) =
      remote id local (resolve id) op_kill (u32_param 0 ∷ u8_param 0 ∷ u8_param 0 ∷ [])
  packet_commands local resolve (update_activate id actor) =
      addressed (resolve id) op_get_activate []
  packet_commands local resolve (update_fire_weapon id weapon) =
      remote id local (resolve id) op_fire_weapon (u32_param weapon ∷ [])
  packet_commands local resolve (update_lock id lock) =
      addressed (resolve id) op_set_lock (u32_param lock ∷ [])
  packet_commands local resolve (update_scale id scale) =
      addressed (resolve id) op_set_scale (f32_of scale ∷ [])
  packet_commands local resolve (update_sound id sound) =
      addressed (resolve id) op_play_sound (u32_param sound ∷ [])
  packet_commands local resolve _ = []

  unfoldable pub packets_to_commands : List (Packet F) → ℕ → (ℕ → Option ℕ) → List Command
  packets_to_commands [] local resolve = []
  packets_to_commands (p ∷ packets) local resolve =
      packet_commands local resolve p ++ packets_to_commands packets local resolve
