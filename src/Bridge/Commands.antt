-- ===== src/Bridge/Commands.antt =====
-- `execute` of crates/ashfall-bridge/src/commands.rs: an opcode and its parameters become a call of a hook,
-- and the bytes of its answer. Parameters that are too short are answered with no bytes.
use ashfall.Prelude.{ℕ, Bool, not, [], ◌∷◌, ◌++◌, ◌==◌, nat_eq, if◌then◌else◌, drop, to_le_bytes4}
use ashfall.Reliable.{Bytes}
use ashfall.Pipe.Events.{byte_at, word_at, bytes3, bool_byte}
use ashfall.Bridge.{Bridge, Engine, ActorState}
use ashfall.Bridge.Opcodes.{
  op_get_pos, op_set_pos, op_get_angle, op_set_angle, op_get_cell, op_set_cell, op_get_actor_state,
  op_get_actor_value, op_set_actor_value, op_get_control, op_set_control, op_get_activate,
  op_fire_weapon, op_get_name, op_set_name, op_get_enabled, op_set_enabled, op_get_lock,
  op_set_lock, op_move_to, op_set_scale, op_play_sound, op_place_at_me, op_get_base,
  op_get_base_actor_value, op_get_dead, op_set_current_health, op_is_moving, op_get_parent_cell,
  op_equip_item, op_unequip_item, op_add_item, op_remove_item, op_remove_all_items,
  op_get_ref_count, op_kill, op_damage_actor_value, op_restore_actor_value, op_force_actor_value,
  op_get_combat_target, op_play_group, op_force_weather, op_set_restrained,
}
use ashfall.Bridge.Hooks.{
  get_control, set_control, get_activate, fire_weapon, play_sound, set_name, is_dead, kill_actor,
  equip_item, unequip_item, add_item, remove_item, remove_all_items, get_ref_count,
  damage_actor_value, restore_actor_value, force_actor_value, play_group, force_weather,
  set_restrained,
}
use ashfall.Bridge.Debug.{done, reports, with_bytes, execute_debug}

abbrev nonzero : ℕ → Bool
nonzero n = not (n == 0)

state_bytes : ActorState → Bytes
state_bytes s =
    to_le_bytes4 s.idle
    ++ (s.moving ∷ s.weapon ∷ s.flags ∷ bool_byte s.alerted ∷ bool_byte s.sneaking ∷ [])

module _ {G : Type 0} (e : Engine G) where
  -- Tiers 3 and 4: combat, death and the world.
  unfoldable pub execute_combat : ℕ → Bytes → Bridge G → Bytes × Bridge G
  unfolding execute_debug
  execute_combat func params b =
      if func == op_kill
      then with_bytes 10 params b (
          done b (
            kill_actor e (word_at params 0) (word_at params 4) (byte_at params 8) (byte_at params 9)
              b.game))
      else if func == op_damage_actor_value
      then with_bytes 9 params b (
          done b
            (damage_actor_value e (word_at params 0) (byte_at params 4) (word_at params 5) b.game))
      else if func == op_restore_actor_value
      then with_bytes 9 params b (
          done b
            (restore_actor_value e (word_at params 0) (byte_at params 4) (word_at params 5) b.game))
      else if func == op_force_actor_value
      then with_bytes 9 params b (
          done b
            (force_actor_value e (word_at params 0) (byte_at params 4) (word_at params 5) b.game))
      else if func == op_get_combat_target
      then with_bytes 4 params b (to_le_bytes4 (e.get_combat_target b.game (word_at params 0)), b)
      else if func == op_play_group
      then with_bytes 12 params b
          (done b (play_group e (word_at params 0) (word_at params 4) (word_at params 8) b.game))
      else if func == op_force_weather
      then with_bytes 4 params b (done b (force_weather e (word_at params 0) b.game))
      else if func == op_set_restrained
      then with_bytes 5 params b
          (done b (set_restrained e (word_at params 0) (byte_at params 4) b.game))
      else execute_debug e func params b

  -- Tier 2: items.
  unfoldable pub execute_items : ℕ → Bytes → Bridge G → Bytes × Bridge G
  unfolding execute_combat
  execute_items func params b =
      if func == op_equip_item
      then with_bytes 13 params b (
          done b (
            equip_item e (word_at params 0) (word_at params 4) (word_at params 8)
              (byte_at params 12) b.game))
      else if func == op_unequip_item
      then with_bytes 13 params b (
          done b (
            unequip_item e (word_at params 0) (word_at params 4) (word_at params 8)
              (byte_at params 12) b.game))
      else if func == op_add_item
      then with_bytes 13 params b (
          done b (
            add_item e (word_at params 0) (word_at params 4) (word_at params 8) (byte_at params 12)
              b.game))
      else if func == op_remove_item
      then with_bytes 13 params b (
          done b (
            remove_item e (word_at params 0) (word_at params 4) (word_at params 8)
              (byte_at params 12) b.game))
      else if func == op_remove_all_items
      then with_bytes 8 params b
          (done b (remove_all_items e (word_at params 0) (word_at params 4) b.game))
      else if func == op_get_ref_count
      then with_bytes 4 params b (to_le_bytes4 (get_ref_count e b.game (word_at params 0)), b)
      else execute_combat func params b

  -- Tier 1: the values and the motion of actors.
  unfoldable pub execute_sync : ℕ → Bytes → Bridge G → Bytes × Bridge G
  unfolding execute_items
  execute_sync func params b =
      if func == op_get_base_actor_value
      then with_bytes 5 params b
          (to_le_bytes4 (e.get_actor_base_value b.game (word_at params 0) (byte_at params 4)), b)
      else if func == op_get_dead
      then with_bytes 4 params b (bool_byte (is_dead e b.game (word_at params 0)) ∷ [], b)
      else if func == op_set_current_health
      then with_bytes 8 params b
          (done b (e.set_actor_value (word_at params 0) 0x14 (word_at params 4) b.game))
      else if func == op_is_moving
      then with_bytes 4 params b
          (bool_byte (nonzero (e.get_actor_state b.game (word_at params 0)).moving) ∷ [], b)
      else if func == op_get_parent_cell
      then with_bytes 4 params b (to_le_bytes4 (e.get_parent_cell b.game (word_at params 0)), b)
      else execute_items func params b

  -- Weapons, names, locks, and the rest of what an object has.
  unfoldable pub execute_object : ℕ → Bytes → Bridge G → Bytes × Bridge G
  unfolding execute_sync
  execute_object func params b =
      if func == op_fire_weapon
      then with_bytes 8 params b
          (reports b (fire_weapon e (word_at params 0) (word_at params 4) b.game))
      else if func == op_get_name
      then with_bytes 4 params b (e.get_name b.game (word_at params 0), b)
      else if func == op_set_name
      then with_bytes 5 params b (reports b (set_name e (word_at params 0) (drop 4 params) b.game))
      else if func == op_get_enabled
      then with_bytes 4 params b (bool_byte (e.get_enabled b.game (word_at params 0)) ∷ [], b)
      else if func == op_set_enabled
      then with_bytes 5 params b
          (done b (e.set_enabled (word_at params 0) (nonzero (byte_at params 4)) b.game))
      else if func == op_get_lock
      then with_bytes 4 params b (to_le_bytes4 (e.get_lock b.game (word_at params 0)), b)
      else if func == op_set_lock
      then with_bytes 8 params b
          (done b (e.set_lock (word_at params 0) (nonzero (word_at params 4)) b.game))
      else if func == op_move_to
      then with_bytes 20 params b (
          done b (
            e.set_pos (word_at params 0) (word_at params 8, word_at params 12, word_at params 16)
              (e.set_parent_cell (word_at params 0) (word_at params 4) b.game)))
      else if func == op_set_scale
      then with_bytes 8 params b (done b (e.set_scale (word_at params 0) (word_at params 4) b.game))
      else if func == op_play_sound
      then with_bytes 8 params b
          (reports b (play_sound e (word_at params 0) (word_at params 4) b.game))
      else if func == op_place_at_me
      then with_bytes 16 params b (1 ∷ [], b)
      else if func == op_get_base
      then with_bytes 4 params b (to_le_bytes4 (e.get_base b.game (word_at params 0)), b)
      else execute_sync func params b

  -- Positions, angles, cells and the state of actors.
  unfoldable pub execute_placed : ℕ → Bytes → Bridge G → Bytes × Bridge G
  unfolding state_bytes execute_object
  execute_placed func params b =
      if func == op_get_pos
      then with_bytes 4 params b (bytes3 (e.get_pos b.game (word_at params 0)), b)
      else if func == op_set_pos
      then with_bytes 16 params b (
          done b (
            e.set_pos (word_at params 0) (word_at params 4, word_at params 8, word_at params 12)
              b.game))
      else if func == op_get_angle
      then with_bytes 4 params b (bytes3 (e.get_angle b.game (word_at params 0)), b)
      else if func == op_set_angle
      then with_bytes 16 params b (
          done b (
            e.set_angle (word_at params 0) (word_at params 4, word_at params 8, word_at params 12)
              b.game))
      else if func == op_get_cell
      then with_bytes 4 params b (to_le_bytes4 (e.get_cell b.game (word_at params 0)), b)
      else if func == op_set_cell
      then with_bytes 8 params b
          (done b (e.set_parent_cell (word_at params 0) (word_at params 4) b.game))
      else if func == op_get_actor_state
      then with_bytes 4 params b (state_bytes (e.get_actor_state b.game (word_at params 0)), b)
      else if func == op_get_actor_value
      then with_bytes 5 params b
          (to_le_bytes4 (e.get_actor_value b.game (word_at params 0) (byte_at params 4)), b)
      else if func == op_set_actor_value
      then with_bytes 9 params b (
          done b
            (e.set_actor_value (word_at params 0) (byte_at params 4) (word_at params 5) b.game))
      else if func == op_get_control
      then with_bytes 5 params b
          (get_control e b.game (word_at params 0) (byte_at params 4) ∷ [], b)
      else if func == op_set_control
      then with_bytes 6 params b (
          done b (
            set_control e (word_at params 0) (byte_at params 4) (nonzero (byte_at params 5))
              b.game))
      else if func == op_get_activate
      then with_bytes 4 params b (to_le_bytes4 (get_activate e b.game (word_at params 0)), b)
      else execute_object func params b

  unfoldable pub execute : ℕ → Bytes → Bridge G → Bytes × Bridge G
  unfolding execute_placed
  execute func params b = execute_placed func params b
