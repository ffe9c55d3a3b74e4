-- ===== src/Bridge/Apply.antt =====
-- What a packet of the server does in the game's process: from crates/ashfall-client/src/sync.rs over the
-- commands to crates/ashfall-bridge/src/commands.rs.
use ashfall.Prelude.{
  ℕ, ◌≡◌, refl, ap, ◌∙◌, inl, inr, true, false, not, Option, none, some, List, [], ◌∷◌, ◌==◌,
  nat_eq, if◌then◌else◌, Bool-cases,
}
use ashfall.Float.{Float}
use ashfall.Packet.{
  Packet, Vec3, game_auth, game_load, game_start, game_end, game_mod, game_mod_list, game_message,
  game_chat, game_weather, game_time, server_settings, game_global, game_base, game_deleted,
  reference_new, object_new, volatile_new, object_remove, update_pos, update_angle, update_scale,
  update_cell, update_name, update_lock, update_owner, update_activate, update_sound,
  update_velocity, item_new, update_item_count, update_item_condition, update_item_equipped,
  container_new, item_list_new, actor_new, update_actor_state, update_actor_race, update_actor_sex,
  update_actor_dead, update_actor_value, update_fire_weapon, spell_cast, update_actor_idle,
  ownership_claim, ownership_granted, ownership_released, actor_state_delta, actor_hit,
  actor_damaged, actor_punch, actor_death_ext, projectile_new, projectile_remove, explosion_new,
  actor_combat_target, actor_ai_package, actor_faction, player_new, update_control, update_interior,
  update_exterior, update_context, update_console, door_state, terminal_state, quest_stage,
  dialogue_flag, dialogue_choice, karma_update, reputation_update, hardcore_stats, cell_snapshot,
  window_new, window_remove, button_new, text_new, edit_new, checkbox_new, radio_button_new,
  list_new, list_item_new, list_item_remove, update_window_pos, update_window_size,
  update_window_visible, update_window_locked, update_window_text, update_edit_max_len,
  update_edit_validation, update_checkbox_selected, update_radio_button_selected,
  update_radio_button_group, update_list_multi_select, update_list_item_selected,
  update_list_item_text, update_window_mode, update_window_click, update_window_return,
  master_query, master_announce, master_update,
}
use ashfall.Pipe.Ipc.{Param, u32_param, f32_param, u8_param, encode_params, encode_into}
use ashfall.Pipe.Events.{Bits3, IsWord, word_lem, byte_at, word_at}
use ashfall.ClientSync.{
  Layout, packet_commands, addressed, remote, op_set_pos, op_set_angle, op_set_actor_value,
  op_get_activate, op_fire_weapon, op_set_lock, op_play_sound, op_kill, op_set_scale,
}
use ashfall.Bridge.{Bridge, Engine}
use ashfall.Bridge.Hooks.{fire_weapon, play_sound, kill_actor}
use ashfall.Bridge.Commands.{
  execute, execute_placed, execute_object, execute_sync, execute_items, execute_combat,
}
use ashfall.Bridge.Answer.{params_bytes}

-- The numbers of a packet that go on to the game are of 32 bits.
abbrev pub FitsWords : {F : Type 0} → Packet F → Type 0
FitsWords (update_fire_weapon id weapon) = IsWord weapon
FitsWords (update_lock id lock) = IsWord lock
FitsWords (update_sound id sound) = IsWord sound
FitsWords _ = Unit

module _ {G : Type 0} (e : Engine G) where
  -- The commands as the bridge runs them.
  unfoldable pub run_commands : List (ℕ × List Param) → Bridge G → Bridge G
  unfolding execute
  run_commands [] b = b
  run_commands ((op, params) ∷ commands) b =
      run_commands commands (execute e op (params_bytes params) b).1

abbrev with_ref : {G : Type 0} → Option ℕ → (ℕ → G → G) → G → G
with_ref none k g = g
with_ref (some ref_id) k g = k ref_id g

module _ {F G : Type 0} (f : Float F) (l : Layout F) (e : Engine G) where
  abbrev bits3 : Vec3 F → Bits3
  bits3 v = (l.to_bits v.0, l.to_bits v.1, l.to_bits v.2)

  -- The same for an entity other than the local player.
  abbrev elsewhere : ℕ → ℕ → Option ℕ → (ℕ → G → G) → G → G
  elsewhere id local ref k g = if id == local then g else with_ref ref k g

  -- What a packet of the server does to the game: only some of them leave the local player out.
  unfoldable pub applied : ℕ → (ℕ → Option ℕ) → Packet F → G → G
  applied local resolve (update_pos id p) g =
      elsewhere id local (resolve id) (λ r. e.set_pos r (bits3 p)) g
  applied local resolve (update_angle id angle) g =
      elsewhere id local (resolve id)
        (λ r. e.set_angle r (l.to_bits angle.0, l.to_bits f.zero, l.to_bits angle.1)) g
  applied local resolve (update_actor_value id is_base index value) g =
      elsewhere id local (resolve id) (λ r. e.set_actor_value r index (l.to_bits value)) g
  applied local resolve (update_actor_dead id true limbs cause) g =
      elsewhere id local (resolve id) (λ r. kill_actor e r 0 0 0) g
  applied local resolve (update_fire_weapon id weapon) g =
      elsewhere id local (resolve id) (λ r h. (fire_weapon e r weapon h).1) g
  applied local resolve (update_lock id lock) g =
      with_ref (resolve id) (λ r. e.set_lock r (not (lock == 0))) g
  applied local resolve (update_scale id scale) g =
      with_ref (resolve id) (λ r. e.set_scale r (l.to_bits scale)) g
  applied local resolve (update_sound id sound) g =
      with_ref (resolve id) (λ r h. (play_sound e r sound h).1) g
  applied local resolve _ g = g

  abbrev became : Bridge G → G → Bridge G
  became b g = record b { game = g }

  addressed_lem :
      (b : Bridge G) (o : Option ℕ) (op : ℕ) (params : List Param) (k : ℕ → G → G)
      → ((r : ℕ)
          → o ≡ some r
          → (execute e op (params_bytes (u32_param r ∷ params)) b).1 ≡ became b (k r b.game))
      → run_commands e (addressed f l o op params) b ≡ became b (with_ref o k b.game)
  unfolding run_commands addressed
  addressed_lem b none op params k h = refl
  addressed_lem b (some r) op params k h = h r refl

  remote_lem :
      (b : Bridge G) (id local : ℕ) (o : Option ℕ) (op : ℕ) (params : List Param) (k : ℕ → G → G)
      → ((r : ℕ)
          → o ≡ some r
          → (execute e op (params_bytes (u32_param r ∷ params)) b).1 ≡ became b (k r b.game))
      → run_commands e (remote f l id local o op params) b
        ≡ became b (elsewhere id local o k b.game)
  unfolding remote run_commands
  remote_lem b id local o op params k h = elim (Bool-cases (id == local)) [
    | inl same ↦ rw same refl
    | inr other ↦ rw other (addressed_lem b o op params k h)
  ]

  with_ref-same : (o : Option ℕ) (g : G) → with_ref o (λ r h. h) g ≡ g
  with_ref-same none g = refl
  with_ref-same (some r) g = refl

  -- What the bridge makes of the commands of a packet is what `applied` says of it: a move, a turn, a
  -- value, a death or a shot does its work on the reference of its entity, but not where the entity is the
  -- local player; a scale, a lock or a sound does, the local player's too; and nothing is done for an
  -- entity without a reference, for an activation or for any other packet. This is for references and
  -- patterns of floating-point numbers of 32 bits.
  pub packet_commands-applied :
      (b : Bridge G) (local : ℕ) (resolve : ℕ → Option ℕ) (packet : Packet F)
      → ((id r : ℕ) → resolve id ≡ some r → IsWord r)
      → ((v : F) → IsWord (l.to_bits v))
      → FitsWords packet
      → run_commands e (packet_commands f l local resolve packet) b
        ≡ record b { game = applied local resolve packet b.game }
  unfolding packet_commands applied run_commands execute execute_placed execute_object execute_sync
      execute_items execute_combat encode_params encode_into word_at byte_at
  packet_commands-applied b local resolve (update_pos id p) known bits fits =
      remote_lem b id local (resolve id) op_set_pos
        (f32_param (l.to_bits p.0) ∷ f32_param (l.to_bits p.1) ∷ f32_param (l.to_bits p.2) ∷ [])
        (λ r. e.set_pos r (bits3 p))
        (λ r h.
          rw
            (
              word_lem r (known id r h),
              word_lem (l.to_bits p.0) (bits p.0),
              word_lem (l.to_bits p.1) (bits p.1),
              word_lem (l.to_bits p.2) (bits p.2),
            )
            refl)
  packet_commands-applied b local resolve (update_angle id angle) known bits fits =
      remote_lem b id local (resolve id) op_set_angle
        (f32_param (l.to_bits angle.0)
          ∷ f32_param (l.to_bits f.zero)
          ∷ f32_param (l.to_bits angle.1)
          ∷ [])
        (λ r. e.set_angle r (l.to_bits angle.0, l.to_bits f.zero, l.to_bits angle.1))
        (λ r h.
          rw
            (
              word_lem r (known id r h),
              word_lem (l.to_bits angle.0) (bits angle.0),
              word_lem (l.to_bits f.zero) (bits f.zero),
              word_lem (l.to_bits angle.1) (bits angle.1),
            )
            refl)
  packet_commands-applied b local resolve (update_actor_value id is_base index value) known bits
        fits =
      remote_lem b id local (resolve id) op_set_actor_value
        (u8_param index ∷ f32_param (l.to_bits value) ∷ [])
        (λ r. e.set_actor_value r index (l.to_bits value))
        (λ r h. rw (word_lem r (known id r h), word_lem (l.to_bits value) (bits value)) refl)
  packet_commands-applied b local resolve (update_actor_dead id true limbs cause) known bits fits =
      remote_lem b id local (resolve id) op_kill (u32_param 0 ∷ u8_param 0 ∷ u8_param 0 ∷ [])
        (λ r. kill_actor e r 0 0 0) (λ r h. rw (word_lem r (known id r h)) refl)
  packet_commands-applied b local resolve (update_actor_dead id false limbs cause) known bits fits =
      refl
  packet_commands-applied b local resolve (update_activate id actor) known bits fits =
      addressed_lem b (resolve id) op_get_activate [] (λ r g. g) (λ r h. refl)
      ∙ ap (became b) (with_ref-same (resolve id) b.game)
  packet_commands-applied b local resolve (update_fire_weapon id weapon) known bits fits =
      remote_lem b id local (resolve id) op_fire_weapon (u32_param weapon ∷ [])
        (λ r g. (fire_weapon e r weapon g).1)
        (λ r h. rw (word_lem r (known id r h), word_lem weapon fits) refl)
  packet_commands-applied b local resolve (update_lock id lock) known bits fits =
      addressed_lem b (resolve id) op_set_lock (u32_param lock ∷ [])
        (λ r. e.set_lock r (not (lock == 0)))
        (λ r h. rw (word_lem r (known id r h), word_lem lock fits) refl)
  packet_commands-applied b local resolve (update_scale id scale) known bits fits =
      addressed_lem b (resolve id) op_set_scale (f32_param (l.to_bits scale) ∷ [])
        (λ r. e.set_scale r (l.to_bits scale))
        (λ r h. rw (word_lem r (known id r h), word_lem (l.to_bits scale) (bits scale)) refl)
  packet_commands-applied b local resolve (update_sound id sound) known bits fits =
      addressed_lem b (resolve id) op_play_sound (u32_param sound ∷ [])
        (λ r g. (play_sound e r sound g).1)
        (λ r h. rw (word_lem r (known id r h), word_lem sound fits) refl)
  packet_commands-applied b local resolve (game_auth x0 x1 x2) known bits fits = refl
  packet_commands-applied b local resolve game_load known bits fits = refl
  packet_commands-applied b local resolve game_start known bits fits = refl
  packet_commands-applied b local resolve (game_end x0) known bits fits = refl
  packet_commands-applied b local resolve (game_mod x0 x1) known bits fits = refl
  packet_commands-applied b local resolve (game_mod_list x0) known bits fits = refl
  packet_commands-applied b local resolve (game_message x0 x1) known bits fits = refl
  packet_commands-applied b local resolve (game_chat x0) known bits fits = refl
  packet_commands-applied b local resolve (game_weather x0) known bits fits = refl
  packet_commands-applied b local resolve (game_time x0 x1 x2 x3 x4) known bits fits = refl
  packet_commands-applied b local resolve (server_settings x0) known bits fits = refl
  packet_commands-applied b local resolve (game_global x0 x1) known bits fits = refl
  packet_commands-applied b local resolve (game_base x0) known bits fits = refl
  packet_commands-applied b local resolve (game_deleted x0) known bits fits = refl
  packet_commands-applied b local resolve (reference_new x0 x1 x2) known bits fits = refl
  packet_commands-applied b local resolve (object_new x0 x1 x2 x3 x4 x5 x6 x7 x8 x9 x10 x11) known
        bits fits =
      refl
  packet_commands-applied b local resolve (volatile_new x0 x1 x2) known bits fits = refl
  packet_commands-applied b local resolve (object_remove x0 x1) known bits fits = refl
  packet_commands-applied b local resolve (update_cell x0 x1 x2) known bits fits = refl
  packet_commands-applied b local resolve (update_name x0 x1) known bits fits = refl
  packet_commands-applied b local resolve (update_owner x0 x1) known bits fits = refl
  packet_commands-applied b local resolve (update_velocity x0 x1 x2) known bits fits = refl
  packet_commands-applied b local resolve (item_new x0 x1 x2 x3 x4 x5 x6 x7 x8 x9) known bits fits =
      refl
  packet_commands-applied b local resolve (update_item_count x0 x1 x2) known bits fits = refl
  packet_commands-applied b local resolve (update_item_condition x0 x1 x2) known bits fits = refl
  packet_commands-applied b local resolve (update_item_equipped x0 x1 x2 x3) known bits fits = refl
  packet_commands-applied b local resolve (container_new x0 x1 x2) known bits fits = refl
  packet_commands-applied b local resolve (item_list_new x0 x1) known bits fits = refl
  packet_commands-applied b local resolve
        (actor_new x0 x1 x2 x3 x4 x5 x6 x7 x8 x9 x10 x11 x12 x13 x14 x15 x16 x17) known bits fits =
      refl
  packet_commands-applied b local resolve (update_actor_state x0 x1 x2 x3 x4 x5 x6 x7) known bits
        fits =
      refl
  packet_commands-applied b local resolve (update_actor_race x0 x1 x2 x3) known bits fits = refl
  packet_commands-applied b local resolve (update_actor_sex x0 x1) known bits fits = refl
  packet_commands-applied b local resolve (spell_cast x0 x1 x2 x3 x4) known bits fits = refl
  packet_commands-applied b local resolve (update_actor_idle x0 x1 x2) known bits fits = refl
  packet_commands-applied b local resolve (ownership_claim x0) known bits fits = refl
  packet_commands-applied b local resolve (ownership_granted x0) known bits fits = refl
  packet_commands-applied b local resolve (ownership_released x0) known bits fits = refl
  packet_commands-applied b local resolve (actor_state_delta x0 x1 x2 x3 x4 x5 x6 x7) known bits
        fits =
      refl
  packet_commands-applied b local resolve (actor_hit x0 x1 x2 x3 x4 x5 x6) known bits fits = refl
  packet_commands-applied b local resolve (actor_damaged x0 x1 x2 x3 x4) known bits fits = refl
  packet_commands-applied b local resolve (actor_punch x0 x1) known bits fits = refl
  packet_commands-applied b local resolve (actor_death_ext x0 x1 x2 x3 x4 x5) known bits fits = refl
  packet_commands-applied b local resolve (projectile_new x0 x1 x2 x3 x4) known bits fits = refl
  packet_commands-applied b local resolve (projectile_remove x0 x1) known bits fits = refl
  packet_commands-applied b local resolve (explosion_new x0 x1 x2 x3) known bits fits = refl
  packet_commands-applied b local resolve (actor_combat_target x0 x1) known bits fits = refl
  packet_commands-applied b local resolve (actor_ai_package x0 x1 x2) known bits fits = refl
  packet_commands-applied b local resolve (actor_faction x0 x1 x2) known bits fits = refl
  packet_commands-applied b local resolve (player_new x0 x1 x2 x3 x4) known bits fits = refl
  packet_commands-applied b local resolve (update_control x0 x1 x2) known bits fits = refl
  packet_commands-applied b local resolve (update_interior x0 x1 x2) known bits fits = refl
  packet_commands-applied b local resolve (update_exterior x0 x1 x2 x3 x4) known bits fits = refl
  packet_commands-applied b local resolve (update_context x0 x1 x2) known bits fits = refl
  packet_commands-applied b local resolve (update_console x0 x1) known bits fits = refl
  packet_commands-applied b local resolve (door_state x0 x1 x2) known bits fits = refl
  packet_commands-applied b local resolve (terminal_state x0 x1 x2) known bits fits = refl
  packet_commands-applied b local resolve (quest_stage x0 x1) known bits fits = refl
  packet_commands-applied b local resolve (dialogue_flag x0 x1) known bits fits = refl
  packet_commands-applied b local resolve (dialogue_choice x0 x1) known bits fits = refl
  packet_commands-applied b local resolve (karma_update x0) known bits fits = refl
  packet_commands-applied b local resolve (reputation_update x0 x1) known bits fits = refl
  packet_commands-applied b local resolve (hardcore_stats x0 x1 x2) known bits fits = refl
  packet_commands-applied b local resolve (cell_snapshot x0 x1) known bits fits = refl
  packet_commands-applied b local resolve (window_new x0 x1 x2 x3 x4 x5 x6 x7) known bits fits =
      refl
  packet_commands-applied b local resolve (window_remove x0) known bits fits = refl
  packet_commands-applied b local resolve (button_new x0 x1 x2 x3 x4 x5 x6 x7) known bits fits =
      refl
  packet_commands-applied b local resolve (text_new x0 x1 x2 x3 x4 x5 x6 x7) known bits fits = refl
  packet_commands-applied b local resolve (edit_new x0 x1 x2 x3 x4 x5 x6 x7 x8 x9) known bits fits =
      refl
  packet_commands-applied b local resolve (checkbox_new x0 x1 x2 x3 x4 x5 x6 x7 x8) known bits
        fits =
      refl
  packet_commands-applied b local resolve (radio_button_new x0 x1 x2 x3 x4 x5 x6 x7 x8 x9) known
        bits fits =
      refl
  packet_commands-applied b local resolve (list_new x0 x1 x2 x3 x4 x5 x6 x7 x8) known bits fits =
      refl
  packet_commands-applied b local resolve (list_item_new x0 x1 x2 x3) known bits fits = refl
  packet_commands-applied b local resolve (list_item_remove x0) known bits fits = refl
  packet_commands-applied b local resolve (update_window_pos x0 x1) known bits fits = refl
  packet_commands-applied b local resolve (update_window_size x0 x1) known bits fits = refl
  packet_commands-applied b local resolve (update_window_visible x0 x1) known bits fits = refl
  packet_commands-applied b local resolve (update_window_locked x0 x1) known bits fits = refl
  packet_commands-applied b local resolve (update_window_text x0 x1) known bits fits = refl
  packet_commands-applied b local resolve (update_edit_max_len x0 x1) known bits fits = refl
  packet_commands-applied b local resolve (update_edit_validation x0 x1) known bits fits = refl
  packet_commands-applied b local resolve (update_checkbox_selected x0 x1) known bits fits = refl
  packet_commands-applied b local resolve (update_radio_button_selected x0 x1 x2) known bits fits =
      refl
  packet_commands-applied b local resolve (update_radio_button_group x0 x1) known bits fits = refl
  packet_commands-applied b local resolve (update_list_multi_select x0 x1) known bits fits = refl
  packet_commands-applied b local resolve (update_list_item_selected x0 x1) known bits fits = refl
  packet_commands-applied b local resolve (update_list_item_text x0 x1) known bits fits = refl
  packet_commands-applied b local resolve (update_window_mode x0) known bits fits = refl
  packet_commands-applied b local resolve (update_window_click x0) known bits fits = refl
  packet_commands-applied b local resolve (update_window_return x0) known bits fits = refl
  packet_commands-applied b local resolve master_query known bits fits = refl
  packet_commands-applied b local resolve (master_announce x0 x1 x2 x3 x4 x5 x6) known bits fits =
      refl
  packet_commands-applied b local resolve (master_update x0 x1 x2 x3) known bits fits = refl
