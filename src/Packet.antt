-- ===== src/Packet.antt =====
-- crates/ashfall-core/src/protocol/mod.rs (`enum Packet`) and form_id.rs (`FormIDSync`): the messages
-- of the game protocol. `F` is the type of `f32`. A network id or an unsigned number is a natural
-- number, an array of nine cells is a list, and a string is the list of its bytes.
pub mod Routing
pub mod Strings
use ashfall.Prelude.{ℕ, Bool, Option, List}
use ashfall.Prelude.Int.{ℤ}
use ashfall.Map.{Map}
use ashfall.StringCache.{Text, CachedString}

abbrev pub Pair : Type 0 → Type 0
Pair F = F × F

abbrev pub Vec3 : Type 0 → Type 0
Vec3 F = F × F × F

abbrev pub Quad : Type 0 → Type 0
Quad F = F × F × F × F

-- `[u32; 9]`
abbrev pub Cells : Type 0
Cells = List ℕ

pub record FormIdSync (F : Type 0) : Type 0 where
  pub form_id : ℕ
  pub pos : Vec3 F
  pub angle : Vec3 F
  pub scale : F
  pub flags : ℕ

pub data Packet (F : Type 0) : Type 0 where
  game_auth : (name password version : Text) → Packet F
  game_load : Packet F
  game_start : Packet F
  game_end : (reason : ℕ) → Packet F
  game_mod : (filename : Text) (crc : ℕ) → Packet F
  game_mod_list : (mods : List (Text × ℕ)) → Packet F
  game_message : (message : CachedString) (emoticon : ℕ) → Packet F
  game_chat : (message : CachedString) → Packet F
  game_weather : (weather : ℕ) → Packet F
  game_time : (year month day hour : ℕ) (time_scale : F) → Packet F
  server_settings : (pvp_enabled : Bool) → Packet F
  game_global : (global : ℕ) (value : ℤ) → Packet F
  game_base : (player_base : ℕ) → Packet F
  game_deleted : (deleted : Map ℕ (List ℕ)) → Packet F
  reference_new : (id ref_id base_id : ℕ) → Packet F
  object_new :
      (id ref_id base_id : ℕ) (name : CachedString) (game_pos net_pos angle : Vec3 F) (scale : F)
      (cell : ℕ) (enabled : Bool) (lock owner : ℕ)
      → Packet F
  volatile_new : (id base_id : ℕ) (pos : Vec3 F) → Packet F
  object_remove : (id : ℕ) (silent : Bool) → Packet F
  update_pos : (id : ℕ) (pos : Vec3 F) → Packet F
  update_angle : (id : ℕ) (angle : Pair F) → Packet F
  update_scale : (id : ℕ) (scale : F) → Packet F
  update_cell : (id cell : ℕ) (pos : Vec3 F) → Packet F
  update_name : (id : ℕ) (name : CachedString) → Packet F
  update_lock : (id lock : ℕ) → Packet F
  update_owner : (id owner : ℕ) → Packet F
  update_activate : (id actor : ℕ) → Packet F
  update_sound : (id sound : ℕ) → Packet F
  update_velocity : (id : ℕ) (vel : Vec3 F) (on_ground : Bool) → Packet F
  item_new :
      (id ref_id base_id container count : ℕ) (condition : F) (equipped silent stick : Bool)
      (scale : F)
      → Packet F
  update_item_count : (id count : ℕ) (silent : Bool) → Packet F
  update_item_condition : (id : ℕ) (condition : F) (health : ℕ) → Packet F
  update_item_equipped : (id : ℕ) (equipped silent stick : Bool) → Packet F
  container_new : (id ref_id base_id : ℕ) → Packet F
  item_list_new : (id : ℕ) (items : List ℕ) → Packet F
  actor_new :
      (id ref_id base_id : ℕ) (values base_values : Map ℕ F) (race : ℕ) (age : ℤ)
      (idle moving moving_xy weapon : ℕ) (female alerted sneaking dead : Bool) (death_limbs : ℕ)
      (death_cause : ℤ) (scale : F)
      → Packet F
  update_actor_state :
      (id idle moving moving_xy weapon : ℕ) (alerted sneaking firing : Bool) → Packet F
  update_actor_race : (id race : ℕ) (age delta_age : ℤ) → Packet F
  update_actor_sex : (id : ℕ) (female : Bool) → Packet F
  update_actor_dead : (id : ℕ) (dead : Bool) (limbs : ℕ) (cause : ℤ) → Packet F
  update_actor_value : (id : ℕ) (is_base : Bool) (index : ℕ) (value : F) → Packet F
  update_fire_weapon : (id weapon : ℕ) → Packet F
  spell_cast : (id spell : ℕ) (source : ℤ) (dual : Bool) (target : ℕ) → Packet F
  update_actor_idle : (id idle : ℕ) (name : CachedString) → Packet F
  ownership_claim : (id : ℕ) → Packet F
  ownership_granted : (id : ℕ) → Packet F
  ownership_released : (id : ℕ) → Packet F
  actor_state_delta :
      (id : ℕ) (idle moving moving_xy weapon : Option ℕ) (alerted sneaking firing : Option Bool)
      → Packet F
  actor_hit :
      (target attacker limb : ℕ) (base_damage : F) (flags weapon_id projectile : ℕ) → Packet F
  actor_damaged : (target attacker limb : ℕ) (final_damage : F) (flags : ℕ) → Packet F
  actor_punch : (id : ℕ) (power : Bool) → Packet F
  actor_death_ext : (id killer weapon_id limbs : ℕ) (cause : ℤ) (death_flags : ℕ) → Packet F
  projectile_new : (id base_id : ℕ) (pos vel : Vec3 F) (owner : ℕ) → Packet F
  projectile_remove : (id : ℕ) (impact_pos : Vec3 F) → Packet F
  explosion_new : (base_id : ℕ) (pos : Vec3 F) (radius : F) (owner : ℕ) → Packet F
  actor_combat_target : (id target : ℕ) → Packet F
  actor_ai_package : (id package_id flags : ℕ) → Packet F
  actor_faction : (id faction_id : ℕ) (rank : ℤ) → Packet F
  player_new : (id ref_id base_id : ℕ) (controls : Map ℕ (ℕ × Bool)) (scale : F) → Packet F
  update_control : (id control key : ℕ) → Packet F
  update_interior : (id : ℕ) (cell : CachedString) (spawn : Bool) → Packet F
  update_exterior : (id world : ℕ) (x y : ℤ) (spawn : Bool) → Packet F
  update_context : (id : ℕ) (cells : Cells) (spawn : Bool) → Packet F
  update_console : (id : ℕ) (enabled : Bool) → Packet F
  door_state : (id : ℕ) (is_open : Bool) (ref_id : ℕ) → Packet F
  terminal_state : (id : ℕ) (locked : Bool) (ref_id : ℕ) → Packet F
  quest_stage : (quest_id stage : ℕ) → Packet F
  dialogue_flag : (flag_id : ℕ) (value : Bool) → Packet F
  dialogue_choice : (flag_id choice : ℕ) → Packet F
  karma_update : (value : ℤ) → Packet F
  reputation_update : (faction : ℕ) (value : ℤ) → Packet F
  hardcore_stats : (hunger thirst sleep : F) → Packet F
  cell_snapshot : (cell : ℕ) (objects : List (FormIdSync F)) → Packet F
  window_new :
      (id parent : ℕ) (label : Text) (pos size : Quad F) (locked visible : Bool) (text : Text)
      → Packet F
  window_remove : (id : ℕ) → Packet F
  button_new :
      (id parent : ℕ) (label : Text) (pos size : Quad F) (locked visible : Bool) (text : Text)
      → Packet F
  text_new :
      (id parent : ℕ) (label : Text) (pos size : Quad F) (locked visible : Bool) (text : Text)
      → Packet F
  edit_new :
      (id parent : ℕ) (label : Text) (pos size : Quad F) (locked visible : Bool) (text : Text)
      (max_len : ℕ) (validation : Text)
      → Packet F
  checkbox_new :
      (id parent : ℕ) (label : Text) (pos size : Quad F) (locked visible : Bool) (text : Text)
      (selected : Bool)
      → Packet F
  radio_button_new :
      (id parent : ℕ) (label : Text) (pos size : Quad F) (locked visible : Bool) (text : Text)
      (selected : Bool) (group : ℕ)
      → Packet F
  list_new :
      (id parent : ℕ) (label : Text) (pos size : Quad F) (locked visible : Bool) (text : Text)
      (multiselect : Bool)
      → Packet F
  list_item_new : (id container : ℕ) (text : Text) (selected : Bool) → Packet F
  list_item_remove : (id : ℕ) → Packet F
  update_window_pos : (id : ℕ) (pos : Quad F) → Packet F
  update_window_size : (id : ℕ) (size : Quad F) → Packet F
  update_window_visible : (id : ℕ) (visible : Bool) → Packet F
  update_window_locked : (id : ℕ) (locked : Bool) → Packet F
  update_window_text : (id : ℕ) (text : Text) → Packet F
  update_edit_max_len : (id max_len : ℕ) → Packet F
  update_edit_validation : (id : ℕ) (validation : Text) → Packet F
  update_checkbox_selected : (id : ℕ) (selected : Bool) → Packet F
  update_radio_button_selected : (id previous : ℕ) (selected : Bool) → Packet F
  update_radio_button_group : (id group : ℕ) → Packet F
  update_list_multi_select : (id : ℕ) (multiselect : Bool) → Packet F
  update_list_item_selected : (id : ℕ) (selected : Bool) → Packet F
  update_list_item_text : (id : ℕ) (text : Text) → Packet F
  update_window_mode : (enabled : Bool) → Packet F
  update_window_click : (id : ℕ) → Packet F
  update_window_return : (id : ℕ) → Packet F
  master_query : Packet F
  master_announce :
      (name map : Text) (players max_players : ℕ) (rules : Map Text Text) (mod_files : List Text)
      (game_type : Text)
      → Packet F
  master_update : (name map : Text) (players max_players : ℕ) → Packet F
