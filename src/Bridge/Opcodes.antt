-- ===== src/Bridge/Opcodes.antt =====
-- The opcodes of crates/ashfall-bridge/src/commands.rs.
use ashfall.Prelude.{ℕ}

abbrev pub op_get_pos : ℕ
op_get_pos = 0x0001

abbrev pub op_set_pos : ℕ
op_set_pos = 0x0002

abbrev pub op_get_angle : ℕ
op_get_angle = 0x0003

abbrev pub op_set_angle : ℕ
op_set_angle = 0x0004

abbrev pub op_get_cell : ℕ
op_get_cell = 0x0005

abbrev pub op_set_cell : ℕ
op_set_cell = 0x0006

abbrev pub op_get_actor_state : ℕ
op_get_actor_state = 0x0007

abbrev pub op_get_actor_value : ℕ
op_get_actor_value = 0x0008

abbrev pub op_set_actor_value : ℕ
op_set_actor_value = 0x0009

abbrev pub op_get_control : ℕ
op_get_control = 0x000A

abbrev pub op_set_control : ℕ
op_set_control = 0x000B

abbrev pub op_get_activate : ℕ
op_get_activate = 0x000C

abbrev pub op_fire_weapon : ℕ
op_fire_weapon = 0x000D

abbrev pub op_get_name : ℕ
op_get_name = 0x000E

abbrev pub op_set_name : ℕ
op_set_name = 0x000F

abbrev pub op_get_enabled : ℕ
op_get_enabled = 0x0010

abbrev pub op_set_enabled : ℕ
op_set_enabled = 0x0011

abbrev pub op_get_lock : ℕ
op_get_lock = 0x0012

abbrev pub op_set_lock : ℕ
op_set_lock = 0x0013

abbrev pub op_move_to : ℕ
op_move_to = 0x0014

abbrev pub op_play_sound : ℕ
op_play_sound = 0x0015

abbrev pub op_place_at_me : ℕ
op_place_at_me = 0x0016

abbrev pub op_set_scale : ℕ
op_set_scale = 0x002B

abbrev pub op_get_base : ℕ
op_get_base = 0x0017

abbrev pub op_get_base_actor_value : ℕ
op_get_base_actor_value = 0x0018

abbrev pub op_get_dead : ℕ
op_get_dead = 0x0019

abbrev pub op_set_current_health : ℕ
op_set_current_health = 0x001A

abbrev pub op_is_moving : ℕ
op_is_moving = 0x001B

abbrev pub op_get_parent_cell : ℕ
op_get_parent_cell = 0x001C

abbrev pub op_equip_item : ℕ
op_equip_item = 0x001D

abbrev pub op_unequip_item : ℕ
op_unequip_item = 0x001E

abbrev pub op_add_item : ℕ
op_add_item = 0x001F

abbrev pub op_remove_item : ℕ
op_remove_item = 0x0020

abbrev pub op_remove_all_items : ℕ
op_remove_all_items = 0x0021

abbrev pub op_get_ref_count : ℕ
op_get_ref_count = 0x0022

abbrev pub op_kill : ℕ
op_kill = 0x0023

abbrev pub op_damage_actor_value : ℕ
op_damage_actor_value = 0x0024

abbrev pub op_restore_actor_value : ℕ
op_restore_actor_value = 0x0025

abbrev pub op_force_actor_value : ℕ
op_force_actor_value = 0x0026

abbrev pub op_get_combat_target : ℕ
op_get_combat_target = 0x0027

abbrev pub op_play_group : ℕ
op_play_group = 0x0028

abbrev pub op_force_weather : ℕ
op_force_weather = 0x0029

abbrev pub op_set_restrained : ℕ
op_set_restrained = 0x002A

abbrev pub op_probe_saves : ℕ
op_probe_saves = 0x00FE

abbrev pub op_report_player_state : ℕ
op_report_player_state = 0x00F7

abbrev pub op_track_actor : ℕ
op_track_actor = 0x00F6

abbrev pub op_untrack_actor : ℕ
op_untrack_actor = 0x00F5

abbrev pub op_dump_image : ℕ
op_dump_image = 0x00FC

abbrev pub op_probe_form : ℕ
op_probe_form = 0x00FB

abbrev pub op_probe_ptr : ℕ
op_probe_ptr = 0x00FA

abbrev pub op_vcall_test : ℕ
op_vcall_test = 0x00F9

abbrev pub op_vcall_test0 : ℕ
op_vcall_test0 = 0x00F8

abbrev pub op_probe_code : ℕ
op_probe_code = 0x00FD
