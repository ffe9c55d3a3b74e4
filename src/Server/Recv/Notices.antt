-- ===== src/Server/Recv/Notices.antt =====
-- What crates/ashfall-server/src/dedicated.rs tells the scripts of the packets that a datagram makes the
-- server send.
use ashfall.Prelude.{ℕ, true, false, Option, none, some, List, [], ◌∷◌, nat_eq, u32}
use ashfall.Map
use ashfall.Packet.{
  Packet, object_new, object_remove, update_item_equipped, update_item_count, update_activate,
  update_window_click, update_window_return, update_window_text, update_checkbox_selected,
  update_radio_button_selected, update_list_item_selected, update_fire_weapon, actor_punch,
  update_item_condition, update_actor_state, update_actor_value, update_window_mode,
  dialogue_choice, update_lock, actor_death_ext,
}
use ashfall.Session.{Session}
use ashfall.Script.{
  Call, on_create, on_destroy, on_equip, on_item_count_change, on_activate, on_window_click,
  on_window_return, on_window_text_change, on_checkbox_select, on_radio_button_select,
  on_list_item_select, on_actor_fire_weapon, on_actor_punch, on_item_condition_change,
  on_actor_alert, on_actor_sneak, on_actor_value_change, on_actor_base_value_change, on_window_mode,
  on_dialogue_choice, on_lock_change, on_actor_death,
}
use ashfall.World.Objects.{GameObject, an_item}
use ashfall.World.Registry
use ashfall.Server.{Platform, DedicatedServer, notify}

abbrev or_zero : Option ℕ → ℕ
or_zero none = 0
or_zero (some n) = n

abbrev player_of : Option Session → ℕ
player_of none = 0
player_of (some session) = or_zero session.player_id

module _ {F D M : Type 0} where
  -- `sessions_player_id`
  unfoldable pub player_id_at : DedicatedServer F D M → ℕ → ℕ
  player_id_at s addr = player_of (Map.lookup s.sessions addr)

module _ {F : Type 0} where
  holder : Option (GameObject F) → ℕ
  holder (some (an_item i)) = i.container
  holder _ = 0

  -- The calls for one packet; `player` is the sender's.
  unfoldable pub notices : Registry.ObjectRegistry F → (player : ℕ) → Packet F → List (Call F)
  unfolding holder
  notices r player
        (object_new id ref_id base_id name game_pos net_pos angle scale cell enabled lock owner) =
      on_create id ∷ []
  notices r player (object_remove id silent) = on_destroy id ∷ []
  notices r player (update_item_equipped id equipped silent stick) =
      on_equip (holder (Registry.get r id)) id equipped ∷ []
  notices r player (update_item_count id count silent) = on_item_count_change id count ∷ []
  notices r player (update_activate id actor) = on_activate (u32 id) actor ∷ []
  notices r player (update_window_click id) = on_window_click player id ∷ []
  notices r player (update_window_return id) = on_window_return player id ∷ []
  notices r player (update_window_text id text) = on_window_text_change player id text ∷ []
  notices r player (update_checkbox_selected id selected) =
      on_checkbox_select player id selected ∷ []
  notices r player (update_radio_button_selected id previous selected) =
      on_radio_button_select player id previous ∷ []
  notices r player (update_list_item_selected id selected) =
      on_list_item_select player id selected ∷ []
  notices r player (update_fire_weapon id weapon) = on_actor_fire_weapon id weapon ∷ []
  notices r player (actor_punch id power) = on_actor_punch id power ∷ []
  notices r player (update_item_condition id condition health) =
      on_item_condition_change id condition ∷ []
  notices r player (update_actor_state id idle moving moving_xy weapon alerted sneaking firing) =
      on_actor_alert id alerted ∷ on_actor_sneak id sneaking ∷ []
  notices r player (update_actor_value id true index value) =
      on_actor_base_value_change id index value ∷ []
  notices r player (update_actor_value id false index value) =
      on_actor_value_change id index value ∷ []
  notices r player (update_window_mode enabled) = on_window_mode player enabled ∷ []
  notices r player (dialogue_choice flag_id choice) = on_dialogue_choice player flag_id choice ∷ []
  notices r player (update_lock id lock) = on_lock_change id player lock ∷ []
  notices r player packet = []

  unfoldable pub deaths : Packet F → List (Call F)
  deaths (actor_death_ext id killer weapon_id limbs cause death_flags) =
      on_actor_death id killer limbs cause ∷ []
  deaths packet = []

module _ {F D M : Type 0} (p : Platform F D M) where
  unfoldable pub notify_each : DedicatedServer F D M → List (Call F) → DedicatedServer F D M
  notify_each s [] = s
  notify_each s (call ∷ calls) = notify_each (notify p s call) calls

  unfoldable pub notify_packets :
      DedicatedServer F D M → ℕ → List (Packet F) → DedicatedServer F D M
  notify_packets s addr [] = s
  notify_packets s addr (packet ∷ packets) =
      notify_packets (notify_each s (notices s.dispatcher.registry (player_id_at s addr) packet))
        addr packets

  unfoldable pub notify_deaths : DedicatedServer F D M → List (Packet F) → DedicatedServer F D M
  notify_deaths s [] = s
  notify_deaths s (packet ∷ packets) = notify_deaths (notify_each s (deaths packet)) packets
