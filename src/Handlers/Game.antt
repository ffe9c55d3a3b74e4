-- ===== src/Handlers/Game.antt =====
-- crates/ashfall-server/src/handlers/game.rs, quest.rs and gui.rs, with the state that they keep:
-- world/weather.rs, world/globals.rs and quest/mod.rs. The load order check is in Handlers/Auth.antt.
-- A clone of these states shares them, so that there is one of each.
use ashfall.Prelude.{
  ℕ, Bool, false, Option, none, some, List, [], ◌∷◌, ◌++◌, map, ◌==◌, nat_eq, if◌then◌else◌,
}
use ashfall.Prelude.Int.{ℤ}
use ashfall.Map
use ashfall.Map.{Map}
use ashfall.Session.{Session}
use ashfall.Packet.{
  Packet, game_start, game_weather, game_global, quest_stage, dialogue_flag, dialogue_choice,
  karma_update, reputation_update, hardcore_stats, container_new, update_window_mode,
  update_window_click, update_window_return, window_remove,
}
use ashfall.World.Kind.{mask, player}
use ashfall.World.Objects
use ashfall.World.Objects.{
  GameObject, a_reference, an_object, an_item, a_container, an_actor, a_player,
}
use ashfall.World.Objects.Announce.{object_packet, item_packet, actor_packet, player_packet}
use ashfall.World.Registry.{ObjectRegistry, get, get_by_cells, get_by_kind}

abbrev pub default_weather : ℕ
default_weather = 0x00015E5E

abbrev pub GlobalState : Type 0
GlobalState = Map ℕ ℤ

pub record QuestManager : Type 0 where
  pub stages : Map ℕ ℕ
  pub dialogue_flags : Map ℕ Bool

unfoldable pub no_quests : QuestManager
no_quests = record { stages = Map.empty; dialogue_flags = Map.empty }

abbrev or_else {ℓ} : {A : Type ℓ} → A → Option A → A
or_else a none = a
or_else a (some b) = b

unfoldable pub get_stage : QuestManager → ℕ → ℕ
get_stage q quest_id = or_else 0 (Map.lookup q.stages quest_id)

unfoldable pub set_stage : QuestManager → ℕ → ℕ → QuestManager
set_stage q quest_id stage = record q { stages = Map.insert q.stages quest_id stage }

unfoldable pub get_flag : QuestManager → ℕ → Bool
get_flag q flag_id = or_else false (Map.lookup q.dialogue_flags flag_id)

unfoldable pub set_flag : QuestManager → ℕ → Bool → QuestManager
set_flag q flag_id value = record q { dialogue_flags = Map.insert q.dialogue_flags flag_id value }

own_id : Session → ℕ
own_id session = or_else 0 session.player_id

module _ {F : Type 0} where
  unfoldable pub handle_weather : ℕ → ℕ → Packet F × ℕ
  handle_weather weather value = (game_weather value, value)

  unfoldable pub handle_global : GlobalState → ℕ → ℤ → Packet F × GlobalState
  handle_global globals id value = (game_global id value, Map.insert globals id value)

  unfoldable pub handle_quest_stage : QuestManager → ℕ → ℕ → Packet F × QuestManager
  handle_quest_stage q quest_id stage = (quest_stage quest_id stage, set_stage q quest_id stage)

  unfoldable pub handle_dialogue_flag : QuestManager → ℕ → Bool → Packet F × QuestManager
  handle_dialogue_flag q flag_id value = (dialogue_flag flag_id value, set_flag q flag_id value)

  unfoldable pub handle_dialogue_choice : QuestManager → ℕ → ℕ → Packet F
  handle_dialogue_choice q flag_id choice = dialogue_choice flag_id choice

  unfoldable pub handle_karma : ℤ → Packet F
  handle_karma value = karma_update value

  unfoldable pub handle_reputation : ℕ → ℤ → Packet F
  handle_reputation faction value = reputation_update faction value

  unfoldable pub handle_hardcore_stats : (hunger thirst sleep : F) → Packet F
  handle_hardcore_stats hunger thirst sleep = hardcore_stats hunger thirst sleep

  unfoldable pub handle_window_new : Packet F → Option (Packet F)
  handle_window_new packet = some packet

  unfoldable pub handle_window_remove : ℕ → Packet F
  handle_window_remove id = window_remove id

  unfoldable pub handle_window_mode : Bool → Packet F
  handle_window_mode enabled = update_window_mode enabled

  unfoldable pub handle_window_click : ℕ → Packet F
  handle_window_click id = update_window_click id

  unfoldable pub handle_window_return : ℕ → Packet F
  handle_window_return id = update_window_return id

  -- A container is announced by its identity, and a session's own player not at all.
  snapshot_packet : Session → Option (GameObject F) → List (Packet F)
  unfolding own_id
  snapshot_packet session (some (a_container c)) =
      container_new c.object.ref_data.id c.object.ref_data.ref_id c.object.ref_data.base_id ∷ []
  snapshot_packet session (some (an_object o)) = object_packet o ∷ []
  snapshot_packet session (some (an_item i)) = item_packet i ∷ []
  snapshot_packet session (some (an_actor a)) = actor_packet a ∷ []
  snapshot_packet session (some (a_player p)) =
      if Objects.id (a_player p) == own_id session then [] else player_packet p ∷ []
  snapshot_packet session (some (a_reference _)) = []
  snapshot_packet session none = []

  snapshot : ObjectRegistry F → Session → List ℕ → List (Packet F)
  unfolding snapshot_packet
  snapshot r session [] = []
  snapshot r session (id ∷ ids) = snapshot_packet session (get r id) ++ snapshot r session ids

  typed_player : Session → ℕ → Option (GameObject F) → List (Packet F)
  unfolding own_id
  typed_player session pid (some (a_player p)) =
      if pid == own_id session then [] else player_packet p ∷ []
  typed_player session pid _ = []

  existing_players : ObjectRegistry F → Session → List ℕ → List (Packet F)
  unfolding typed_player
  existing_players r session [] = []
  existing_players r session (pid ∷ pids) =
      typed_player session pid (get r pid) ++ existing_players r session pids

  -- The weather, the globals, the quest stages, what the session's cells list, the other players, and
  -- the start of the game.
  unfoldable pub send_world_state :
      Session → ℕ → GlobalState → QuestManager → ObjectRegistry F → List (Packet F)
  unfolding snapshot existing_players
  send_world_state session weather globals quests r =
      game_weather weather ∷ map (λ (e : ℕ × ℤ). game_global e.0 e.1) globals.entries
      ++ map (λ (e : ℕ × ℕ). quest_stage e.0 e.1) quests.stages.entries
      ++ snapshot r session (get_by_cells r session.cell_context)
      ++ existing_players r session (get_by_kind r (mask player))
      ++ game_start ∷ []
