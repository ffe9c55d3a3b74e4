-- ===== src/Dispatch.antt =====
-- crates/ashfall-server/src/dispatch.rs: which handler a packet goes to, and to whom its answer is
-- sent. The clock is an argument. The dispatcher's factions are left out: it never reads them.
pub mod Context
use ashfall.Prelude.{ℕ, Bool, true, false, Option, none, some, List, [], ◌∷◌, ◌++◌}
use ashfall.Float.{Float}
use ashfall.StringCache.{Text}
use ashfall.Map
use ashfall.Session.{Session}
use ashfall.Packet.{
  Packet, game_end, update_pos, update_angle, update_scale, update_cell, update_name,
  update_velocity, item_new, update_item_count, update_item_condition, update_item_equipped,
  actor_new, ownership_claim, actor_state_delta, update_actor_dead, update_actor_state,
  update_actor_value, update_fire_weapon, spell_cast, actor_hit, actor_punch, projectile_new,
  projectile_remove, explosion_new, actor_combat_target, actor_ai_package, actor_faction,
  update_control, update_context, update_console, game_chat, game_mod_list, quest_stage,
  dialogue_flag, dialogue_choice, karma_update, reputation_update, hardcore_stats,
  update_window_mode, update_window_click, update_window_return, object_new, container_new,
  player_new, object_remove, window_new, window_remove, update_lock, update_owner, update_activate,
  update_sound, update_actor_race, update_actor_sex, update_actor_idle, door_state, terminal_state,
  item_list_new, game_weather, game_global, game_base,
}
use ashfall.World.Registry
use ashfall.World.Registry.{ObjectRegistry}
use ashfall.World.PositionHistory.{PositionHistory, record_pos}
use ashfall.Handlers.Actor.{
  handle_actor_new, handle_ownership_claim, handle_actor_state, handle_actor_state_delta,
  handle_actor_value, handle_actor_dead, handle_fire_weapon, handle_spell_cast,
}
use ashfall.Handlers.Object.{
  handle_update_pos, handle_update_angle, handle_update_scale, handle_update_cell,
  handle_update_name, handle_object_new, handle_container_new, handle_object_remove,
}
use ashfall.Handlers.Item.{
  handle_item_new, handle_item_count, handle_item_condition, handle_item_equipped,
}
use ashfall.Handlers.Auth.{handle_auth, handle_disconnect, handle_mod_list}
use ashfall.Handlers.Physics.{handle_update_velocity, handle_chat}
use ashfall.Handlers.Player.{handle_player_new, handle_update_control, handle_update_context}
use ashfall.Handlers.Game
use ashfall.Handlers.Game.{
  GlobalState, QuestManager, no_quests, default_weather, handle_weather, handle_global,
  handle_quest_stage, handle_dialogue_flag, handle_dialogue_choice, handle_karma, handle_reputation,
  handle_hardcore_stats, handle_window_mode, handle_window_click, handle_window_return,
}
use ashfall.Combat.{
  handle_actor_hit, handle_actor_punch, handle_projectile_new, handle_projectile_remove,
  handle_explosion_new,
}

-- What goes to the sender, what goes to all others, and whether the session ends.
pub record DispatchResult (F : Type 0) : Type 0 where
  pub responses : List (Packet F)
  pub broadcasts : List (Packet F)
  pub disconnect : Bool

pub record Dispatcher (F : Type 0) : Type 0 where
  pub registry : ObjectRegistry F
  pub weather : ℕ
  pub globals : GlobalState
  pub quests : QuestManager
  pub pos_history : PositionHistory F
  pub pvp_enabled : Bool
  pub expected_mods : List (Text × ℕ)

module _ {F : Type 0} where
  unfoldable pub new_dispatcher : Dispatcher F
  new_dispatcher = record {
    registry = Registry.new;
    weather = default_weather;
    globals = Map.empty;
    quests = no_quests;
    pos_history = record { by_id = Map.empty };
    pvp_enabled = false;
    expected_mods = [];
  }

  unfoldable pub nothing : DispatchResult F
  nothing = record { responses = []; broadcasts = []; disconnect = false }

  unfoldable pub add_response : DispatchResult F → Packet F → DispatchResult F
  add_response d p = record d { responses = d.responses ++ p ∷ [] }

  unfoldable pub add_broadcast : DispatchResult F → Packet F → DispatchResult F
  add_broadcast d p = record d { broadcasts = d.broadcasts ++ p ∷ [] }

  unfoldable pub add_responses : DispatchResult F → List (Packet F) → DispatchResult F
  add_responses d ps = record d { responses = d.responses ++ ps }

  unfoldable pub with_disconnect : DispatchResult F → DispatchResult F
  with_disconnect d = record d { disconnect = true }

  unfoldable pub respond_some : DispatchResult F → Option (Packet F) → DispatchResult F
  unfolding add_response
  respond_some d none = d
  respond_some d (some p) = add_response d p

  unfoldable pub broadcast_some : DispatchResult F → Option (Packet F) → DispatchResult F
  unfolding add_broadcast
  broadcast_some d none = d
  broadcast_some d (some p) = add_broadcast d p

  -- An answer of a handler and the registry after it: to the others, or to the sender.
  unfoldable pub relayed :
      Dispatcher F → Option (Packet F) × ObjectRegistry F → DispatchResult F × Dispatcher F
  relayed d (p, r) = (broadcast_some nothing p, record d { registry = r })

  unfoldable pub answered :
      Dispatcher F → Option (Packet F) × ObjectRegistry F → DispatchResult F × Dispatcher F
  answered d (p, r) = (respond_some nothing p, record d { registry = r })

  hits : Option (List (Packet F)) → List (Packet F)
  hits none = []
  hits (some ps) = ps

  -- A move is kept only if it is relayed.
  moved :
      Dispatcher F
      → (id : ℕ) → F × F × F
      → ℕ
      → Option (Packet F) × ObjectRegistry F
      → DispatchResult F × Dispatcher F
  moved d id pos now (none, r) = (nothing, record d { registry = r })
  moved d id pos now (some p, r) = (
    add_broadcast nothing p,
    record d { registry = r; pos_history = record_pos d.pos_history id pos now },
  )

  rejected : Option (Packet F) → DispatchResult F
  rejected none = nothing
  rejected (some p) = with_disconnect (add_response nothing p)

module _ {F : Type 0} (f : Float F) where
  -- The packets that leave the session as it is. What no clause names is ignored: the packets that
  -- only a server sends.
  unfoldable pub handle_packet :
      Dispatcher F → Session → Packet F → (now : ℕ) → DispatchResult F × Dispatcher F
  unfolding moved rejected hits
  handle_packet d s (game_end reason) now =
      (with_disconnect (add_responses nothing (handle_disconnect s reason)), d)
  handle_packet d s (update_pos id pos) now =
      moved d id pos now (handle_update_pos f d.registry s id pos now)
  handle_packet d s (update_angle id angle) now =
      relayed d (handle_update_angle f d.registry s id angle)
  handle_packet d s (update_scale id scale) now =
      relayed d (handle_update_scale f d.registry s id scale)
  handle_packet d s (update_cell id cell pos) now =
      relayed d (handle_update_cell d.registry s id cell pos)
  handle_packet d s (update_name id name) now = relayed d (handle_update_name d.registry s id name)
  handle_packet d s (update_velocity id vel on_ground) now =
      relayed d (handle_update_velocity f d.registry s id vel on_ground)
  handle_packet d s
        (item_new id ref_id base_id container count condition equipped silent stick scale) now =
      relayed d (
        handle_item_new d.registry s
          (item_new id ref_id base_id container count condition equipped silent stick scale))
  handle_packet d s (update_item_count id count true) now =
      answered d (handle_item_count d.registry s id count true)
  handle_packet d s (update_item_count id count false) now =
      relayed d (handle_item_count d.registry s id count false)
  handle_packet d s (update_item_condition id condition health) now =
      relayed d (handle_item_condition f d.registry s id condition health)
  handle_packet d s (update_item_equipped id equipped true stick) now =
      answered d (handle_item_equipped d.registry s id equipped true stick)
  handle_packet d s (update_item_equipped id equipped false stick) now =
      relayed d (handle_item_equipped d.registry s id equipped false stick)
  handle_packet d s
        (actor_new id ref_id base_id values base_values race age idle moving moving_xy weapon female
          alerted sneaking dead death_limbs death_cause scale)
        now =
      let (answer, (announced, r)) = handle_actor_new f d.registry s (
        actor_new id ref_id base_id values base_values race age idle moving moving_xy weapon female
          alerted sneaking dead death_limbs death_cause scale) in
      (broadcast_some (respond_some nothing answer) announced, record d { registry = r })
  handle_packet d s (ownership_claim id) now = answered d (handle_ownership_claim d.registry s id)
  handle_packet d s (actor_state_delta id idle moving moving_xy weapon alerted sneaking firing)
        now =
      relayed d (
        handle_actor_state_delta d.registry s id idle moving moving_xy weapon alerted sneaking
          firing)
  handle_packet d s (update_actor_dead id dead limbs cause) now =
      relayed d (handle_actor_dead d.registry s id dead limbs cause)
  handle_packet d s (update_actor_state id idle moving moving_xy weapon alerted sneaking firing)
        now =
      relayed d
        (handle_actor_state d.registry s id idle moving moving_xy weapon alerted sneaking firing)
  handle_packet d s (update_actor_value id is_base index value) now =
      relayed d (handle_actor_value d.registry s id is_base index value)
  handle_packet d s (update_fire_weapon id weapon) now =
      (broadcast_some nothing (handle_fire_weapon d.registry s id weapon), d)
  handle_packet d s (spell_cast id spell source dual target) now =
      (broadcast_some nothing (handle_spell_cast d.registry s id spell source dual target), d)
  handle_packet d s (actor_hit target attacker limb base_damage flags weapon_id projectile) now =
      let (answers, r) =
        handle_actor_hit f d.registry s
          (actor_hit target attacker limb base_damage flags weapon_id projectile) d.pvp_enabled
          now in
      (record nothing { broadcasts = hits answers }, record d { registry = r })
  handle_packet d s (actor_punch id power) now =
      (broadcast_some nothing (handle_actor_punch s id power), d)
  handle_packet d s (projectile_new id base_id pos vel owner) now =
      (broadcast_some nothing (handle_projectile_new (projectile_new id base_id pos vel owner)), d)
  handle_packet d s (projectile_remove id impact_pos) now =
      (broadcast_some nothing (handle_projectile_remove (projectile_remove id impact_pos)), d)
  handle_packet d s (explosion_new base_id pos radius owner) now =
      (broadcast_some nothing (handle_explosion_new (explosion_new base_id pos radius owner)), d)
  handle_packet d s (actor_combat_target id target) now =
      (add_broadcast nothing (actor_combat_target id target), d)
  handle_packet d s (actor_ai_package id package_id flags) now =
      (add_broadcast nothing (actor_ai_package id package_id flags), d)
  handle_packet d s (actor_faction id faction_id rank) now =
      (add_broadcast nothing (actor_faction id faction_id rank), d)
  handle_packet d s (update_control id control key) now =
      relayed d (handle_update_control d.registry s id control key)
  handle_packet d s (update_console id enabled) now =
      (add_response nothing (update_console id enabled), d)
  handle_packet d s (game_chat message) now = (broadcast_some nothing (handle_chat message), d)
  handle_packet d s (game_mod_list mods) now = (rejected (handle_mod_list d.expected_mods mods), d)
  handle_packet d s (quest_stage quest_id stage) now =
      let (p, quests) = handle_quest_stage d.quests quest_id stage in
      (add_broadcast nothing p, record d { quests = quests })
  handle_packet d s (dialogue_flag flag_id value) now =
      let (p, quests) = handle_dialogue_flag d.quests flag_id value in
      (add_broadcast nothing p, record d { quests = quests })
  handle_packet d s (dialogue_choice flag_id choice) now =
      (add_broadcast nothing (handle_dialogue_choice d.quests flag_id choice), d)
  handle_packet d s (karma_update value) now = (add_broadcast nothing (handle_karma value), d)
  handle_packet d s (reputation_update faction value) now =
      (add_broadcast nothing (handle_reputation faction value), d)
  handle_packet d s (hardcore_stats hunger thirst sleep) now =
      (add_broadcast nothing (handle_hardcore_stats hunger thirst sleep), d)
  handle_packet d s (update_window_mode enabled) now =
      (add_response nothing (handle_window_mode enabled), d)
  handle_packet d s (update_window_click id) now =
      (add_response nothing (handle_window_click id), d)
  handle_packet d s (update_window_return id) now =
      (add_response nothing (handle_window_return id), d)
  handle_packet d s
        (object_new id ref_id base_id name game_pos net_pos angle scale cell enabled lock owner)
        now =
      relayed d (
        handle_object_new f d.registry
          (object_new id ref_id base_id name game_pos net_pos angle scale cell enabled lock owner))
  handle_packet d s (container_new id ref_id base_id) now =
      relayed d (handle_container_new f d.registry (container_new id ref_id base_id))
  handle_packet d s (player_new id ref_id base_id controls scale) now =
      relayed d (handle_player_new f d.registry (player_new id ref_id base_id controls scale))
  handle_packet d s (object_remove id silent) now =
      relayed d (handle_object_remove d.registry id silent)
  handle_packet d s (window_new id parent label pos size locked visible text) now =
      (add_broadcast nothing (window_new id parent label pos size locked visible text), d)
  handle_packet d s (window_remove id) now = (add_broadcast nothing (window_remove id), d)
  handle_packet d s (update_lock id lock) now = (add_broadcast nothing (update_lock id lock), d)
  handle_packet d s (update_owner id owner) now = (add_broadcast nothing (update_owner id owner), d)
  handle_packet d s (update_activate id actor) now =
      (add_broadcast nothing (update_activate id actor), d)
  handle_packet d s (update_sound id sound) now = (add_broadcast nothing (update_sound id sound), d)
  handle_packet d s (update_actor_race id race age delta_age) now =
      (add_broadcast nothing (update_actor_race id race age delta_age), d)
  handle_packet d s (update_actor_sex id female) now =
      (add_broadcast nothing (update_actor_sex id female), d)
  handle_packet d s (update_actor_idle id idle name) now =
      (add_broadcast nothing (update_actor_idle id idle name), d)
  handle_packet d s (door_state id is_open ref_id) now =
      (add_broadcast nothing (door_state id is_open ref_id), d)
  handle_packet d s (terminal_state id locked ref_id) now =
      (add_broadcast nothing (terminal_state id locked ref_id), d)
  handle_packet d s (item_list_new id items) now =
      (add_broadcast nothing (item_list_new id items), d)
  handle_packet d s (game_weather weather) now =
      let (p, w) = handle_weather d.weather weather in
      (add_broadcast nothing p, record d { weather = w })
  handle_packet d s (game_global global value) now =
      let (p, g) = handle_global d.globals global value in
      (add_broadcast nothing p, record d { globals = g })
  handle_packet d s (game_base player_base) now = (add_broadcast nothing (game_base player_base), d)
  handle_packet d s _ now = (nothing, d)

  unfoldable pub dispatch :
      Dispatcher F → Session → Packet F → (now : ℕ) → DispatchResult F × (Session × Dispatcher F)
  dispatch d s (update_context id cells spawn) now =
      let (packets, (s', r)) = handle_update_context d.registry s id cells spawn in
      (add_responses nothing packets, (s', record d { registry = r }))
  dispatch d s packet now = let (result, d') = handle_packet d s packet now in (result, (s, d'))

  unfoldable pub handle_connection :
      Dispatcher F
      → (addr : ℕ) (name password version : Text) (session_id now : ℕ)
      → Option Session × List (Packet F)
  handle_connection d addr name password version session_id now =
      handle_auth addr name password version session_id now

  unfoldable pub send_world_state : Dispatcher F → Session → List (Packet F)
  send_world_state d s = Game.send_world_state s d.weather d.globals d.quests d.registry
