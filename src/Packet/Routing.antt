-- ===== src/Packet/Routing.antt =====
-- crates/ashfall-core/src/protocol/channel.rs: the channel of a packet, and whether it may be lost.
use ashfall.Prelude.{Bool, true, false}
use ashfall.Channel.{Channel, system, game, chat}
use ashfall.Packet.{
  Packet, game_start, game_load, game_end, game_auth, game_mod, game_message, game_weather,
  game_global, game_base, game_deleted, quest_stage, dialogue_flag, dialogue_choice, karma_update,
  reputation_update, hardcore_stats, game_chat, update_pos, update_angle, update_velocity,
  projectile_remove,
}

unfoldable pub from_packet : {F : Type 0} → Packet F → Channel
from_packet game_start = system
from_packet game_load = system
from_packet (game_end _) = system
from_packet (game_auth _ _ _) = system
from_packet (game_mod _ _) = system
from_packet (game_message _ _) = system
from_packet (game_weather _) = system
from_packet (game_global _ _) = system
from_packet (game_base _) = system
from_packet (game_deleted _) = system
from_packet (quest_stage _ _) = system
from_packet (dialogue_flag _ _) = system
from_packet (dialogue_choice _ _) = system
from_packet (karma_update _) = system
from_packet (reputation_update _ _) = system
from_packet (hardcore_stats _ _ _) = system
from_packet (game_chat _) = chat
from_packet _ = game

-- Packets that are sent once, with no sequence number.
unfoldable pub is_unreliable : {F : Type 0} → Packet F → Bool
is_unreliable (update_pos _ _) = true
is_unreliable (update_angle _ _) = true
is_unreliable (update_velocity _ _ _) = true
is_unreliable (projectile_remove _ _) = true
is_unreliable _ = false
