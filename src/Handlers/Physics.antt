-- ===== src/Handlers/Physics.antt =====
-- crates/ashfall-server/src/handlers/physics.rs and chat.rs: a player's velocity, and what it says.
use ashfall.Prelude.{ℕ, Bool, ◌||◌, Option, none, some, ltb, ◌==◌, nat_eq, if◌then◌else◌, length}
use ashfall.Float.{Float}
use ashfall.Session.{Session}
use ashfall.StringCache.{CachedString, plain, inline, id_only}
use ashfall.AntiCheat.{validate_velocity}
use ashfall.Packet.{Packet, Vec3, update_velocity, game_chat}
use ashfall.World.Registry.{ObjectRegistry}
use ashfall.Handlers.Actor.{same_id}
use ashfall.Handlers.Object.{with_entity_mut}

abbrev pub max_chat_length : ℕ
max_chat_length = 128

module _ {F : Type 0} (f : Float F) where
  -- Only its own player is moved by a session.
  unfoldable pub handle_update_velocity :
      ObjectRegistry F → Session → ℕ → Vec3 F → Bool → Option (Packet F) × ObjectRegistry F
  handle_update_velocity r session id vel on_ground =
      if same_id session.player_id (some id)
      then if validate_velocity f vel
        then (
          some (update_velocity id vel on_ground),
          with_entity_mut r id (λ o. record o { velocity = vel; on_ground = on_ground }),
        )
        else (none, r)
      else (none, r)

module _ {F : Type 0} where
  -- A message is measured in bytes; the server alone assigns ids.
  unfoldable pub handle_chat : CachedString → Option (Packet F)
  handle_chat (plain s) =
      if length s == 0 || ltb max_chat_length (length s) then none else some (game_chat (plain s))
  handle_chat (inline i value) = none
  handle_chat (id_only i) = none
