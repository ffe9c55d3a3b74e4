-- ===== src/World/Objects/Announce.antt =====
-- crates/ashfall-server/src/world/objects.rs: the packets that announce an object (`to_new_packet`).
use ashfall.Prelude.{List, [], ◌∷◌}
use ashfall.StringCache.{plain}
use ashfall.Packet.{Packet, object_new, item_new, container_new, actor_new, player_new}
use ashfall.World.Objects.{Object, Item, Container, Actor, Player}

module _ {F : Type 0} where
  unfoldable pub object_packet : Object F → Packet F
  object_packet o =
      object_new o.ref_data.id o.ref_data.ref_id o.ref_data.base_id (plain o.name) o.game_pos
        o.net_pos o.angle o.scale o.cell o.enabled o.lock_level o.owner

  unfoldable pub item_packet : Item F → Packet F
  item_packet i =
      item_new i.ref_data.id i.ref_data.ref_id i.ref_data.base_id i.container i.count i.condition
        i.equipped i.silent i.stick i.scale

  unfoldable pub container_packets : Container F → List (Packet F)
  container_packets c =
      container_new c.object.ref_data.id c.object.ref_data.ref_id c.object.ref_data.base_id
      ∷ object_packet c.object
      ∷ []

  unfoldable pub actor_packet : Actor F → Packet F
  actor_packet a =
      actor_new a.container.object.ref_data.id a.container.object.ref_data.ref_id
        a.container.object.ref_data.base_id a.values a.base_values a.race a.age a.idle_anim
        a.moving_anim a.moving_xy a.weapon_anim a.female a.alerted a.sneaking a.dead a.death_limbs
        a.death_cause a.container.object.scale

  unfoldable pub player_packet : Player F → Packet F
  player_packet p =
      player_new p.actor.container.object.ref_data.id p.actor.container.object.ref_data.ref_id
        p.actor.container.object.ref_data.base_id p.controls p.actor.container.object.scale
