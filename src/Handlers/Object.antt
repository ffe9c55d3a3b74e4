-- ===== src/Handlers/Object.antt =====
-- crates/ashfall-server/src/handlers/object.rs: moving, renaming and creating objects. A handler
-- returns what is relayed, if anything, and the registry after it.
pub mod Position
pub mod Frame
use ashfall.Prelude.{
  ℕ, ◌-◌, Bool, true, false, Option, none, some, List, [], ◌==◌, nat_eq, if◌then◌else◌, min,
}
use ashfall.Float.{Float}
use ashfall.Session.{Session}
use ashfall.StringCache.{Text, CachedString, plain, inline, id_only}
use ashfall.AntiCheat.{is_valid_angle3, validate_position, validate_scale}
use ashfall.Packet.{
  Packet, Vec3, Pair, update_pos, update_angle, update_scale, update_cell, update_name, object_new,
  container_new, object_remove,
}
use ashfall.World.Objects.{
  Object, GameObject, an_object, a_container, an_actor, a_player, new_object, new_container,
}
use ashfall.World.Registry.{
  ObjectRegistry, insert, get, write, remove, is_deleted, owner_of, add_to_cell,
}
use ashfall.Handlers.Actor.{same_id}

-- The name that a new object is stored under: an id alone means nothing.
unfoldable pub stored_name : CachedString → Text
stored_name (plain s) = s
stored_name (inline i s) = s
stored_name (id_only i) = []

module _ {F : Type 0} where
  unfoldable pub owned : ObjectRegistry F → Session → ℕ → Bool
  owned r session id =
      if same_id session.player_id (some id)
      then true
      else same_id (owner_of r id) session.player_id

  unfoldable pub net_pos_of : GameObject F → Option (Vec3 F)
  net_pos_of (an_object o) = some o.net_pos
  net_pos_of (an_actor a) = some a.container.object.net_pos
  net_pos_of (a_player p) = some p.actor.container.object.net_pos
  net_pos_of _ = none

  read_found : Option (GameObject F) → Option (Vec3 F)
  read_found none = none
  read_found (some o) = net_pos_of o

  unfoldable pub read_pos : ObjectRegistry F → ℕ → Option (Vec3 F)
  unfolding read_found
  read_pos r id = read_found (get r id)

  -- The object inside an object, an actor or a player is changed; a container's is not.
  unfoldable pub on_object : (Object F → Object F) → GameObject F → GameObject F
  on_object f (an_object o) = an_object (f o)
  on_object f (an_actor a) =
      an_actor (record a { container = record a.container { object = f a.container.object } })
  on_object f (a_player p) = a_player (record p {
    actor = record p.actor {
      container = record p.actor.container { object = f p.actor.container.object };
    };
  })
  on_object f o = o

  change_found :
      ObjectRegistry F → ℕ → (Object F → Object F) → Option (GameObject F) → ObjectRegistry F
  change_found r id f none = r
  change_found r id f (some o) = write r id (on_object f o)

  unfoldable pub with_entity_mut : ObjectRegistry F → ℕ → (Object F → Object F) → ObjectRegistry F
  unfolding change_found
  with_entity_mut r id f = change_found r id f (get r id)

  unfoldable pub handle_update_cell :
      ObjectRegistry F → Session → (id cell : ℕ) → Vec3 F → Option (Packet F) × ObjectRegistry F
  handle_update_cell r session id cell pos =
      if owned r session id
      then (
        some (update_cell id cell pos),
        add_to_cell (with_entity_mut r id (λ o. record o { cell = cell; net_pos = pos })) cell id,
      )
      else (none, r)

  rename : ObjectRegistry F → ℕ → CachedString → Option (Packet F) × ObjectRegistry F
  rename r id (plain name) =
      (some (update_name id (plain name)), with_entity_mut r id (λ o. record o { name = name }))
  rename r id (inline i value) = (none, r)
  rename r id (id_only i) = (none, r)

  unfoldable pub handle_update_name :
      ObjectRegistry F → Session → ℕ → CachedString → Option (Packet F) × ObjectRegistry F
  unfolding rename
  handle_update_name r session id name = if owned r session id then rename r id name else (none, r)

  unfoldable pub handle_object_remove :
      ObjectRegistry F → ℕ → Bool → Option (Packet F) × ObjectRegistry F
  handle_object_remove r id silent =
      (if silent then none else some (object_remove id false), (remove r id).1)

module _ {F : Type 0} (f : Float F) where
  move :
      ObjectRegistry F
      → (id : ℕ) → Vec3 F
      → ℕ
      → Option (Vec3 F)
      → Option (Packet F) × ObjectRegistry F
  move r id pos delta none = (none, r)
  move r id pos delta (some prev) =
      if validate_position f pos (some prev) delta
      then (
        some (update_pos id pos),
        with_entity_mut r id (λ o. record o { net_pos = pos; game_pos = pos }),
      )
      else (none, r)

  -- At most a second is allowed for.
  unfoldable pub handle_update_pos :
      ObjectRegistry F → Session → (id : ℕ) → Vec3 F → ℕ → Option (Packet F) × ObjectRegistry F
  unfolding move
  handle_update_pos r session id pos now =
      if owned r session id
      then move r id pos (min (now - session.last_recv) 1000000000) (read_pos r id)
      else (none, r)

  turn : ObjectRegistry F → ℕ → Pair F → Vec3 F → Option (Packet F) × ObjectRegistry F
  turn r id angle angle3 =
      if is_valid_angle3 f angle3
      then (some (update_angle id angle), with_entity_mut r id (λ o. record o { angle = angle3 }))
      else (none, r)

  unfoldable pub handle_update_angle :
      ObjectRegistry F → Session → ℕ → Pair F → Option (Packet F) × ObjectRegistry F
  unfolding turn
  handle_update_angle r session id angle =
      if owned r session id then turn r id angle (angle.0, f.zero, angle.1) else (none, r)

  unfoldable pub handle_update_scale :
      ObjectRegistry F → Session → ℕ → F → Option (Packet F) × ObjectRegistry F
  handle_update_scale r session id scale =
      if owned r session id
      then if validate_scale f scale
        then (some (update_scale id scale), with_entity_mut r id (λ o. record o { scale = scale }))
        else (none, r)
      else (none, r)

  unfoldable pub handle_object_new :
      ObjectRegistry F → Packet F → Option (Packet F) × ObjectRegistry F
  handle_object_new r
        (object_new id ref_id base_id name game_pos net_pos angle scale cell enabled lock owner) =
      let o = new_object f id ref_id base_id cell in
      if is_deleted r id then (none, r) else (
        some (
            object_new id ref_id base_id name game_pos net_pos angle scale cell enabled lock owner),
        add_to_cell
            (insert r (
              an_object (record o {
                name = stored_name name;
                game_pos = game_pos;
                net_pos = net_pos;
                angle = angle;
                scale = scale;
                enabled = enabled;
                lock_level = lock;
                owner = owner;
              }))).1
            cell id,
      )
  handle_object_new r _ = (none, r)

  unfoldable pub handle_container_new :
      ObjectRegistry F → Packet F → Option (Packet F) × ObjectRegistry F
  handle_container_new r (container_new id ref_id base_id) =
      if is_deleted r id then (none, r) else (
        some (container_new id ref_id base_id),
        (insert r (a_container (new_container f id ref_id base_id 0))).1,
      )
  handle_container_new r _ = (none, r)
