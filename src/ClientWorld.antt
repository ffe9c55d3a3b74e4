-- ===== src/ClientWorld.antt =====
-- crates/ashfall-client/src/world/registry.rs: what the client knows of the world. `now` is the
-- process's clock, and `player_name` the name of a player's object (`format!("Player_{id}")`).
pub mod Interp
pub mod Mirror
use ashfall.Prelude.{
  ℕ, Bool, true, false, Option, none, some, List, [], ◌∷◌, ◌==◌, nat_eq, if◌then◌else◌, contains,
  filterb, length,
}
use ashfall.Prelude.Int.{ℤ}
use ashfall.Map
use ashfall.Map.{Map}
use ashfall.Map.Iter.{other_than}
use ashfall.Float.{Float}
use ashfall.StringCache
use ashfall.StringCache.{Text, StringTable, CachedString, resolve}
use ashfall.Packet.{
  Packet, Vec3, object_new, object_remove, update_pos, update_name, item_new, update_item_count,
  update_item_condition, update_item_equipped, actor_new, update_actor_state, actor_state_delta,
  ownership_granted, ownership_released, update_actor_value, update_actor_dead, player_new,
}
use ashfall.ClientWorld.Interp
use ashfall.ClientWorld.Interp.{InterpBuffer, push, render_now}

pub record ObjectView (F : Type 0) : Type 0 where
  pub ref_id : ℕ
  pub base_id : ℕ
  pub name : Text
  pub pos : Vec3 F
  pub angle : Vec3 F
  pub scale : F
  pub cell : ℕ
  pub enabled : Bool

pub record ItemView (F : Type 0) : Type 0 where
  pub base_id : ℕ
  pub cond : F
  pub count : ℕ
  pub equipped : Bool

pub record ActorView (F : Type 0) : Type 0 where
  pub ref_id : ℕ
  pub pos : Vec3 F
  pub angle : Vec3 F
  pub dead : Bool
  pub health : F
  pub alerted : Bool
  pub sneaking : Bool
  pub moving : ℕ
  pub weapon : ℕ

pub record PlayerView (F : Type 0) : Type 0 where
  pub ref_id : ℕ
  pub name : Text
  pub pos : Vec3 F
  pub angle : Vec3 F
  pub health : F

pub data ClientObject (F : Type 0) : Type 0 where
  an_object : ObjectView F → ClientObject F
  an_item : ItemView F → ClientObject F
  an_actor : ActorView F → ClientObject F
  a_player : PlayerView F → ClientObject F

pub record ClientRegistry (F : Type 0) : Type 0 where
  pub objects : Map ℕ (ClientObject F)
  pub cell_objects : Map ℕ (List ℕ)
  pub weather : ℕ
  pub globals : Map ℕ ℤ
  pub interp : Map ℕ (InterpBuffer F)
  pub string_table : StringTable
  -- A set.
  pub owned_actors : List ℕ

abbrev pub or_default {ℓ} : {A : Type ℓ} → A → Option A → A
or_default a none = a
or_default a (some b) = b

nonzero_ref : ℕ → Option ℕ
nonzero_ref ref_id = if ref_id == 0 then none else some ref_id

module _ {F : Type 0} where
  unfoldable pub new : ClientRegistry F
  new = record {
    objects = Map.empty;
    cell_objects = Map.empty;
    weather = 0;
    globals = Map.empty;
    interp = Map.empty;
    string_table = StringCache.new;
    owned_actors = [];
  }

  change_found :
      Map ℕ (ClientObject F)
      → ℕ
      → (ClientObject F → ClientObject F)
      → Option (ClientObject F)
      → Map ℕ (ClientObject F)
  change_found m id g none = m
  change_found m id g (some o) = Map.insert m id (g o)

  -- `if let Some(..) = self.objects.get_mut(id)`
  unfoldable pub change_object :
      ClientRegistry F → ℕ → (ClientObject F → ClientObject F) → ClientRegistry F
  unfolding change_found
  change_object c id g = record c {
    objects = change_found c.objects id g (Map.lookup c.objects id);
  }

  unfoldable pub on_named : Text → ClientObject F → ClientObject F
  on_named name (an_object o) = an_object (record o { name = name })
  on_named name o = o

  unfoldable pub on_item : (ItemView F → ItemView F) → ClientObject F → ClientObject F
  on_item g (an_item i) = an_item (g i)
  on_item g o = o

  unfoldable pub on_actor : (ActorView F → ActorView F) → ClientObject F → ClientObject F
  on_actor g (an_actor a) = an_actor (g a)
  on_actor g o = o

  unfoldable pub at_pos : Vec3 F → ClientObject F → ClientObject F
  at_pos p (an_object o) = an_object (record o { pos = p })
  at_pos p (an_actor a) = an_actor (record a { pos = p })
  at_pos p (a_player q) = a_player (record q { pos = p })
  at_pos p (an_item i) = an_item i

  unfoldable pub see_delta :
      (moving weapon : Option ℕ) (alerted sneaking : Option Bool) → ActorView F → ActorView F
  see_delta moving weapon alerted sneaking a = record a {
    moving = or_default a.moving moving;
    weapon = or_default a.weapon weapon;
    alerted = or_default a.alerted alerted;
    sneaking = or_default a.sneaking sneaking;
  }

  put_object : ClientRegistry F → ℕ → ClientObject F → ClientRegistry F
  put_object c id o = record c { objects = Map.insert c.objects id o }

  known_ref : Option (ClientObject F) → Option ℕ
  unfolding nonzero_ref
  known_ref (some (an_object o)) = nonzero_ref o.ref_id
  known_ref (some (an_actor a)) = nonzero_ref a.ref_id
  known_ref (some (a_player p)) = nonzero_ref p.ref_id
  known_ref _ = none

  unfoldable pub ref_of : ClientRegistry F → ℕ → Option ℕ
  unfolding known_ref
  ref_of c id = known_ref (Map.lookup c.objects id)

  health_of : Option (ClientObject F) → Option F
  health_of (some (an_actor a)) = some a.health
  health_of (some (a_player p)) = some p.health
  health_of _ = none

  unfoldable pub player_health : ClientRegistry F → ℕ → Option F
  unfolding health_of
  player_health c id = health_of (Map.lookup c.objects id)

module _ {F : Type 0} (f : Float F) (player_name : ℕ → Text) where
  abbrev full_health : F
  full_health = f.literal 100 1

  -- `self.interp.entry(id).or_default().push_now(pos)`
  sample : ClientRegistry F → ℕ → Vec3 F → F → ClientRegistry F
  sample c id p now = record c {
    interp =
        Map.insert c.interp id (push f (or_default (Interp.new f) (Map.lookup c.interp id)) p now);
  }

  unfoldable pub apply_packet : ClientRegistry F → F → Packet F → ClientRegistry F
  unfolding sample put_object change_object
  apply_packet c now
        (object_new id ref_id base_id name game_pos net_pos angle scale cell enabled lock owner) =
      let (text, table) = resolve name c.string_table in
      put_object (sample (record c { string_table = table }) id net_pos now) id (
        an_object (record {
          ref_id = ref_id;
          base_id = 0;
          name = text;
          pos = net_pos;
          angle = angle;
          scale = scale;
          cell = cell;
          enabled = enabled;
        }))
  apply_packet c now (update_name id name) =
      let (text, table) = resolve name c.string_table in
      change_object (record c { string_table = table }) id (on_named text)
  apply_packet c now (update_pos id p) = change_object (sample c id p now) id (at_pos p)
  apply_packet c now (object_remove id silent) = record c {
    objects = Map.remove c.objects id;
    interp = Map.remove c.interp id;
  }
  apply_packet c now
        (item_new id ref_id base_id container count condition equipped silent stick scale) =
      put_object c id (
        an_item
          (record { base_id = base_id; cond = condition; count = count; equipped = equipped }))
  apply_packet c now (update_item_count id count silent) =
      change_object c id (on_item (λ i. record i { count = count }))
  apply_packet c now (update_item_condition id condition health) =
      change_object c id (on_item (λ i. record i { cond = condition }))
  apply_packet c now (update_item_equipped id equipped silent stick) =
      change_object c id (on_item (λ i. record i { equipped = equipped }))
  apply_packet c now
        (actor_new id ref_id base_id values base_values race age idle moving moving_xy weapon female
          alerted sneaking dead death_limbs death_cause scale) =
      put_object c id (
        an_actor (record {
          ref_id = ref_id;
          pos = (f.zero, f.zero, f.zero);
          angle = (f.zero, f.zero, f.zero);
          dead = dead;
          health = or_default full_health (Map.lookup values 0x14);
          alerted = false;
          sneaking = false;
          moving = 0;
          weapon = 0;
        }))
  apply_packet c now (update_actor_state id idle moving moving_xy weapon alerted sneaking firing) =
      change_object c id (
        on_actor (λ a. record a {
          alerted = alerted;
          sneaking = sneaking;
          moving = moving;
          weapon = weapon;
        }))
  apply_packet c now (actor_state_delta id idle moving moving_xy weapon alerted sneaking firing) =
      change_object c id (on_actor (see_delta moving weapon alerted sneaking))
  apply_packet c now (ownership_granted id) = record c {
    owned_actors = id ∷ other_than id c.owned_actors;
  }
  apply_packet c now (ownership_released id) = record c {
    owned_actors = other_than id c.owned_actors;
  }
  apply_packet c now (update_actor_value id is_base index value) =
      change_object c id (on_actor (λ a. if index == 0x14 then record a { health = value } else a))
  apply_packet c now (update_actor_dead id dead limbs cause) =
      change_object c id (on_actor (λ a. record a { dead = dead }))
  apply_packet c now (player_new id ref_id base_id controls scale) = put_object c id (
      a_player (record {
        ref_id = ref_id;
        name = player_name id;
        pos = (f.zero, f.zero, f.zero);
        angle = (f.zero, f.zero, f.zero);
        health = full_health;
      }))
  apply_packet c now _ = c

  seen_pos : Option (ClientObject F) → Option (Vec3 F)
  seen_pos (some (an_object o)) = some o.pos
  seen_pos (some (an_actor a)) = some a.pos
  seen_pos (some (a_player p)) = some p.pos
  seen_pos _ = none

  shown : Option (InterpBuffer F) → F → Vec3 F → Vec3 F
  shown none now p = p
  shown (some b) now p = render_now f b now

  show_at : Option (InterpBuffer F) → F → Option (Vec3 F) → Option (Vec3 F)
  unfolding shown
  show_at b now none = none
  show_at b now (some p) = some (shown b now p)

  unfoldable pub interpolated_pos : ClientRegistry F → ℕ → F → Option (Vec3 F)
  unfolding seen_pos show_at
  interpolated_pos c id now =
      show_at (Map.lookup c.interp id) now (seen_pos (Map.lookup c.objects id))
