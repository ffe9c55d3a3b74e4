-- ===== src/World/Objects.antt =====
-- crates/ashfall-server/src/world/objects.rs: the objects that the server keeps. A struct that derefs to the one inside it has that one as a field.
pub mod Announce
use ashfall.Prelude.{
  ℕ, Bool, true, false, Option, none, some, List, [], ◌∷◌, bit_or, if◌then◌else◌, nat_eq,
}
use ashfall.Prelude.Int.{ℤ, pos}
use ashfall.Map
use ashfall.Map.{Map}
use ashfall.Float.{Float}
use ashfall.StringCache.{Text}
use ashfall.Packet.{Vec3}
use ashfall.World.Kind.{
  ObjectKind, mask, reference, object, item, item_list, container, actor, player,
}

pub record Reference : Type 0 where
  pub id : ℕ
  pub ref_id : ℕ
  pub base_id : ℕ

pub record Object (F : Type 0) : Type 0 where
  pub ref_data : Reference
  pub name : Text
  pub game_pos : Vec3 F
  pub net_pos : Vec3 F
  pub angle : Vec3 F
  pub scale : F
  pub cell : ℕ
  pub enabled : Bool
  pub lock_level : ℕ
  pub owner : ℕ
  pub velocity : Vec3 F
  pub on_ground : Bool

pub record Item (F : Type 0) : Type 0 where
  pub ref_data : Reference
  pub container : ℕ
  pub count : ℕ
  pub condition : F
  pub equipped : Bool
  pub silent : Bool
  pub stick : Bool
  pub scale : F

pub record Container (F : Type 0) : Type 0 where
  pub object : Object F
  pub items : List ℕ

pub record Actor (F : Type 0) : Type 0 where
  pub container : Container F
  pub values : Map ℕ F
  pub base_values : Map ℕ F
  pub race : ℕ
  pub age : ℤ
  pub idle_anim : ℕ
  pub moving_anim : ℕ
  pub moving_xy : ℕ
  pub weapon_anim : ℕ
  pub female : Bool
  pub alerted : Bool
  pub sneaking : Bool
  pub dead : Bool
  pub death_limbs : ℕ
  pub death_cause : ℤ
  pub combat_target : Option ℕ
  pub ai_package : ℕ
  pub ai_flags : ℕ
  pub factions : List (ℕ × ℤ)

pub record Player (F : Type 0) : Type 0 where
  pub actor : Actor F
  pub controls : Map ℕ (ℕ × Bool)
  pub respawn_cell : ℕ
  pub console_enabled : Bool
  pub attached_windows : List ℕ

-- An implementor of the trait `GameObject`, as the registry stores it.
pub data GameObject (F : Type 0) : Type 0 where
  a_reference : Reference → GameObject F
  an_object : Object F → GameObject F
  an_item : Item F → GameObject F
  a_container : Container F → GameObject F
  an_actor : Actor F → GameObject F
  a_player : Player F → GameObject F

module _ {F : Type 0} where
  -- The trait's `id`, each implementor's.
  unfoldable pub id : GameObject F → ℕ
  id (a_reference r) = r.id
  id (an_object o) = o.ref_data.id
  id (an_item i) = i.ref_data.id
  id (a_container c) = c.object.ref_data.id
  id (an_actor a) = a.container.object.ref_data.id
  id (a_player p) = p.actor.container.object.ref_data.id

  unfoldable pub kind : GameObject F → ObjectKind
  kind (a_reference r) = reference
  kind (an_object o) = object
  kind (an_item i) = item
  kind (a_container c) = container
  kind (an_actor a) = actor
  kind (a_player p) = player

  unfoldable pub kind_mask : GameObject F → ℕ
  unfolding mask
  kind_mask (a_reference r) = mask reference
  kind_mask (an_object o) = mask object
  kind_mask (an_item i) = bit_or (mask object) (mask item)
  kind_mask (a_container c) = bit_or (bit_or (mask object) (mask item_list)) (mask container)
  kind_mask (an_actor a) =
      bit_or (bit_or (bit_or (mask object) (mask item_list)) (mask container)) (mask actor)
  kind_mask (a_player p) =
      bit_or (bit_or (bit_or (bit_or (mask object) (mask item_list)) (mask container)) (mask actor))
        (mask player)

module _ {F : Type 0} (f : Float F) where
  abbrev pub origin : Vec3 F
  origin = (f.zero, f.zero, f.zero)

  unfoldable pub new_object : ℕ → ℕ → ℕ → ℕ → Object F
  new_object net_id ref_id base_id cell = record {
    ref_data = record { id = net_id; ref_id = ref_id; base_id = base_id };
    name = [];
    game_pos = origin;
    net_pos = origin;
    angle = origin;
    scale = f.one;
    cell = cell;
    enabled = true;
    lock_level = 0;
    owner = 0;
    velocity = origin;
    on_ground = true;
  }

  unfoldable pub new_item : ℕ → ℕ → ℕ → ℕ → Item F
  new_item net_id ref_id base_id holder = record {
    ref_data = record { id = net_id; ref_id = ref_id; base_id = base_id };
    container = holder;
    count = 1;
    condition = f.one;
    equipped = false;
    silent = false;
    stick = false;
    scale = f.one;
  }

  unfoldable pub new_container : ℕ → ℕ → ℕ → ℕ → Container F
  unfolding new_object
  new_container net_id ref_id base_id cell = record {
    object = new_object net_id ref_id base_id cell;
    items = [];
  }

  unfoldable pub new_actor : ℕ → ℕ → ℕ → ℕ → Actor F
  unfolding new_container
  new_actor net_id ref_id base_id cell = record {
    container = new_container net_id ref_id base_id cell;
    values = Map.empty;
    base_values = Map.empty;
    race = 0;
    age = pos 0;
    idle_anim = 0;
    moving_anim = 0;
    moving_xy = 0;
    weapon_anim = 0;
    female = false;
    alerted = false;
    sneaking = false;
    dead = false;
    death_limbs = 0;
    death_cause = pos 0;
    combat_target = none;
    ai_package = 0;
    ai_flags = 0;
    factions = [];
  }

  unfoldable pub new_player : ℕ → ℕ → ℕ → ℕ → Player F
  unfolding new_actor
  new_player net_id ref_id base_id cell = record {
    actor = new_actor net_id ref_id base_id cell;
    controls = Map.empty;
    respawn_cell = cell;
    console_enabled = false;
    attached_windows = [];
  }

  abbrev or_zero : Option F → F
  or_zero none = f.zero
  or_zero (some v) = v

  unfoldable pub get_value : Actor F → ℕ → F
  get_value a index = or_zero (Map.lookup a.values index)

module _ {F : Type 0} where
  unfoldable pub set_value : Actor F → ℕ → F → Bool → Actor F
  set_value a index value is_base =
      if is_base
      then record a { base_values = Map.insert a.base_values index value }
      else record a { values = Map.insert a.values index value }
