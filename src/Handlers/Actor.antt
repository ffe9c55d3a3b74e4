-- ===== src/Handlers/Actor.antt =====
-- crates/ashfall-server/src/handlers/actor.rs: who may change an actor, and the packets that do. A
-- handler returns what is relayed to the other players, if anything, and the registry after it.
pub mod Guard
pub mod Grant
use ashfall.Prelude.{ℕ, Bool, true, false, Option, none, some, List, ◌==◌, nat_eq, if◌then◌else◌}
use ashfall.Prelude.Int.{ℤ}
use ashfall.Map.{Map, is_some}
use ashfall.Float.{Float}
use ashfall.Session.{Session}
use ashfall.Packet.{
  Packet, actor_new, ownership_granted, update_actor_state, actor_state_delta, update_actor_value,
  update_actor_dead, update_fire_weapon, spell_cast,
}
use ashfall.World.Objects.{Actor, GameObject, an_actor, a_player, new_actor, set_value}
use ashfall.World.Registry.{
  ObjectRegistry, insert, get, write, is_deleted, owner_of, set_owner, map_ref, lookup_ref,
  add_to_cell,
}

abbrev pub same_id : Option ℕ → Option ℕ → Bool
same_id none none = true
same_id none (some b) = false
same_id (some a) none = false
same_id (some a) (some b) = a == b

abbrev pub or_keep : {A : Type 0} → A → Option A → A
or_keep a none = a
or_keep a (some b) = b

module _ {F : Type 0} where
  unfoldable pub can_mutate : ObjectRegistry F → Session → ℕ → Bool
  can_mutate r session id =
      if same_id session.player_id (some id)
      then true
      else same_id (owner_of r id) session.player_id

  -- A change of an actor, or of the actor inside a player; other objects stay.
  unfoldable pub on_actor : (Actor F → Actor F) → GameObject F → GameObject F
  on_actor f (an_actor a) = an_actor (f a)
  on_actor f (a_player p) = a_player (record p { actor = f p.actor })
  on_actor f o = o

  change_found :
      ObjectRegistry F → ℕ → (Actor F → Actor F) → Option (GameObject F) → ObjectRegistry F
  unfolding on_actor
  change_found r id f (some o) = write r id (on_actor f o)
  change_found r id f none = r

  unfoldable pub change_actor : ObjectRegistry F → ℕ → (Actor F → Actor F) → ObjectRegistry F
  unfolding change_found
  change_actor r id f = change_found r id f (get r id)

  unfoldable pub set_state :
      (idle moving moving_xy weapon : ℕ) (alerted sneaking : Bool) → Actor F → Actor F
  set_state idle moving moving_xy weapon alerted sneaking a = record a {
    idle_anim = idle;
    moving_anim = moving;
    moving_xy = moving_xy;
    weapon_anim = weapon;
    alerted = alerted;
    sneaking = sneaking;
  }

  unfoldable pub handle_actor_state :
      ObjectRegistry F
      → Session
      → (id idle moving moving_xy weapon : ℕ) (alerted sneaking firing : Bool)
      → Option (Packet F) × ObjectRegistry F
  handle_actor_state r session id idle moving moving_xy weapon alerted sneaking firing =
      if can_mutate r session id
      then (
        some (update_actor_state id idle moving moving_xy weapon alerted sneaking firing),
        change_actor r id (set_state idle moving moving_xy weapon alerted sneaking),
      )
      else (none, r)

  -- Only the fields that are present are applied.
  unfoldable pub apply_delta :
      (idle moving moving_xy weapon : Option ℕ) (alerted sneaking : Option Bool) → Actor F → Actor F
  apply_delta idle moving moving_xy weapon alerted sneaking a = record a {
    idle_anim = or_keep a.idle_anim idle;
    moving_anim = or_keep a.moving_anim moving;
    moving_xy = or_keep a.moving_xy moving_xy;
    weapon_anim = or_keep a.weapon_anim weapon;
    alerted = or_keep a.alerted alerted;
    sneaking = or_keep a.sneaking sneaking;
  }

  unfoldable pub handle_actor_state_delta :
      ObjectRegistry F
      → Session
      → (id : ℕ) (idle moving moving_xy weapon : Option ℕ) (alerted sneaking firing : Option Bool)
      → Option (Packet F) × ObjectRegistry F
  handle_actor_state_delta r session id idle moving moving_xy weapon alerted sneaking firing =
      if can_mutate r session id
      then (
        some (actor_state_delta id idle moving moving_xy weapon alerted sneaking firing),
        change_actor r id (apply_delta idle moving moving_xy weapon alerted sneaking),
      )
      else (none, r)

  unfoldable pub handle_actor_value :
      ObjectRegistry F
      → Session
      → (id : ℕ) (is_base : Bool) (index : ℕ) (value : F) → Option (Packet F) × ObjectRegistry F
  handle_actor_value r session id is_base index value =
      if can_mutate r session id
      then (
        some (update_actor_value id is_base index value),
        change_actor r id (λ a. set_value a index value is_base),
      )
      else (none, r)

  unfoldable pub set_dead : Bool → ℕ → ℤ → Actor F → Actor F
  set_dead dead limbs cause a = record a { dead = dead; death_limbs = limbs; death_cause = cause }

  unfoldable pub handle_actor_dead :
      ObjectRegistry F
      → Session
      → (id : ℕ) (dead : Bool) (limbs : ℕ) (cause : ℤ) → Option (Packet F) × ObjectRegistry F
  handle_actor_dead r session id dead limbs cause =
      if can_mutate r session id
      then (
        some (update_actor_dead id dead limbs cause),
        change_actor r id (set_dead dead limbs cause),
      )
      else (none, r)

  unfoldable pub handle_fire_weapon :
      ObjectRegistry F → Session → (id weapon : ℕ) → Option (Packet F)
  handle_fire_weapon r session id weapon =
      if can_mutate r session id then some (update_fire_weapon id weapon) else none

  unfoldable pub handle_spell_cast :
      ObjectRegistry F
      → Session
      → (id spell : ℕ) (source : ℤ) (dual : Bool) (target : ℕ) → Option (Packet F)
  handle_spell_cast r session id spell source dual target =
      if can_mutate r session id then some (spell_cast id spell source dual target) else none

  claim_by : ObjectRegistry F → ℕ → Option ℕ → Option (Packet F) × ObjectRegistry F
  claim_by r id none = (none, r)
  claim_by r id (some player_id) = elim (get r id) [
    | none ↦ (none, r)
    | some o ↦
        let (granted, r') = set_owner r id player_id in
        (if granted then some (ownership_granted id) else none, r')
  ]

  unfoldable pub handle_ownership_claim :
      ObjectRegistry F → Session → ℕ → Option (Packet F) × ObjectRegistry F
  unfolding claim_by
  handle_ownership_claim r session id = claim_by r id session.player_id

-- Whether a reference is already that of another object.
abbrev pub taken_by_other : Option ℕ → ℕ → Bool
taken_by_other none id = false
taken_by_other (some existing) id = if existing == id then false else true

module _ {F : Type 0} (f : Float F) where
  -- The actor that a packet describes, in the cell of the player who reports it.
  actor_of : ℕ → Packet F → Option (Actor F)
  actor_of cell
        (actor_new id ref_id base_id values base_values race age idle moving moving_xy weapon female
          alerted sneaking dead death_limbs death_cause scale) =
      let a = new_actor f id ref_id base_id 0 in
      some (record a {
        container = record a.container {
          object = record a.container.object { scale = scale; cell = cell };
        };
        values = values;
        base_values = base_values;
        race = race;
        age = age;
        idle_anim = idle;
        moving_anim = moving;
        moving_xy = moving_xy;
        weapon_anim = weapon;
        female = female;
        alerted = alerted;
        sneaking = sneaking;
        dead = dead;
        death_limbs = death_limbs;
        death_cause = death_cause;
      })
  actor_of cell _ = none

  pub register_actor :
      ObjectRegistry F → (id ref_id cell player_id : ℕ) → Actor F → ObjectRegistry F
  register_actor r id ref_id cell player_id a =
      add_to_cell (insert (map_ref (set_owner r id player_id).1 ref_id id) (an_actor a)).1 cell id

  pub admit :
      ObjectRegistry F
      → (id ref_id cell : ℕ) → Option ℕ
      → Packet F
      → Option (Actor F)
      → Option (Packet F) × (Option (Packet F) × ObjectRegistry F)
  unfolding register_actor
  admit r id ref_id cell (some player_id) packet (some a) =
      (some (ownership_granted id), (some packet, register_actor r id ref_id cell player_id a))
  admit r id ref_id cell _ packet _ = (none, (none, r))

  -- What is answered, what is relayed, and the registry.
  unfoldable pub handle_actor_new :
      ObjectRegistry F
      → Session
      → Packet F
      → Option (Packet F) × (Option (Packet F) × ObjectRegistry F)
  unfolding actor_of admit
  handle_actor_new r session
        (actor_new id ref_id base_id values base_values race age idle moving moving_xy weapon female
          alerted sneaking dead death_limbs death_cause scale) =
      let packet =
        actor_new id ref_id base_id values base_values race age idle moving moving_xy weapon female
          alerted sneaking dead death_limbs death_cause scale in
      if is_deleted r id
      then (none, (none, r))
      else if taken_by_other (lookup_ref r ref_id) id
      then (none, (none, r))
      else if is_some (owner_of r id)
      then (none, (none, r))
      else admit r id ref_id session.current_cell session.player_id packet
          (actor_of session.current_cell packet)
  handle_actor_new r session _ = (none, (none, r))
