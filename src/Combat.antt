-- ===== src/Combat.antt =====
-- crates/ashfall-server/src/combat (mod.rs and resolver.rs) and handlers/combat.rs: the damage of a hit,
-- and what a hit that a client reports does to its target.
pub mod Expected
pub mod Hit
use ashfall.Prelude.{
  ℕ, ◌+◌, ◌-◌, ◌/◌, Bool, true, false, not, ◌&&◌, Option, none, some, List, [], ◌∷◌, bit_and,
  bit_or, ltb, ◌==◌, nat_eq, if◌then◌else◌,
}
use ashfall.Prelude.Int.{pos}
use ashfall.Map
use ashfall.Float.{Float}
use ashfall.Session.{Session}
use ashfall.Packet.{Packet, Vec3, actor_hit, actor_damaged, actor_punch, actor_death_ext}
use ashfall.AntiCheat.{distance}
use ashfall.World.Objects.{Actor, GameObject, an_actor, a_player, get_value, set_value}
use ashfall.World.PositionHistory.{PositionHistory, lag_compensated}
use ashfall.World.Registry.{ObjectRegistry, get}
use ashfall.Handlers.Actor.{change_actor, same_id}

abbrev pub hit_flag_critical : ℕ
hit_flag_critical = 0x01

abbrev pub death_flag_dismember : ℕ
death_flag_dismember = 0x04

abbrev pub death_flag_headshot : ℕ
death_flag_headshot = 0x08

abbrev pub health_index : ℕ
health_index = 0x14

-- What is known of an actor's fights. Times are nanoseconds.
pub record CombatState (F : Type 0) : Type 0 where
  pub is_in_combat : Bool
  pub last_attacker : Option ℕ
  pub last_hit_time : Option ℕ
  pub hits_landed : ℕ
  pub damage_dealt : F
  pub damage_taken : F

module _ {F : Type 0} (f : Float F) where
  abbrev max_dr : F
  max_dr = f.literal 85 100

  unfoldable pub calculate : (base_damage limb_mult dr dt crit_mult : F) → F
  calculate base_damage limb_mult dr dt crit_mult =
      let modified = f.mul (f.mul base_damage limb_mult) crit_mult in
      let after_dr = f.mul modified (f.sub f.one (f.clamp dr f.zero max_dr)) in
      f.max (f.sub after_dr dt) f.one

  unfoldable pub limb_multiplier : ℕ → F
  limb_multiplier limb =
      if limb == 0
      then f.one
      else if limb == 1
      then f.literal 2 1
      else if ltb limb 6
      then f.literal 1 2
      else f.one

  sum_from : F → List F → F
  sum_from total [] = total
  sum_from total (x ∷ xs) = sum_from (f.add total x) xs

  unfoldable pub compute_dr : List F → F
  unfolding sum_from
  compute_dr armor_dr = f.clamp (sum_from f.zero armor_dr) f.zero max_dr

  unfoldable pub is_headshot_fatal : F → F → Bool
  is_headshot_fatal damage current_health = f.le current_health damage

  unfoldable pub new_combat_state : CombatState F
  new_combat_state = record {
    is_in_combat = false;
    last_attacker = none;
    last_hit_time = none;
    hits_landed = 0;
    damage_dealt = f.zero;
    damage_taken = f.zero;
  }

  -- `record_hit`, at the time `now`
  unfoldable pub record_hit : CombatState F → (attacker : ℕ) → F → Bool → ℕ → CombatState F
  record_hit s attacker damage true now = record s {
    is_in_combat = true;
    last_hit_time = some now;
    hits_landed = s.hits_landed + 1;
    damage_dealt = f.add s.damage_dealt damage;
  }
  record_hit s attacker damage false now = record s {
    is_in_combat = true;
    last_attacker = some attacker;
    last_hit_time = some now;
    damage_taken = f.add s.damage_taken damage;
  }

  quiet_since : Option ℕ → ℕ → Bool
  quiet_since none now = false
  quiet_since (some t) now = ltb 10 ((now - t) / 1000000000)

  unfoldable pub out_of_combat : CombatState F → ℕ → CombatState F
  unfolding quiet_since
  out_of_combat s now =
      if quiet_since s.last_hit_time now then record s { is_in_combat = false } else s

  unfoldable pub validate_hit_bounds : F → Bool
  validate_hit_bounds base_damage = f.lt f.zero base_damage && f.lt base_damage (f.literal 10000 1)

  unfoldable pub get_actor_dr : Actor F → F
  get_actor_dr a = f.clamp (get_value f a 0x29) f.zero max_dr

  unfoldable pub get_actor_dt : Actor F → F
  get_actor_dt a = f.max (get_value f a 0x2A) f.zero

module _ {F : Type 0} where
  -- The actor that an object is or has.
  unfoldable pub actor_in : Option (GameObject F) → Option (Actor F)
  actor_in (some (an_actor a)) = some a
  actor_in (some (a_player p)) = some p.actor
  actor_in _ = none

  unfoldable pub with_actor : ObjectRegistry F → ℕ → Option (Actor F)
  unfolding actor_in
  with_actor r id = actor_in (get r id)

  is_a_player : Option (GameObject F) → Bool
  is_a_player (some (a_player p)) = true
  is_a_player _ = false

  unfoldable pub is_player : ObjectRegistry F → ℕ → Bool
  unfolding is_a_player
  is_player r id = is_a_player (get r id)

  -- `dead`, with all limbs damaged, killed by a weapon.
  unfoldable pub mark_dead : Actor F → Actor F
  mark_dead a = record a { dead = true; death_limbs = 0x1F; death_cause = pos 1 }

  unfoldable pub or_here : Vec3 F → Option (Vec3 F) → Vec3 F
  or_here p none = p
  or_here p (some q) = q

module _ {F : Type 0} (f : Float F) where
  -- The damage of a hit on an actor, with its armour.
  unfoldable pub final_damage : Actor F → (limb : ℕ) → F → (flags : ℕ) → F
  unfolding calculate
  final_damage target limb base_damage flags =
      calculate f base_damage (limb_multiplier f limb) (get_actor_dr f target)
        (get_actor_dt f target)
        (if bit_and flags hit_flag_critical == 0 then f.one else f.literal 3 2)

  unfoldable pub health_after : Actor F → (limb : ℕ) → F → (flags : ℕ) → F
  health_after target limb base_damage flags =
      f.max (f.sub (get_value f target health_index) (final_damage target limb base_damage flags))
        f.zero

  -- What a hit does, on a target that is in range.
  unfoldable pub strike :
      ObjectRegistry F
      → (target attacker limb : ℕ) → F
      → (flags weapon_id : ℕ) → Actor F
      → Option (List (Packet F)) × ObjectRegistry F
  strike r target attacker limb base_damage flags weapon_id t =
      let damage = final_damage t limb base_damage flags in
      let health = health_after t limb base_damage flags in
      let hurt = change_actor r target (λ a. set_value a health_index health false) in
      let damaged = actor_damaged target attacker limb damage flags in
      if f.le health f.zero
      then (
        some (
            damaged
            ∷ actor_death_ext target attacker weapon_id 0x1F (pos 1)
                (if limb == 1 then bit_or death_flag_headshot death_flag_dismember else 0)
            ∷ []),
        change_actor hurt target mark_dead,
      )
      else (some (damaged ∷ []), hurt)

  unfoldable pub in_range : Actor F → Actor F → Option (Vec3 F) → Bool
  in_range target attacker compensated = not (
      f.lt (f.literal 5000 1) (
        distance f target.container.object.net_pos
          (or_here attacker.container.object.net_pos compensated)))

  -- A hit whose target and attacker were looked up.
  unfoldable pub resolve_found :
      ObjectRegistry F
      → (target attacker limb : ℕ) → F
      → (flags weapon_id : ℕ) → Option (Vec3 F)
      → Option (Actor F)
      → Option (Actor F)
      → Option (List (Packet F)) × ObjectRegistry F
  resolve_found r target attacker limb base_damage flags weapon_id compensated (some t) (some a) =
      if t.dead
      then (none, r)
      else if in_range t a compensated
      then strike r target attacker limb base_damage flags weapon_id t
      else (none, r)
  resolve_found r target attacker limb base_damage flags weapon_id compensated _ _ = (none, r)

  -- The packets for everyone, if the hit counts, and the registry.
  unfoldable pub resolve_hit_compensated :
      ObjectRegistry F
      → Packet F
      → PositionHistory F
      → (now : ℕ) → Option (List (Packet F)) × ObjectRegistry F
  resolve_hit_compensated r (actor_hit target attacker limb base_damage flags weapon_id projectile)
        history now =
      resolve_found r target attacker limb base_damage flags weapon_id
        (lag_compensated history attacker now) (with_actor r target) (with_actor r attacker)
  resolve_hit_compensated r _ history now = (none, r)

  -- `PositionHistory::new()`
  abbrev no_history : PositionHistory F
  no_history = record { by_id = Map.empty }

  unfoldable pub resolve_hit :
      ObjectRegistry F → Packet F → (now : ℕ) → Option (List (Packet F)) × ObjectRegistry F
  resolve_hit r hit now = resolve_hit_compensated r hit no_history now

  unfoldable pub handle_actor_hit :
      ObjectRegistry F
      → Session
      → Packet F
      → Bool
      → (now : ℕ) → Option (List (Packet F)) × ObjectRegistry F
  handle_actor_hit r session (actor_hit target attacker limb base_damage flags weapon_id projectile)
        pvp_enabled now =
      if not (validate_hit_bounds f base_damage)
      then (none, r)
      else if not (same_id (some attacker) session.player_id)
      then (none, r)
      else if not pvp_enabled && (is_player r target && is_player r attacker)
      then (none, r)
      else resolve_hit r (actor_hit target attacker limb base_damage flags weapon_id projectile) now
  handle_actor_hit r session _ pvp_enabled now = (none, r)

module _ {F : Type 0} where
  unfoldable pub handle_actor_punch : Session → ℕ → Bool → Option (Packet F)
  handle_actor_punch session id power =
      if same_id (some id) session.player_id then some (actor_punch id power) else none

  unfoldable pub handle_projectile_new : Packet F → Option (Packet F)
  handle_projectile_new packet = some packet

  unfoldable pub handle_projectile_remove : Packet F → Option (Packet F)
  handle_projectile_remove packet = some packet

  unfoldable pub handle_explosion_new : Packet F → Option (Packet F)
  handle_explosion_new packet = some packet
