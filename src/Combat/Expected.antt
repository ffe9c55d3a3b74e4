-- ===== src/Combat/Expected.antt =====
-- crates/ashfall-server/src/combat: what a hit is to do, as numbers and reports. An actor's value 0x14 is
-- its health, 0x29 what its armour takes off in parts of one, and 0x2A what it takes off in points.
use ashfall.Prelude.{
  ℕ, ◌≡◌, ◌⊎◌, Bool, true, false, Option, none, some, List, [], ◌∷◌, bit_and, ltb, ◌==◌, nat_eq,
  if◌then◌else◌,
}
use ashfall.Prelude.Int.{pos}
use ashfall.Map
use ashfall.Float.{Float}
use ashfall.Packet.{Packet, actor_damaged, actor_death_ext}
use ashfall.World.Objects.{Actor, Player, GameObject, an_actor, a_player, get_value}
use ashfall.World.Registry.{ObjectRegistry, get, owner_of}
use ashfall.Handlers.Actor.{on_actor}
use ashfall.Handlers.Actor.Guard.{map_option}

module _ {F : Type 0} where
  -- An object is an actor, or a player who is that actor.
  abbrev pub IsActor : Option (GameObject F) → Actor F → Type 0
  IsActor o a =
      (o ≡ some (an_actor a)) ⊎ ((p : Player F) × ((o ≡ some (a_player p)) × (p.actor ≡ a)))

  unfoldable pub player_there : Option (GameObject F) → Bool
  player_there none = false
  player_there (some (a_player p)) = true
  player_there (some _) = false

module _ {F : Type 0} (f : Float F) where
  -- A head takes twice the damage, an arm or a leg half of it.
  abbrev pub limb_factor : ℕ → F
  limb_factor limb =
      if limb == 0
      then f.one
      else if limb == 1
      then f.literal 2 1
      else if ltb limb 6
      then f.literal 1 2
      else f.one

  abbrev pub limited : F → F
  limited x = f.clamp x f.zero (f.literal 85 100)

  -- At least one point: the base damage for the limb, half as much again for a critical hit (flag 1),
  -- less the armour's part (85 in 100 at most) and then its points.
  abbrev pub expected_damage : Actor F → (limb : ℕ) → F → (flags : ℕ) → F
  expected_damage t limb base flags =
      f.max
        (f.sub
          (f.mul
            (f.mul (f.mul base (limb_factor limb))
              (if bit_and flags 1 == 0 then f.one else f.literal 3 2))
            (f.sub f.one (limited (limited (get_value f t 0x29)))))
          (f.max (get_value f t 0x2A) f.zero))
        f.one

  abbrev pub expected_health : Actor F → (limb : ℕ) → F → (flags : ℕ) → F
  expected_health t limb base flags =
      f.max (f.sub (get_value f t 0x14) (expected_damage t limb base flags)) f.zero

  abbrev pub hurt : F → Actor F → Actor F
  hurt health a = record a { values = Map.insert a.values 0x14 health }

  -- Dead of a weapon, every limb damaged.
  abbrev pub killed : Actor F → Actor F
  killed a = record a { dead = true; death_limbs = 0x1F; death_cause = pos 1 }

  -- What becomes of the target `t`.
  abbrev pub struck : Actor F → (limb : ℕ) → F → (flags : ℕ) → Actor F → Actor F
  struck t limb base flags =
      if f.le (expected_health t limb base flags) f.zero
      then (λ a. killed (hurt (expected_health t limb base flags) a))
      else (λ a. hurt (expected_health t limb base flags) a)

  -- What everyone is told: the damage, and a death that follows, with its flags for a head (4 and 8).
  abbrev pub reports :
      Actor F → (target attacker limb : ℕ) → F → (flags weapon : ℕ) → List (Packet F)
  reports t target attacker limb base flags weapon =
      actor_damaged target attacker limb (expected_damage t limb base flags) flags
      ∷ (if f.le (expected_health t limb base flags) f.zero
          then actor_death_ext target attacker weapon 0x1F (pos 1) (if limb == 1 then 12 else 0)
            ∷ []
          else [])

  -- What comes out of an accepted hit: the reports, the object `j` (changed if it is the target), and its
  -- owner.
  abbrev pub Strikes :
      ObjectRegistry F
      → Actor F
      → (target attacker limb : ℕ) → F
      → (flags weapon j : ℕ) → Option (List (Packet F)) × ObjectRegistry F
      → Type 0
  Strikes r t target attacker limb base flags weapon j out =
      (out.0 ≡ some (reports t target attacker limb base flags weapon))
      × ((get out.1 j ≡ (
            if target == j
            then map_option (on_actor (struck t limb base flags)) (get r j)
            else get r j))
          × (owner_of out.1 j ≡ owner_of r j))
