-- ===== src/Handlers/Rights.antt =====
-- crates/ashfall-server/src/handlers (actor.rs and object.rs): whom the tests of a session's player
-- against an object's owner let through.
use ashfall.Prelude.{
  ℕ, ◌≡◌, refl, Bool, true, false, ◌||◌, Option, none, some, arith, ◌==◌, nat_eq, if◌then◌else◌,
}
use ashfall.Session.{Session}
use ashfall.World.Registry.{ObjectRegistry, owner_of}
use ashfall.Handlers.Actor.{same_id, can_mutate}
use ashfall.Handlers.Object.{owned}

-- By player, owner and object: a player may change itself and what it owns; a session without a player
-- may change what has no owner.
unfoldable pub may_change : Option ℕ → Option ℕ → ℕ → Bool
may_change none none id = true
may_change none (some owner) id = false
may_change (some player) none id = player == id
may_change (some player) (some owner) id = player == id || owner == player

tested :
    (p o : Option ℕ) (id : ℕ)
    → (if same_id p (some id) then true else same_id o p) ≡ may_change p o id
unfolding may_change
tested none none id = refl
tested none (some owner) id = refl
tested (some player) none id = ground arith
tested (some player) (some owner) id = ground arith

module _ {F : Type 0} where
  pub can_mutate_eq :
      (r : ObjectRegistry F) (s : Session) (id : ℕ)
      → can_mutate r s id ≡ may_change s.player_id (owner_of r id) id
  unfolding can_mutate
  can_mutate_eq r s id = tested s.player_id (owner_of r id) id

  pub owned_eq :
      (r : ObjectRegistry F) (s : Session) (id : ℕ)
      → owned r s id ≡ may_change s.player_id (owner_of r id) id
  unfolding owned
  owned_eq r s id = tested s.player_id (owner_of r id) id
