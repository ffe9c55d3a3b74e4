-- ===== src/Handlers/Object/Position.antt =====
-- Moving through crates/ashfall-server/src/handlers/object.rs: what an accepted move satisfies.
use ashfall.Prelude.{ℕ, ◌≡◌, refl, Option, none, some, nat_eq, nat_beq_iff}
use ashfall.Float.{Float}
use ashfall.Session.{Session}
use ashfall.Packet.{Vec3}
use ashfall.World.Objects.{
  Object, GameObject, a_reference, an_object, an_item, a_container, an_actor, a_player,
}
use ashfall.World.Registry.{ObjectRegistry, get}
use ashfall.Handlers.Actor.Guard.{get-write}
use ashfall.Handlers.Object.{net_pos_of, read_found, on_object, change_found}

module _ {F : Type 0} (f : Float F) where
  net_pos_of-moved :
      (o : GameObject F) (p prev : Vec3 F)
      → net_pos_of o ≡ some prev
      → net_pos_of (on_object (λ (x : Object F). record x { net_pos = p; game_pos = p }) o) ≡ some p
  unfolding net_pos_of on_object
  net_pos_of-moved (a_reference x) p prev h = cc
  net_pos_of-moved (an_object x) p prev h = refl
  net_pos_of-moved (an_item x) p prev h = cc
  net_pos_of-moved (a_container x) p prev h = cc
  net_pos_of-moved (an_actor x) p prev h = refl
  net_pos_of-moved (a_player x) p prev h = refl

  moved :
      (r : ObjectRegistry F) (id : ℕ) (p prev : Vec3 F) (o : Option (GameObject F))
      → get r id ≡ o
      → read_found o ≡ some prev
      → read_found
          (get (change_found r id (λ (x : Object F). record x { net_pos = p; game_pos = p }) o) id)
        ≡ some p
  unfolding read_found change_found
  moved r id p prev none e h = cc
  moved r id p prev (some o) e h =
      rw
        (
          get-write r id id (on_object (λ (x : Object F). record x { net_pos = p; game_pos = p }) o)
              o e,
          (nat_beq_iff id id).1 refl,
        )
        (net_pos_of-moved o p prev h)
