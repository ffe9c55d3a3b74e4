-- ===== src/Examples/Mirror.antt =====
-- A run of a packet on an actor, on the server and on a client.
use ashfall.Prelude.{ℕ, ◌≡◌, refl, true, false, some, [], nat_eq}
use ashfall.Prelude.Int.{pos}
use ashfall.Examples.Numbers.{numbers}
use ashfall.Map
use ashfall.Session
use ashfall.Session.{Session}
use ashfall.StringCache.{Text}
use ashfall.Packet.{update_actor_dead}
use ashfall.World.Objects
use ashfall.World.Objects.{Actor, new_actor, new_player}
use ashfall.World.Registry
use ashfall.World.Registry.{ObjectRegistry, insert, get, set_owner, owner_of, is_deleted}
use ashfall.Handlers.Actor.{can_mutate, handle_actor_dead}
use ashfall.Handlers.Actor.Guard.{ActorRequest, dead, target, answer}
use ashfall.ClientWorld
use ashfall.ClientWorld.{ClientRegistry, ActorView, an_actor, apply_packet}
use ashfall.ClientWorld.Mirror.{Mirrors, Mirrors-answer}

-- Player 9 owns actor 5.
abbrev session : Session
session = record (Session.new 9 1 [] 0) { player_id = some 9 }

abbrev raider : Actor ℕ
raider = new_actor numbers 5 1024 6 0

abbrev world : ObjectRegistry ℕ
world = (set_owner (insert Registry.new (Objects.an_actor raider)).1 5 9).1

abbrev request : ActorRequest ℕ
request = dead 5 true 3 (pos 1)

abbrev view : ActorView ℕ
view = record {
  ref_id = 1024;
  pos = (0, 0, 0);
  angle = (0, 0, 0);
  dead = false;
  health = 100;
  alerted = false;
  sneaking = false;
  moving = 0;
  weapon = 0;
}

abbrev client : ClientRegistry ℕ
client = record (ClientWorld.new) { objects = Map.insert Map.empty 5 (an_actor view) }

abbrev name_of : ℕ → Text
name_of id = []

relayed : (answer world session request).0 ≡ some (update_actor_dead 5 true 3 (pos 1))
unfolding answer handle_actor_dead can_mutate owner_of set_owner insert Registry.new Map.lookup
    Map.insert Map.empty
relayed = refl

raider_there : get world (target request) ≡ some (Objects.an_actor raider)
unfolding get is_deleted target set_owner insert Registry.new new_actor Objects.id Map.lookup
    Map.insert Map.empty
raider_there = refl

view_there : Map.lookup client.objects (target request) ≡ some (an_actor view)
unfolding target Map.lookup Map.insert Map.empty
view_there = refl

view-Mirrors : Mirrors numbers raider view
unfolding new_actor Map.lookup Map.empty
view-Mirrors = record {
  dead = refl;
  alerted = refl;
  sneaking = refl;
  moving = refl;
  weapon = refl;
  health = refl;
}

Mirrors-answer_example :
    (b : Actor ℕ) × ((w : ActorView ℕ) × ((get (answer world session request).1 (target request)
          ≡ some (Objects.an_actor b))
        × ((Map.lookup
                (apply_packet numbers name_of client 0 (update_actor_dead 5 true 3 (pos 1))).objects
                (target request)
              ≡ some (an_actor w))
            × Mirrors numbers b w)))
Mirrors-answer_example =
    Mirrors-answer numbers name_of 0 world session request (update_actor_dead 5 true 3 (pos 1))
      client raider view relayed tt raider_there view_there view-Mirrors
