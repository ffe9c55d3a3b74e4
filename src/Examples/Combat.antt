-- ===== src/Examples/Combat.antt =====
-- A run of a hit. Numbers stand for floats.
use ashfall.Prelude.{ℕ, some, [], nat_eq}
use ashfall.Examples.Numbers.{numbers}
use ashfall.Map
use ashfall.Session
use ashfall.Session.{Session}
use ashfall.Packet.{Packet, actor_hit}
use ashfall.World.Objects
use ashfall.World.Objects.{an_actor, a_player, new_actor, new_player}
use ashfall.World.Registry
use ashfall.World.Registry.{ObjectRegistry, insert, owner_of}

-- Player 9 hits actor 5.
abbrev session : Session
session = record (Session.new 9 1 [] 0) { player_id = some 9 }

abbrev world : ObjectRegistry ℕ
world =
    (insert (insert Registry.new (a_player (new_player numbers 9 256 7 3))).1
      (an_actor (new_actor numbers 5 1024 6 3))).1

abbrev hit : Packet ℕ
hit = actor_hit 5 9 1 10 0 77 0

abbrev hit_id : ℕ
hit_id = 5

abbrev seen_id : ℕ
seen_id = 5
