-- ===== src/Examples/Handlers.antt =====
-- Runs of the packet handlers. Numbers stand for floats.
use ashfall.Prelude.{
  ℕ, ◌≡◌, ◌≤◌, ◌&&◌, refl, inr, true, false, none, some, List, [], ◌∷◌, ◌==◌, nat_eq, if◌then◌else◌,
}
use ashfall.Map
use ashfall.Map.{is_some}
use ashfall.Examples.Numbers.{numbers}
use ashfall.Session
use ashfall.Session.{Session}
use ashfall.StringCache.{Text}
use ashfall.Packet.{Vec3, ownership_granted}
use ashfall.AntiCheat.{validate_item_count}
use ashfall.World.Objects
use ashfall.World.Objects.{
  Actor, Item, GameObject, an_actor, an_item, a_player, new_actor, new_item, new_player, new_object,
  new_container,
}
use ashfall.World.Objects.Announce.{actor_packet}
use ashfall.World.Registry
use ashfall.World.Registry.{
  ObjectRegistry, insert, get, owner_of, lookup_ref, get_by_cell, is_deleted,
}
use ashfall.Handlers.Rights.{may_change}
use ashfall.Handlers.Actor.{on_actor, handle_actor_new}
use ashfall.Handlers.Actor.Guard.{
  ActorRequest, fire, target, answer, packet_of, change, map_option, answer_lem,
}
use ashfall.Handlers.Actor.Grant.{
  actor_id, IsRegistered, handle_actor_new-grant, handle_actor_new-again,
}
use ashfall.Handlers.Object
use ashfall.Handlers.Object.Frame.{update_object, pos, update_object-unowned}
use ashfall.Handlers.Item
use ashfall.Handlers.Item.{handle_item_count}
use ashfall.Handlers.Item.Owned.{IsIn, handle_item_count-relayed}

-- Player 9 is in cell 3, holds item 7, and has sent its last packet at time 0.
abbrev session : Session
session = record (Session.new 1 2 (87 ∷ []) 0) { player_id = some 9; current_cell = 3 }

abbrev world : ObjectRegistry ℕ
world =
    (insert (insert Registry.new (a_player (new_player numbers 9 256 7 3))).1
      (an_item (new_item numbers 7 512 8 9))).1

abbrev raider : Actor ℕ
raider = new_actor numbers 50 1024 6 0

raider-granted : is_some (handle_actor_new numbers world session (actor_packet raider)).0 ≡ true
unfolding handle_actor_new actor_packet insert Registry.new Session.new new_player new_item
    new_actor Map.lookup Map.insert Map.empty Objects.id is_deleted lookup_ref owner_of
raider-granted = refl

handle_actor_new-grant_example :
    ((handle_actor_new numbers world session (actor_packet raider)).0
      ≡ some (ownership_granted (actor_id raider)))
    × (((handle_actor_new numbers world session (actor_packet raider)).1.0
          ≡ some (actor_packet raider))
        × IsRegistered
            (handle_actor_new numbers world session (actor_packet raider)).1.1
            session
            raider)
handle_actor_new-grant_example = handle_actor_new-grant numbers world session raider raider-granted

handle_actor_new-again_example :
    handle_actor_new numbers
      (handle_actor_new numbers world session (actor_packet raider)).1.1
      session
      (actor_packet raider)
    ≡ (none, (none, (handle_actor_new numbers world session (actor_packet raider)).1.1))
handle_actor_new-again_example =
    handle_actor_new-again numbers world session session raider raider raider-granted (inr refl)

abbrev request : ActorRequest ℕ
request = fire 9 3

answer_lem_example :
    ((answer world session request).0 ≡ (
      if may_change session.player_id (owner_of world (target request)) (target request)
      then some (packet_of request)
      else none))
    × ((get (answer world session request).1 9 ≡ (
          if may_change session.player_id (owner_of world (target request)) (target request)
            && (target request == 9)
          then map_option (on_actor (change request)) (get world 9)
          else get world 9))
        × (owner_of (answer world session request).1 9 ≡ owner_of world 9))
answer_lem_example = answer_lem world session request 9

abbrev here : Vec3 ℕ
here = (1, 1, 1)

abbrev item : ℕ
item = 7

abbrev carrier : ℕ
carrier = 9

not-owned : may_change session.player_id (owner_of world item) item ≡ false
unfolding may_change owner_of insert Registry.new Session.new Map.lookup Map.insert Map.empty
not-owned = refl

update_object-unowned_example :
    (get (update_object numbers world session (pos 9 here 500000000)).1 item ≡ get world item)
    × (owner_of (update_object numbers world session (pos 9 here 500000000)).1 item
        ≡ owner_of world item)
update_object-unowned_example =
    update_object-unowned numbers world session (pos 9 here 500000000) item not-owned

counted : is_some (handle_item_count world session 7 40 false).0 ≡ true
unfolding handle_item_count Item.owned insert Registry.new Session.new new_player new_item new_actor
    Map.lookup Map.insert Map.empty Objects.id get is_deleted validate_item_count
counted = refl

handle_item_count-relayed_example :
    (owner : ℕ) × ((session.player_id ≡ some owner)
      × ((40 ≤ 65535)
          × ((i : Item ℕ) × ((get world item ≡ some (an_item i))
                × (IsIn world owner i.container
                    × (get (handle_item_count world session item 40 false).1 carrier ≡ (
                        if item == carrier
                        then some (an_item (record i { count = 40 }))
                        else get world carrier)))))))
handle_item_count-relayed_example =
    handle_item_count-relayed world session item carrier 40 false counted

abbrev name : Text
name = 65 ∷ 66 ∷ []

abbrev mods : List (Text × ℕ)
mods = (name, 7) ∷ []
